-- ===== src/TcpConnection/Steps.antt =====
-- sevent/net/TcpConnection.cpp: what can happen to an established connection in its loop, one call at
-- a time, with the answers of the kernel.
use sevent.Base.{ℕ, ◌≤◌, List, [], ◌∷◌, ◌++◌, Option, Result, ok, ◌>>=◌}
use sevent.Buffer.{Buffer}
use sevent.TcpConnection.{
  Conn, WriteAnswer, wrote, failed, Effect, handle_close, handle_error, shutdown_in_loop,
  force_close_in_loop, enable_read_in_loop, disable_read_in_loop, enable_write_in_loop,
  disable_write_in_loop,
}
use sevent.TcpConnection.Sending.{
  send_in_loop, send_in_loop_buf, forget_rest, send_output_buf_in_loop, handle_write,
}
use sevent.TcpConnection.Handling.{handle_read}

pub data Call : Type 0 where
  closes errs shuts_down force_closes : Call
  enables_read disables_read enables_write disables_write : Call
  sends : List ℕ → WriteAnswer → Call
  sends_buf : Buffer → WriteAnswer → Call
  sends_output : WriteAnswer → Call
  writes : WriteAnswer → Call
  reads : Option (List ℕ) → Call

-- After `sendInLoopBuf` the user has the rest of the buffer, which is left out.
unfoldable pub step : Conn → Call → Result (Conn × List Effect)
step c closes = ok (handle_close c)
step c errs = ok (handle_error c)
step c shuts_down = ok (shutdown_in_loop c)
step c force_closes = ok (force_close_in_loop c)
step c enables_read = ok (enable_read_in_loop c)
step c disables_read = ok (disable_read_in_loop c)
step c enables_write = ok (enable_write_in_loop c)
step c disables_write = ok (disable_write_in_loop c)
step c (sends xs answer) = send_in_loop c xs answer
step c (sends_buf buf answer) = send_in_loop_buf c buf answer >>= forget_rest
step c (sends_output answer) = ok (send_output_buf_in_loop c answer)
step c (writes answer) = ok (handle_write c answer)
step c (reads answer) = handle_read c answer

unfoldable pub run : Conn → List Call → Result (Conn × List Effect)
run c [] = ok (c, [])
run c (a ∷ calls) = do (c', es) ← step c a; (c'', fs) ← run c' calls; ok (c'', es ++ fs)

-- The kernel takes no more bytes than it is given.
abbrev pub Answers : ℕ → WriteAnswer → Type 0
Answers len (wrote n) = n ≤ len
Answers len (failed e) = Unit {0}
