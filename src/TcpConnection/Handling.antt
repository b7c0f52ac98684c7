-- ===== src/TcpConnection/Handling.antt =====
-- sevent/net/TcpConnection.cpp, the other handlers and the functions that any thread may call; and
-- the steps that a connection can make in its loop.
use sevent.Base.{
  ℕ, Bool, Option, none, some, List, [], ◌∷◌, ◌++◌, ◌==◌, if◌then◌else◌, Result, ok, ◌>>=◌,
}
use sevent.Buffer.{Buffer, read_fd, read_all_as_string}
use sevent.Channel
use sevent.Channel.{Handler}
use sevent.TcpConnection.{
  Conn, connected, disconnected, same_state, WriteAnswer, Effect, Task, queue_in_loop, add_timer,
  call_on_message, if_handler, is_open, handle_close, handle_error, shutdown_in_loop,
  force_close_in_loop, enable_read_in_loop, disable_read_in_loop, enable_write_in_loop,
  disable_write_in_loop,
}
use sevent.TcpConnection.Sending.{
  send_in_loop, send_in_loop_buf, send_output_buf_in_loop, handle_write,
}

-- `handleRead`: bytes go to the user, a read of 0 closes, an error is looked up. The answer of the
-- kernel is `none` for -1.
unfoldable pub handle_read : Conn → Option (List ℕ) → Result (Conn × List Effect)
handle_read c answer = if same_state c.state disconnected then ok (c, []) else do
  (n, buf) ← read_fd c.input_buf answer
  let c' = record c { input_buf = buf }
  ok (elim n [
    | none ↦ handle_error c'
    | some k ↦ if k == 0 then handle_close c' else (c', if_handler c (call_on_message buf))
  ])

-- One event of the poller calls several handlers, each with its system call's answer.
pub record Answers : Type 0 where
  pub reading : Option (List ℕ)
  pub writing : WriteAnswer

unfoldable pub handle : Answers → Conn → Handler → Result (Conn × List Effect)
handle a c Handler.handle_close = ok (handle_close c)
handle a c Handler.handle_error = ok (handle_error c)
handle a c Handler.handle_read = handle_read c a.reading
handle a c Handler.handle_write = ok (handle_write c a.writing)

unfoldable pub handle_all : Answers → Conn → List Handler → Result (Conn × List Effect)
unfolding handle
handle_all a c [] = ok (c, [])
handle_all a c (h ∷ hs) = do
  (c', es) ← handle a c h
  (c'', fs) ← handle_all a c' hs
  ok (c'', es ++ fs)

unfoldable pub handle_event : Answers → Conn → Channel.Revents → Result (Conn × List Effect)
unfolding handle_all Channel.handle_event
handle_event a c r = handle_all a c (Channel.handle_event r)

-- `send(data)`: in the owner's thread at once, else as a task with a copy of the bytes. `is_owner` is
-- `isInOwnerThread()`.
unfoldable pub send : Bool → Conn → List ℕ → WriteAnswer → Result (Conn × List Effect)
unfolding send_in_loop
send is_owner c xs answer =
    if same_state c.state connected
    then if is_owner
      then send_in_loop c xs answer
      else ok (c, queue_in_loop (Task.send_str xs) ∷ [])
    else ok (c, [])

-- `send(Buffer &)`: another thread's buffer is read out first.
unfoldable pub send_buffer :
    Bool → Conn → Buffer → WriteAnswer → Result (Conn × Buffer × List Effect)
unfolding send_in_loop_buf
send_buffer is_owner c buf answer =
    if same_state c.state connected
    then if is_owner then send_in_loop_buf c buf answer else (do
      (xs, buf') ← read_all_as_string buf
      ok (c, buf', queue_in_loop (Task.send_str xs) ∷ []))
    else ok (c, buf, [])

-- `send(Buffer &&)`: from another thread the bytes move into the task.
unfoldable pub send_moved_buffer :
    Bool → Conn → Buffer → WriteAnswer → Result (Conn × Buffer × List Effect)
unfolding send_in_loop_buf
send_moved_buffer is_owner c buf answer =
    if same_state c.state connected
    then if is_owner
      then send_in_loop_buf c buf answer
      else ok (c, record buf { bytes = [] }, queue_in_loop (Task.send_buf buf) ∷ [])
    else ok (c, buf, [])

unfoldable pub send_output_buf : Bool → Conn → WriteAnswer → Conn × List Effect
unfolding send_output_buf_in_loop
send_output_buf is_owner c answer =
    if same_state c.state connected
    then if is_owner
      then send_output_buf_in_loop c answer
      else (c, queue_in_loop Task.send_output ∷ [])
    else (c, [])

-- `runInLoop`
abbrev run_in_loop : Bool → Conn → Task → (Conn → Conn × List Effect) → Conn × List Effect
run_in_loop is_owner c t f = if is_owner then f c else (c, queue_in_loop t ∷ [])

unfoldable pub shutdown : Bool → Conn → Conn × List Effect
unfolding shutdown_in_loop
shutdown is_owner c =
    if same_state c.state connected
    then run_in_loop is_owner c Task.shut_down shutdown_in_loop
    else (c, [])

unfoldable pub force_close : Bool → Conn → Conn × List Effect
unfolding force_close_in_loop
force_close is_owner c =
    if is_open c then run_in_loop is_owner c Task.force_closing force_close_in_loop else (c, [])

-- `forceClose(delayMs)`
unfoldable pub force_close_later : Conn → ℕ → Conn × List Effect
force_close_later c delay_ms =
    if is_open c then (c, add_timer delay_ms Task.force_closing ∷ []) else (c, [])

unfoldable pub enable_read : Bool → Conn → Conn × List Effect
unfolding enable_read_in_loop
enable_read is_owner c = run_in_loop is_owner c Task.enabling_read enable_read_in_loop

unfoldable pub disable_read : Bool → Conn → Conn × List Effect
unfolding disable_read_in_loop
disable_read is_owner c = run_in_loop is_owner c Task.disabling_read disable_read_in_loop

unfoldable pub enable_write : Bool → Conn → Conn × List Effect
unfolding enable_write_in_loop
enable_write is_owner c = run_in_loop is_owner c Task.enabling_write enable_write_in_loop

unfoldable pub disable_write : Bool → Conn → Conn × List Effect
unfolding disable_write_in_loop
disable_write is_owner c = run_in_loop is_owner c Task.disabling_write disable_write_in_loop
