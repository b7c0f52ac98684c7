-- ===== src/TcpConnection/Registration.antt =====
-- sevent/net/TcpConnection.cpp: waiting bytes and the write event, and when the socket is shut down.
use sevent.Base.{
  ◌⊎◌, ℕ, ◌-◌, ◌≤◌, ◌≡◌, subst, Bool, true, false, not, Option, some, List, [], ◌∷◌, arith, ok,
  ok-injective, ◌>>=◌,
}
use sevent.Buffer.{Buffer, readable_bytes, write_fd}
use sevent.Buffer.Contents.{IsValid}
use sevent.Buffer.Reading.{readable-retrieve}
use sevent.TcpConnection.{
  Conn, disconnected, same_state, WriteAnswer, wrote, failed, Effect, handle_close, handle_error,
  shutdown_in_loop, force_close_in_loop, enable_read_in_loop, disable_read_in_loop,
  enable_write_in_loop, update,
}
use sevent.TcpConnection.Sending.{
  send_in_loop, send_in_loop_buf, forget_rest, send_output_buf_in_loop, handle_write, try_write,
}
use sevent.TcpConnection.Handling.{handle_read}
use sevent.TcpConnection.Outcomes.{IsGood}
use sevent.TcpConnection.Stream.{is_broken}
use sevent.TcpConnection.Runs.{Answered}
use sevent.TcpConnection.Steps.{Call, Answers, step}

-- While the connection lives, waiting bytes have their write event.
abbrev pub IsRegistered : Conn → Type 0
IsRegistered c =
    (same_state c.state disconnected ≡ true)
    ⊎ ((readable_bytes c.output_buf ≡ 0) ⊎ (c.events.write ≡ true))

-- All calls but two: `disableWrite`, which the user asks for, and a write of `outputBuf` that finds the
-- connection broken, after which its bytes stay there without a write event.
abbrev pub is_regular : Call → Bool
is_regular Call.disables_write = false
is_regular (Call.sends_output answer) = not (is_broken answer)
is_regular _ = true

abbrev pub shuts : List Effect → Bool
shuts [] = false
shuts (Effect.shutdown_write ∷ es) = true
shuts (_ ∷ es) = shuts es

-- What a call owes to the waiting bytes.
abbrev pub Guards : Conn → List Effect → Type 0
Guards c' es = IsRegistered c' × ((shuts es ≡ false) ⊎ (readable_bytes c'.output_buf ≡ 0))

readable-write_fd :
    (c : Conn) (n : ℕ)
    → IsValid c.output_buf
    → n ≤ readable_bytes c.output_buf
    → readable_bytes (write_fd c.output_buf (some n)).1 ≡ readable_bytes c.output_buf - n
unfolding write_fd
readable-write_fd c n v h = ground (arith, readable-retrieve n v h)

send-Guards :
    (c c' : Conn) (es : List Effect) (xs : List ℕ) (answer : WriteAnswer)
    → IsRegistered c
    → send_in_loop c xs answer ≡ ok (c', es)
    → Guards c' es
unfolding send_in_loop try_write update
send-Guards c c' es xs answer r h = ground arith

send_buf-Guards :
    (c c' : Conn) (es : List Effect) (buf : Buffer) (answer : WriteAnswer)
    → IsRegistered c
    → (send_in_loop_buf c buf answer >>= forget_rest) ≡ ok (c', es)
    → Guards c' es
unfolding send_in_loop_buf try_write update
send_buf-Guards c c' es buf answer r h = ground arith

read-Guards :
    (c c' : Conn) (es : List Effect) (answer : Option (List ℕ))
    → IsRegistered c
    → handle_read c answer ≡ ok (c', es)
    → Guards c' es
unfolding handle_read handle_close handle_error
read-Guards c c' es answer r h = ground arith

write-Guards :
    (c : Conn) (answer : WriteAnswer)
    → IsGood c
    → Answers (readable_bytes c.output_buf) answer
    → IsRegistered c
    → Guards (handle_write c answer).0 (handle_write c answer).1
unfolding handle_write handle_close
write-Guards c (wrote n) g h r = ground (arith, readable-write_fd c n g.out_valid h)
write-Guards c (failed e) g h r = ground arith

output-Guards :
    (c : Conn) (answer : WriteAnswer)
    → IsGood c
    → Answers (readable_bytes c.output_buf) answer
    → is_broken answer ≡ false
    → IsRegistered c
    → Guards (send_output_buf_in_loop c answer).0 (send_output_buf_in_loop c answer).1
unfolding send_output_buf_in_loop
output-Guards c (wrote n) g h b r = ground (arith, readable-write_fd c n g.out_valid h)
output-Guards c (failed e) g h b r = ground arith

close-Guards : (c : Conn) → IsRegistered c → Guards (handle_close c).0 (handle_close c).1
unfolding handle_close
close-Guards c r = ground arith

error-Guards : (c : Conn) → IsRegistered c → Guards (handle_error c).0 (handle_error c).1
unfolding handle_error
error-Guards c r = ground arith

shutdown-Guards : (c : Conn) → IsRegistered c → Guards (shutdown_in_loop c).0 (shutdown_in_loop c).1
unfolding shutdown_in_loop
shutdown-Guards c r = ground arith

force_close-Guards :
    (c : Conn) → IsRegistered c → Guards (force_close_in_loop c).0 (force_close_in_loop c).1
unfolding force_close_in_loop
force_close-Guards c r = ground arith

enable_read-Guards :
    (c : Conn) → IsRegistered c → Guards (enable_read_in_loop c).0 (enable_read_in_loop c).1
unfolding enable_read_in_loop
enable_read-Guards c r = ground arith

disable_read-Guards :
    (c : Conn) → IsRegistered c → Guards (disable_read_in_loop c).0 (disable_read_in_loop c).1
unfolding disable_read_in_loop
disable_read-Guards c r = ground arith

enable_write-Guards :
    (c : Conn) → IsRegistered c → Guards (enable_write_in_loop c).0 (enable_write_in_loop c).1
unfolding enable_write_in_loop
enable_write-Guards c r = ground arith

guard_result :
    {c' : Conn} {es : List Effect} (r : Conn × List Effect)
    → Guards r.0 r.1
    → ok r ≡ ok (c', es)
    → Guards c' es
guard_result r k h = subst (λ (t : Conn × List Effect). Guards t.0 t.1) (ok-injective h) k

-- Every call but disableWrite and a sendOutputBuf whose write fails with EPIPE or ECONNRESET, on a
-- connection with sound buffers that is disconnected or whose waiting bytes have their write event,
-- leaves it so; and if the call shuts the socket down for writing, then no byte waits any more.
pub step-Guards :
    {c c' : Conn} {es : List Effect} (a : Call)
    → IsGood c
    → Answered c a
    → is_regular a ≡ true
    → IsRegistered c
    → step c a ≡ ok (c', es)
    → Guards c' es
unfolding step
step-Guards {c} Call.closes g k b r h = guard_result (handle_close c) (close-Guards c r) h
step-Guards {c} Call.errs g k b r h = guard_result (handle_error c) (error-Guards c r) h
step-Guards {c} Call.shuts_down g k b r h =
    guard_result (shutdown_in_loop c) (shutdown-Guards c r) h
step-Guards {c} Call.force_closes g k b r h =
    guard_result (force_close_in_loop c) (force_close-Guards c r) h
step-Guards {c} Call.enables_read g k b r h =
    guard_result (enable_read_in_loop c) (enable_read-Guards c r) h
step-Guards {c} Call.disables_read g k b r h =
    guard_result (disable_read_in_loop c) (disable_read-Guards c r) h
step-Guards {c} Call.enables_write g k b r h =
    guard_result (enable_write_in_loop c) (enable_write-Guards c r) h
step-Guards Call.disables_write g k b r h = absurd (ground arith)
step-Guards {c} {c'} {es} (Call.sends xs answer) g k b r h = send-Guards c c' es xs answer r h
step-Guards {c} {c'} {es} (Call.sends_buf buf answer) g k b r h =
    send_buf-Guards c c' es buf answer r h
step-Guards {c} (Call.sends_output answer) g k b r h =
    guard_result (send_output_buf_in_loop c answer)
      (output-Guards c answer g k (ground (arith, b)) r) h
step-Guards {c} (Call.writes answer) g k b r h =
    guard_result (handle_write c answer) (write-Guards c answer g k r) h
step-Guards {c} {c'} {es} (Call.reads answer) g k b r h = read-Guards c c' es answer r h
