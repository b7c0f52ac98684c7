-- ===== src/TcpConnection/Lifecycle.antt =====
-- sevent/net/TcpConnection.cpp: how often a connection tells its user and its owner that it is
-- closed, and how often its descriptor is closed.
use sevent.Base.{
  ◌⊎◌, ℕ, ◌+◌, ◌≡◌, subst, ap, Bool, true, false, ◌&&◌, Option, List, ◌++◌, arith, Result, ok,
  ◌>>=◌, if◌then◌else◌, ok-injective,
}
use sevent.Base.Int.{is_neg}
use sevent.TcpConnection.{
  Conn, disconnected, same_state, WriteAnswer, wrote, failed, Effect, handle_close, handle_error,
  shutdown_in_loop, force_close_in_loop, enable_read_in_loop, disable_read_in_loop,
  enable_write_in_loop, disable_write_in_loop, update,
}
use sevent.TcpConnection.Sending.{send_in_loop, send_output_buf_in_loop, handle_write, try_write}
use sevent.TcpConnection.Handling.{handle_read}
pub use sevent.TcpConnection.Calm.{Tally, tally}
use sevent.TcpConnection.Calm.{Calm, send_buf-Calm}
use sevent.TcpConnection.Steps.{Call, step, run}

abbrev pub one_if : Bool → ℕ
one_if b = if b then 1 else 0

-- A connection whose descriptor is closed is disconnected.
abbrev pub IsSound : Conn → Type 0
IsSound c = (is_neg c.fd ≡ false) ⊎ (same_state c.state disconnected ≡ true)

abbrev pub is_closed : Conn → Bool
is_closed c = same_state c.state disconnected

-- What a call does to the tally.
pub record Counts (c c' : Conn) (es : List Effect) : Type 0 where
  pub handler : c'.has_handler ≡ c.has_handler
  pub sound : IsSound c'
  pub on_close :
      (tally es).on_close + one_if (is_closed c && c.has_handler)
      ≡ one_if (is_closed c' && c.has_handler)
  pub unregistered : (tally es).unregistered + one_if (is_closed c) ≡ one_if (is_closed c')
  pub removed : (tally es).removed + one_if (is_closed c) ≡ one_if (is_closed c')
  pub fd_closed : (tally es).fd_closed + one_if (is_neg c.fd) ≡ one_if (is_neg c'.fd)

close-Counts : (c : Conn) → IsSound c → Counts c (handle_close c).0 (handle_close c).1
unfolding handle_close
close-Counts c s = ground arith

force_close-Counts :
    (c : Conn) → IsSound c → Counts c (force_close_in_loop c).0 (force_close_in_loop c).1
unfolding force_close_in_loop
force_close-Counts c s = ground arith

-- A call that leaves the state, the descriptor and the handler, and does nothing that is counted.
Calm-Counts : {c c' : Conn} {es : List Effect} → IsSound c → Calm c c' es → Counts c c' es
Calm-Counts {c} {c'} {es} s k =
    let negative : is_neg c'.fd ≡ is_neg c.fd = ap is_neg k.fd in
    record {
      handler = k.handler;
      sound = ground (arith, s, negative, k.state);
      on_close = ground (arith, k.on_close, k.state);
      unregistered = ground (arith, k.unregistered, k.state);
      removed = ground (arith, k.removed, k.state);
      fd_closed = ground (arith, k.fd_closed, negative);
    }

send-Counts :
    (c c' : Conn) (es : List Effect) (xs : List ℕ) (answer : WriteAnswer)
    → IsSound c
    → send_in_loop c xs answer ≡ ok (c', es)
    → Counts c c' es
unfolding send_in_loop try_write update
send-Counts c c' es xs answer s h = ground arith

error-Counts : (c : Conn) → IsSound c → Counts c (handle_error c).0 (handle_error c).1
unfolding handle_error
error-Counts c s = ground arith

shutdown-Counts : (c : Conn) → IsSound c → Counts c (shutdown_in_loop c).0 (shutdown_in_loop c).1
unfolding shutdown_in_loop
shutdown-Counts c s = ground arith

write-Counts :
    (c : Conn) (answer : WriteAnswer)
    → IsSound c
    → Counts c (handle_write c answer).0 (handle_write c answer).1
unfolding handle_write
write-Counts c (wrote n) s = ground arith
write-Counts c (failed e) s = ground (arith, close-Counts c s)

output-Counts :
    (c : Conn) (answer : WriteAnswer)
    → IsSound c
    → Counts c (send_output_buf_in_loop c answer).0 (send_output_buf_in_loop c answer).1
unfolding send_output_buf_in_loop
output-Counts c (wrote n) s = ground arith
output-Counts c (failed e) s = ground arith

read-Counts :
    (c c' : Conn) (es : List Effect) (answer : Option (List ℕ))
    → IsSound c
    → handle_read c answer ≡ ok (c', es)
    → Counts c c' es
unfolding handle_read handle_close handle_error
read-Counts c c' es answer s h = ground arith

enable_read-Counts :
    (c : Conn) → IsSound c → Counts c (enable_read_in_loop c).0 (enable_read_in_loop c).1
unfolding enable_read_in_loop
enable_read-Counts c s = ground arith

disable_read-Counts :
    (c : Conn) → IsSound c → Counts c (disable_read_in_loop c).0 (disable_read_in_loop c).1
unfolding disable_read_in_loop
disable_read-Counts c s = ground arith

enable_write-Counts :
    (c : Conn) → IsSound c → Counts c (enable_write_in_loop c).0 (enable_write_in_loop c).1
unfolding enable_write_in_loop
enable_write-Counts c s = ground arith

disable_write-Counts :
    (c : Conn) → IsSound c → Counts c (disable_write_in_loop c).0 (disable_write_in_loop c).1
unfolding disable_write_in_loop
disable_write-Counts c s = ground arith

abbrev pub after_step : List Call → Conn × List Effect → Result (Conn × List Effect)
after_step calls t = do (c'', fs) ← run t.0 calls; ok (c'', t.1 ++ fs)

pub by_result :
    {c c' : Conn} {es : List Effect} (r : Conn × List Effect)
    → Counts c r.0 r.1
    → ok r ≡ ok (c', es)
    → Counts c c' es
by_result {c} r k h = subst (λ (t : Conn × List Effect). Counts c t.0 t.1) (ok-injective h) k

pub step-Counts :
    {c c' : Conn} {es : List Effect} (a : Call)
    → IsSound c
    → step c a ≡ ok (c', es)
    → Counts c c' es
unfolding step
step-Counts {c} Call.closes s h = by_result (handle_close c) (close-Counts c s) h
step-Counts {c} Call.errs s h = by_result (handle_error c) (error-Counts c s) h
step-Counts {c} Call.shuts_down s h = by_result (shutdown_in_loop c) (shutdown-Counts c s) h
step-Counts {c} Call.force_closes s h = by_result (force_close_in_loop c) (force_close-Counts c s) h
step-Counts {c} Call.enables_read s h = by_result (enable_read_in_loop c) (enable_read-Counts c s) h
step-Counts {c} Call.disables_read s h =
    by_result (disable_read_in_loop c) (disable_read-Counts c s) h
step-Counts {c} Call.enables_write s h =
    by_result (enable_write_in_loop c) (enable_write-Counts c s) h
step-Counts {c} Call.disables_write s h =
    by_result (disable_write_in_loop c) (disable_write-Counts c s) h
step-Counts {c} {c'} {es} (Call.sends xs answer) s h = send-Counts c c' es xs answer s h
step-Counts {c} {c'} {es} (Call.sends_buf buf answer) s h =
    Calm-Counts s (send_buf-Calm c c' es buf answer h)
step-Counts {c} (Call.sends_output answer) s h =
    by_result (send_output_buf_in_loop c answer) (output-Counts c answer s) h
step-Counts {c} (Call.writes answer) s h =
    by_result (handle_write c answer) (write-Counts c answer s) h
step-Counts {c} {c'} {es} (Call.reads answer) s h = read-Counts c c' es answer s h
