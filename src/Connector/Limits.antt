-- ===== src/Connector/Limits.antt =====
-- sevent/net/Connector.cpp: how many retries there are, and what a stopped connector does.
use sevent.Base.{
  ℕ, suc, ◌+◌, ◌≤◌, ◌≡◌, refl, ◌∙◌, ap, true, false, List, [], ◌∷◌, ◌++◌, arith, length,
  length-append,
}
use sevent.Base.Int.{ℤ, pos, negsuc, is_neg}
use sevent.Connector.{
  Connector, in_progress, try_again, failed, Effect, retry, try_connect, doconnect, do_timeout,
  stop_in_loop, shutdown_in_loop, force_close_in_loop, end_in_loop, close_on_connecting,
  handle_write, handle_error, remove_connection, on_connection, doconnecting,
}
use sevent.Connector.Steps.{Call, step, run}
use sevent.Connector.Retries.{delays, delays-append, is_connect, no_connect}

abbrev pub left : ℤ → ℕ
left (pos n) = n
left (negsuc n) = 0

-- Retries are counted down.
pub record Counts (c c' : Connector) (es : List Effect) : Type 0 where
  pub limited : is_neg c'.retry_cur ≡ false
  pub counted : length (delays es) + left c'.retry_cur ≡ left c.retry_cur

step-Counts :
    (c : Connector) (a : Call)
    → is_connect a ≡ false
    → is_neg c.retry_cur ≡ false
    → Counts c (step c a).0 (step c a).1
unfolding step doconnect try_connect retry doconnecting do_timeout stop_in_loop shutdown_in_loop
    force_close_in_loop end_in_loop close_on_connecting handle_write handle_error on_connection
    remove_connection
step-Counts c (Call.connects answer) h n = absurd (ground (arith, h))
step-Counts c (Call.does_connect in_progress) h n = record {
  limited = ground arith;
  counted = ground arith;
}
step-Counts c (Call.does_connect try_again) h n = record {
  limited = ground arith;
  counted = ground arith;
}
step-Counts c (Call.does_connect failed) h n = record {
  limited = ground arith;
  counted = ground arith;
}
step-Counts c Call.times_out h n = record { limited = ground arith; counted = ground arith }
step-Counts c Call.stops h n = record { limited = ground arith; counted = ground arith }
step-Counts c Call.shuts_down h n = record { limited = ground arith; counted = ground arith }
step-Counts c Call.force_closes h n = record { limited = ground arith; counted = ground arith }
step-Counts c Call.sets_stop h n = record { limited = ground arith; counted = ground arith }
step-Counts c Call.errs h n = record { limited = ground arith; counted = ground arith }
step-Counts c Call.removes_connection h n = record {
  limited = ground arith;
  counted = ground arith;
}
step-Counts c (Call.writes is_error is_self_connect) h n = record {
  limited = ground arith;
  counted = ground arith;
}

-- With a retry count, at most so many retries are asked for before the next `connect`.
pub run_retries_bounded :
    (calls : List Call) (c : Connector)
    → no_connect calls ≡ true
    → is_neg c.retry_cur ≡ false
    → length (delays (run c calls).1) ≤ left c.retry_cur
unfolding run
run_retries_bounded [] c h n = omega arith
run_retries_bounded (a ∷ calls) c h n =
    let es = (step c a).1 in
    let fs = (run (step c a).0 calls).1 in
    let k = step-Counts c a (ground (arith, h)) n in
    let rest = run_retries_bounded calls (step c a).0 (ground (arith, h)) k.limited in
    omega (
      arith,
      k.counted,
      rest,
      ap length (delays-append es fs) ∙ length-append (delays es) (delays fs),
    )

-- The effects that begin something: a descriptor, a timer, a connection.
abbrev pub begun : List Effect → ℕ
begun [] = 0
begun (Effect.create_fd ∷ es) = suc (begun es)
begun (Effect.add_timer ms task ∷ es) = suc (begun es)
begun (Effect.new_connection ∷ es) = suc (begun es)
begun (_ ∷ es) = begun es

begun-append : (es fs : List Effect) → begun (es ++ fs) ≡ begun es + begun fs
begun-append [] fs = omega arith
begun-append (Effect.create_fd ∷ es) fs = omega (arith, begun-append es fs)
begun-append (Effect.add_timer ms task ∷ es) fs = omega (arith, begun-append es fs)
begun-append (Effect.new_connection ∷ es) fs = omega (arith, begun-append es fs)
begun-append (_ ∷ es) fs = begun-append es fs

step-stopped :
    (c : Connector) (a : Call)
    → is_connect a ≡ false
    → c.is_stop ≡ true
    → ((step c a).0.is_stop ≡ true) × (begun (step c a).1 ≡ 0)
unfolding step doconnect try_connect retry doconnecting do_timeout stop_in_loop shutdown_in_loop
    force_close_in_loop end_in_loop close_on_connecting handle_write handle_error on_connection
    remove_connection
step-stopped c (Call.connects answer) h s = absurd (ground (arith, h))
step-stopped c (Call.does_connect in_progress) h s = ground arith
step-stopped c (Call.does_connect try_again) h s = ground arith
step-stopped c (Call.does_connect failed) h s = ground arith
step-stopped c Call.times_out h s = ground arith
step-stopped c Call.stops h s = ground arith
step-stopped c Call.shuts_down h s = ground arith
step-stopped c Call.force_closes h s = ground arith
step-stopped c Call.sets_stop h s = ground arith
step-stopped c Call.errs h s = ground arith
step-stopped c Call.removes_connection h s = ground arith
step-stopped c (Call.writes is_error is_self_connect) h s = ground arith

-- Once stopped, and until the next `connect`, the connector opens no descriptor, asks for no timer and
-- makes no connection, whatever the kernel and the timers that are left do.
pub run-stopped :
    (calls : List Call) (c : Connector)
    → no_connect calls ≡ true
    → c.is_stop ≡ true
    → ((run c calls).0.is_stop ≡ true) × (begun (run c calls).1 ≡ 0)
unfolding run
run-stopped [] c h s = (s, refl)
run-stopped (a ∷ calls) c h s =
    let es = (step c a).1 in
    let fs = (run (step c a).0 calls).1 in
    let (stays, nothing) = step-stopped c a (ground (arith, h)) s in
    let (still, none) = run-stopped calls (step c a).0 (ground (arith, h)) stays in
    (still, omega (arith, nothing, none, begun-append es fs))
