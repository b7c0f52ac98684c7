-- ===== src/Connector/Retries.antt =====
-- sevent/net/Connector.cpp: how often and when a connect is tried again.
use sevent.Base.{
  ℕ, zero, suc, ◌+◌, ◌*◌, ◌≤◌, ◌≡◌, refl, sym, ◌∙◌, ap, ap₂, length-append, min, Bool, true, false,
  not, ◌&&◌, List, [], ◌∷◌, ◌++◌, length, arith,
}
use sevent.Connector.{
  Connector, in_progress, try_again, failed, Effect, Task, retry, try_connect, doconnect,
  do_timeout, stop_in_loop, shutdown_in_loop, force_close_in_loop, end_in_loop, close_on_connecting,
  handle_write, handle_error, remove_connection, on_connection, doconnecting, next_delay,
  max_retry_delay_ms,
}
use sevent.Connector.Steps.{Call, step, run}

-- The delays of the retries that were asked for.
abbrev pub delays : List Effect → List ℕ
delays [] = []
delays (Effect.add_timer ms Task.calls_doconnect ∷ es) = ms ∷ delays es
delays (_ ∷ es) = delays es

-- The delays of the next `n` retries.
abbrev pub backoff : ℕ → ℕ → List ℕ
backoff zero ms = []
backoff (suc n) ms = ms ∷ backoff n (next_delay ms)

abbrev pub delay_after : ℕ → ℕ → ℕ
delay_after zero ms = ms
delay_after (suc n) ms = delay_after n (next_delay ms)

abbrev pub is_connect : Call → Bool
is_connect (Call.connects answer) = true
is_connect _ = false

abbrev pub no_connect : List Call → Bool
no_connect [] = true
no_connect (a ∷ calls) = not (is_connect a) && no_connect calls

-- Without a new `connect`: the retries come after the delays of the backoff, and are counted down.
pub record Backs (c c' : Connector) (es : List Effect) : Type 0 where
  pub delayed : delays es ≡ backoff (length (delays es)) c.retry_ms
  pub next : c'.retry_ms ≡ delay_after (length (delays es)) c.retry_ms

step-Backs : (c : Connector) (a : Call) → is_connect a ≡ false → Backs c (step c a).0 (step c a).1
unfolding step doconnect try_connect retry doconnecting do_timeout stop_in_loop shutdown_in_loop
    force_close_in_loop end_in_loop close_on_connecting handle_write handle_error on_connection
    remove_connection
step-Backs c (Call.connects answer) h = absurd (ground (arith, h))
step-Backs c (Call.does_connect in_progress) h = record {
  delayed = ground arith;
  next = ground arith;
}
step-Backs c (Call.does_connect try_again) h = record {
  delayed = ground arith;
  next = ground arith;
}
step-Backs c (Call.does_connect failed) h = record { delayed = ground arith; next = ground arith }
step-Backs c Call.times_out h = record { delayed = ground arith; next = ground arith }
step-Backs c Call.stops h = record { delayed = ground arith; next = ground arith }
step-Backs c Call.shuts_down h = record { delayed = ground arith; next = ground arith }
step-Backs c Call.force_closes h = record { delayed = ground arith; next = ground arith }
step-Backs c Call.sets_stop h = record { delayed = ground arith; next = ground arith }
step-Backs c Call.errs h = record { delayed = ground arith; next = ground arith }
step-Backs c Call.removes_connection h = record { delayed = ground arith; next = ground arith }
step-Backs c (Call.writes is_error is_self_connect) h = record {
  delayed = ground arith;
  next = ground arith;
}

pub delays-append : (es fs : List Effect) → delays (es ++ fs) ≡ delays es ++ delays fs
delays-append [] fs = refl
delays-append (Effect.add_timer ms Task.calls_doconnect ∷ es) fs =
    ap (λ l. ms ∷ l) (delays-append es fs)
delays-append (Effect.add_timer ms Task.calls_do_timeout ∷ es) fs = delays-append es fs
delays-append (_ ∷ es) fs = delays-append es fs

backoff_add : (m n ms : ℕ) → backoff (m + n) ms ≡ backoff m ms ++ backoff n (delay_after m ms)
backoff_add zero n ms = ap (λ k. backoff k ms) (omega arith)
backoff_add (suc m) n ms =
    let e : suc m + n ≡ suc (m + n) = omega arith in
    rw e (ap (λ l. ms ∷ l) (backoff_add m n (next_delay ms)))

delay_after_add : (m n ms : ℕ) → delay_after (m + n) ms ≡ delay_after n (delay_after m ms)
delay_after_add zero n ms = let e : 0 + n ≡ n = omega arith in rw e refl
delay_after_add (suc m) n ms =
    let e : suc m + n ≡ suc (m + n) = omega arith in rw e (delay_after_add m n (next_delay ms))

run-Backs :
    (calls : List Call) (c : Connector)
    → no_connect calls ≡ true
    → Backs c (run c calls).0 (run c calls).1
unfolding run
run-Backs [] c h = record { delayed = refl; next = refl }
run-Backs (a ∷ calls) c h =
    let c₁ = (step c a).0 in
    let es = (step c a).1 in
    let fs = (run c₁ calls).1 in
    let first = step-Backs c a (ground (arith, h)) in
    let rest = run-Backs calls c₁ (ground (arith, h)) in
    let size : length (delays (es ++ fs)) ≡ length (delays es) + length (delays fs) =
      ap length (delays-append es fs) ∙ length-append (delays es) (delays fs) in
    record {
      delayed =
          delays-append es fs
          ∙ ap₂ (λ xs ys. xs ++ ys) first.delayed
              (rest.delayed ∙ ap (backoff (length (delays fs))) first.next)
          ∙ sym (backoff_add (length (delays es)) (length (delays fs)) c.retry_ms)
          ∙ ap (λ n. backoff n c.retry_ms) (sym size);
      next =
          rest.next
          ∙ ap (delay_after (length (delays fs))) first.next
          ∙ sym (delay_after_add (length (delays es)) (length (delays fs)) c.retry_ms)
          ∙ ap (λ n. delay_after n c.retry_ms) (sym size);
    }

-- The first `n` delays of the documented backoff: doubled each time, and never above the maximum.
abbrev pub doubling : ℕ → ℕ → List ℕ
doubling zero ms = []
doubling (suc n) ms = min ms max_retry_delay_ms ∷ doubling n (2 * ms)

backoff-doubling : (n ms : ℕ) → backoff n (min ms max_retry_delay_ms) ≡ doubling n ms
backoff-doubling zero ms = refl
backoff-doubling (suc n) ms =
    let e : next_delay (min ms max_retry_delay_ms) ≡ min (2 * ms) max_retry_delay_ms =
      ground arith in
    rw e (ap (λ l. min ms max_retry_delay_ms ∷ l) (backoff-doubling n (2 * ms)))

-- Over any calls after a `connect`, the retries are asked for after doubled delays, up to the maximum,
-- from the delay that the connector has.
pub run-backoff :
    (calls : List Call) (c : Connector)
    → no_connect calls ≡ true
    → c.retry_ms ≤ max_retry_delay_ms
    → delays (run c calls).1 ≡ doubling (length (delays (run c calls).1)) c.retry_ms
run-backoff calls c h small =
    let b = run-Backs calls c h in
    let e : min c.retry_ms max_retry_delay_ms ≡ c.retry_ms = omega arith in
    b.delayed
    ∙ ap (backoff (length (delays (run c calls).1))) (sym e)
    ∙ backoff-doubling (length (delays (run c calls).1)) c.retry_ms
