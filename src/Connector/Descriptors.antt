-- ===== src/Connector/Descriptors.antt =====
-- sevent/net/Connector.cpp: the descriptors that are opened, closed and handed over.
use sevent.Base.{
  ℕ, suc, ◌+◌, ◌≡◌, refl, Bool, true, false, not, ◌&&◌, ◌||◌, List, [], ◌∷◌, ◌++◌, arith,
  if◌then◌else◌,
}
use sevent.Connector.{
  Connector, State, same_state, ConnectAnswer, in_progress, try_again, failed, Effect, retry,
  try_connect, doconnect, connect, do_timeout, stop_in_loop, shutdown_in_loop, force_close_in_loop,
  end_in_loop, close_on_connecting, handle_write, handle_error, remove_connection, on_connection,
  doconnecting,
}
use sevent.Connector.Steps.{Call, step, run}

-- The descriptors that were opened, closed, and handed to a `TcpConnection`.
abbrev pub opened : List Effect → ℕ
opened [] = 0
opened (Effect.create_fd ∷ es) = suc (opened es)
opened (_ ∷ es) = opened es

abbrev pub released : List Effect → ℕ
released [] = 0
released (Effect.close_fd ∷ es) = suc (released es)
released (Effect.new_connection ∷ es) = suc (released es)
released (_ ∷ es) = released es

-- The connector holds a descriptor while it is connecting.
abbrev pub held : Connector → ℕ
held c = if same_state c.state State.connecting then 1 else 0

-- A descriptor may not be opened while one is held, and a connection is not removed while the next
-- one is being made.
abbrev pub is_orderly : Connector → Call → Bool
is_orderly c (Call.connects answer) = not (same_state c.state State.connecting)
is_orderly c (Call.does_connect answer) = c.is_stop || not (same_state c.state State.connecting)
is_orderly c Call.removes_connection = not (same_state c.state State.connecting)
is_orderly c _ = true

step-balance :
    (c : Connector) (a : Call)
    → is_orderly c a ≡ true
    → held c + opened (step c a).1 ≡ held (step c a).0 + released (step c a).1
unfolding step connect doconnect try_connect retry doconnecting do_timeout stop_in_loop
    shutdown_in_loop force_close_in_loop end_in_loop close_on_connecting handle_write handle_error
    on_connection remove_connection
step-balance c (Call.connects in_progress) o = ground arith
step-balance c (Call.connects try_again) o = ground arith
step-balance c (Call.connects failed) o = ground arith
step-balance c (Call.does_connect in_progress) o = ground arith
step-balance c (Call.does_connect try_again) o = ground arith
step-balance c (Call.does_connect failed) o = ground arith
step-balance c Call.times_out o = ground arith
step-balance c Call.stops o = ground arith
step-balance c Call.shuts_down o = ground arith
step-balance c Call.force_closes o = ground arith
step-balance c Call.sets_stop o = ground arith
step-balance c Call.errs o = ground arith
step-balance c Call.removes_connection o = ground arith
step-balance c (Call.writes is_error is_self_connect) o = ground arith

opened-append : (es fs : List Effect) → opened (es ++ fs) ≡ opened es + opened fs
opened-append [] fs = omega arith
opened-append (Effect.create_fd ∷ es) fs = omega (arith, opened-append es fs)
opened-append (_ ∷ es) fs = opened-append es fs

released-append : (es fs : List Effect) → released (es ++ fs) ≡ released es + released fs
released-append [] fs = omega arith
released-append (Effect.close_fd ∷ es) fs = omega (arith, released-append es fs)
released-append (Effect.new_connection ∷ es) fs = omega (arith, released-append es fs)
released-append (_ ∷ es) fs = released-append es fs

-- Every call of the sequence is orderly where it happens.
abbrev pub all_orderly : Connector → List Call → Bool
all_orderly c [] = true
all_orderly c (a ∷ calls) = is_orderly c a && all_orderly (step c a).0 calls

-- Over any orderly sequence of calls, the descriptors that were held or opened are those that were
-- closed or handed to a connection, once each, and the one that is held at the end, if any.
pub run-balance :
    (c : Connector) (calls : List Call)
    → all_orderly c calls ≡ true
    → held c + opened (run c calls).1 ≡ held (run c calls).0 + released (run c calls).1
unfolding run
run-balance c [] o = refl
run-balance c (a ∷ calls) o =
    let es = (step c a).1 in
    let fs = (run (step c a).0 calls).1 in
    omega (
      arith,
      step-balance c a (ground (arith, o)),
      run-balance (step c a).0 calls (ground (arith, o)),
      opened-append es fs,
      released-append es fs,
    )

-- A `doconnect` that comes while a connect is in progress, as from the timer of an earlier retry, loses
-- one descriptor, whatever `connect` answers.
pub doconnect_leaks :
    (c : Connector) (answer : ConnectAnswer)
    → c.state ≡ State.connecting
    → c.is_stop ≡ false
    → held c + opened (doconnect c answer).1
      ≡ held (doconnect c answer).0 + released (doconnect c answer).1 + 1
unfolding doconnect try_connect retry doconnecting
doconnect_leaks c in_progress s go = ground arith
doconnect_leaks c try_again s go = ground arith
doconnect_leaks c failed s go = ground arith
