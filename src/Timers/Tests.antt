-- ===== src/Timers/Tests.antt =====
-- Runs of sevent/net/TimerManager.cpp, and the theorems at them.
use sevent.Base.{◌+◌, ◌≤◌, ◌≡◌, refl, true, Bool, not, List, [], ◌∷◌, ok, ◌&&◌, if◌then◌else◌}
use sevent.Timers.{
  Timer, place, insert, get_expired, lower_bound, cancel_in_loop, reset_timers, Op, do_op, do_ops,
  run_callbacks, handle_expired,
}
use sevent.Timers.Order.{count, has_addr, is_sorted}
use sevent.Timers.Expiry.{is_before, next_round, select, is_due}
use sevent.Timers.Rounds.{idle, handle_expired_lem}
use sevent.Timers.Cancel.{is_equal, cancel_in_loop_lem, cancel_lost}

abbrev once : Timer
once = record { addr = 1; expired = 100; interval = 0 }

abbrev again : Timer
again = record { addr = 2; expired = 100; interval = 5 }

abbrev late : Timer
late = record { addr = 3; expired = 900; interval = 0 }

abbrev timers : List Timer
timers = once ∷ again ∷ late ∷ []

handle_expired_example :
    (timers' : List Timer) × (handle_expired idle 500 9 timers ≡ ok timers')
    × (is_sorted timers' ≡ true)
    × (count (is_before 500) timers' ≡ 0)
    × ((p : Timer → Bool)
        → count p timers'
          ≡ count p (select (λ t. not (is_due 500 9 t)) timers)
            + count p (next_round 500 (select (is_due 500 9) timers)))
handle_expired_example = handle_expired_lem 500 9 timers refl refl

cancel_in_loop_example :
    (is_sorted (cancel_in_loop again timers) ≡ true)
    × (count (is_equal again) (cancel_in_loop again timers) ≡ 0)
    × (count (has_addr 1) (cancel_in_loop again timers)
          + count (λ u. has_addr 1 u && is_equal again u) timers
        ≡ count (has_addr 1) timers)
cancel_in_loop_example = cancel_in_loop_lem again timers (has_addr 1) refl

-- The callback of the second timer cancels it.
abbrev cancels_itself : Timer → List Op
cancels_itself t = if has_addr 2 t then Op.cancels t ∷ [] else []

abbrev next : List Timer
next = late ∷ record again { expired = 5500 } ∷ []

cancels_itself_returns : handle_expired cancels_itself 500 9 timers ≡ ok next
unfolding handle_expired get_expired lower_bound run_callbacks do_ops do_op cancel_in_loop
    reset_timers insert place
cancels_itself_returns = refl

cancel_lost_example :
    count (has_addr 2) (next_round 500 (lower_bound 500 9 timers).0) ≤ count (has_addr 2) next
cancel_lost_example =
    cancel_lost cancels_itself 500 9 timers next (has_addr 2) cancels_itself_returns
