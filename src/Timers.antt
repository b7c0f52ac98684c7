-- ===== src/Timers.antt =====
-- sevent/net/Timer.cpp, sevent/net/TimerManager.cpp and sevent/base/Timestamp.cpp: the timers of a
-- loop, a set ordered by time and then by address.
-- Times are microseconds since the epoch, and `interval` counts milliseconds, 0 for a timer that does
-- not repeat. A callback is known by the address of its timer.
pub mod Order
pub mod Expiry
pub mod Rounds
pub mod Cancel
mod Tests
use sevent.Base.{
  ℕ, ◌+◌, ◌-◌, ◌*◌, ◌/◌, ◌≡◌, Bool, true, false, not, ◌&&◌, ◌||◌, Option, none, some, List, [], ◌∷◌,
  ◌++◌, ltb, leb, ◌==◌, if◌then◌else◌, bind_option, Result, ok, err, ◌>>=◌, assertion,
}

pub record Timer : Type 0 where
  pub addr : ℕ
  pub expired : ℕ
  pub interval : ℕ

abbrev pub is_repeat : Timer → Bool
is_repeat t = ltb 0 t.interval

-- A sum is an `int64_t`: times of less than 2 ^ 63 microseconds are meant, as what is past them is
-- undefined.
abbrev pub add_time : ℕ → ℕ → ℕ
add_time t millisecond = t + millisecond * 1000

abbrev pub reset_expired : ℕ → Timer → Timer
reset_expired now t =
    if is_repeat t then record t { expired = add_time now t.interval } else record t { expired = 0 }

-- `Timer::Comparator`
abbrev pub less : Timer → Timer → Bool
less lhs rhs =
    if ltb lhs.expired rhs.expired
    then true
    else if ltb rhs.expired lhs.expired
    then false
    else ltb lhs.addr rhs.addr

-- `std::set<Timer::ptr, Timer::Comparator>` in its order. `place` is its `insert`, `none` if an
-- equivalent timer is there.
unfoldable pub place : Timer → List Timer → Option (List Timer)
place t [] = some (t ∷ [])
place t (x ∷ timers) =
    let rest = place t timers in
    if less t x
    then some (t ∷ x ∷ timers)
    else if less x t
    then bind_option rest (λ placed. some (x ∷ placed))
    else none

abbrev pub is_first : Timer → List Timer → Bool
is_first t [] = true
is_first t (x ∷ timers) = ltb t.expired x.expired

abbrev pub inserted : Bool → Option (List Timer) → Result (List Timer × Bool)
inserted is_changed none = err assertion
inserted is_changed (some timers) = ok (timers, is_changed)

unfoldable pub insert : Timer → List Timer → Result (List Timer × Bool)
unfolding place
insert t timers = inserted (is_first t timers) (place t timers)

-- The timers before `lower_bound` of a timer that expires now, and those from it on. `tp` is the
-- address of that timer.
unfoldable pub lower_bound : ℕ → ℕ → List Timer → List Timer × List Timer
lower_bound now tp [] = ([], [])
lower_bound now tp (x ∷ timers) =
    let (expired_list, rest) = lower_bound now tp timers in
    if less x (record { addr = tp; expired = now; interval = 0 })
    then (x ∷ expired_list, rest)
    else ([], x ∷ timers)

-- `assert(it == timers.end() || now <= (*it)->getExpired())`
abbrev pub none_before : ℕ → List Timer → Bool
none_before now [] = true
none_before now (x ∷ timers) = leb now x.expired

unfoldable pub get_expired : ℕ → ℕ → List Timer → Result (List Timer × List Timer)
unfolding lower_bound
get_expired now tp timers =
    let cut = lower_bound now tp timers in if none_before now cut.1 then ok cut else err assertion

-- `find` and `erase`
unfoldable pub cancel_in_loop : Timer → List Timer → List Timer
cancel_in_loop t [] = []
cancel_in_loop t (x ∷ timers) =
    if not (less t x) && not (less x t) then timers else x ∷ cancel_in_loop t timers

-- The loop of `resetTimers`.
unfoldable pub reset_timers : List Timer → ℕ → List Timer → Result (List Timer)
unfolding insert
reset_timers [] now timers = ok timers
reset_timers (t ∷ expired_list) now timers =
    (if is_repeat t then insert (reset_expired now t) timers else ok (timers, false))
    >>= λ (r : List Timer × Bool). reset_timers expired_list now r.0

-- What a callback does to the timers, in the loop's thread and so at once.
pub data Op : Type 0 where
  adds cancels : Timer → Op

unfoldable pub do_op : Op → List Timer → Result (List Timer)
unfolding insert cancel_in_loop
do_op (adds t) timers = do (timers', is_changed) ← insert t timers; ok timers'
do_op (cancels t) timers = ok (cancel_in_loop t timers)

unfoldable pub do_ops : List Op → List Timer → Result (List Timer)
unfolding do_op
do_ops [] timers = ok timers
do_ops (op ∷ ops) timers = do_op op timers >>= do_ops ops

unfoldable pub run_callbacks : (Timer → List Op) → List Timer → List Timer → Result (List Timer)
unfolding do_ops
run_callbacks callback [] timers = ok timers
run_callbacks callback (t ∷ expired_list) timers =
    do_ops (callback t) timers >>= run_callbacks callback expired_list

-- The timers after `handleExpired`.
unfoldable pub handle_expired : (Timer → List Op) → ℕ → ℕ → List Timer → Result (List Timer)
unfolding get_expired run_callbacks reset_timers
handle_expired callback now tp timers = do
  (expired_list, rest) ← get_expired now tp timers
  rest' ← run_callbacks callback expired_list rest
  reset_timers expired_list now rest'

-- `TimerfdChannel::resetExpired`: the time until the first timer, at least 100 microseconds.
abbrev pub time_left : ℕ → ℕ → ℕ
time_left expired now = let rel_time = expired - now in if ltb rel_time 100 then 100 else rel_time
