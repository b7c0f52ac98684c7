-- ===== src/Timers/Rounds.antt =====
-- sevent/net/TimerManager.cpp: a whole `handleExpired`.
use sevent.Base.{ℕ, ◌+◌, ◌≡◌, refl, Bool, true, not, List, [], ◌∷◌, ◌++◌, arith, ok}
use sevent.Timers.{Timer, lower_bound, Op, do_ops, run_callbacks, handle_expired}
use sevent.Timers.Order.{count, has_addr, is_sorted}
use sevent.Timers.Expiry.{
  is_before, next_round, is_distinct, is_apart, lower_bound_lem, lower_bound-select, get_expired_ok,
  select, is_due, reset_timers_lem,
}

count-append :
    (p : Timer → Bool) (xs ys : List Timer) → count p (xs ++ ys) ≡ count p xs + count p ys
count-append p [] ys = omega arith
count-append p (x ∷ xs) ys = ground (arith, count-append p xs ys)

distinct_parts :
    (list rest : List Timer)
    → is_distinct (list ++ rest) ≡ true
    → (is_distinct list ≡ true) × (is_apart list rest ≡ true)
distinct_parts [] rest d = (refl, refl)
distinct_parts (t ∷ list) rest d =
    ground (arith, d, count-append (has_addr t.addr) list rest, distinct_parts list rest)

next_round_later : (now : ℕ) (list : List Timer) → count (is_before now) (next_round now list) ≡ 0
next_round_later now [] = refl
next_round_later now (t ∷ list) = ground (arith, next_round_later now list)

abbrev pub idle : Timer → List Op
idle t = []

run_idle : (list timers : List Timer) → run_callbacks idle list timers ≡ ok timers
unfolding run_callbacks do_ops
run_idle [] timers = refl
run_idle (t ∷ list) timers = run_idle list timers

-- `handleExpired` on an ordered set of distinct timers, with callbacks that leave the timers alone,
-- returns. The set stays ordered; in it are the timers that were not due, which are those whose time is
-- after `now`, or is `now` at an address that is not below that of the timer that getExpired makes, and
-- the next round of the repeating ones among the others, and nothing else; and none of them is due before
-- `now`.
pub handle_expired_lem :
    (now tp : ℕ) (timers : List Timer)
    → is_sorted timers ≡ true
    → is_distinct timers ≡ true
    → (timers' : List Timer) × (handle_expired idle now tp timers ≡ ok timers')
      × (is_sorted timers' ≡ true)
      × (count (is_before now) timers' ≡ 0)
      × ((p : Timer → Bool)
          → count p timers'
            ≡ count p (select (λ t. not (is_due now tp t)) timers)
              + count p (next_round now (select (is_due now tp) timers)))
unfolding handle_expired
handle_expired_lem now tp timers s d =
    let list = (lower_bound now tp timers).0 in
    let rest = (lower_bound now tp timers).1 in
    let (parts, due, later, sorted) = lower_bound_lem now tp timers s in
    let (first, behind) = lower_bound-select now tp timers s in
    let (distinct, apart) = distinct_parts list rest (rw parts d) in
    let (timers', done, ordered, same) = reset_timers_lem list now rest sorted distinct apart in
    (
      timers',
      rw (get_expired_ok now tp timers s, run_idle list rest) done,
      ordered,
      omega (arith, same (is_before now), later, next_round_later now list),
      λ p. rw (← first, ← behind) (same p),
    )
