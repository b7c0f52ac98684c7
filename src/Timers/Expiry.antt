-- ===== src/Timers/Expiry.antt =====
-- sevent/net/TimerManager.cpp: which timers expire, and which are in the set for the next round.
use sevent.Base.{
  ℕ, ◌+◌, ◌≡◌, refl, sym, ◌∙◌, inl, inr, Bool, Bool-cases, true, false, ◌&&◌, List, [], ◌∷◌, ◌++◌,
  arith, ok, ok-injective, not, ◌||◌, ltb, ◌==◌, if◌then◌else◌, ap, ◌>>=◌,
}
use sevent.Timers.{
  Timer, is_repeat, reset_expired, less, insert, is_first, lower_bound, get_expired, none_before,
  reset_timers,
}
use sevent.Timers.Order.{count, has_addr, not_above, is_sorted, Placed, place-Placed}

abbrev pub is_after : ℕ → Timer → Bool
is_after now t = ltb now t.expired

abbrev pub is_before : ℕ → Timer → Bool
is_before now t = ltb t.expired now

above_now :
    (now tp : ℕ) (x : Timer) (timers : List Timer)
    → less x (record { addr = tp; expired = now; interval = 0 }) ≡ false
    → count (not_above x) timers ≡ 0
    → count (is_before now) timers ≡ 0
above_now now tp x [] h a = refl
above_now now tp x (t ∷ timers) h a = ground (arith, h, a, above_now now tp x timers h)

-- `lower_bound` cuts an ordered set into two: each timer of the first part expired by `now`, none of the
-- second part expired before, and the second part stays ordered.
pub lower_bound_lem :
    (now tp : ℕ) (timers : List Timer)
    → is_sorted timers ≡ true
    → ((lower_bound now tp timers).0 ++ (lower_bound now tp timers).1 ≡ timers)
      × (count (is_after now) (lower_bound now tp timers).0 ≡ 0)
      × (count (is_before now) (lower_bound now tp timers).1 ≡ 0)
      × (is_sorted (lower_bound now tp timers).1 ≡ true)
unfolding lower_bound
lower_bound_lem now tp [] s = (refl, refl, refl, refl)
lower_bound_lem now tp (x ∷ timers) s =
    elim (Bool-cases (less x (record { addr = tp; expired = now; interval = 0 }))) [
      | inl due ↦
          let (parts, before, after, sorted) = lower_bound_lem now tp timers (ground (arith, s)) in
          rw due (ap (λ l. x ∷ l) parts, ground (arith, due, before), after, sorted)
      | inr later ↦
          rw later (refl, refl, ground (arith, later, s, above_now now tp x timers later), s)
    ]

-- A timer expires if its time is before `now`, or is `now` and its address is below that of the timer
-- that `getExpired` makes.
abbrev pub is_due : ℕ → ℕ → Timer → Bool
is_due now tp t = ltb t.expired now || ((t.expired == now) && ltb t.addr tp)

abbrev pub select : (Timer → Bool) → List Timer → List Timer
select p [] = []
select p (t ∷ timers) = let rest = select p timers in if p t then t ∷ rest else rest

less-is_due :
    (now tp : ℕ) (t : Timer)
    → less t (record { addr = tp; expired = now; interval = 0 }) ≡ is_due now tp t
less-is_due now tp t = ground arith

-- In an ordered set, no timer behind one that is not due is due.
select_later :
    (now tp : ℕ) (x : Timer) (timers : List Timer)
    → is_due now tp x ≡ false
    → count (not_above x) timers ≡ 0
    → (select (is_due now tp) timers ≡ []) × (select (λ t. not (is_due now tp t)) timers ≡ timers)
select_later now tp x [] h a = (refl, refl)
select_later now tp x (t ∷ timers) h a =
    let (none_due, all_left) = select_later now tp x timers h (ground (arith, a)) in
    let other : is_due now tp t ≡ false = ground (arith, h, a) in
    (rw (other, none_due) refl, rw (other, all_left) refl)

-- The cut of an ordered set is into the timers that are due and those that are not.
pub lower_bound-select :
    (now tp : ℕ) (timers : List Timer)
    → is_sorted timers ≡ true
    → ((lower_bound now tp timers).0 ≡ select (is_due now tp) timers)
      × ((lower_bound now tp timers).1 ≡ select (λ t. not (is_due now tp t)) timers)
unfolding lower_bound
lower_bound-select now tp [] s = (refl, refl)
lower_bound-select now tp (x ∷ timers) s = elim (Bool-cases (is_due now tp x)) [
  | inl due ↦
      let (first, behind) = lower_bound-select now tp timers (ground (arith, s)) in
      rw (less-is_due now tp x, due) (ap (λ l. x ∷ l) first, behind)
  | inr later ↦
      let (none_due, all_left) = select_later now tp x timers later (ground (arith, s)) in
      rw (less-is_due now tp x, later, none_due, all_left) (refl, refl)
]

none_before-count :
    (now : ℕ) (timers : List Timer)
    → count (is_before now) timers ≡ 0
    → none_before now timers ≡ true
none_before-count now [] h = refl
none_before-count now (t ∷ timers) h = ground (arith, h)

-- On an ordered set the assert of `getExpired` holds.
pub get_expired_ok :
    (now tp : ℕ) (timers : List Timer)
    → is_sorted timers ≡ true
    → get_expired now tp timers ≡ ok (lower_bound now tp timers)
unfolding get_expired
get_expired_ok now tp timers s =
    let (parts, due, later, sorted) = lower_bound_lem now tp timers s in
    rw (none_before-count now (lower_bound now tp timers).1 later) refl

pub get_expired_cut :
    (now tp : ℕ) (timers : List Timer) (cut : List Timer × List Timer)
    → get_expired now tp timers ≡ ok cut
    → lower_bound now tp timers ≡ cut
unfolding get_expired
get_expired_cut now tp timers cut =
    elim (Bool-cases (none_before now (lower_bound now tp timers).1)) [
      | inl holds ↦ rw holds (λ e. ok-injective e)
      | inr fails ↦ rw fails (λ e. cc)
    ]

-- The repeating timers of a list, with the time of their next round.
abbrev pub next_round : ℕ → List Timer → List Timer
next_round now [] = []
next_round now (t ∷ timers) =
    if is_repeat t then reset_expired now t ∷ next_round now timers else next_round now timers

-- No two timers have one address.
abbrev pub is_distinct : List Timer → Bool
is_distinct [] = true
is_distinct (t ∷ timers) = (count (has_addr t.addr) timers == 0) && is_distinct timers

-- The timers of the first list have addresses that the second does not have.
abbrev pub is_apart : List Timer → List Timer → Bool
is_apart [] timers = true
is_apart (t ∷ list) timers = (count (has_addr t.addr) timers == 0) && is_apart list timers

apart_placed :
    (list : List Timer) (t : Timer) (timers placed : List Timer)
    → count (has_addr t.addr) list ≡ 0
    → is_apart list timers ≡ true
    → ((a : ℕ) → count (has_addr a) placed ≡ count (has_addr a) (t ∷ timers))
    → is_apart list placed ≡ true
apart_placed [] t timers placed f h same = refl
apart_placed (x ∷ list) t timers placed f h same =
    ground (arith, f, h, same x.addr, apart_placed list t timers placed, same)

insert_lem :
    (t : Timer) (timers : List Timer)
    → is_sorted timers ≡ true
    → count (has_addr t.addr) timers ≡ 0
    → (placed : List Timer) × (insert t timers ≡ ok (placed, is_first t timers))
      × Placed t timers placed
unfolding insert
insert_lem t timers s f =
    let (placed, done, r) = place-Placed t timers s f in (placed, rw done refl, r)

pub reset_again :
    (t : Timer) (list : List Timer) (now : ℕ) (timers : List Timer)
    → is_repeat t ≡ true
    → reset_timers (t ∷ list) now timers ≡ (
        insert (reset_expired now t) timers >>= λ (r : List Timer × Bool).
        reset_timers list now r.0)
unfolding reset_timers
reset_again t list now timers again = rw again refl

pub next_again :
    (t : Timer) (list : List Timer) (now : ℕ)
    → is_repeat t ≡ true
    → next_round now (t ∷ list) ≡ reset_expired now t ∷ next_round now list
next_again t list now again = rw again refl

reset_addr : (now : ℕ) (t : Timer) → (reset_expired now t).addr ≡ t.addr
reset_addr now t = ground arith

pub count_move :
    (p : Timer → Bool) (t : Timer) (timers list : List Timer)
    → count p (t ∷ timers) + count p list ≡ count p timers + count p (t ∷ list)
count_move p t timers list = ground arith

-- `resetTimers` on a list whose addresses are new returns, leaves the set ordered, and adds exactly the
-- next round of the repeating timers.
pub reset_timers_lem :
    (list : List Timer) (now : ℕ) (timers : List Timer)
    → is_sorted timers ≡ true
    → is_distinct list ≡ true
    → is_apart list timers ≡ true
    → (timers' : List Timer) × (reset_timers list now timers ≡ ok timers')
      × (is_sorted timers' ≡ true)
      × ((p : Timer → Bool) → count p timers' ≡ count p timers + count p (next_round now list))
unfolding reset_timers
reset_timers_lem [] now timers s d a = (timers, refl, s, λ p. omega arith)
reset_timers_lem (t ∷ list) now timers s d a = elim (Bool-cases (is_repeat t)) [
  | inr once ↦
      let (timers', done, sorted, same) =
        reset_timers_lem list now timers s (ground (arith, d)) (ground (arith, a)) in
      (timers', rw once done, sorted, λ p. ground (arith, once, same p))
  | inl again ↦
      let t' : Timer = reset_expired now t in
      let fresh : count (has_addr t'.addr) timers ≡ 0 = rw (reset_addr now t) (ground (arith, a)) in
      let (placed, put, r) = insert_lem t' timers s fresh in
      let others : is_apart list placed ≡ true =
        apart_placed list t' timers placed (rw (reset_addr now t) (ground (arith, d)))
          (ground (arith, a)) (λ n. r.same (has_addr n)) in
      let (timers', done, sorted, same) =
        reset_timers_lem list now placed r.sorted (ground (arith, d)) others in
      (
        timers',
        reset_again t list now timers again ∙ rw put done,
        sorted,
        λ p.
            same p
            ∙ ap (λ n. n + count p (next_round now list)) (r.same p)
            ∙ count_move p t' timers (next_round now list)
            ∙ ap (λ l. count p timers + count p l) (sym (next_again t list now again)),
      )
]
