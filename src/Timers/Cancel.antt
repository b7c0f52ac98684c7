-- ===== src/Timers/Cancel.antt =====
-- sevent/net/TimerManager.cpp: what a cancel removes, and when it is lost.
use sevent.Base.{
  ◌>>=◌, ℕ, ◌+◌, ◌≤◌, ◌≡◌, refl, sym, ◌∙◌, inl, inr, Bool, Bool-cases, Option-cases, some, true,
  not, ◌&&◌, List, [], ◌∷◌, arith, ok, ap, >>=-eq-ok, ok-injective, some-injective, bind_option,
  bind_option-eq-some,
}
use sevent.Timers.{
  Timer, is_repeat, reset_expired, less, place, insert, inserted, is_first, lower_bound,
  get_expired, cancel_in_loop, reset_timers, Op, run_callbacks, handle_expired,
}
use sevent.Timers.Order.{count, not_above, is_sorted}
use sevent.Timers.Expiry.{get_expired_cut, next_round, reset_again, next_again, count_move}

-- The timers that the comparator does not tell from `t`.
abbrev pub is_equal : Timer → Timer → Bool
is_equal t u = not (less t u) && not (less u t)

equal_above :
    (t x : Timer) (timers : List Timer)
    → is_equal t x ≡ true
    → count (not_above x) timers ≡ 0
    → count (is_equal t) timers ≡ 0
equal_above t x [] h a = refl
equal_above t x (u ∷ timers) h a = ground (arith, h, a, equal_above t x timers h)

count_both :
    (p q : Timer → Bool) (timers : List Timer)
    → count q timers ≡ 0
    → count (λ u. p u && q u) timers ≡ 0
count_both p q [] h = refl
count_both p q (u ∷ timers) h = ground (arith, h, count_both p q timers)

-- A cancel of a timer takes it out of an ordered set, and leaves every other timer in it, in order.
pub cancel_in_loop_lem :
    (t : Timer) (timers : List Timer) (p : Timer → Bool)
    → is_sorted timers ≡ true
    → (is_sorted (cancel_in_loop t timers) ≡ true)
      × (count (is_equal t) (cancel_in_loop t timers) ≡ 0)
      × (count p (cancel_in_loop t timers) + count (λ u. p u && is_equal t u) timers
          ≡ count p timers)
unfolding cancel_in_loop
cancel_in_loop_lem t [] p s = (refl, refl, refl)
cancel_in_loop_lem t (x ∷ timers) p s = elim (Bool-cases (is_equal t x)) [
  | inl found ↦
      let gone : count (is_equal t) timers ≡ 0 = equal_above t x timers found (ground (arith, s)) in
      let both : count (λ u. p u && is_equal t u) timers ≡ 0 =
        count_both p (is_equal t) timers gone in
      rw (found, both) (ground (arith, s), gone, ground arith)
  | inr other ↦
      let (sorted, gone, rest) = cancel_in_loop_lem t timers p (ground (arith, s)) in
      let (_, _, above) = cancel_in_loop_lem t timers (not_above x) (ground (arith, s)) in
      rw other
        (ground (arith, s, sorted, above), ground (arith, other, gone), ground (arith, other, rest))
]

place-count :
    (p : Timer → Bool) (t : Timer) (timers placed : List Timer)
    → place t timers ≡ some placed
    → count p placed ≡ count p (t ∷ timers)
unfolding place
place-count p t [] placed h = ap (count p) (sym (some-injective h))
place-count p t (x ∷ timers) placed h = elim (Bool-cases (less t x)) [
  | inl before ↦
      let here : some (t ∷ x ∷ timers) ≡ some placed = ground (arith, h, before) in
      ap (count p) (sym (some-injective here))
  | inr behind ↦
      let after : bind_option (place t timers) (λ rest. some (x ∷ rest)) ≡ some placed =
        ground (arith, h, behind) in
      let (rest, done, here) =
        bind_option-eq-some (place t timers) (λ rest. some (x ∷ rest)) after in
      ap (count p) (sym (some-injective here)) ∙ ground (arith, place-count p t timers rest done)
]

insert-count :
    (p : Timer → Bool) (t : Timer) (timers : List Timer) (r : List Timer × Bool)
    → insert t timers ≡ ok r
    → count p r.0 ≡ count p (t ∷ timers)
unfolding insert
insert-count p t timers r h = elim (Option-cases (place t timers)) [
  | inl none_left ↦ absurd (ground (arith, h, none_left))
  | inr (placed, done) ↦
      let same : ok (placed, is_first t timers) ≡ ok r =
        sym (ap (inserted (is_first t timers)) done) ∙ h in
      ap (λ (q : List Timer × Bool). count p q.0) (sym (ok-injective same))
      ∙ place-count p t timers placed done
]

reset_timers-count :
    (p : Timer → Bool) (list : List Timer) (now : ℕ) (timers timers' : List Timer)
    → reset_timers list now timers ≡ ok timers'
    → count p (next_round now list) + count p timers ≡ count p timers'
unfolding reset_timers
reset_timers-count p [] now timers timers' h = omega (arith, ap (count p) (ok-injective h))
reset_timers-count p (t ∷ list) now timers timers' h = elim (Bool-cases (is_repeat t)) [
  | inr once ↦ rw once (reset_timers-count p list now timers timers' (ground (arith, h, once)))
  | inl again ↦
      let t' : Timer = reset_expired now t in
      let next = λ (r : List Timer × Bool). reset_timers list now r.0 in
      let (r, put, rest) =
        >>=-eq-ok (insert t' timers) next (sym (reset_again t list now timers again) ∙ h) in
      let here = insert-count p t' timers r put in
      let behind = reset_timers-count p list now r.0 timers' rest in
      ap (λ l. count p l + count p timers) (next_again t list now again)
      ∙ omega (arith, count_move p t' timers (next_round now list), here, behind)
]

-- Whatever the callbacks do, a cancel of their own timers included: when `handleExpired` returns, every
-- repeating timer that expired is in the set again.
pub cancel_lost :
    (callback : Timer → List Op) (now tp : ℕ) (timers timers' : List Timer) (p : Timer → Bool)
    → handle_expired callback now tp timers ≡ ok timers'
    → count p (next_round now (lower_bound now tp timers).0) ≤ count p timers'
unfolding handle_expired
cancel_lost callback now tp timers timers' p h =
    let (cut, got, then_run) =
      >>=-eq-ok (get_expired now tp timers)
        (λ (cut : List Timer × List Timer).
          run_callbacks callback cut.0 cut.1 >>= reset_timers cut.0 now)
        h in
    let (mid, ran, reset) =
      >>=-eq-ok (run_callbacks callback cut.0 cut.1) (reset_timers cut.0 now) then_run in
    rw (get_expired_cut now tp timers cut got)
      (omega (arith, reset_timers-count p cut.0 now mid timers' reset))
