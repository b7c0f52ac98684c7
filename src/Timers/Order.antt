-- ===== src/Timers/Order.antt =====
-- sevent/net/Timer.cpp and sevent/net/TimerManager.cpp: the order of the set, and insertions.
use sevent.Base.{
  ℕ, ◌≡◌, refl, inl, inr, Bool, Bool-cases, true, not, ◌&&◌, some, List, [], ◌∷◌, arith, ◌==◌,
  if◌then◌else◌, suc,
}
use sevent.Timers.{Timer, less, place}

-- How many timers of the set satisfy a test.
abbrev pub count : (Timer → Bool) → List Timer → ℕ
count p [] = 0
count p (t ∷ timers) = if p t then suc (count p timers) else count p timers

abbrev pub not_above : Timer → Timer → Bool
not_above x y = not (less x y)

abbrev pub has_addr : ℕ → Timer → Bool
has_addr a t = t.addr == a

-- Every timer is before all that stand behind it.
abbrev pub is_sorted : List Timer → Bool
is_sorted [] = true
is_sorted (x ∷ timers) = (count (not_above x) timers == 0) && is_sorted timers

pub less_trans : (x y z : Timer) → less x y ≡ true → less y z ≡ true → less x z ≡ true
less_trans x y z h k = ground arith

above_trans :
    (x y : Timer) (timers : List Timer)
    → less x y ≡ true
    → count (not_above y) timers ≡ 0
    → count (not_above x) timers ≡ 0
above_trans x y [] h k = refl
above_trans x y (z ∷ timers) h k =
    ground (arith, h, k, above_trans x y timers h, less_trans x y z h)

-- The set after an insertion.
pub record Placed (t : Timer) (timers placed : List Timer) : Type 0 where
  pub sorted : is_sorted placed ≡ true
  pub same : (p : Timer → Bool) → count p placed ≡ count p (t ∷ timers)

-- An insertion of a timer whose address is new into an ordered set succeeds, keeps it ordered, and adds
-- exactly that timer.
pub place-Placed :
    (t : Timer) (timers : List Timer)
    → is_sorted timers ≡ true
    → count (has_addr t.addr) timers ≡ 0
    → (placed : List Timer) × (place t timers ≡ some placed) × Placed t timers placed
unfolding place
place-Placed t [] s f = (t ∷ [], refl, record { sorted = refl; same = λ p. refl })
place-Placed t (x ∷ timers) s f = elim (Bool-cases (less t x)) [
  | inl before ↦ (
    t ∷ x ∷ timers,
    rw before refl,
    record { sorted = ground (arith, s, before, above_trans t x timers before); same = λ p. refl },
  )
  | inr behind ↦
      let (placed, done, r) = place-Placed t timers (ground (arith, s)) (ground (arith, f)) in
      let above : less x t ≡ true = ground (arith, f, behind) in
      (
        x ∷ placed,
        rw (behind, above, done) refl,
        record {
          sorted = ground (arith, s, above, r.sorted, r.same (not_above x));
          same = λ p. ground (arith, r.same p);
        },
      )
]
