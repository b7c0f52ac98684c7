-- ===== src/Examples/Idle/Buckets.antt =====
-- examples/connection/idleconnection.cpp: how long the buckets hold a connection.
use sevent.Base.{
  ℕ, suc, ◌-◌, ◌≡◌, refl, Bool-cases, inl, inr, true, false, not, ◌&&◌, ◌||◌, List, [], ◌∷◌, ◌++◌,
  ◌==◌, ltb, length, arith, if◌then◌else◌,
}
use sevent.Examples.Hub.{has, add}
use sevent.Examples.Hub.Subscribed.{has-add}
use sevent.Examples.Idle.{Wheel, held, only_here, insert_back, on_timer}

-- How many timers the connection has left: one more than the last bucket that holds it has before it.
abbrev pub life : List (List ℕ) → ℕ → ℕ
life [] c = 0
life (b ∷ bs) c = let rest = life bs c in if rest == 0 then (if has b c then 1 else 0) else suc rest

abbrev pub life_of : Wheel → ℕ → ℕ
life_of w c = life (w.front ++ w.back ∷ []) c

pub life-append :
    (bs : List (List ℕ)) (b : List ℕ) (c : ℕ)
    → life (bs ++ b ∷ []) c ≡ (if has b c then suc (length bs) else life bs c)
life-append [] b c = ground arith
life-append (x ∷ bs) b c = ground (arith, life-append bs b c)

pub held-life : (bs : List (List ℕ)) (c : ℕ) → held bs c ≡ ltb 0 (life bs c)
held-life [] c = ground arith
held-life (b ∷ bs) c = ground (arith, held-life bs c)

pub has-only_here :
    (ended b : List ℕ) (bs : List (List ℕ)) (c : ℕ)
    → has ended c ≡ false
    → has (only_here ended b bs) c ≡ (has b c && not (held bs c))
has-only_here ended [] bs c lives = refl
has-only_here ended (x ∷ b) bs c lives =
    let rest = has-only_here ended b bs c lives in
    elim (Bool-cases (x == c)) [
      | inl self ↦
          let e : x ≡ c = ground (arith, self) in
          elim (Bool-cases (held bs c)) [
            | inl kept ↦ rw (e, kept, rest, kept) ground arith
            | inr gone ↦
                let c_self : (c == c) ≡ true = ground arith in rw (e, gone, lives, c_self) refl
          ]
      | inr other ↦ elim (Bool-cases (held bs x || has ended x)) [
        | inl elsewhere ↦ rw (elsewhere, other) rest
        | inr alone ↦ rw (alone, other) rest
      ]
    ]

pub has-append : (xs ys : List ℕ) (c : ℕ) → has (xs ++ ys) c ≡ (has xs c || has ys c)
has-append [] ys c = refl
has-append (x ∷ xs) ys c = ground (arith, has-append xs ys c)

pub insert-life : (w : Wheel) (c : ℕ) → life_of (insert_back w c) c ≡ suc (length w.front)
unfolding insert_back
insert-life w c =
    let there : has (add w.back c) c ≡ true = ground (arith, has-add w.back c c) in
    rw (life-append w.front (add w.back c) c, there) refl

pub insert-other :
    (w : Wheel) (d c : ℕ) → (d == c) ≡ false → life_of (insert_back w d) c ≡ life_of w c
unfolding insert_back
insert-other w d c other =
    let same : has (add w.back d) c ≡ has w.back c = ground (arith, has-add w.back d c, other) in
    rw (life-append w.front (add w.back d) c, life-append w.front w.back c, same) refl

-- A timer takes one from each life, and shuts down the living connections that have one left.
pub on_timer-life :
    (ended : List ℕ) (front : List (List ℕ)) (back : List ℕ) (c : ℕ)
    → has ended c ≡ false
    → (life_of (on_timer ended front back).0 c ≡ life (front ++ back ∷ []) c - 1)
      × (has (on_timer ended front back).1 c ≡ (life (front ++ back ∷ []) c == 1))
unfolding on_timer
on_timer-life ended [] back c lives =
    (ground arith, ground (arith, has-only_here ended back [] c lives))
on_timer-life ended (b ∷ bs) back c lives =
    let rest = bs ++ back ∷ [] in
    (
      ground (arith, life-append rest [] c),
      ground (arith, has-only_here ended b rest c lives, held-life rest c),
    )
