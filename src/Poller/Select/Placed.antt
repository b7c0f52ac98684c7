-- ===== src/Poller/Select/Placed.antt =====
-- sevent/net/poller/SelectPoller.cpp: the place of one channel in the map, among the others.
use sevent.Base.{
  ◌≡◌, ◌⊎◌, refl, ap, sym, Bool-cases, inl, inr, Bool, true, false, not, ◌&&◌, none, some, List, [],
  ◌∷◌, ◌++◌, arith, ltb, ◌==◌, if◌then◌else◌, ok, ◌∙◌,
}
use sevent.Base.Int.{ℤ, eq_ℤ}
use sevent.Channel.{Events, is_none_event, none_event}
use sevent.Poller.{Chan}
use sevent.Poller.Epoll.{ready, normal, removed, Op, updates, removes}
use sevent.Poller.Select.{find, insert, erase, store, update_channel, remove_channel, apply}

-- Another object, on another descriptor.
abbrev pub is_other : Chan → Chan → Bool
is_other c d = not (d.fd == c.fd) && not (d.id == c.id)

abbrev pub all_other : Chan → List Chan → Bool
all_other c [] = true
all_other c (d ∷ ds) = is_other c d && all_other c ds

pub all_other-append :
    (c : Chan) (xs ys : List Chan) → all_other c (xs ++ ys) ≡ (all_other c xs && all_other c ys)
all_other-append c [] ys = refl
all_other-append c (x ∷ xs) ys = ground (arith, all_other-append c xs ys)

find-other : (c : Chan) (ds : List Chan) → all_other c ds ≡ true → find ds c.fd ≡ none
find-other c [] h = refl
find-other c (d ∷ ds) h = ground (arith, find-other c ds)

find-placed :
    (c : Chan) (xs ys : List Chan) → all_other c xs ≡ true → find (xs ++ c ∷ ys) c.fd ≡ some c
find-placed c [] ys h = ground arith
find-placed c (x ∷ xs) ys h = ground (arith, find-placed c xs ys)

store-other : (c : Chan) (ds : List Chan) → all_other c ds ≡ true → store ds c ≡ ds
store-other c [] h = refl
store-other c (d ∷ ds) h =
    let e : (d.id == c.id) ≡ false = ground (arith, h) in
    rw (e, store-other c ds (ground (arith, h))) refl

store-placed :
    (c c' : Chan) (xs ys : List Chan)
    → c.id ≡ c'.id
    → all_other c' xs ≡ true
    → all_other c' ys ≡ true
    → store (xs ++ c ∷ ys) c' ≡ xs ++ c' ∷ ys
store-placed c c' [] ys e h k =
    let same : (c.id == c'.id) ≡ true = ground arith in rw (same, store-other c' ys k) refl
store-placed c c' (x ∷ xs) ys e h k =
    let differs : (x.id == c'.id) ≡ false = ground (arith, h) in
    rw (differs, store-placed c c' xs ys e (ground (arith, h)) k) refl

erase-other : (c : Chan) (ds : List Chan) → all_other c ds ≡ true → erase ds c.fd ≡ ds
erase-other c [] h = refl
erase-other c (d ∷ ds) h =
    let e : (d.fd == c.fd) ≡ false = ground (arith, h) in
    rw (e, erase-other c ds (ground (arith, h))) refl

erase-placed :
    (c : Chan) (xs ys : List Chan)
    → all_other c xs ≡ true
    → all_other c ys ≡ true
    → erase (xs ++ c ∷ ys) c.fd ≡ xs ++ ys
erase-placed c [] ys h k =
    let same : (c.fd == c.fd) ≡ true = ground arith in rw (same, erase-other c ys k) refl
erase-placed c (x ∷ xs) ys h k =
    let differs : (x.fd == c.fd) ≡ false = ground (arith, h) in
    rw (differs, erase-placed c xs ys (ground (arith, h)) k) refl

insert-placed :
    (c : Chan) (ds : List Chan)
    → all_other c ds ≡ true
    → (xs : List Chan) × (ys : List Chan) × (ds ≡ xs ++ ys) × (insert ds c ≡ xs ++ c ∷ ys)
insert-placed c [] h = ([], [], refl, refl)
insert-placed c (d ∷ ds) h =
    let differs : (c.fd == d.fd) ≡ false = ground (arith, h) in
    elim (Bool-cases (ltb c.fd d.fd)) [
      | inl first ↦ ([], d ∷ ds, refl, rw (differs, first) refl)
      | inr later ↦
          let (xs, ys, e, i) = insert-placed c ds (ground (arith, h)) in
          (d ∷ xs, ys, ap (◌∷◌ d) e, rw (differs, later, i) refl)
    ]

-- The status of the channel and its place in the map agree, and the others are `others`.
abbrev pub IsPlaced : List Chan → List Chan → Chan → Type 0
IsPlaced others cs c =
    ((c.index ≡ ready) × (cs ≡ others))
    ⊎ ((xs : List Chan) × (ys : List Chan) × ((c.index ≡ normal) ⊎ (c.index ≡ removed))
        × (others ≡ xs ++ ys)
        × (cs ≡ xs ++ c ∷ ys))

abbrev status_after : ℤ → Events → ℤ
status_after status e =
    if eq_ℤ status normal then (if is_none_event e then removed else normal) else normal

-- The channel after an operation of its owner.
abbrev pub moved : Chan → Op → Chan
moved c (updates e) = record c { index = status_after c.index e; events = e }
moved c removes = record c { index = ready; events = none_event }

pub apart :
    (c : Chan) (others xs ys : List Chan)
    → others ≡ xs ++ ys
    → all_other c others ≡ true
    → (all_other c xs ≡ true) × (all_other c ys ≡ true)
apart c others xs ys split h =
    let both : (all_other c xs && all_other c ys) ≡ true =
      sym (all_other-append c xs ys) ∙ ap (all_other c) (sym split) ∙ h in
    (ground (arith, both), ground (arith, both))

status_after_cases :
    (status : ℤ) (e : Events) → (status_after status e ≡ normal) ⊎ (status_after status e ≡ removed)
status_after_cases status e = elim (Bool-cases (eq_ℤ status normal)) [
  | inl n ↦ elim (Bool-cases (is_none_event e)) [
    | inl empty ↦ rw (n, empty) (inr refl)
    | inr asks ↦ rw (n, asks) (inl refl)
  ]
  | inr n ↦ rw n (inl refl)
]

update-found :
    (cs : List Chan) (c : Chan) (e : Events)
    → find cs c.fd ≡ some c
    → (c.index ≡ normal) ⊎ (c.index ≡ removed)
    → apply cs c (updates e) ≡ ok (store cs (moved c (updates e)), moved c (updates e))
unfolding apply update_channel
update-found cs c e f (inl n) =
    let same : (c.id == c.id) ≡ true = ground arith in
    elim (Bool-cases (is_none_event e)) [
      | inl empty ↦ rw (n, f, same, empty) refl
      | inr asks ↦ rw (n, f, same, asks) refl
    ]
update-found cs c e f (inr r) = rw r refl

update-IsPlaced :
    (others cs : List Chan) (c : Chan) (e : Events)
    → all_other c others ≡ true
    → IsPlaced others cs c
    → (cs' : List Chan) × (apply cs c (updates e) ≡ ok (cs', moved c (updates e)))
      × IsPlaced others cs' (moved c (updates e))
unfolding apply update_channel
update-IsPlaced others cs c e h (inl (i, same)) =
    let (xs, ys, split, inserted) =
      insert-placed (record c { index = normal; events = e }) others h in
    (
      xs ++ moved c (updates e) ∷ ys,
      rw (same, find-other c others h, i, inserted) refl,
      inr (xs, ys, rw i (inl refl), split, refl),
    )
update-IsPlaced others cs c e h (inr (xs, ys, i, split, placed)) =
    let c' = moved c (updates e) in
    let both = apart c others xs ys split h in
    let found : find (xs ++ c ∷ ys) c.fd ≡ some c = find-placed c xs ys both.0 in
    let stored = store-placed c c' xs ys refl both.0 both.1 in
    (
      xs ++ c' ∷ ys,
      rw placed (update-found (xs ++ c ∷ ys) c e found i ∙ ap (λ ds. ok (ds, c')) stored),
      inr (xs, ys, status_after_cases c.index e, split, refl),
    )

pub op-IsPlaced :
    (others cs : List Chan) (c : Chan) (op : Op)
    → all_other c others ≡ true
    → IsPlaced others cs c
    → (cs' : List Chan) × (apply cs c op ≡ ok (cs', moved c op)) × IsPlaced others cs' (moved c op)
unfolding apply remove_channel
op-IsPlaced others cs c (updates e) h p = update-IsPlaced others cs c e h p
op-IsPlaced others cs c removes h (inl (i, same)) =
    (others, rw (same, erase-other c others h) refl, inl (refl, refl))
op-IsPlaced others cs c removes h (inr (xs, ys, i, split, placed)) =
    let both = apart c others xs ys split h in
    (xs ++ ys, rw (placed, erase-placed c xs ys both.0 both.1) refl, inl (refl, sym split))
