-- ===== src/Buffer/Search.antt =====
-- sevent/net/Buffer.cpp, findEOL and findCRLF. A position is an index into the vector, and the null
-- pointer is `none`.
use sevent.Base.{
  ℕ, zero, suc, ◌+◌, ◌-◌, ◌≤◌, ◌<◌, ◌≡◌, ap, subst, ◌∙◌, inl, inr, true, false, ◌&&◌, ◌||◌, Option,
  none, some, List, [], ◌∷◌, arith, ltb, ◌==◌, if◌then◌else◌, length, drop, get_elem?,
  get_elem?-take, get_elem?-drop, Bool-cases, le→ltb, ==_iff,
}
use sevent.Base.Memory.{slice, sub_size, length-slice}
use sevent.Buffer.{Buffer, readable_bytes}
use sevent.Buffer.Contents.{IsValid}
use mathlib.Core.Option

-- `memchr`: the index of the first `c`.
unfoldable pub mem_chr : List ℕ → ℕ → Option ℕ
mem_chr [] c = none
mem_chr (x ∷ xs) c = if x == c then some 0 else Option.map suc (mem_chr xs c)

-- `std::search` for `\r\n`: the index of the first one.
unfoldable pub search_crlf : List ℕ → Option ℕ
search_crlf [] = none
search_crlf (x ∷ []) = none
search_crlf (x ∷ y ∷ xs) =
    if (x == 13) && (y == 10) then some 0 else Option.map suc (search_crlf (y ∷ xs))

-- `findEOL(start)`
unfoldable pub find_eol_from : Buffer → ℕ → Option ℕ
unfolding mem_chr
find_eol_from b start =
    if ltb start b.read_index || ltb b.write_index start
    then none
    else Option.map (λ i. start + i)
        (mem_chr (slice b.bytes start (sub_size b.write_index start)) b'\n')

unfoldable pub find_eol : Buffer → Option ℕ
unfolding mem_chr
find_eol b =
    Option.map (λ i. b.read_index + i)
      (mem_chr (slice b.bytes b.read_index (readable_bytes b)) b'\n')

-- `findCRLF(start)`
unfoldable pub find_crlf_from : Buffer → ℕ → Option ℕ
unfolding search_crlf
find_crlf_from b start =
    if ltb start b.read_index || ltb b.write_index start
    then none
    else Option.map (λ i. start + i)
        (search_crlf (slice b.bytes start (sub_size b.write_index start)))

unfoldable pub find_crlf : Buffer → Option ℕ
unfolding find_crlf_from
find_crlf b = find_crlf_from b b.read_index

-- `r` is the first position from `start` on at which `At` holds.
abbrev pub IsFirst : ℕ → (ℕ → Type 0) → Option ℕ → Type 0
IsFirst start At none = (p : ℕ) → start ≤ p → ¬ At p
IsFirst start At (some i) = (start ≤ i) × At i × ((p : ℕ) → start ≤ p → p < i → ¬ At p)

-- The byte `c`, or the two bytes of CRLF, stand at `p` before `limit`.
abbrev pub HasByte : List ℕ → ℕ → ℕ → ℕ → Type 0
HasByte xs limit c p = (p < limit) × (get_elem? xs p ≡ some c)

abbrev pub HasCrlf : List ℕ → ℕ → ℕ → Type 0
HasCrlf xs limit p = HasByte xs limit 13 p × HasByte xs limit 10 (suc p)

module _ (At Below : ℕ → Type 0) where
  IsFirst-suc :
      (r : Option ℕ)
      → ¬ At 0
      → ((p : ℕ) → Below p → At (suc p))
      → ((p : ℕ) → At (suc p) → Below p)
      → IsFirst 0 Below r
      → IsFirst 0 At (Option.map suc r)
  IsFirst-suc none z up down f = nowhere
    where
      nowhere : (p : ℕ) → 0 ≤ p → ¬ At p
      nowhere zero h a = z a
      nowhere (suc p) h a = f p (omega arith) (down p a)
  IsFirst-suc (some i) z up down f = (omega arith, up i f.1, before)
    where
      before : (p : ℕ) → 0 ≤ p → p < suc i → ¬ At p
      before zero h l a = z a
      before (suc p) h l a = f.2 p (omega arith) (omega arith) (down p a)

  IsFirst-shift :
      (start : ℕ) (r : Option ℕ)
      → ((p : ℕ) → Below p → At (start + p))
      → ((p : ℕ) → At (start + p) → Below p)
      → IsFirst 0 Below r
      → IsFirst start At (Option.map (λ i. start + i) r)
  IsFirst-shift start none up down f = λ p h a.
      let e : p ≡ start + (p - start) = omega arith in
      f (p - start) (omega arith) (down (p - start) (subst At e a))
  IsFirst-shift start (some i) up down f = (omega arith, up i f.1, before)
    where
      before : (p : ℕ) → start ≤ p → p < start + i → ¬ At p
      before p h l a =
          let e : p ≡ start + (p - start) = omega arith in
          f.2 (p - start) (omega arith) (omega arith) (down (p - start) (subst At e a))

mem_chr-IsFirst : (xs : List ℕ) (c : ℕ) → IsFirst 0 (HasByte xs (length xs) c) (mem_chr xs c)
unfolding mem_chr
mem_chr-IsFirst [] c = λ p h a. omega arith
mem_chr-IsFirst (x ∷ xs) c = elim (Bool-cases (x == c)) [
  | inl e ↦
      rw e (omega arith, (omega arith, ap some ((==_iff x c).0 e)), λ p h l a. absurd (omega arith))
  | inr e ↦ rw e (
      IsFirst-suc (HasByte (x ∷ xs) (length (x ∷ xs)) c) (HasByte xs (length xs) c) (mem_chr xs c)
        (λ a. differs e a.1) (λ p a. (omega arith, a.1)) (λ p a. (omega arith, a.1))
        (mem_chr-IsFirst xs c))
]
  where
    differs : {x c : ℕ} → (x == c) ≡ false → some x ≡ some c → ⊥
    differs e h = ground arith

search_crlf-IsFirst : (xs : List ℕ) → IsFirst 0 (HasCrlf xs (length xs)) (search_crlf xs)
unfolding search_crlf
search_crlf-IsFirst [] = λ p h a. omega (arith, a.0.0)
search_crlf-IsFirst (x ∷ []) = λ p h a. omega (arith, a.1.0)
search_crlf-IsFirst (x ∷ y ∷ xs) = elim (Bool-cases ((x == 13) && (y == 10))) [
  | inl e ↦ rw e (omega arith, found xs e, λ p h l a. absurd (omega arith))
  | inr e ↦ rw e (
      IsFirst-suc (HasCrlf (x ∷ y ∷ xs) (length (x ∷ y ∷ xs))) (HasCrlf (y ∷ xs) (length (y ∷ xs)))
        (search_crlf (y ∷ xs)) (λ a. differs e a.0.1 a.1.1)
        (λ p a. ((omega (arith, a.0.0), a.0.1), (omega (arith, a.1.0), a.1.1)))
        (λ p a. ((omega (arith, a.0.0), a.0.1), (omega (arith, a.1.0), a.1.1)))
        (search_crlf-IsFirst (y ∷ xs)))
]
  where
    differs : {x y : ℕ} → ((x == 13) && (y == 10)) ≡ false → some x ≡ some 13 → some y ≡ some 10 → ⊥
    differs e h k = ground arith

    found :
        {x y : ℕ} (xs : List ℕ)
        → ((x == 13) && (y == 10)) ≡ true
        → HasCrlf (x ∷ y ∷ xs) (length (x ∷ y ∷ xs)) 0
    found xs e = ground arith

module _ {b : Buffer} (v : IsValid b) where
  get_elem?-slice :
      (start n j : ℕ) → j < n → get_elem? (slice b.bytes start n) j ≡ get_elem? b.bytes (start + j)
  get_elem?-slice start n j h =
      get_elem?-take n j (drop start b.bytes) h ∙ get_elem?-drop start j b.bytes

  module _ (start : ℕ) (lo : b.read_index ≤ start) (hi : start ≤ b.write_index) where
    -- What lies between `start` and `writePos()`.
    tail : List ℕ
    tail = slice b.bytes start (sub_size b.write_index start)

    length-tail : length tail ≡ b.write_index - start
    unfolding tail
    length-tail =
        omega (arith, length-slice b.bytes start (sub_size b.write_index start) (omega arith))

    HasByte-up :
        (c p : ℕ) → HasByte tail (length tail) c p → HasByte b.bytes b.write_index c (start + p)
    unfolding tail
    HasByte-up c p a = (
      omega (arith, length-tail, a.0),
      rw
          (← get_elem?-slice start (sub_size b.write_index start) p
            (omega (arith, length-tail, a.0)))
          a.1,
    )

    HasByte-down :
        (c p : ℕ) → HasByte b.bytes b.write_index c (start + p) → HasByte tail (length tail) c p
    unfolding tail
    HasByte-down c p a = (
      omega (arith, length-tail, a.0),
      rw (get_elem?-slice start (sub_size b.write_index start) p (omega (arith, length-tail, a.0)))
          a.1,
    )

    -- From any start inside the readable bytes, `findEOL` returns the first `\n` there, and the
    -- null pointer if and only if there is none.
    pub find_eol_from-IsFirst :
        IsFirst start (HasByte b.bytes b.write_index b'\n') (find_eol_from b start)
    unfolding find_eol_from tail
    find_eol_from-IsFirst =
        rw (le→ltb start b.read_index lo, le→ltb b.write_index start hi)
          (IsFirst-shift (HasByte b.bytes b.write_index b'\n') (HasByte tail (length tail) b'\n')
            start (mem_chr tail b'\n') (HasByte-up b'\n') (HasByte-down b'\n')
            (mem_chr-IsFirst tail b'\n'))

    -- From any start inside the readable bytes, `findCRLF` returns the first `\r\n` that lies wholly
    -- there, and the null pointer if there is none.
    pub find_crlf_from-IsFirst :
        IsFirst start (HasCrlf b.bytes b.write_index) (find_crlf_from b start)
    unfolding find_crlf_from tail
    find_crlf_from-IsFirst =
        rw (le→ltb start b.read_index lo, le→ltb b.write_index start hi)
          (IsFirst-shift (HasCrlf b.bytes b.write_index) (HasCrlf tail (length tail)) start
            (search_crlf tail)
            (λ p a. (HasByte-up 13 p a.0, rw (← next p) (HasByte-up 10 (suc p) a.1)))
            (λ p a. (HasByte-down 13 p a.0, HasByte-down 10 (suc p) (rw (next p) a.1)))
            (search_crlf-IsFirst tail))
      where
        next : (p : ℕ) → start + suc p ≡ suc (start + p)
        next p = omega arith
