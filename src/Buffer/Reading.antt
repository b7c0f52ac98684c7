-- ===== src/Buffer/Reading.antt =====
-- sevent/net/Buffer.cpp: taking readable bytes, and putting bytes in front of them.
use sevent.Base.{
  ℕ, ◌+◌, ◌-◌, ◌≤◌, ◌<◌, ◌≡◌, refl, ap, ◌∙◌, inl, inr, List, [], ◌++◌, arith, length, take, drop,
  ok, ltb, leb, Bool-cases, ltb→lt, ltb→ge, leb→le, leb→gt, min, length-take, drop-all, take-all,
}
use sevent.Base.Memory.{
  add_size, slice, splice, load_lem, store_lem, slice-splice_front, length-splice, drop-slice,
  take-slice,
}
use sevent.Buffer.{
  Buffer, prepends, readable_bytes, retrieve, retrieve_all, prepend, read_as_string, prepend_count,
}
use sevent.Buffer.Contents.{IsValid, contents, length-contents}

pub contents-empty : (b : Buffer) → b.write_index ≤ b.read_index → contents b ≡ []
contents-empty b h = let e : b.write_index - b.read_index ≡ 0 = omega arith in rw e refl

-- `retrieve` drops exactly `len` readable bytes, or all of them if there are fewer, and keeps the
-- buffer valid.
pub contents-retrieve :
    {b : Buffer} (len : ℕ)
    → IsValid b
    → IsValid (retrieve b len) × (contents (retrieve b len) ≡ drop len (contents b))
unfolding retrieve retrieve_all
contents-retrieve {b} len v = elim (Bool-cases (ltb len (readable_bytes b))) [
  | inl less ↦
      let h : len < readable_bytes b = ltb→lt len (readable_bytes b) less in
      let start : add_size b.read_index len ≡ b.read_index + len = omega arith in
      let count : b.write_index - (b.read_index + len) ≡ b.write_index - b.read_index - len =
        omega arith in
      rw less (omega arith, rw (start, count) (sym_drop b len (omega arith)))
  | inr all ↦ rw all (
    omega arith,
    rw
        (drop-all len (contents b)
          (omega (arith, length-contents v, ltb→ge len (readable_bytes b) all)))
        refl,
  )
]
  where
    sym_drop :
        (b : Buffer) (len : ℕ)
        → len ≤ b.write_index - b.read_index
        → slice b.bytes (b.read_index + len) (b.write_index - b.read_index - len)
          ≡ drop len (contents b)
    sym_drop b len h =
        rw (drop-slice b.bytes b.read_index len (b.write_index - b.read_index) h) refl

retrieve_all-IsValid : {b : Buffer} → IsValid b → IsValid (retrieve_all b)
unfolding retrieve_all
retrieve_all-IsValid v = omega arith

retrieve_all-contents : (b : Buffer) → contents (retrieve_all b) ≡ []
unfolding retrieve_all
retrieve_all-contents b = refl

-- `readAsString` returns the first `len` readable bytes, or all if there are fewer, and leaves the
-- rest.
pub read_as_string_lem :
    {b : Buffer} (len : ℕ)
    → IsValid b
    → (b' : Buffer) × (read_as_string b len ≡ ok (take len (contents b), b'))
      × IsValid b'
      × (contents b' ≡ drop len (contents b))
unfolding read_as_string
read_as_string_lem {b} len v = elim (Bool-cases (ltb (readable_bytes b) len)) [
  | inl more ↦
      let few : length (contents b) ≤ len =
        omega (arith, length-contents v, ltb→lt (readable_bytes b) len more) in
      let count : readable_bytes b ≡ b.write_index - b.read_index = omega arith in
      (
        retrieve_all b,
        rw
            (
              more,
              load_lem b.bytes b.read_index (readable_bytes b) (omega arith),
              count,
              take-all len (contents b) few,
            )
            refl,
        retrieve_all-IsValid v,
        rw (drop-all len (contents b) few) (retrieve_all-contents b),
      )
  | inr fits ↦
      let h : len ≤ readable_bytes b = ltb→ge (readable_bytes b) len fits in
      let kept = contents-retrieve len v in
      (
        retrieve b len,
        rw
            (
              fits,
              load_lem b.bytes b.read_index len (omega arith),
              take-slice b.bytes b.read_index len (b.write_index - b.read_index) (omega arith),
            )
            refl,
        kept.0,
        kept.1,
      )
]

prepend_count_lem : (b : Buffer) (xs : List ℕ) → prepend_count b xs ≡ min b.read_index (length xs)
unfolding prepend_count
prepend_count_lem b xs = ground arith

take-min {ℓ} : {A : Type ℓ} (n : ℕ) (xs : List A) → take (min n (length xs)) xs ≡ take n xs
take-min n xs = elim (Bool-cases (leb n (length xs))) [
  | inl h ↦ let e : min n (length xs) ≡ n = omega (arith, leb→le n (length xs) h) in rw e refl
  | inr h ↦
      let less : length xs < n = leb→gt n (length xs) h in
      let e : min n (length xs) ≡ length xs = omega arith in
      rw (e, take-all (length xs) xs (omega arith), take-all n xs (omega arith)) refl
]

-- `prepend` puts the first bytes of `xs` before the readable ones, as many as fit in front.
pub contents-prepend :
    {b : Buffer} (xs : List ℕ)
    → IsValid b
    → (b' : Buffer) × (prepend b xs ≡ ok b')
      × IsValid b'
      × (contents b' ≡ take b.read_index xs ++ contents b)
      × (b'.read_index ≡ b.read_index - length xs)
unfolding prepend
contents-prepend {b} xs v =
    let front : List ℕ = take b.read_index xs in
    let pos : ℕ = b.read_index - min b.read_index (length xs) in
    let size : length front ≡ min b.read_index (length xs) = length-take b.read_index xs in
    let h : pos + length front ≤ length b.bytes = omega arith in
    let span : b.write_index - pos ≡ length front + (b.write_index - b.read_index) = omega arith in
    let behind : pos + length front ≡ b.read_index = omega arith in
    (
      record b { bytes = splice b.bytes pos front; read_index = pos },
      rw (prepend_count_lem b xs, take-min b.read_index xs, store_lem b.bytes pos front h) refl,
      omega (arith, length-splice b.bytes pos front h),
      ap (slice (splice b.bytes pos front) pos) span
          ∙ slice-splice_front b.bytes pos (b.write_index - b.read_index) front h
          ∙ ap (λ p. front ++ slice b.bytes p (b.write_index - b.read_index)) behind,
      omega arith,
    )

-- `retrieve` moves no byte, and leaves an empty space in front as long as before.
pub retrieve-front :
    (b : Buffer) (n : ℕ)
    → IsValid b
    → prepends ≤ b.read_index
    → (prepends ≤ (retrieve b n).read_index) × (length (retrieve b n).bytes ≡ length b.bytes)
unfolding retrieve retrieve_all
retrieve-front b n v h = ground arith

pub readable-retrieve :
    {b : Buffer} (n : ℕ)
    → IsValid b
    → n ≤ readable_bytes b
    → readable_bytes (retrieve b n) ≡ readable_bytes b - n
unfolding retrieve retrieve_all
readable-retrieve n v h = ground arith
