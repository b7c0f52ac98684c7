-- ===== src/Buffer/Contents.antt =====
-- sevent/net/Buffer.cpp, `ensureSpace`: the readable bytes of a buffer, and space for more.
use sevent.Base.{
  ℕ, ◌+◌, ◌-◌, ◌≤◌, ◌<◌, ◌≡◌, refl, ap, ◌∙◌, ◌⊎◌, inl, inr, List, ◌++◌, arith, length, replicate,
  length-append, length-replicate, take-all, ok, le→leb, lt→leb, le→ltb, ltb, leb, Bool-cases,
  ltb→ge, leb→gt, leb→le, false,
}
use sevent.Base.Memory.{
  max_size, add_size, sub_size, slice, splice, resize, copy_within, store, slice-splice, slice-grow,
  length-splice, length-slice,
}
use sevent.Buffer.{
  Buffer, prepends, readable_bytes, writable_bytes, prependable_bytes, ensure_space, grow,
  move_to_front, make_space, assert_space, put,
}

-- The indices are in order and in the vector.
pub record IsValid (b : Buffer) : Type 0 where
  pub ordered : b.read_index ≤ b.write_index
  pub within : b.write_index ≤ length b.bytes
  pub front : prepends ≤ length b.bytes
  pub small : length b.bytes ≤ max_size

-- What the user can read.
abbrev pub contents : Buffer → List ℕ
contents b = slice b.bytes b.read_index (b.write_index - b.read_index)

-- There is space for `len` bytes, or no more was prepended than the vector has left at its end.
abbrev pub HasRoom : Buffer → ℕ → Type 0
HasRoom b len =
    (b.write_index + len ≤ length b.bytes)
    ⊎ (prepends + b.write_index ≤ length b.bytes + b.read_index)

pub length-contents : {b : Buffer} → IsValid b → length (contents b) ≡ readable_bytes b
length-contents {b} v =
    omega (arith, length-slice b.bytes b.read_index (b.write_index - b.read_index) (omega arith))

-- The result of `ensureSpace`: the same readable bytes, and `len` free bytes behind them.
pub record Ensured (b : Buffer) (len : ℕ) (b' : Buffer) : Type 0 where
  pub valid : IsValid b'
  pub same : contents b' ≡ contents b
  pub space : b'.write_index + len ≤ length b'.bytes
  pub front_kept : (b'.read_index ≡ b.read_index) ⊎ (b'.read_index ≡ prepends)
  pub bounded : length b'.bytes ≤ length b.bytes + len

resize_lem :
    (bytes : List ℕ) (n : ℕ)
    → length bytes ≤ n
    → n ≤ max_size
    → resize bytes n ≡ ok (bytes ++ replicate (n - length bytes) 0)
unfolding resize
resize_lem bytes n h m = rw (le→ltb max_size n m, take-all n bytes h)

module _ {b : Buffer} (v : IsValid b) (len : ℕ) (more : length b.bytes < b.write_index + len) where
  grow_lem :
      b.write_index + len ≤ max_size → (b' : Buffer) × (grow b len ≡ ok b') × Ensured b len b'
  unfolding grow
  grow_lem fits =
      let zeros : List ℕ = replicate (add_size b.write_index len - length b.bytes) 0 in
      let total : length (b.bytes ++ zeros) ≡ b.write_index + len =
        omega (arith, length-append b.bytes zeros, length-replicate {0} {A = ℕ}) in
      (
        record b { bytes = b.bytes ++ zeros },
        rw (resize_lem b.bytes (add_size b.write_index len) (omega arith) (omega arith)) refl,
        record {
          valid = omega arith;
          same = slice-grow b.bytes zeros b.read_index (b.write_index - b.read_index) (omega arith);
          space = omega arith;
          front_kept = inl refl;
          bounded = omega arith;
        },
      )

  move_lem :
      prepends + b.write_index + len ≤ length b.bytes + b.read_index
      → (b' : Buffer) × (move_to_front b ≡ ok b') × Ensured b len b'
  unfolding move_to_front copy_within
  move_lem fits =
      let n = readable_bytes b in
      let moved = slice b.bytes b.read_index n in
      let size : length moved ≡ n = length-slice b.bytes b.read_index n (omega arith) in
      let kept : length (splice b.bytes prepends moved) ≡ length b.bytes =
        length-splice b.bytes prepends moved (omega arith) in
      let readable_eq : n ≡ b.write_index - b.read_index = omega arith in
      let length_eq : add_size prepends n - prepends ≡ prepends - prepends + length moved =
        omega arith in
      (
        record {
          bytes = splice b.bytes prepends moved;
          read_index = prepends;
          write_index = add_size prepends n;
        },
        rw
            (
              le→leb (b.read_index + n) (length b.bytes) (omega arith),
              le→leb (prepends + n) (length b.bytes) (omega arith),
              lt→leb b.read_index prepends (omega arith),
            )
            refl,
        record {
          valid = omega arith;
          same =
              ap (slice (splice b.bytes prepends moved) prepends) length_eq
              ∙ slice-splice b.bytes prepends prepends moved (omega arith) (omega arith)
              ∙ ap (slice b.bytes b.read_index) readable_eq;
          space = omega arith;
          front_kept = inr refl;
          bounded = omega arith;
        },
      )

  room_to_move :
      prepends + b.write_index ≤ length b.bytes + b.read_index
      → ltb (sub_size (add_size (writable_bytes b) (prependable_bytes b)) prepends) len ≡ false
      → prepends + b.write_index + len ≤ length b.bytes + b.read_index
  room_to_move room e =
      omega (
        arith,
        ltb→ge (sub_size (add_size (writable_bytes b) (prependable_bytes b)) prepends) len e,
      )

  make_space_lem :
      prepends + b.write_index ≤ length b.bytes + b.read_index
      → b.write_index + len ≤ max_size
      → (b' : Buffer) × (make_space b len ≡ ok b') × Ensured b len b'
  unfolding make_space
  make_space_lem room fits =
      elim (Bool-cases
        (ltb (sub_size (add_size (writable_bytes b) (prependable_bytes b)) prepends) len)) [
          | inl few ↦ rw few (grow_lem fits)
          | inr enough ↦ rw enough (move_lem (room_to_move room enough))
        ]

assert_space_lem :
    {b : Buffer} (len : ℕ)
    → IsValid b
    → b.write_index + len ≤ length b.bytes
    → assert_space b len ≡ ok b
unfolding assert_space
assert_space_lem {b} len v h = rw (le→leb len (writable_bytes b) (omega arith)) refl

pub ensure_space_lem :
    {b : Buffer} (len : ℕ)
    → IsValid b
    → HasRoom b len
    → b.write_index + len ≤ max_size
    → (b' : Buffer) × (ensure_space b len ≡ ok b') × Ensured b len b'
unfolding ensure_space
ensure_space_lem {b} len v room fits = elim (Bool-cases (leb len (writable_bytes b))) [
  | inl free ↦ (
    b,
    rw free refl,
    record {
      valid = v;
      same = refl;
      space = omega (arith, leb→le len (writable_bytes b) free);
      front_kept = inl refl;
      bounded = omega arith;
    },
  )
  | inr full ↦
      let more : length b.bytes < b.write_index + len =
        omega (arith, leb→gt len (writable_bytes b) full) in
      let (b', made, e) = make_space_lem v len more (omega arith) fits in
      (b', rw (full, made) (assert_space_lem len e.valid e.space), e)
]

pub put_lem :
    {b : Buffer} (xs : List ℕ)
    → IsValid b
    → b.write_index + length xs ≤ length b.bytes
    → (b' : Buffer) × (put b xs ≡ ok b')
      × IsValid b'
      × (contents b' ≡ contents b ++ xs)
      × (b'.read_index ≡ b.read_index)
      × (b'.write_index ≡ b.write_index + length xs)
      × (length b'.bytes ≡ length b.bytes)
unfolding put store
put_lem {b} xs v h =
    let size : length (splice b.bytes b.write_index xs) ≡ length b.bytes =
      length-splice b.bytes b.write_index xs (omega arith) in
    let span : add_size b.write_index (length xs) - b.read_index
        ≡ b.write_index - b.read_index + length xs =
      omega arith in
    (
      record b {
        bytes = splice b.bytes b.write_index xs;
        write_index = add_size b.write_index (length xs);
      },
      rw (le→leb (b.write_index + length xs) (length b.bytes) (omega arith)) refl,
      omega arith,
      ap (slice (splice b.bytes b.write_index xs) b.read_index) span
          ∙ slice-splice b.bytes b.read_index b.write_index xs (omega arith) (omega arith),
      refl,
      omega arith,
      size,
    )
