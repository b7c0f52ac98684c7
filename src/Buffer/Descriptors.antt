-- ===== src/Buffer/Descriptors.antt =====
-- sevent/net/Buffer.cpp: what `readFd` and `writeFd` do with what the kernel delivers and takes.
use sevent.Base.{
  ℕ, ◌+◌, ◌-◌, ◌≤◌, ◌<◌, ◌≡◌, refl, sym, ap, ◌∙◌, ◌⊎◌, inl, inr, some, List, [], ◌∷◌, ◌++◌, arith,
  length, take, drop, ok, leb, ◌==◌, Bool-cases, leb→le, leb→gt, suc-ne-zero, ==_iff, length-take,
  length-drop, append_assoc, take-append-drop, append-nil,
}
use sevent.Base.Memory.{max_size, slice, splice, store_lem, slice-splice, length-splice}
use sevent.Buffer.{Buffer, prepends, readable_bytes, writable_bytes, read_fd, write_fd, scatter}
use sevent.Buffer.Contents.{IsValid, contents, put_lem}
use sevent.Buffer.Appending.{append-Appended, Appended}
use sevent.Buffer.Reading.{contents-retrieve}

-- The free space is filled, and the rest goes through the second buffer.
scatter_lem :
    {b : Buffer} (xs : List ℕ)
    → IsValid b
    → prepends ≤ b.read_index
    → writable_bytes b < length xs
    → length b.bytes + length xs ≤ max_size
    → (b' : Buffer) × (scatter b xs ≡ ok b') × Appended b xs b'
unfolding scatter
scatter_lem {b} xs v front more small =
    let n : ℕ = writable_bytes b in
    let room : length b.bytes - b.write_index ≡ n = omega arith in
    let first : length (take n xs) ≡ n = omega (arith, length-take n xs) in
    let h : b.write_index + length (take n xs) ≤ length b.bytes = omega arith in
    let size : length (splice b.bytes b.write_index (take n xs)) ≡ length b.bytes =
      length-splice b.bytes b.write_index (take n xs) h in
    let full : Buffer = record b {
      bytes = splice b.bytes b.write_index (take n xs);
      write_index = length b.bytes;
    } in
    let span : length b.bytes - b.read_index ≡ b.write_index - b.read_index + length (take n xs) =
      omega arith in
    let filled : contents full ≡ contents b ++ take n xs =
      ap (slice (splice b.bytes b.write_index (take n xs)) b.read_index) span
      ∙ slice-splice b.bytes b.read_index b.write_index (take n xs) (omega arith) h in
    let (b', done, a) =
      append-Appended {b = full} (drop n xs) (omega arith) (inr (omega arith))
        (omega (arith, length-drop n xs)) in
    (
      b',
      rw (store_lem b.bytes b.write_index (take n xs) h) done,
      record {
        valid = a.valid;
        added =
            a.added
            ∙ ap (λ l. l ++ drop n xs) filled
            ∙ append_assoc (contents b) (take n xs) (drop n xs)
            ∙ ap (◌++◌ (contents b)) (take-append-drop n xs);
        front_kept = a.front_kept;
        bounded = omega (arith, a.bounded, length-drop n xs);
      },
    )

-- `readFd` adds every byte that the kernel delivered, in order, though part of them may have gone
-- to the second buffer. What does not fit at the end needs an empty space in front.
pub read_fd_lem :
    {b : Buffer} (xs : List ℕ)
    → IsValid b
    → (b.write_index + length xs ≤ length b.bytes) ⊎ (prepends ≤ b.read_index)
    → length b.bytes + length xs ≤ max_size
    → (b' : Buffer) × (read_fd b (some xs) ≡ ok (some (length xs), b')) × Appended b xs b'
unfolding read_fd
read_fd_lem {b} [] v room small = (
  b,
  refl,
  record {
    valid = v;
    added = sym (append-nil (contents b));
    front_kept = inl refl;
    bounded = omega arith;
  },
)
read_fd_lem {b} (x ∷ xs) v room small =
    elim (Bool-cases (leb (length (x ∷ xs)) (writable_bytes b))) [
      | inl fits ↦
          let (b', done, valid, added, front, _, size) =
            put_lem (x ∷ xs) v (omega (arith, leb→le (length (x ∷ xs)) (writable_bytes b) fits)) in
          (
            b',
            rw (suc-ne-zero (length xs), fits, done) refl,
            record {
              valid = valid;
              added = added;
              front_kept = inl front;
              bounded = omega (arith, size);
            },
          )
      | inr more ↦
          let h : writable_bytes b < length (x ∷ xs) =
            leb→gt (length (x ∷ xs)) (writable_bytes b) more in
          let (b', done, a) = scatter_lem (x ∷ xs) v (omega arith) h (omega arith) in
          (b', rw (suc-ne-zero (length xs), more, done) refl, a)
    ]

-- `writeFd` drops exactly the bytes that the kernel took.
pub write_fd_lem :
    {b : Buffer} (n : ℕ)
    → IsValid b
    → n ≤ readable_bytes b
    → IsValid (write_fd b (some n)).1
      × (take n (contents b) ++ contents (write_fd b (some n)).1 ≡ contents b)
unfolding write_fd
write_fd_lem {b} n v h = elim (Bool-cases (n == 0)) [
  | inl e ↦ let z : n ≡ 0 = (==_iff n 0).0 e in rw e (v, rw z refl)
  | inr e ↦
      let kept = contents-retrieve n v in rw e (kept.0, rw kept.1 (take-append-drop n (contents b)))
]
