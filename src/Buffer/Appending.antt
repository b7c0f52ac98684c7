-- ===== src/Buffer/Appending.antt =====
-- sevent/net/Buffer.cpp: what `append` does, and where it fails.
use sevent.Base.{
  ℕ, ◌+◌, ◌≤◌, ◌<◌, ◌≡◌, refl, ◌⊎◌, List, ◌++◌, arith, length, ok, err, out_of_bounds, le→leb,
  lt→leb, le→ltb,
}
use sevent.Base.Memory.{max_size, add_size, sub_size, copy_within}
use sevent.Buffer.{
  Buffer, prepends, readable_bytes, writable_bytes, prependable_bytes, ensure_space, append,
  move_to_front, make_space,
}
use sevent.Buffer.Contents.{IsValid, contents, HasRoom, ensure_space_lem, put_lem}

-- What `append` owes its caller: `xs` stands behind what was readable, and the vector grew by no more
-- than `xs`.
pub record Appended (b : Buffer) (xs : List ℕ) (b' : Buffer) : Type 0 where
  pub valid : IsValid b'
  pub added : contents b' ≡ contents b ++ xs
  pub front_kept : (b'.read_index ≡ b.read_index) ⊎ (b'.read_index ≡ prepends)
  pub bounded : length b'.bytes ≤ length b.bytes + length xs

-- On every valid buffer that has room for `xs` and whose vector need not exceed `max_size`,
-- `append` returns a valid buffer: the old readable bytes in their order, then `xs`.
pub append-Appended :
    {b : Buffer} (xs : List ℕ)
    → IsValid b
    → HasRoom b (length xs)
    → b.write_index + length xs ≤ max_size
    → (b' : Buffer) × (append b xs ≡ ok b') × Appended b xs b'
unfolding append
append-Appended {b} xs v room fits =
    let (b₁, ensured, e) = ensure_space_lem (length xs) v room fits in
    let (b₂, put_ok, valid, added, front, _, size) = put_lem xs e.valid e.space in
    (
      b₂,
      rw (ensured, put_ok) refl,
      record {
        valid = valid;
        added = rw (← e.same) added;
        front_kept = rw front e.front_kept;
        bounded = omega (arith, e.bounded);
      },
    )

-- Where more was prepended than the vector has left at its end, and `len` bytes do not fit there,
-- `append` moves the readable bytes past the end of the vector: `writableBytes() +
-- prependableBytes() - prepends` is negative, and wraps to a large `size_t`.
pub append_after_prepend :
    {b : Buffer} (xs : List ℕ)
    → IsValid b
    → length b.bytes + b.read_index < prepends + b.write_index
    → length b.bytes < b.write_index + length xs
    → length xs ≤ max_size
    → append b xs ≡ err out_of_bounds
unfolding append ensure_space make_space move_to_front copy_within
append_after_prepend {b} xs v over more small =
    rw
      (
        lt→leb (length xs) (writable_bytes b) (omega arith),
        le→ltb (sub_size (add_size (writable_bytes b) (prependable_bytes b)) prepends) (length xs)
            (omega arith),
        le→leb (b.read_index + readable_bytes b) (length b.bytes) (omega arith),
        lt→leb (prepends + readable_bytes b) (length b.bytes) (omega arith),
      )
      refl
