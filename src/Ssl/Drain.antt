-- ===== src/Ssl/Drain.antt =====
-- sevent/net/ssl/SslContext.cpp, `bioRead` and `sslRead`: everything that is pending is read.
use sevent.Base.{
  ℕ, zero, suc, ◌+◌, ◌*◌, ◌≤◌, ◌<◌, ◌≡◌, refl, ap, sym, ◌∙◌, inl, inr, Bool-cases, Option, some,
  List, [], ◌∷◌, ◌++◌, append_assoc, append-nil, arith, ltb, ◌==◌, length, length-append, ltb→ge,
  if◌then◌else◌, Result, ok, ◌>>=◌,
}
use sevent.Base.Memory.{max_size, add_size, splice, length-splice, store_lem}
use sevent.Buffer.{Buffer, prepends, readable_bytes, writable_bytes, ensure_space, advance, put}
use sevent.Buffer.Contents.{IsValid, contents, ensure_space_lem, put_lem, length-contents}
use sevent.Ssl.{take_in, drain}

-- A buffer that bytes can be read into: valid, with its front, and not full.
pub record IsOpen (b : Buffer) : Type 0 where
  pub valid : IsValid b
  pub fronted : prepends ≤ b.read_index
  pub free : b.write_index < length b.bytes

advance_lem :
    (b : Buffer) (n : ℕ)
    → IsValid b
    → b.write_index + n ≤ length b.bytes
    → advance b n ≡ record b { write_index = add_size b.write_index n }
unfolding advance
advance_lem b n v h = elim (Bool-cases (ltb n (writable_bytes b))) [
  | inl few ↦ rw few refl
  | inr all ↦
      let e : add_size b.write_index n ≡ length b.bytes =
        omega (arith, ltb→ge n (writable_bytes b) all) in
      rw (all, e) refl
]

-- One read: its bytes stand behind the others, and the buffer is open again.
record Taken (b : Buffer) (xs : List ℕ) (b' : Buffer) : Type 0 where
  is_open : IsOpen b'
  added : contents b' ≡ contents b ++ xs
  bounded : b'.write_index ≤ b.write_index + length xs

abbrev settle : Buffer → Result Buffer
settle b = if writable_bytes b == 0 then ensure_space b (length b.bytes) else ok b

take_in-put :
    (b : Buffer) (xs : List ℕ)
    → IsValid b
    → b.write_index + length xs ≤ length b.bytes
    → take_in b xs ≡ (put b xs >>= settle)
unfolding take_in put
take_in-put b xs v h =
    let kept = length-splice b.bytes b.write_index xs h in
    let wide : Buffer = record b { bytes = splice b.bytes b.write_index xs } in
    rw
      (
        store_lem b.bytes b.write_index xs h,
        advance_lem wide (length xs) (omega arith) (omega arith),
      )
      refl

-- After `ensureSpace` the buffer is open, with the same bytes, which end no later than before.
pub ensure_space-IsOpen :
    (b : Buffer) (len : ℕ)
    → IsValid b
    → prepends ≤ b.read_index
    → 1 ≤ len
    → b.write_index + len ≤ max_size
    → (b' : Buffer) × (ensure_space b len ≡ ok b')
      × IsOpen b'
      × (contents b' ≡ contents b)
      × (b'.write_index ≤ b.write_index)
ensure_space-IsOpen b len v front some_space small =
    let (b', made, e) = ensure_space_lem len v (inr (omega arith)) small in
    let fronted : prepends ≤ b'.read_index = ground (arith, e.front_kept) in
    let same : readable_bytes b' ≡ readable_bytes b =
      sym (length-contents e.valid) ∙ ap length e.same ∙ length-contents v in
    (
      b',
      made,
      record { valid = e.valid; fronted = fronted; free = omega (arith, e.space) },
      e.same,
      elim e.front_kept [
        | inl r ↦ omega (arith, same, r, e.valid.ordered, e.valid.within, e.valid.small)
        | inr r ↦ omega (arith, same, r, e.valid.ordered, e.valid.within, e.valid.small)
      ],
    )

settle_lem :
    (b : Buffer)
    → IsValid b
    → prepends ≤ b.read_index
    → 2 * b.write_index ≤ max_size
    → (b' : Buffer) × (settle b ≡ ok b')
      × IsOpen b'
      × (contents b' ≡ contents b)
      × (b'.write_index ≤ b.write_index)
settle_lem b v front small = elim (Bool-cases (writable_bytes b == 0)) [
  | inl full ↦
      let at_end : b.write_index ≡ length b.bytes = ground (arith, v.within, v.small, full) in
      let (b', made, opened, same, back) =
        ensure_space-IsOpen b (length b.bytes) v front (omega (arith, v.front)) (omega arith) in
      (b', rw (full, made) refl, opened, same, back)
  | inr free ↦ (
    b,
    rw free refl,
    record { valid = v; fronted = front; free = ground (arith, v.within, v.small, free) },
    refl,
    omega arith,
  )
]

take_in-Taken :
    (b : Buffer) (xs : List ℕ)
    → IsOpen b
    → b.write_index + length xs ≤ length b.bytes
    → 2 * (b.write_index + length xs) ≤ max_size
    → (b' : Buffer) × (take_in b xs ≡ ok b') × Taken b xs b'
take_in-Taken b xs o h small =
    let (b₁, done, valid, added, front, end_index, size) = put_lem xs o.valid h in
    let (b₂, settled, opened, same, back) =
      settle_lem b₁ valid (rw front o.fronted) (rw end_index small) in
    (
      b₂,
      take_in-put b xs o.valid h ∙ rw (done, settled) refl,
      record { is_open = opened; added = same ∙ added; bounded = omega (arith, end_index, back) },
    )

-- What the manual says of `BIO_read` on a memory BIO and of `SSL_read`: the bytes that are pending are
-- read in order, at most as many as are asked for, and one at least if there are any.
pub record Pending {S R : Type 0} (read : S → ℕ → List ℕ × R × S) : Type 0 where
  pub pending : S → List ℕ
  pub in_order : (s : S) (n : ℕ) → (read s n).0 ++ pending (read s n).2 ≡ pending s
  pub at_most : (s : S) (n : ℕ) → length (read s n).0 ≤ n
  pub progress : (s : S) (n : ℕ) → 1 ≤ n → 1 ≤ length (pending s) → 1 ≤ length (read s n).0

-- Everything was read: it stands behind what the buffer had, and nothing is pending.
pub record Drained {S R : Type 0} {read : S → ℕ → List ℕ × R × S} (p : Pending read) (count : ℕ)
    (s : S) (b : Buffer) (r : Option (Result (ℕ × R × S × Buffer))) : Type 0 where
  pub code : R
  pub s' : S
  pub b' : Buffer
  pub returned : r ≡ some (ok (count + length (p.pending s), code, s', b'))
  pub is_open : IsOpen b'
  pub added : contents b' ≡ contents b ++ p.pending s
  pub nothing_left : p.pending s' ≡ []

nil_of : (xs : List ℕ) → length xs ≡ 0 → xs ≡ []
nil_of [] h = refl
nil_of (x ∷ xs) h = absurd (omega arith)

module _ {S R : Type 0} {read : S → ℕ → List ℕ × R × S} (p : Pending read) where
  none_pending : (s : S) (n : ℕ) → 1 ≤ n → length (read s n).0 ≡ 0 → length (p.pending s) ≡ 0
  none_pending s n h e = elim (Bool-cases (length (p.pending s) == 0)) [
    | inl z ↦ ground (arith, z)
    | inr some_left ↦ absurd (omega (arith, e, p.progress s n h (ground (arith, some_left))))
  ]

  -- Where more fuel is given than bytes are pending, and the buffer is open and may grow to
  -- twice what it will hold, the loop returns: every pending byte stands behind what the buffer had, in
  -- order, none is pending, the number is right, and the buffer is open again.
  pub drain-Drained :
      (fuel count : ℕ) (s : S) (b : Buffer)
      → length (p.pending s) < fuel
      → IsOpen b
      → 2 * (b.write_index + length (p.pending s)) ≤ max_size
      → Drained p count s b (drain read fuel count s b)
  unfolding drain
  drain-Drained zero count s b f o small = absurd (omega arith)
  drain-Drained (suc fuel) count s b f o small =
      let n = writable_bytes b in
      let xs = (read s n).0 in
      let s₁ = (read s n).2 in
      let split = p.in_order s n in
      let lengths : length xs + length (p.pending s₁) ≡ length (p.pending s) =
        sym (length-append xs (p.pending s₁)) ∙ ap length split in
      elim (Bool-cases (length xs == 0)) [
        | inl stop ↦
            let none_left : length (p.pending s) ≡ 0 =
              none_pending s n (omega arith) (ground (arith, stop)) in
            let empty = nil_of (p.pending s) none_left in
            record {
              code = (read s n).1;
              s' = s₁;
              b' = b;
              returned =
                  rw (stop, none_left) (ap (λ k. some (ok (k, (read s n).1, s₁, b))) (omega arith));
              is_open = o;
              added = rw empty (sym (append-nil (contents b)));
              nothing_left = nil_of (p.pending s₁) (omega (arith, lengths));
            }
        | inr more ↦
            let (b₁, taken, t) =
              take_in-Taken b xs o (omega (arith, p.at_most s n)) (omega arith) in
            let d =
              drain-Drained fuel (count + length xs) s₁ b₁ (ground (arith, more, lengths, f))
                t.is_open (omega (arith, t.bounded)) in
            let counted : count + length xs + length (p.pending s₁) ≡ count + length (p.pending s) =
              omega (arith, lengths) in
            record {
              code = d.code;
              s' = d.s';
              b' = d.b';
              returned =
                  rw (more, taken)
                    (d.returned ∙ ap (λ k. some (ok (k, d.code, d.s', d.b'))) counted);
              is_open = d.is_open;
              added =
                  d.added
                  ∙ ap (λ l. l ++ p.pending s₁) t.added
                  ∙ append_assoc (contents b) xs (p.pending s₁)
                  ∙ ap (◌++◌ (contents b)) split;
              nothing_left = d.nothing_left;
            }
      ]
