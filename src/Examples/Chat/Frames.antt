-- ===== src/Examples/Chat/Frames.antt =====
-- examples/chat/LengthHeaderCodec.h: what is received is what was sent.
use sevent.Base.{
  ℕ, zero, suc, ◌+◌, ◌-◌, ◌≤◌, ◌<◌, ◌^◌, ◌%◌, ◌&&◌, ◌≡◌, ◌⊎◌, refl, sym, ap, ◌∙◌, Bool, inl, inr,
  true, false, some, List, [], ◌∷◌, ◌++◌, append_assoc, append-nil, leb→le, arith, ltb, leb, length,
  length-append, drop, take-all, take-append_le, drop-append_length, lt→ltb, le→ltb, le→leb, lt→leb,
  ok, ok-injective, >>=-eq-ok, bind_run,
}
use sevent.Base.Bytes.{big_endian, length-big_endian}
use sevent.Base.Memory.{add_size, slice, load, load_lem, take-slice}
use sevent.Buffer.{Buffer, prepends, create, initial_size, readable_bytes, retrieve, append}
use sevent.Buffer.Contents.{IsValid, contents, length-contents}
use sevent.Buffer.Appending.{append-Appended}
use sevent.Buffer.Reading.{contents-retrieve, contents-prepend}
use sevent.Buffer.Codec.{Endian, peek_int, read_int, prepend_int, read_int-wire, host_to_net-wire}
use sevent.Examples.Chat.{header_len, encode, is_invalid, decode_loop, on_message}

-- The bytes of a message on the wire.
abbrev pub frame : List ℕ → List ℕ
frame msg = big_endian 4 (length msg) ++ msg

create-IsValid : IsValid (create initial_size)
unfolding create
create-IsValid = omega arith

fresh-append :
    (msg : List ℕ)
    → length msg < 2 ^ 32
    → (b : Buffer) × (append (create initial_size) msg ≡ ok b)
      × IsValid b
      × (contents b ≡ msg)
      × (prepends ≤ b.read_index)
unfolding create
fresh-append msg h =
    let (b, appended, a) =
      append-Appended {b = create initial_size} msg create-IsValid (inr (omega arith))
        (omega arith) in
    (b, appended, a.valid, a.added, ground (arith, a.front_kept))

prepend_int-frame :
    (e : Endian) (n : ℕ) (b : Buffer)
    → IsValid b
    → prepends ≤ b.read_index
    → (b' : Buffer) × (prepend_int e 4 b n ≡ ok b')
      × IsValid b'
      × (contents b' ≡ big_endian 4 n ++ contents b)
unfolding prepend_int
prepend_int-frame e n b v front =
    let size : length (big_endian 4 n) ≡ 4 = length-big_endian 4 n in
    let (b', prepended, valid, added, _) = contents-prepend (big_endian 4 n) v in
    (
      b',
      rw (host_to_net-wire e 4 n) prepended,
      valid,
      added ∙ ap (λ l. l ++ contents b) (take-all b.read_index (big_endian 4 n) (omega arith)),
    )

-- `send` makes the frame of a message.
encode-frame :
    (e : Endian) (msg : List ℕ)
    → length msg < 2 ^ 32
    → (b : Buffer) × (encode e msg ≡ ok b) × IsValid b × (contents b ≡ frame msg)
unfolding encode
encode-frame e msg h =
    let small : length msg % 2 ^ 32 ≡ length msg = omega arith in
    let (b, appended, valid, same, front) = fresh-append msg h in
    let (b', prepended, valid', added) = prepend_int-frame e (length msg) b valid front in
    (b', rw (appended, small) prepended, valid', added ∙ ap (◌++◌ (big_endian 4 (length msg))) same)

peek_int-wire :
    (e : Endian) (n : ℕ) (rest : List ℕ) (b : Buffer)
    → IsValid b
    → contents b ≡ big_endian 4 n ++ rest
    → n < 2 ^ 32
    → peek_int e 4 b ≡ ok n
unfolding read_int
peek_int-wire e n rest b v c h =
    let (b', got, _, _) = read_int-wire e 4 n rest v c (omega arith) in
    let (m, peeked, same) = >>=-eq-ok (peek_int e 4 b) (λ m. ok (m, retrieve b 4)) got in
    peeked ∙ ap ok (ap (λ p. p.0) (ok-injective same))

load-contents :
    (b : Buffer) (msg rest : List ℕ)
    → IsValid b
    → contents b ≡ msg ++ rest
    → load b.bytes b.read_index (length msg) ≡ ok msg
load-contents b msg rest v c =
    let l = length-append msg rest in
    let size : b.write_index - b.read_index ≡ length msg + length rest =
      omega (arith, length-contents v, ap length c, l) in
    let all : slice b.bytes b.read_index (length msg) ≡ msg =
      rw
        (
          ← take-slice b.bytes b.read_index (length msg) (b.write_index - b.read_index)
              (omega arith),
          c,
          take-append_le (length msg) msg rest (omega arith),
        )
        (take-all (length msg) msg (omega arith)) in
    rw (load_lem b.bytes b.read_index (length msg) (omega arith), all) refl

-- What follows the last whole message: too few bytes for a length, a message of which a part is missing,
-- or a length that is refused, and then the connection is shut down.
abbrev pub EndsWith : List ℕ → Bool → Type 0
EndsWith rest is_shut =
    ((is_shut ≡ false) × (length rest < 4))
    ⊎ ((n : ℕ) × (part : List ℕ) × (rest ≡ big_endian 4 n ++ part)
        × (n < 2 ^ 32)
        × (((is_shut ≡ false) × (n ≤ 65536) × (length part < n))
            ⊎ ((is_shut ≡ true) × (65536 < n))))

abbrev pub frames : List (List ℕ) → List ℕ → List ℕ
frames [] rest = rest
frames (m ∷ ms) rest = frame m ++ frames ms rest

abbrev pub all_short : List (List ℕ) → Bool
all_short [] = true
all_short (m ∷ ms) = leb (length m) 65536 && all_short ms

decode_loop-rest :
    (e : Endian) (rest : List ℕ) (is_shut : Bool) (fuel : ℕ) (b : Buffer)
    → IsValid b
    → contents b ≡ rest
    → EndsWith rest is_shut
    → decode_loop (suc fuel) e b ≡ some (ok (b, [], is_shut))
unfolding decode_loop
decode_loop-rest e rest is_shut fuel b v c (inl (open_still, few)) =
    let short : ltb (readable_bytes b) header_len ≡ true =
      lt→ltb (readable_bytes b) header_len (omega (arith, length-contents v, ap length c)) in
    rw (short, open_still) refl
decode_loop-rest e rest is_shut fuel b v c (inr (n, part, split, small, ends)) =
    let size : readable_bytes b ≡ 4 + length part = omega (
      arith,
      length-contents v,
      ap length (c ∙ split),
      length-append (big_endian 4 n) part,
      length-big_endian 4 n,
    ) in
    let enough : ltb (readable_bytes b) header_len ≡ false =
      le→ltb (readable_bytes b) header_len (omega arith) in
    let peeked = peek_int-wire e n part b v (c ∙ split) small in
    elim ends [
      | inl (open_still, valid, few) ↦
          let good : is_invalid n ≡ false = ground arith in
          let less : leb (add_size n header_len) (readable_bytes b) ≡ false =
            lt→leb (add_size n header_len) (readable_bytes b) (omega arith) in
          rw (enough, peeked, good, less, open_still) refl
      | inr (shuts, large) ↦
          let bad : is_invalid n ≡ true = ground arith in rw (enough, peeked, bad, shuts) refl
    ]

-- One frame at the front: its message is read, and the rest is left.
decode_loop-frame :
    (e : Endian) (msg rest : List ℕ) (fuel : ℕ) (b : Buffer)
    → IsValid b
    → contents b ≡ frame msg ++ rest
    → leb (length msg) 65536 ≡ true
    → (b' : Buffer) × IsValid b'
      × (contents b' ≡ rest)
      × (decode_loop (suc fuel) e b
          ≡ bind_run (decode_loop fuel e b') (λ r. some (ok (r.0, msg ∷ r.1, r.2))))
unfolding decode_loop
decode_loop-frame e msg rest fuel b v c short =
    let len = length msg in
    let bound : len ≤ 65536 = leb→le len 65536 short in
    let c' : contents b ≡ big_endian 4 len ++ (msg ++ rest) =
      c ∙ append_assoc (big_endian 4 len) msg rest in
    let size : readable_bytes b ≡ 4 + len + length rest = omega (
      arith,
      length-contents v,
      ap length c',
      length-append (big_endian 4 len) (msg ++ rest),
      length-append msg rest,
      length-big_endian 4 len,
    ) in
    let enough : ltb (readable_bytes b) header_len ≡ false =
      le→ltb (readable_bytes b) header_len (omega arith) in
    let good : is_invalid len ≡ false = ground (arith, bound) in
    let whole : leb (add_size len header_len) (readable_bytes b) ≡ true =
      le→leb (add_size len header_len) (readable_bytes b) (omega arith) in
    let peeked = peek_int-wire e len (msg ++ rest) b v c' (omega arith) in
    let headless = contents-retrieve {b = b} 4 v in
    let body : contents (retrieve b 4) ≡ msg ++ rest =
      headless.1
      ∙ ap (drop 4) c'
      ∙ drop-append_length 4 (big_endian 4 len) (msg ++ rest) (length-big_endian 4 len) in
    let loaded = load-contents (retrieve b 4) msg rest headless.0 body in
    let tail = contents-retrieve {b = retrieve b 4} len headless.0 in
    (
      retrieve (retrieve b 4) len,
      tail.0,
      tail.1 ∙ ap (drop len) body ∙ drop-append_length len msg rest refl,
      rw (enough, peeked, good, whole, loaded) refl,
    )

decode_loop-frames :
    (e : Endian) (ms : List (List ℕ)) (rest : List ℕ) (is_shut : Bool) (fuel : ℕ) (b : Buffer)
    → IsValid b
    → contents b ≡ frames ms rest
    → all_short ms ≡ true
    → EndsWith rest is_shut
    → length (frames ms rest) < fuel
    → (b' : Buffer) × (decode_loop fuel e b ≡ some (ok (b', ms, is_shut)))
      × IsValid b'
      × (contents b' ≡ rest)
decode_loop-frames e ms rest is_shut zero b v c short ends f = absurd (omega arith)
decode_loop-frames e [] rest is_shut (suc fuel) b v c short ends f =
    (b, decode_loop-rest e rest is_shut fuel b v c ends, v, c)
decode_loop-frames e (m ∷ ms) rest is_shut (suc fuel) b v c short ends f =
    let more = frames ms rest in
    let (b₁, v₁, c₁, stepped) = decode_loop-frame e m more fuel b v c (ground (arith, short)) in
    let (b', done, v', c') =
      decode_loop-frames e ms rest is_shut fuel b₁ v₁ c₁ (ground (arith, short)) ends (
        omega (
          arith,
          length-append (frame m) more,
          length-append (big_endian 4 (length m)) m,
          length-big_endian 4 (length m),
        )) in
    (b', stepped ∙ rw done refl, v', c')

-- A valid buffer that has the frames of some messages of at most 65536 bytes, and then too few bytes for
-- a length, a message of which a part is missing, or a length that is refused: onMessage returns, with
-- the messages in order, the rest is what stays readable, and the connection is shut down exactly if the
-- next length is refused.
pub on_message-frames :
    (e : Endian) (ms : List (List ℕ)) (rest : List ℕ) (is_shut : Bool) {b : Buffer}
    → IsValid b
    → contents b ≡ frames ms rest
    → all_short ms ≡ true
    → EndsWith rest is_shut
    → (b' : Buffer) × (on_message e b ≡ some (ok (b', ms, is_shut)))
      × IsValid b'
      × (contents b' ≡ rest)
unfolding on_message
on_message-frames e ms rest is_shut {b} v c short ends =
    decode_loop-frames e ms rest is_shut (suc (readable_bytes b)) b v c short ends
      (omega (arith, length-contents v, ap length c))

-- What send makes of a message that is not too long, a receiver reads back, whatever the byte orders of
-- the two machines, and its buffer is empty then.
pub on_message-encode :
    (sender receiver : Endian) (msg : List ℕ)
    → length msg ≤ 65536
    → (b : Buffer) × (b' : Buffer) × (encode sender msg ≡ ok b)
      × (on_message receiver b ≡ some (ok (b', msg ∷ [], false)))
      × (contents b' ≡ [])
on_message-encode sender receiver msg h =
    let (b, sent, v, c) = encode-frame sender msg (omega arith) in
    let (b', got, _, empty) =
      on_message-frames receiver (msg ∷ []) [] false v (c ∙ sym (append-nil (frame msg)))
        (ground arith) (inl (refl, omega arith)) in
    (b, b', sent, got, empty)
