-- ===== src/Buffer/Codec.antt =====
-- sevent/net/EndianOps.h and the integer functions of sevent/net/Buffer.cpp. An `int64_t` is its
-- bit pattern, a number below 2 ^ 64, and so for the other widths; `w` is the width in bytes.
use sevent.Base.{
  ℕ, ◌+◌, ◌-◌, ◌≤◌, ◌<◌, ◌^◌, ◌≡◌, refl, ap, ◌∙◌, List, ◌++◌, reverse, arith, length, take, Result,
  ok, ◌>>=◌, take-all, take-append_le, drop-append_length, length-append,
}
use sevent.Base.Bytes.{to_le, of_le, big_endian, length-big_endian, to_le-swap, of_le-swap}
use sevent.Base.Memory.{max_size, slice, load, load_lem, take-slice}
use sevent.Buffer.{Buffer, retrieve, append, prepend}
use sevent.Buffer.Contents.{IsValid, contents, HasRoom, length-contents}
use sevent.Buffer.Appending.{append-Appended}
use sevent.Buffer.Reading.{contents-retrieve, contents-prepend}

-- The byte order of the machine.
pub data Endian : Type 0 where
  little big : Endian

-- The bytes of an integer object in memory, and back (`memcpy`).
abbrev pub object_bytes : Endian → ℕ → ℕ → List ℕ
object_bytes little w n = to_le w n
object_bytes big w n = big_endian w n

abbrev pub object_value : Endian → List ℕ → ℕ
object_value little xs = of_le xs
object_value big xs = of_le (reverse xs)

-- `htobe64`, `htobe32`, `htobe16`: a swap of the bytes on a little-endian machine.
unfoldable pub host_to_net : Endian → ℕ → ℕ → ℕ
host_to_net little w n = of_le (big_endian w n)
host_to_net big w n = n

-- `be64toh`, `be32toh`, `be16toh`
unfoldable pub net_to_host : Endian → ℕ → ℕ → ℕ
net_to_host little w n = of_le (big_endian w n)
net_to_host big w n = n

module _ (e : Endian) where
  -- `peekInt64`, `peekInt32`, `peekInt16`: `memcpy` reads from the vector, not from the readable bytes.
  unfoldable pub peek_int : ℕ → Buffer → Result ℕ
  unfolding net_to_host
  peek_int w b = do xs ← load b.bytes b.read_index w; ok (net_to_host e w (object_value e xs))

  unfoldable pub read_int : ℕ → Buffer → Result (ℕ × Buffer)
  unfolding peek_int
  read_int w b = do n ← peek_int w b; ok (n, retrieve b w)

  unfoldable pub append_int : ℕ → Buffer → ℕ → Result Buffer
  unfolding host_to_net
  append_int w b n = append b (object_bytes e w (host_to_net e w n))

  unfoldable pub prepend_int : ℕ → Buffer → ℕ → Result Buffer
  unfolding host_to_net
  prepend_int w b n = prepend b (object_bytes e w (host_to_net e w n))

  -- The 8-bit functions swap nothing.
  unfoldable pub peek_int8 : Buffer → Result ℕ
  peek_int8 b = do xs ← load b.bytes b.read_index 1; ok (object_value e xs)

  unfoldable pub read_int8 : Buffer → Result (ℕ × Buffer)
  unfolding peek_int8
  read_int8 b = do n ← peek_int8 b; ok (n, retrieve b 1)

  unfoldable pub append_int8 : Buffer → ℕ → Result Buffer
  append_int8 b n = append b (object_bytes e 1 n)

  unfoldable pub prepend_int8 : Buffer → ℕ → Result Buffer
  prepend_int8 b n = prepend b (object_bytes e 1 n)

pub host_to_net-wire :
    (e : Endian) (w n : ℕ) → object_bytes e w (host_to_net e w n) ≡ big_endian w n
unfolding host_to_net
host_to_net-wire little w n = to_le-swap w n
host_to_net-wire big w n = refl

net_to_host-wire :
    (e : Endian) (w n : ℕ) → n < 256 ^ w → net_to_host e w (object_value e (big_endian w n)) ≡ n
unfolding net_to_host
net_to_host-wire little w n h = rw (to_le-swap w n) (of_le-swap w n h)
net_to_host-wire big w n h = of_le-swap w n h

-- Whatever the byte order of the machine, `appendInt` puts the integer on the wire with its most
-- significant byte first.
pub append_int-wire :
    (e : Endian) (w n : ℕ) {b : Buffer}
    → IsValid b
    → HasRoom b w
    → b.write_index + w ≤ max_size
    → (b' : Buffer) × (append_int e w b n ≡ ok b')
      × IsValid b'
      × (contents b' ≡ contents b ++ big_endian w n)
unfolding append_int
append_int-wire e w n {b} v room fits =
    let size : length (big_endian w n) ≡ w = length-big_endian w n in
    let (b', done, a) = append-Appended {b = b} (big_endian w n) v (rw size room) (rw size fits) in
    (b', rw (host_to_net-wire e w n) done, a.valid, a.added)

-- `readInt` on such bytes returns the integer, and leaves what stands behind it.
pub read_int-wire :
    (e : Endian) (w n : ℕ) (rest : List ℕ) {b : Buffer}
    → IsValid b
    → contents b ≡ big_endian w n ++ rest
    → n < 256 ^ w
    → (b' : Buffer) × (read_int e w b ≡ ok (n, b')) × IsValid b' × (contents b' ≡ rest)
unfolding read_int peek_int
read_int-wire e w n rest {b} v c h =
    let size : length (big_endian w n) ≡ w = length-big_endian w n in
    let enough : w ≤ b.write_index - b.read_index =
      omega (arith, length-contents v, ap length c, length-append (big_endian w n) rest) in
    let bytes : slice b.bytes b.read_index w ≡ big_endian w n =
      rw
        (
          ← take-slice b.bytes b.read_index w (b.write_index - b.read_index) enough,
          c,
          take-append_le w (big_endian w n) rest (omega arith),
        )
        (take-all w (big_endian w n) (omega arith)) in
    let kept = contents-retrieve w v in
    (
      retrieve b w,
      rw (load_lem b.bytes b.read_index w (omega arith), bytes, net_to_host-wire e w n h) refl,
      kept.0,
      kept.1 ∙ rw c (drop-append_length w (big_endian w n) rest size),
    )

-- An integer that is prepended as a header, with space for it in front, is read back by the receiver
-- of the bytes, whatever the byte orders of the two machines, and what was readable before is left.
pub read_int-prepend_int :
    (sender receiver : Endian) (w n : ℕ) {b : Buffer}
    → IsValid b
    → w ≤ b.read_index
    → n < 256 ^ w
    → (c : Buffer) × ((prepend_int sender w b n >>= read_int receiver w) ≡ ok (n, c))
      × IsValid c
      × (contents c ≡ contents b)
unfolding prepend_int
read_int-prepend_int sender receiver w n {b} v room h =
    let size : length (big_endian w n) ≡ w = length-big_endian w n in
    let (b', done, valid, added, _) = contents-prepend (big_endian w n) v in
    let all : take b.read_index (big_endian w n) ≡ big_endian w n =
      take-all b.read_index (big_endian w n) (omega arith) in
    let (c, got, vc, same) =
      read_int-wire receiver w n (contents b) valid (added ∙ ap (λ l. l ++ contents b) all) h in
    (c, rw (host_to_net-wire sender w n, done) got, vc, same)
