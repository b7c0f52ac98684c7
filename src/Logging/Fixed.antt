-- ===== src/Logging/Fixed.antt =====
-- sevent/base/FixedBuffer.h: the size of what a stream writes.
use sevent.Base.{
  ℕ, zero, suc, ◌/◌, ◌^◌, ◌≤◌, ◌<◌, ◌≡◌, refl, inl, inr, Bool, Bool-cases, true, false, ◌&&◌, List,
  [], ◌∷◌, ◌++◌, reverse, length, length-append, ltb, leb, ◌==◌, arith,
}
use native.Mathlib.Nat.{pow-suc}
use mathlib.Core.List.{reverse-cons}
use sevent.Base.Int.{ℤ, pos, negsuc}
use sevent.Logging.{convert_loop, convert, minus, FixedBuffer, append, format_integer, remain}

-- An integer of 64 bits, signed or not.
abbrev pub fits_64 : ℤ → Bool
fits_64 (pos n) = ltb n (2 ^ 64)
fits_64 (negsuc n) = ltb n (2 ^ 63)

length-convert_loop :
    (digits fuel : ℕ) (negative : Bool) (i : ℕ)
    → i < 10 ^ suc digits
    → length (convert_loop fuel negative i) ≤ suc digits
unfolding convert_loop
length-convert_loop digits zero negative i h = omega arith
length-convert_loop zero (suc fuel) negative i h =
    let e : (i / 10 == 0) ≡ true = ground (arith, h) in rw e (omega arith)
length-convert_loop (suc digits) (suc fuel) negative i h = elim (Bool-cases (i / 10 == 0)) [
  | inl last ↦ rw last (omega arith)
  | inr more ↦
      let shorter : i / 10 < 10 ^ suc digits = omega (arith, pow-suc 10 (suc digits)) in
      rw more (omega (arith, length-convert_loop digits fuel negative (i / 10) shorter))
]

length-reverse : (cs : List ℕ) → length (reverse cs) ≡ length cs
length-reverse [] = refl
length-reverse (c ∷ cs) =
    rw (reverse-cons c cs, length-append (reverse cs) (c ∷ []), length-reverse cs) (omega arith)

length-convert : (value : ℤ) → fits_64 value ≡ true → length (convert value) ≤ 20
unfolding convert
length-convert (pos n) h =
    let ds = convert_loop (suc n) false n in
    let bound : n < 10 ^ suc 19 = ground (arith, h) in
    omega (
      arith,
      length-reverse (ds ++ []),
      length-append ds [],
      length-convert_loop 19 (suc n) false n bound,
    )
length-convert (negsuc n) h =
    let ds = convert_loop (suc (suc n)) true (suc n) in
    let bound : suc n < 10 ^ suc 18 = ground (arith, h) in
    omega (
      arith,
      length-reverse (ds ++ minus ∷ []),
      length-append ds (minus ∷ []),
      length-convert_loop 18 (suc (suc n)) true (suc n) bound,
    )

-- What a stream does with its buffer.
pub data Write : Type 0 where
  writes_text : List ℕ → Write
  writes_integer : ℤ → Write

abbrev pub write : FixedBuffer → Write → FixedBuffer
write b (writes_text text) = append b text
write b (writes_integer value) = format_integer b value

abbrev pub write_all : FixedBuffer → List Write → FixedBuffer
write_all b [] = b
write_all b (w ∷ ws) = write_all (write b w) ws

abbrev pub all_fit_64 : List Write → Bool
all_fit_64 [] = true
all_fit_64 (writes_text text ∷ ws) = all_fit_64 ws
all_fit_64 (writes_integer value ∷ ws) = fits_64 value && all_fit_64 ws

write_text-fits :
    (b : FixedBuffer) (text : List ℕ)
    → length b.written < b.size
    → (length (append b text).written < b.size) × ((append b text).size ≡ b.size)
unfolding append
write_text-fits b text h = elim (Bool-cases (ltb (length text) (remain b))) [
  | inl room ↦ rw room (ground (arith, h, room, length-append b.written text), refl)
  | inr full ↦ rw full (h, refl)
]

write_integer-fits :
    (b : FixedBuffer) (value : ℤ)
    → length b.written < b.size
    → fits_64 value ≡ true
    → (length (format_integer b value).written < b.size) × ((format_integer b value).size ≡ b.size)
unfolding format_integer
write_integer-fits b value h f = elim (Bool-cases (leb 32 (remain b))) [
  | inl room ↦ rw room (
    ground (arith, h, room, length-append b.written (convert value), length-convert value f),
    refl,
  )
  | inr full ↦ rw full (h, refl)
]

-- Whatever text and integers of 64 bits a stream is given, what it has written is shorter than its
-- buffer, which leaves a byte for the end of the string.
pub write_all-fits :
    (ws : List Write) (b : FixedBuffer)
    → length b.written < b.size
    → all_fit_64 ws ≡ true
    → length (write_all b ws).written < b.size
write_all-fits [] b h f = h
write_all-fits (writes_text text ∷ ws) b h f =
    let (fits, same) = write_text-fits b text h in
    omega (arith, same, write_all-fits ws (append b text) (omega (arith, fits, same)) f)
write_all-fits (writes_integer value ∷ ws) b h f =
    let (fits, same) = write_integer-fits b value h (ground (arith, f)) in
    omega (
      arith,
      same,
      write_all-fits ws (format_integer b value) (omega (arith, fits, same)) (ground (arith, f)),
    )
