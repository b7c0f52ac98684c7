-- ===== src/Logging/Decimal.antt =====
-- sevent/base/LogStream.cpp: the text of `convert`, read as a decimal number.
use sevent.Base.{
  ℕ, zero, suc, ◌+◌, ◌-◌, ◌*◌, ◌/◌, ◌%◌, ◌<◌, ◌≡◌, refl, ◌∙◌, ap, inl, inr, Bool, Bool-cases, true,
  false, ◌&&◌, List, [], ◌∷◌, ◌++◌, reverse, ltb, ◌==◌, arith, if◌then◌else◌, append-nil,
}
use mathlib.Core.List.{reverse-cons, reverse-append}
use sevent.Base.Int.{ℤ, pos, negsuc}
use sevent.Logging.{zero_at, convert_loop, minus, convert}

-- The number that some decimal digits stand for, the first one the most significant.
abbrev pub read_from : ℕ → List ℕ → ℕ
read_from value [] = value
read_from value (c ∷ cs) = read_from (value * 10 + (c - 48)) cs

abbrev pub negated : ℕ → ℤ
negated zero = pos 0
negated (suc n) = negsuc n

-- An optional minus sign, and digits.
abbrev pub read_integer : List ℕ → ℤ
read_integer [] = pos 0
read_integer (c ∷ cs) = if c == minus then negated (read_from 0 cs) else pos (read_from 0 (c ∷ cs))

zero_at_lem : (negative : Bool) (d : ℕ) → d < 10 → zero_at negative d ≡ 48 + d
zero_at_lem true d h = ground arith
zero_at_lem false d h = ground arith

-- The same for digits in the order of the loop, the least significant first.
abbrev of_loop : List ℕ → ℕ
of_loop [] = 0
of_loop (c ∷ cs) = (c - 48) + 10 * of_loop cs

abbrev pub all_digits : List ℕ → Bool
all_digits [] = true
all_digits (c ∷ cs) = (ltb 47 c && ltb c 58) && all_digits cs

convert_loop_lem :
    (fuel : ℕ) (negative : Bool) (i : ℕ)
    → i < fuel
    → (of_loop (convert_loop fuel negative i) ≡ i)
      × (all_digits (convert_loop fuel negative i) ≡ true)
unfolding convert_loop
convert_loop_lem zero negative i h = absurd (omega arith)
convert_loop_lem (suc fuel) negative i h =
    let d = zero_at_lem negative (i % 10) (omega arith) in
    elim (Bool-cases (i / 10 == 0)) [
      | inl last ↦ rw (last, d) (ground (arith, last), ground arith)
      | inr more ↦
          let (value, digit) = convert_loop_lem fuel negative (i / 10) (ground (arith, more, h)) in
          rw (more, d) (omega (arith, value), ground (arith, digit))
    ]

read_from-append :
    (v : ℕ) (cs : List ℕ) (c : ℕ) → read_from v (cs ++ c ∷ []) ≡ read_from v cs * 10 + (c - 48)
read_from-append v [] c = refl
read_from-append v (d ∷ cs) c = read_from-append (v * 10 + (d - 48)) cs c

read_from-reverse : (cs : List ℕ) → read_from 0 (reverse cs) ≡ of_loop cs
read_from-reverse [] = refl
read_from-reverse (c ∷ cs) =
    rw (reverse-cons c cs, read_from-append 0 (reverse cs) c, read_from-reverse cs) (omega arith)

all_digits-append : (xs ys : List ℕ) → all_digits (xs ++ ys) ≡ (all_digits xs && all_digits ys)
all_digits-append [] ys = refl
all_digits-append (x ∷ xs) ys = ground (arith, all_digits-append xs ys)

all_digits-reverse : (cs : List ℕ) → all_digits (reverse cs) ≡ all_digits cs
all_digits-reverse [] = refl
all_digits-reverse (c ∷ cs) =
    rw (reverse-cons c cs, all_digits-append (reverse cs) (c ∷ []), all_digits-reverse cs)
      (ground arith)

read_digits : (cs : List ℕ) → all_digits cs ≡ true → read_integer cs ≡ pos (read_from 0 cs)
read_digits [] h = refl
read_digits (c ∷ cs) h = ground (arith, h)

-- Read as a decimal number, what `convert` prints is the value, a negative one included.
pub read_integer-convert : (value : ℤ) → read_integer (convert value) ≡ value
unfolding convert
read_integer-convert (pos n) =
    let (value, digit) = convert_loop_lem (suc n) false n (omega arith) in
    let ds = convert_loop (suc n) false n in
    rw (append-nil ds) (
      read_digits (reverse ds) (all_digits-reverse ds ∙ digit)
      ∙ ap pos (read_from-reverse ds ∙ value))
read_integer-convert (negsuc n) =
    let (value, digit) = convert_loop_lem (suc (suc n)) true (suc n) (omega arith) in
    let ds = convert_loop (suc (suc n)) true (suc n) in
    rw (reverse-append ds (minus ∷ [])) (ap negated (read_from-reverse ds ∙ value))

-- `convert` prints nothing but digits for a value that is not negative.
pub convert-digits : (n : ℕ) → all_digits (convert (pos n)) ≡ true
unfolding convert
convert-digits n =
    let (value, digit) = convert_loop_lem (suc n) false n (omega arith) in
    let ds = convert_loop (suc n) false n in rw (append-nil ds) (all_digits-reverse ds ∙ digit)
