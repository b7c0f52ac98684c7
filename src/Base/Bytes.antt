-- ===== src/Base/Bytes.antt =====
-- Integers as bytes, little-endian: digits to the base 256.
use Prim.Native.Nat.{ℕ, zero, suc, ◌+◌, ◌*◌, ◌/◌, ◌%◌, ◌^◌, ◌<◌}
use mathlib.Core.Path.{◌≡◌, refl, ap, ◌∙◌}
use mathlib.Core.List.{List, [], ◌∷◌, ◌++◌, reverse, reverse-cons, reverse-reverse}
use native.Mathlib.Omega.{arith}
use native.Mathlib.Nat.{pow-suc}
use sevent.Base.Lists.{length, length-append}

abbrev pub to_le : ℕ → ℕ → List ℕ
to_le zero n = []
to_le (suc w) n = (n % 256) ∷ to_le w (n / 256)

abbrev pub of_le : List ℕ → ℕ
of_le [] = 0
of_le (x ∷ xs) = x + 256 * of_le xs

-- The most significant byte first.
abbrev pub big_endian : ℕ → ℕ → List ℕ
big_endian w n = reverse (to_le w n)

abbrev pub AreBytes : List ℕ → Type 0
AreBytes [] = Unit
AreBytes (x ∷ xs) = (x < 256) × AreBytes xs

pub length-to_le : (w n : ℕ) → length (to_le w n) ≡ w
length-to_le zero n = refl
length-to_le (suc w) n = ap suc (length-to_le w (n / 256))

pub to_le-AreBytes : (w n : ℕ) → AreBytes (to_le w n)
to_le-AreBytes zero n = tt
to_le-AreBytes (suc w) n = (omega arith, to_le-AreBytes w (n / 256))

pub of_le-to_le : (w n : ℕ) → n < 256 ^ w → of_le (to_le w n) ≡ n
of_le-to_le zero n h = omega arith
of_le-to_le (suc w) n h =
    let p : 256 ^ suc w ≡ 256 * 256 ^ w = omega (arith, pow-suc 256 w) in
    omega (arith, of_le-to_le w (n / 256) (omega arith))

pub to_le-of_le : (w : ℕ) (xs : List ℕ) → length xs ≡ w → AreBytes xs → to_le w (of_le xs) ≡ xs
to_le-of_le zero [] h b = refl
to_le-of_le zero (x ∷ xs) h b = absurd (omega arith)
to_le-of_le (suc w) [] h b = absurd (omega arith)
to_le-of_le (suc w) (x ∷ xs) h (b, bs) =
    let rest : (x + 256 * of_le xs) / 256 ≡ of_le xs = omega arith in
    let low : (x + 256 * of_le xs) % 256 ≡ x = omega arith in
    rw (rest, low) (ap (◌∷◌ x) (to_le-of_le w xs (omega arith) bs))

AreBytes-append : (xs ys : List ℕ) → AreBytes xs → AreBytes ys → AreBytes (xs ++ ys)
AreBytes-append [] ys p q = q
AreBytes-append (x ∷ xs) ys p q = (p.0, AreBytes-append xs ys p.1 q)

AreBytes-reverse : (xs : List ℕ) → AreBytes xs → AreBytes (reverse xs)
AreBytes-reverse [] p = tt
AreBytes-reverse (x ∷ xs) p =
    rw (reverse-cons x xs)
      (AreBytes-append (reverse xs) (x ∷ []) (AreBytes-reverse xs p.1) (p.0, tt))

pub length-reverse {ℓ} : {A : Type ℓ} (xs : List A) → length (reverse xs) ≡ length xs
length-reverse [] = refl
length-reverse (x ∷ xs) =
    omega
      (arith, ap length (reverse-cons x xs), length-append (reverse xs) (x ∷ []), length-reverse xs)

pub length-big_endian : (w n : ℕ) → length (big_endian w n) ≡ w
length-big_endian w n = length-reverse (to_le w n) ∙ length-to_le w n

-- The number whose little-endian bytes are the big-endian bytes of another.
pub to_le-swap : (w n : ℕ) → to_le w (of_le (big_endian w n)) ≡ big_endian w n
to_le-swap w n =
    to_le-of_le w (big_endian w n) (length-big_endian w n)
      (AreBytes-reverse (to_le w n) (to_le-AreBytes w n))

pub of_le-swap : (w n : ℕ) → n < 256 ^ w → of_le (reverse (big_endian w n)) ≡ n
of_le-swap w n h = rw (reverse-reverse (to_le w n)) (of_le-to_le w n h)
