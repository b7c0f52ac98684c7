-- ===== src/Logging.antt =====
-- sevent/base/LogStream.cpp and sevent/base/FixedBuffer.h: integers as text, in a buffer of fixed size.
pub mod Decimal
pub mod Fixed
pub mod Appender
pub mod LogFile
pub mod Logger
mod Tests
use sevent.Base.{
  ℕ, zero, suc, ◌+◌, ◌-◌, ◌*◌, ◌/◌, ◌%◌, ◌≡◌, Bool, true, false, not, Option, none, some, List, [],
  ◌∷◌, ◌++◌, reverse, ltb, leb, ◌==◌, length, get_elem?, if◌then◌else◌,
}
use sevent.Base.Int.{ℤ, pos, negsuc, is_neg}

-- "9876543210123456789", in which `zero` points to the 0.
abbrev pub digits : List ℕ
digits =
    57 ∷ 56 ∷ 55 ∷ 54 ∷ 53 ∷ 52 ∷ 51 ∷ 50 ∷ 49 ∷ 48 ∷ 49 ∷ 50 ∷ 51 ∷ 52 ∷ 53 ∷ 54 ∷ 55 ∷ 56 ∷ 57
    ∷ []

abbrev pub or_nul : Option ℕ → ℕ
or_nul none = 0
or_nul (some c) = c

-- `zero[lsd]`: the remainder of a negative value is negative.
abbrev pub zero_at : Bool → ℕ → ℕ
zero_at negative lsd = or_nul (get_elem? digits (if negative then 9 - lsd else 9 + lsd))

-- The loop of `convert`, on the magnitude `i` of its variable, which has the sign of the value since
-- the division truncates. The fuel is above `i`, which each turn makes smaller.
unfoldable pub convert_loop : ℕ → Bool → ℕ → List ℕ
convert_loop zero negative i = []
convert_loop (suc fuel) negative i =
    let rest = convert_loop fuel negative (i / 10) in
    if i / 10 == 0 then zero_at negative (i % 10) ∷ [] else zero_at negative (i % 10) ∷ rest

abbrev pub magnitude : ℤ → ℕ
magnitude (pos n) = n
magnitude (negsuc n) = suc n

abbrev pub minus : ℕ
minus = b'-'

unfoldable pub convert : ℤ → List ℕ
unfolding convert_loop
convert value = reverse (
    convert_loop (suc (magnitude value)) (is_neg value) (magnitude value)
    ++ (if is_neg value then minus ∷ [] else []))

-- `FixedBuffer<SIZE>`: what was written. `remain` is `SIZE` less its length.
pub record FixedBuffer : Type 0 where
  pub size : ℕ
  pub written : List ℕ

abbrev pub remain : FixedBuffer → ℕ
remain b = b.size - length b.written

-- The length of a text is an `int`, so that this is for texts of less than 2 ^ 31 bytes.
unfoldable pub append : FixedBuffer → List ℕ → FixedBuffer
append b text = if ltb (length text) (remain b) then record b { written = b.written ++ text } else b

abbrev pub max_numeric_size : ℕ
max_numeric_size = 32

-- `formatInteger`
unfoldable pub format_integer : FixedBuffer → ℤ → FixedBuffer
unfolding convert
format_integer b value =
    if leb max_numeric_size (remain b) then record b { written = b.written ++ convert value } else b
