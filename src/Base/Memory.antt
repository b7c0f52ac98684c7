-- ===== src/Base/Memory.antt =====
-- Byte arrays as C++ code sees them: `size_t` arithmetic that wraps, and accesses with their bounds.
use Prim.Native.Nat.{ℕ, ◌+◌, ◌-◌, ◌%◌, ◌^◌, ◌≤◌}
use mathlib.Core.Path.{◌≡◌, refl, ap, ◌∙◌}
use mathlib.Core.Bool.{◌&&◌}
use mathlib.Core.List.{List, ◌++◌}
use native.Mathlib.Omega.{arith}
use sevent.Base.Tests.{ltb, leb, le→leb, if◌then◌else◌}
use sevent.Base.Lists.{length, take, drop, replicate}
use sevent.Base.Lists.{length-append, length-take, length-drop, take-append_le, take-all}
use sevent.Base.Lists.{drop-append_length, drop-append_le, take-append_add, drop-drop}
use sevent.Base.Lists.{drop-take, take-take, take_add}
use sevent.Base.Fault.{Result, ok, err, out_of_bounds, length_error}

abbrev pub size_mod : ℕ
size_mod = 2 ^ 64

-- `size_t` addition and subtraction.
abbrev pub add_size : ℕ → ℕ → ℕ
add_size a b = (a + b) % size_mod

abbrev pub sub_size : ℕ → ℕ → ℕ
sub_size a b = (a + size_mod - b) % size_mod

-- `PTRDIFF_MAX`, the bound of `std::vector<char>::max_size` with 64-bit pointers.
abbrev pub max_size : ℕ
max_size = 2 ^ 63 - 1

abbrev pub slice : List ℕ → ℕ → ℕ → List ℕ
slice bytes pos n = take n (drop pos bytes)

abbrev pub splice : List ℕ → ℕ → List ℕ → List ℕ
splice bytes pos xs = take pos bytes ++ (xs ++ drop (pos + length xs) bytes)

-- Read `n` bytes at `pos`.
unfoldable pub load : List ℕ → ℕ → ℕ → Result (List ℕ)
load bytes pos n =
    if leb (pos + n) (length bytes) then ok (slice bytes pos n) else err out_of_bounds

-- Copy `xs` to `pos`.
unfoldable pub store : List ℕ → ℕ → List ℕ → Result (List ℕ)
store bytes pos xs =
    if leb (pos + length xs) (length bytes) then ok (splice bytes pos xs) else err out_of_bounds

-- `std::copy` of `[pos, pos + n)` to `dst` in one array: both ranges lie in it, and `dst` does not
-- lie in the source range.
unfoldable pub copy_within : List ℕ → ℕ → ℕ → ℕ → Result (List ℕ)
copy_within bytes pos n dst =
    if leb (pos + n) (length bytes) && leb (dst + n) (length bytes)
    then if leb pos dst && ltb dst (pos + n)
      then err out_of_bounds
      else ok (splice bytes dst (slice bytes pos n))
    else err out_of_bounds

-- `std::vector<char>::resize`: new bytes are 0.
unfoldable pub resize : List ℕ → ℕ → Result (List ℕ)
resize bytes n =
    if ltb max_size n then err length_error else ok (take n bytes ++ replicate (n - length bytes) 0)

pub length-slice :
    (bytes : List ℕ) (pos n : ℕ) → pos + n ≤ length bytes → length (slice bytes pos n) ≡ n
length-slice bytes pos n h = omega (arith, length-take n (drop pos bytes), length-drop pos bytes)

pub length-splice :
    (bytes : List ℕ) (pos : ℕ) (xs : List ℕ)
    → pos + length xs ≤ length bytes
    → length (splice bytes pos xs) ≡ length bytes
length-splice bytes pos xs h = omega (
  arith,
  length-append (take pos bytes) (xs ++ drop (pos + length xs) bytes),
  length-append xs (drop (pos + length xs) bytes),
  length-take pos bytes,
  length-drop (pos + length xs) bytes,
)

-- What is written stands behind what was there before it.
pub slice-splice :
    (bytes : List ℕ) (p pos : ℕ) (xs : List ℕ)
    → p ≤ pos
    → pos + length xs ≤ length bytes
    → slice (splice bytes pos xs) p (pos - p + length xs) ≡ slice bytes p (pos - p) ++ xs
slice-splice bytes p pos xs hp h =
    let before : length (take pos bytes) ≡ pos = omega (arith, length-take pos bytes) in
    rw (drop-append_le p (take pos bytes) (xs ++ drop (pos + length xs) bytes) (omega arith)) (
      rw (drop-take p pos bytes hp) (
        take-append_add (pos - p) (length xs) (slice bytes p (pos - p))
          (xs ++ drop (pos + length xs) bytes) (length-slice bytes p (pos - p) (omega arith))
        ∙ ap (◌++◌ (slice bytes p (pos - p))) (
            take-append_le (length xs) xs (drop (pos + length xs) bytes) (omega arith)
            ∙ take-all (length xs) xs (omega arith))))

-- What is written stands before what was there behind it.
pub slice-splice_front :
    (bytes : List ℕ) (pos n : ℕ) (xs : List ℕ)
    → pos + length xs ≤ length bytes
    → slice (splice bytes pos xs) pos (length xs + n) ≡ xs ++ slice bytes (pos + length xs) n
slice-splice_front bytes pos n xs h =
    rw
      (drop-append_length pos (take pos bytes) (xs ++ drop (pos + length xs) bytes)
        (omega (arith, length-take pos bytes)))
      (take-append_add (length xs) n xs (drop (pos + length xs) bytes) refl)

pub slice_add :
    (bytes : List ℕ) (pos m n : ℕ)
    → slice bytes pos (m + n) ≡ slice bytes pos m ++ slice bytes (pos + m) n
slice_add bytes pos m n =
    take_add m n (drop pos bytes) ∙ ap (λ l. slice bytes pos m ++ take n l) (drop-drop m pos bytes)

pub drop-slice :
    (bytes : List ℕ) (pos k n : ℕ)
    → k ≤ n
    → drop k (slice bytes pos n) ≡ slice bytes (pos + k) (n - k)
drop-slice bytes pos k n h =
    drop-take k n (drop pos bytes) h ∙ ap (take (n - k)) (drop-drop k pos bytes)

pub take-slice :
    (bytes : List ℕ) (pos k n : ℕ) → k ≤ n → take k (slice bytes pos n) ≡ slice bytes pos k
take-slice bytes pos k n h = take-take k n (drop pos bytes) h

-- Growing an array keeps what is in it.
pub slice-grow :
    (bytes zeros : List ℕ) (pos n : ℕ)
    → pos + n ≤ length bytes
    → slice (bytes ++ zeros) pos n ≡ slice bytes pos n
slice-grow bytes zeros pos n h =
    rw (drop-append_le pos bytes zeros (omega arith))
      (take-append_le n (drop pos bytes) zeros (omega (arith, length-drop pos bytes)))

pub load_lem :
    (bytes : List ℕ) (pos n : ℕ)
    → pos + n ≤ length bytes
    → load bytes pos n ≡ ok (slice bytes pos n)
unfolding load
load_lem bytes pos n h = rw (le→leb (pos + n) (length bytes) h) refl

pub store_lem :
    (bytes : List ℕ) (pos : ℕ) (xs : List ℕ)
    → pos + length xs ≤ length bytes
    → store bytes pos xs ≡ ok (splice bytes pos xs)
unfolding store
store_lem bytes pos xs h = rw (le→leb (pos + length xs) (length bytes) h) refl
