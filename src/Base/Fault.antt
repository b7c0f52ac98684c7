-- ===== src/Base/Fault.antt =====
-- What a C++ function can do instead of returning: read or write outside an object, throw, or run
-- into a failed assert. A result is a value or such a fault.
use mathlib.Core.Path.{◌≡◌, refl}
use mathlib.Core.Logic.{◌⊎◌, inl, inr}
use mathlib.Core.Option.{Option, none, some}

pub data Fault : Type 0 where
  out_of_bounds length_error assertion : Fault

pub data Result {ℓ} (A : Type ℓ) : Type ℓ where
  ok : A → Result A
  err : Fault → Result A

infixl 5 ◌>>=◌
abbrev pub ◌>>=◌ {ℓ κ} : {A : Type ℓ} {B : Type κ} → Result A → (A → Result B) → Result B
ok a >>= f = f a
err e >>= f = err e

abbrev pub map_result {ℓ κ} : {A : Type ℓ} {B : Type κ} → (A → B) → Result A → Result B
map_result f (ok a) = ok (f a)
map_result f (err e) = err e

pub ok-injective {ℓ} : {A : Type ℓ} {a b : A} → ok a ≡ ok b → a ≡ b
ok-injective h = cc

-- A chain that returned: its first part returned some value, and the rest returned from there.
pub >>=-eq-ok {ℓ κ} :
    {A : Type ℓ} {B : Type κ} {y : B} (r : Result A) (rest : A → Result B)
    → (r >>= rest) ≡ ok y
    → (x : A) × (r ≡ ok x) × (rest x ≡ ok y)
>>=-eq-ok (err fault) rest h = cc
>>=-eq-ok (ok x) rest h = (x, refl, h)

-- A loop on fuel that can fail: `none` when the fuel runs out.
abbrev pub bind_run :
    {A B : Type 0} → Option (Result A) → (A → Option (Result B)) → Option (Result B)
bind_run none next = none
bind_run (some (err fault)) next = some (err fault)
bind_run (some (ok a)) next = next a

pub run-cases :
    {A : Type 0} (r : Option (Result A))
    → ((x : A) × (r ≡ some (ok x))) ⊎ ((r ≡ none) ⊎ ((fault : Fault) × (r ≡ some (err fault))))
run-cases none = inr (inl refl)
run-cases (some (err fault)) = inr (inr (fault, refl))
run-cases (some (ok x)) = inl (x, refl)

pub run-injective : {A : Type 0} {x y : A} → some (ok x) ≡ some (ok y) → x ≡ y
run-injective h = cc

-- A run that did not return is none that did.
pub run-none : {A : Type 0} {Q : Type 0} {y : A} → none ≡ some (ok y) → Q
run-none h = cc

pub run-err : {A : Type 0} {Q : Type 0} {fault : Fault} {y : A} → some (err fault) ≡ some (ok y) → Q
run-err h = cc

-- The run ends, with a value or a fault.
abbrev pub Returns : {A : Type 0} → Option (Result A) → Type 0
Returns {A} o = (r : Result A) × (o ≡ some r)

pub bind_run_total :
    {A B : Type 0} (o : Option (Result A)) (next : A → Option (Result B))
    → Returns o
    → ((x : A) → o ≡ some (ok x) → Returns (next x))
    → Returns (bind_run o next)
bind_run_total none next (r, e) goes = cc
bind_run_total (some (err fault)) next h goes = (err fault, refl)
bind_run_total (some (ok x)) next h goes = goes x refl
