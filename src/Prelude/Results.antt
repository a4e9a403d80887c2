-- ===== src/Prelude/Results.antt =====
-- Go's `(T, error)` results.
use Prim.Native.String.{String, ◌++◌}
use mathlib.Core.Path.{◌≡◌, refl}
use mathlib.Core.Logic.{◌⊎◌, inl, inr}
use mathlib.Core.Option.{some}

-- The errors that the code tells apart: the two sentinels of storage/storage.go, a run-time panic
-- (a nil dereference inside a closure), and all others by their text.
pub data Error : Type 0 where
  not_found already_exists panicked : Error
  other : String → Error

pub data Result {ℓ} (A : Type ℓ) : Type ℓ where
  ok : A → Result A
  err : Error → Result A

pub Result-cases {ℓ} :
    {A : Type ℓ} (r : Result A) → ((a : A) × (r ≡ ok a)) ⊎ ((e : Error) × (r ≡ err e))
Result-cases (ok a) = inl (a, refl)
Result-cases (err e) = inr (e, refl)

abbrev pub error_text : Error → String
error_text not_found = "not found"
error_text already_exists = "ID already exists"
error_text panicked = "panic"
error_text (other text) = text

-- fmt.Errorf("prefix%v", err)
abbrev pub wrap : String → Error → Error
wrap prefix e = other (prefix ++ error_text e)

pub some_injective : {A : Type 0} {a b : A} → some a ≡ some b → a ≡ b
some_injective h = cc

pub ok_injective : {A : Type 0} {a b : A} → ok a ≡ ok b → a ≡ b
ok_injective h = cc
