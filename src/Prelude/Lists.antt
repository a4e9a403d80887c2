-- ===== src/Prelude/Lists.antt =====
-- Lists measured by native numbers, membership as a test, and Go's filtering loops.
use Prim.Native.Nat.{ℕ, suc, ◌+◌}
use mathlib.Core.Path.{◌≡◌, refl, sym, ap, ◌∙◌}
use mathlib.Core.Bool.{Bool, true, false, ◌||◌}
use mathlib.Core.Logic.{◌⊎◌, inl, inr}
use mathlib.Core.List.{List, [], ◌∷◌, ◌++◌, map}
use native.Mathlib.Omega.{arith}
use dex.Prelude.Tests.{Eq, ◌==◌, if◌then◌else◌, eq_iff}

module _ {ℓ} {A : Type ℓ} where
  abbrev pub length : List A → ℕ
  length [] = 0
  length (x ∷ xs) = suc (length xs)

  pub length-append : (xs ys : List A) → length (xs ++ ys) ≡ length xs + length ys
  length-append [] ys = omega arith
  length-append (x ∷ xs) ys = omega (arith, length-append xs ys)

  pub snoc_ne_nil : (xs : List A) (x : A) → ¬ (xs ++ x ∷ [] ≡ [])
  snoc_ne_nil [] x h = cc
  snoc_ne_nil (y ∷ ys) x h = cc

  pub List-cases : (xs : List A) → (xs ≡ []) ⊎ ((a : A) × (rest : List A) × (xs ≡ a ∷ rest))
  List-cases [] = inl refl
  List-cases (a ∷ rest) = inr (a, rest, refl)

  -- The items that pass a test, in order.
  unfoldable pub select : (A → Bool) → List A → List A
  select p [] = []
  select p (x ∷ xs) = let rest = select p xs in if p x then x ∷ rest else rest

  -- A predicate that holds of every item.
  abbrev pub All {κ} : (A → Type κ) → List A → Type κ
  All P [] = Unit
  All P (x ∷ xs) = P x × All P xs

module _ {A : Type 0} where
  -- Membership, as a type by recursion.
  abbrev pub In : A → List A → Type 0
  In a [] = ⊥
  In a (x ∷ xs) = (a ≡ x) ⊎ In a xs

  pub In-append_left : (a : A) (xs ys : List A) → In a xs → In a (xs ++ ys)
  In-append_left a [] ys h = elim h [ ]
  In-append_left a (x ∷ xs) ys (inl e) = inl e
  In-append_left a (x ∷ xs) ys (inr h) = inr (In-append_left a xs ys h)

  pub In-append_right : (a : A) (xs ys : List A) → In a ys → In a (xs ++ ys)
  In-append_right a [] ys h = h
  In-append_right a (x ∷ xs) ys h = inr (In-append_right a xs ys h)

  pub In-append_cases : (a : A) (xs ys : List A) → In a (xs ++ ys) → In a xs ⊎ In a ys
  In-append_cases a [] ys h = inr h
  In-append_cases a (x ∷ xs) ys (inl e) = inl (inl e)
  In-append_cases a (x ∷ xs) ys (inr h) = elim (In-append_cases a xs ys h) [
    | inl k ↦ inl (inr k)
    | inr k ↦ inr k
  ]

  pub In-select : (p : A → Bool) (a : A) (xs : List A) → p a ≡ true → In a xs → In a (select p xs)
  unfolding select
  In-select p a [] pa h = elim h [ ]
  In-select p a (x ∷ xs) pa (inl e) = ground arith
  In-select p a (x ∷ xs) pa (inr h) = ground (arith, In-select p a xs pa h)

  pub In-select_inv :
      (p : A → Bool) (a : A) (xs : List A) → In a (select p xs) → (p a ≡ true) × In a xs
  unfolding select
  In-select_inv p a [] h = elim h [ ]
  In-select_inv p a (x ∷ xs) h = ground (arith, In-select_inv p a xs)

pub All-In : {A : Type 0} {P : A → Type 0} (xs : List A) → ((a : A) → In a xs → P a) → All P xs
All-In [] h = tt
All-In (x ∷ xs) h = (h x (inl refl), All-In xs (λ a i. h a (inr i)))

pub In-map_eq :
    {A B : Type 0} (f : A → B) (a : A) (xs : List A) {b : B} → f a ≡ b → In a xs → In b (map f xs)
In-map_eq f a [] p h = elim h [ ]
In-map_eq f a (x ∷ xs) p (inl e) = inl (sym p ∙ ap f e)
In-map_eq f a (x ∷ xs) p (inr h) = inr (In-map_eq f a xs p h)

module _ {A : Type 0} ⦃e : Eq A⦄ where
  -- The loop `for _, x := range xs { if x == a { return true } }; return false`.
  unfoldable pub contains : List A → A → Bool
  contains [] a = false
  contains (x ∷ xs) a = a == x || contains xs a

  pub contains_iff_In : (xs : List A) (a : A) → contains xs a ≡ true → In a xs
  unfolding contains
  contains_iff_In [] a h = ground arith
  contains_iff_In (x ∷ xs) a h = ground (arith, eq_iff a x, contains_iff_In xs a)

  pub In→contains : (xs : List A) (a : A) → In a xs → contains xs a ≡ true
  unfolding contains
  In→contains [] a h = elim h [ ]
  In→contains (x ∷ xs) a h = ground (arith, eq_iff a x, In→contains xs a)
