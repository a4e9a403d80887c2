-- ===== src/Storage/Index.antt =====
-- storage/static.go: the maps that the constructors build from a list of static objects.
use dex.Prelude.{
  ◌==◌, String, Bool, true, Option, some, none, List, [], ◌∷◌, ◌++◌, ◌≡◌, ◌↔◌, ◌⊎◌, inl, inr, refl,
  arith, if◌then◌else◌, string_eq, select, In, In-select_inv, In-select, In-append_left,
  In-append_right, In-append_cases,
}
use dex.GoMap.{Map, lookup, insert}
use dex.GoMap.Laws.{lookup-insert}

module _ {V : Type 0} (key : V → String) where
  -- for _, v := range vs { m[key(v)] = v }
  unfoldable pub index_from : Map String V → List V → Map String V
  index_from m [] = m
  index_from m (v ∷ vs) = index_from (insert (key v) v m) vs

  -- The last object of a list with a key.
  abbrev pub find_last : String → List V → Option V
  find_last k [] = none
  find_last k (v ∷ vs) = elim (find_last k vs) [
    | some w ↦ some w
    | none ↦ if key v == k then some v else none
  ]

  abbrev or_else : Option V → Option V → Option V
  or_else (some w) o = some w
  or_else none o = o

  lookup-index_from :
      (k : String) (m : Map String V) (vs : List V)
      → lookup k (index_from m vs) ≡ or_else (find_last k vs) (lookup k m)
  unfolding index_from
  lookup-index_from k m [] = refl
  lookup-index_from k m (v ∷ vs) =
      ground (arith, lookup-index_from k (insert (key v) v m) vs, lookup-insert (key v) k v m)

  -- The index of a list finds the last object with each key.
  pub lookup-index : (k : String) (vs : List V) → lookup k (index_from [] vs) ≡ find_last k vs
  unfolding lookup
  lookup-index k vs = ground (arith, lookup-index_from k [] vs)

-- What a list holds after the static objects replaced those of the storage behind.
pub In-merge :
    {A : Type 0} (p : A → Bool) (stored static : List A) (a : A)
    → In a (select p stored ++ static) ↔ (In a static ⊎ (In a stored × (p a ≡ true)))
In-merge p stored static a = (
  (λ h. elim (In-append_cases a (select p stored) static h) [
    | inl k ↦ inr ((In-select_inv p a stored k).1, (In-select_inv p a stored k).0)
    | inr k ↦ inl k
  ]),
  (λ h. elim h [
    | inl k ↦ In-append_right a (select p stored) static k
    | inr k ↦ In-append_left a (select p stored) static (In-select p a stored k.1 k.0)
  ]),
)
