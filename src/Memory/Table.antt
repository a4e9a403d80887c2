-- ===== src/Memory/Table.antt =====
-- The body that the methods of storage/memory/memory.go repeat for each of their maps: what runs
-- under the lock, on one map.
use dex.Prelude.{Eq, String, Result, ok, err, not_found, already_exists, some, none}
use dex.GoMap.{Map, lookup, insert, delete}

-- `err == nil` or an error, as a result with no value.
abbrev pub done : Result (Unit {0})
done = ok tt

module _ {K V : Type 0} ⦃e : Eq K⦄ where
  unfoldable pub create : K → V → Map K V → Result (Unit {0}) × Map K V
  create k v m = elim (lookup k m) [
    | some old ↦ (err already_exists, m)
    | none ↦ (done, insert k v m)
  ]

  unfoldable pub get : K → Map K V → Result V
  get k m = elim (lookup k m) [ some v ↦ ok v | none ↦ err not_found ]

  unfoldable pub remove : K → Map K V → Result (Unit {0}) × Map K V
  remove k m = elim (lookup k m) [ some v ↦ (done, delete k m) | none ↦ (err not_found, m) ]

  -- The updater runs in the transaction; its value is stored under the key that was asked for,
  -- and its error leaves the map as it was.
  unfoldable pub update : K → (V → Result V) → Map K V → Result (Unit {0}) × Map K V
  update k f m = elim (lookup k m) [
    | none ↦ (err not_found, m)
    | some v ↦ elim (f v) [ ok v' ↦ (done, insert k v' m) | err x ↦ (err x, m) ]
  ]

  -- The same for an updater that also sets a captured variable.
  unfoldable pub update_with : K → (V → Result (V × String)) → Map K V → Result String × Map K V
  update_with k f m = elim (lookup k m) [
    | none ↦ (err not_found, m)
    | some v ↦ elim (f v) [ ok (v', c) ↦ (ok c, insert k v' m) | err x ↦ (err x, m) ]
  ]
