-- ===== src/Memory/Every.antt =====
-- storage/memory/memory.go: a property of every value of a map, through the methods of a table.
use dex.Prelude.{
  ℕ, String, [], ◌∷◌, ltb, string_eq, some_injective, Eq, ◌==◌, if◌then◌else◌, Bool, true, false,
  Option, some, none, Result, ok, err, ◌≡◌, subst, Option-cases, Result-cases, inl, inr, not_found,
}
use dex.GoMap.{Map, lookup, insert, delete}
use dex.GoMap.Laws.{lookup-insert, lookup-delete}
use dex.Memory.Collect.{sweep}
use dex.Memory.Table

chosen :
    {V : Type 0} (Q : V → Type 0) (v : V) (o : Option V) (b : Bool)
    → Q v
    → ((w : V) → o ≡ some w → Q w)
    → (w : V) → (if b then some v else o) ≡ some w
    → Q w
chosen Q v o true q h w p = subst Q (some_injective p) q
chosen Q v o false q h w p = h w p

module _ {K V : Type 0} ⦃e : Eq K⦄ where
  abbrev pub Every : (V → Type 0) → Map K V → Type 0
  Every Q m = (k : K) (v : V) → lookup k m ≡ some v → Q v

  pub insert-Every :
      {Q : V → Type 0} (k : K) (v : V) (m : Map K V) → Q v → Every Q m → Every Q (insert k v m)
  insert-Every {Q} k v m q h j w p =
      chosen Q v (lookup j m) (k == j) q (h j) w (rw (lookup-insert k j v m) at p)

  delete-Every : {Q : V → Type 0} (k : K) (m : Map K V) → Every Q m → Every Q (delete k m)
  delete-Every {Q} k m h j w p = h j w (kept (k == j) (rw (lookup-delete k j m) at p))
    where
      kept : (b : Bool) → (if b then none else lookup j m) ≡ some w → lookup j m ≡ some w
      kept true p = cc
      kept false p = p

  module _ {Q : V → Type 0} (k : K) (m : Map K V) (h : Every Q m) where
    pub create-Every : (v : V) → Q v → Every Q (Table.create k v m).1
    unfolding Table.create
    create-Every v q = elim (Option-cases (lookup k m)) [
      | inl p ↦ rw (p, Table.create) (insert-Every k v m q h)
      | inr (old, p) ↦ rw (p, Table.create) h
    ]

    pub get-Every : (v : V) → Table.get k m ≡ ok v → Q v
    unfolding Table.get
    get-Every v p = h k v (found (lookup k m) p)
      where
        found : (o : Option V) → elim o [ some w ↦ ok w | none ↦ err not_found ] ≡ ok v → o ≡ some v
        found (some w) p = cc
        found none p = cc

    pub remove-Every : Every Q (Table.remove k m).1
    unfolding Table.remove
    remove-Every = elim (Option-cases (lookup k m)) [
      | inl p ↦ rw (p, Table.remove) h
      | inr (old, p) ↦ rw (p, Table.remove) (delete-Every k m h)
    ]

    pub update-Every :
        (f : V → Result V) → ((a b : V) → Q a → f a ≡ ok b → Q b) → Every Q (Table.update k f m).1
    unfolding Table.update
    update-Every f q = elim (Option-cases (lookup k m)) [
      | inl p ↦ rw (p, Table.update) h
      | inr (v, p) ↦ elim (Result-cases (f v)) [
        | inl (b, r) ↦ rw (p, r, Table.update) (insert-Every k b m (q v b (h k v p) r) h)
        | inr (x, r) ↦ rw (p, r, Table.update) h
      ]
    ]

-- The loop of GarbageCollect only deletes.
pub sweep-Every :
    {V : Type 0} {Q : V → Type 0} (expiry : V → ℕ) (now : ℕ) (rest m : Map String V) (n : ℕ)
    → Every Q m
    → Every Q (sweep expiry now rest m n).0
unfolding sweep
sweep-Every {Q = Q} expiry now [] m n h = h
sweep-Every {Q = Q} expiry now ((id, a) ∷ rest) m n h =
    sweep-Every expiry now rest _ _ (swept (ltb (expiry a) now))
  where
    swept : (b : Bool) → Every Q (if b then delete id m else m)
    swept true = delete-Every id m h
    swept false = h
