-- ===== src/Memory/Gc.antt =====
-- storage/memory/memory.go: GarbageCollect.
use dex.Prelude.{
  ℕ, ◌+◌, ◌==◌, eq_iff, String, Bool, true, false, Option, some, none, ok, ◌≡◌, refl, arith, ◌∙◌,
  if◌then◌else◌, ltb, [], ◌∷◌, string_eq,
}
use dex.GoMap.{Map, lookup, delete, IsMap}
use dex.GoMap.Laws.{lookup-delete, delete-IsMap}
use dex.Storage.{AuthCode, AuthRequest}
use dex.Memory.State.{MemStorage}
use dex.Memory.Collect.{sweep, garbage_collect}

module _ {V : Type 0} (expiry : V → ℕ) (now : ℕ) where
  -- What is left of a found entry.
  abbrev pub live : Option V → Option V
  live none = none
  live (some a) = if ltb (expiry a) now then none else some a

  -- How many entries of a map have expired.
  abbrev pub expired_count : Map String V → ℕ
  expired_count [] = 0
  expired_count ((id, a) ∷ m) = (if ltb (expiry a) now then 1 else 0) + expired_count m

  count-sweep :
      (entries m : Map String V) (n : ℕ)
      → (sweep expiry now entries m n).1 ≡ n + expired_count entries
  unfolding sweep
  count-sweep [] m n = omega arith
  count-sweep ((id, a) ∷ entries) m n = ground (
    arith,
    count-sweep entries (if ltb (expiry a) now then delete id m else m)
        (if ltb (expiry a) now then n + 1 else n),
  )

  -- Looking up in the swept map: an entry is gone if the visited list holds an expired entry under
  -- its key.
  abbrev swept : Map String V → String → Option V → Option V
  swept [] j o = o
  swept ((id, a) ∷ entries) j o =
      swept entries j (if ltb (expiry a) now then (if id == j then none else o) else o)

  lookup-sweep :
      (entries m : Map String V) (n : ℕ) (j : String)
      → lookup j (sweep expiry now entries m n).0 ≡ swept entries j (lookup j m)
  unfolding sweep
  lookup-sweep [] m n j = refl
  lookup-sweep ((id, a) ∷ entries) m n j = ground (
    arith,
    lookup-sweep entries m n j,
    lookup-sweep entries (delete id m) (n + 1) j,
    lookup-delete id j m,
  )

  swept-none : (entries : Map String V) (j : String) → swept entries j none ≡ none
  swept-none [] j = refl
  swept-none ((id, a) ∷ entries) j = ground (arith, swept-none entries j)

  swept_absent :
      (entries : Map String V) (j : String) (o : Option V)
      → lookup j entries ≡ none
      → swept entries j o ≡ o
  unfolding lookup
  swept_absent [] j o h = refl
  swept_absent ((id, a) ∷ entries) j o h = ground (arith, swept_absent entries j o)

  swept-live :
      (entries : Map String V) (j : String)
      → IsMap entries
      → swept entries j (lookup j entries) ≡ live (lookup j entries)
  unfolding lookup
  swept-live [] j h = refl
  swept-live ((id, a) ∷ entries) j h = ground (
    arith,
    eq_iff id j,
    swept-live entries j,
    swept-none entries j,
    swept_absent entries j (some a),
  )

  delete_if-IsMap :
      (b : Bool) (id : String) (m : Map String V) → IsMap m → IsMap (if b then delete id m else m)
  delete_if-IsMap true id m h = delete-IsMap id m h
  delete_if-IsMap false id m h = h

  sweep-IsMap :
      (entries m : Map String V) (n : ℕ) → IsMap m → IsMap (sweep expiry now entries m n).0
  unfolding sweep
  sweep-IsMap [] m n h = h
  sweep-IsMap ((id, a) ∷ entries) m n h =
      sweep-IsMap entries (if ltb (expiry a) now then delete id m else m)
        (if ltb (expiry a) now then n + 1 else n) (delete_if-IsMap (ltb (expiry a) now) id m h)

  -- One map of GarbageCollect: over a map with distinct keys, what has expired is gone, the rest
  -- is found as before, and the count is the number of entries that had expired.
  pub sweep_lem :
      (m : Map String V)
      → IsMap m
      → ((j : String) → lookup j (sweep expiry now m m 0).0 ≡ live (lookup j m))
        × ((sweep expiry now m m 0).1 ≡ expired_count m)
        × IsMap (sweep expiry now m m 0).0
  sweep_lem m h = (
    (λ j. lookup-sweep m m 0 j ∙ swept-live m j h),
    omega (arith, count-sweep m m 0),
    sweep-IsMap m m 0 h,
  )

abbrev pub code_expiry : AuthCode → ℕ
code_expiry a = a.expiry

abbrev pub request_expiry : AuthRequest → ℕ
request_expiry a = a.expiry

-- If no key stands twice among the codes and among the requests, then after GarbageCollect at `now` a lookup finds an authorization code or request exactly if it was
-- there and had not expired (Go's `now.After(expiry)`), the two counts are the numbers of expired
-- entries, and all the other tables and the keys are as before.
pub garbage_collect_exact :
    (now : ℕ) (s : MemStorage)
    → IsMap s.auth_codes
    → IsMap s.auth_reqs
    → let t = (garbage_collect now s).1 in
      ((garbage_collect now s).0
        ≡ ok (record {
          auth_requests = expired_count request_expiry now s.auth_reqs;
          auth_codes = expired_count code_expiry now s.auth_codes;
        }))
      × ((id : String) → lookup id t.auth_codes ≡ live code_expiry now (lookup id s.auth_codes))
      × ((id : String) → lookup id t.auth_reqs ≡ live request_expiry now (lookup id s.auth_reqs))
      × (t ≡ record s { auth_codes = t.auth_codes; auth_reqs = t.auth_reqs })
unfolding garbage_collect
garbage_collect_exact now s hc hr =
    let codes = sweep_lem code_expiry now s.auth_codes hc in
    let reqs = sweep_lem request_expiry now s.auth_reqs hr in
    (cc (codes.1, reqs.1), codes.0, reqs.0, refl)
