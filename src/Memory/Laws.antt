-- ===== src/Memory/Laws.antt =====
-- storage/memory/memory.go: what the methods that create, delete and update an object do to the
-- state, as seen by lookups.
use dex.Prelude.{
  Eq, ◌==◌, String, Option, some, none, Error, Result, ok, err, not_found, already_exists, ◌≡◌,
  refl, ap, if◌then◌else◌, Option-cases, ◌⊎◌, inl, inr, Result-cases, string_eq,
}
use dex.GoMap.{Map, lookup, insert, delete}
use dex.GoMap.Laws.{lookup-insert, lookup-delete}
use dex.Storage.{Client, AuthRequest, AuthCode, RefreshToken, OfflineSessions, Password, Connector}
use dex.Memory.Table
use dex.Memory.State.{MemStorage, OfflineSessionId, session_id_eq}

-- One of the maps of the state, and the state with another map in its place.
pub record Slot (K V : Type 0) : Type 0 where
  pub of : MemStorage → Map K V
  pub put : Map K V → MemStorage → MemStorage

abbrev pub clients : Slot String Client
clients = record { of = λ s. s.clients; put = λ m s. record s { clients = m } }

abbrev pub auth_codes : Slot String AuthCode
auth_codes = record { of = λ s. s.auth_codes; put = λ m s. record s { auth_codes = m } }

abbrev pub refresh_tokens : Slot String RefreshToken
refresh_tokens = record { of = λ s. s.refresh_tokens; put = λ m s. record s { refresh_tokens = m } }

abbrev pub auth_reqs : Slot String AuthRequest
auth_reqs = record { of = λ s. s.auth_reqs; put = λ m s. record s { auth_reqs = m } }

abbrev pub passwords : Slot String Password
passwords = record { of = λ s. s.passwords; put = λ m s. record s { passwords = m } }

abbrev pub offline_sessions : Slot OfflineSessionId OfflineSessions
offline_sessions = record {
  of = λ s. s.offline_sessions;
  put = λ m s. record s { offline_sessions = m };
}

abbrev pub connectors : Slot String Connector
connectors = record { of = λ s. s.connectors; put = λ m s. record s { connectors = m } }

module _ {K V : Type 0} ⦃e : Eq K⦄ (slot : Slot K V) (k : K) (s : MemStorage) where
  -- The state with one key of one map set to a value, or cleared; all else is as before.
  abbrev pub IsWritten : Option V → MemStorage → Type 0
  IsWritten o s' =
      (m : Map K V) × (s' ≡ slot.put m s)
      × ((j : K) → lookup j m ≡ (if k == j then o else lookup j (slot.of s)))

  -- What a call leaves: the key was taken and nothing is changed, or it was free and holds the value.
  abbrev pub IsCreated : V → Result (Unit {0}) × MemStorage → Type 0
  IsCreated v out =
      ((out ≡ (err already_exists, s)) × (old : V) × (lookup k (slot.of s) ≡ some old))
      ⊎ ((out.0 ≡ ok tt) × (lookup k (slot.of s) ≡ none) × IsWritten (some v) out.1)

  -- The key was missing and nothing is changed, or it is missing now.
  abbrev pub IsDeleted : Result (Unit {0}) × MemStorage → Type 0
  IsDeleted out =
      ((out ≡ (err not_found, s)) × (lookup k (slot.of s) ≡ none))
      ⊎ ((out.0 ≡ ok tt) × (old : V) × (lookup k (slot.of s) ≡ some old) × IsWritten none out.1)

  -- The key was missing or the updater failed, and nothing is changed, or the key holds what the
  -- updater made of its old value; `parts` has that value and the method's result.
  abbrev pub IsUpdated :
      {C B : Type 0} → (C → V × B) → (V → Result C) → Result B × MemStorage → Type 0
  IsUpdated {C} {B} parts f out =
      ((out ≡ (err not_found, s)) × (lookup k (slot.of s) ≡ none))
      ⊎ (old : V) × (lookup k (slot.of s) ≡ some old)
        × (((x : Error) × (f old ≡ err x) × (out ≡ (err x, s)))
            ⊎ ((made : C) × (f old ≡ ok made)
                × (out.0 ≡ ok (parts made).1)
                × IsWritten (some (parts made).0) out.1))

  pub create-IsCreated :
      (v : V)
      → slot.put (slot.of s) s ≡ s
      → let (r, m) = Table.create k v (slot.of s) in IsCreated v (r, slot.put m s)
  unfolding Table.create
  create-IsCreated v whole = elim (Option-cases (lookup k (slot.of s))) [
    | inl p ↦
        rw (p, Table.create)
          (inr (refl, refl, (insert k v (slot.of s), refl, λ j. lookup-insert k j v (slot.of s))))
    | inr (old, p) ↦ rw (p, Table.create) (inl (ap (λ z. (err already_exists, z)) whole, old, refl))
  ]

  pub remove-IsDeleted :
      slot.put (slot.of s) s ≡ s
      → let (r, m) = Table.remove k (slot.of s) in IsDeleted (r, slot.put m s)
  unfolding Table.remove
  remove-IsDeleted whole = elim (Option-cases (lookup k (slot.of s))) [
    | inl p ↦ rw (p, Table.remove) (inl (ap (λ z. (err not_found, z)) whole, refl))
    | inr (old, p) ↦
        rw (p, Table.remove)
          (inr (refl, old, refl, (delete k (slot.of s), refl, λ j. lookup-delete k j (slot.of s))))
  ]

  pub update-IsUpdated :
      (f : V → Result V)
      → slot.put (slot.of s) s ≡ s
      → let (r, m) = Table.update k f (slot.of s) in IsUpdated (λ v. (v, tt)) f (r, slot.put m s)
  unfolding Table.update
  update-IsUpdated f whole = elim (Option-cases (lookup k (slot.of s))) [
    | inl p ↦ rw (p, Table.update) (inl (ap (λ z. (err not_found, z)) whole, refl))
    | inr (old, p) ↦ elim (Result-cases (f old)) [
      | inr (x, q) ↦
          rw (p, q, Table.update) (inr (old, refl, inl (x, q, ap (λ z. (err x, z)) whole)))
      | inl (made, q) ↦
          rw (p, q, Table.update)
            (inr (
              old,
              refl,
              inr (
                made,
                q,
                refl,
                (insert k made (slot.of s), refl, λ j. lookup-insert k j made (slot.of s)),
              ),
            ))
    ]
  ]

  pub update_with-IsUpdated :
      (f : V → Result (V × String))
      → slot.put (slot.of s) s ≡ s
      → let (r, m) = Table.update_with k f (slot.of s) in
        IsUpdated (λ made. made) f (r, slot.put m s)
  unfolding Table.update_with
  update_with-IsUpdated f whole = elim (Option-cases (lookup k (slot.of s))) [
    | inl p ↦ rw (p, Table.update_with) (inl (ap (λ z. (err not_found, z)) whole, refl))
    | inr (old, p) ↦ elim (Result-cases (f old)) [
      | inr (x, q) ↦
          rw (p, q, Table.update_with) (inr (old, refl, inl (x, q, ap (λ z. (err x, z)) whole)))
      | inl ((new, captured), q) ↦
          rw (p, q, Table.update_with)
            (inr (
              old,
              refl,
              inr (
                (new, captured),
                q,
                refl,
                (insert k new (slot.of s), refl, λ j. lookup-insert k j new (slot.of s)),
              ),
            ))
    ]
  ]
