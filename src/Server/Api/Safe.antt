-- ===== src/Server/Api/Safe.antt =====
-- server/api.go: what the API has checked and done when it answers.
use dex.Prelude.{
  ℕ, ◌≤◌, String, false, none, some, ok, ◌≡◌, Bool-cases, Option-cases, Result-cases, inl, inr,
  arith, ◌==◌, string_eq, eq_refl,
}
use dex.GoMap.{lookup, delete}
use dex.GoMap.Laws.{lookup-insert, lookup-delete}
use dex.Storage.{OfflineSessions, RefreshTokenRef, Bytes}
use dex.Memory.Table
use dex.Memory.{
  MemStorage, memory, session_id, session_id_eq, update_offline_sessions, delete_refresh,
}
use dex.Server.Action.{next}
use dex.Server.World.{World, Server}
use dex.Server.Connectors.{check_cost}
use dex.Server.Api.{
  Response, given, ApiPassword, checked_hash, create_password, revoker, delete_revoked,
  revoke_refresh,
}

module _ {S : Type 0} (server : Server S) where
  check_cost-bounds :
      (hash : Bytes)
      → check_cost server.platform hash ≡ ok tt
      → (n : ℕ) × (server.bcrypt_cost hash ≡ ok n) × (10 ≤ n) × (n ≤ 16)
  unfolding check_cost
  check_cost-bounds hash h = elim (Result-cases (server.bcrypt_cost hash)) [
    | inr (x, e) ↦ ground (arith, e)
    | inl (n, e) ↦ (n, e, ground (arith, e), ground (arith, e))
  ]

  -- When CreatePassword answers without an error, the request had a hash, whose bcrypt cost is
  -- between 10 and 16, and a user ID.
  pub create_password-bounds :
      (p : ApiPassword) (r : Response (Unit {0})) (w w' : World S)
      → create_password server (some p) w ≡ (next r, w')
      → (hash : Bytes) × (n : ℕ) × (p.hash ≡ some hash)
        × (server.bcrypt_cost hash ≡ ok n)
        × (10 ≤ n)
        × (n ≤ 16)
        × ((p.user_id == "") ≡ false)
  unfolding create_password checked_hash
  create_password-bounds p r w w' h = elim (Bool-cases (p.user_id == "")) [
    | inl e ↦ ground (arith, e)
    | inr e ↦ elim (Option-cases p.hash) [
      | inl q ↦ ground (arith, e, q)
      | inr (hash, q) ↦ elim (Result-cases (check_cost server.platform hash)) [
        | inr (x, c) ↦ ground (arith, e, q, c)
        | inl (u, c) ↦
            let (n, cost, low, high) = check_cost-bounds hash c in (hash, n, q, cost, low, high, e)
      ]
    ]
  ]

module _ (to_lower : String → String) (base : Server MemStorage) where
  -- A server on the in-memory storage.
  abbrev pub on_memory : Server MemStorage
  on_memory = record base { storage = memory to_lower }

  -- When RevokeRefresh answers that it revoked, the named user's session had a reference for the
  -- client; afterwards the session is as before without that reference, and the refresh token that
  -- it named is not in the in-memory storage.
  pub revoke_refresh-Revoked :
      (user client_id : String) (w w' : World MemStorage)
      → revoke_refresh on_memory user client_id w ≡ (next (given tt), w')
      → (id : String × String) × (o : OfflineSessions) × (r : RefreshTokenRef)
        × (base.unmarshal_subject user ≡ ok id)
        × (lookup (session_id id.0 id.1) w.store.offline_sessions ≡ some o)
        × (lookup client_id o.refresh ≡ some r)
        × (lookup (session_id id.0 id.1) w'.store.offline_sessions
            ≡ some (record o { refresh = delete client_id o.refresh }))
        × (lookup r.id w'.store.refresh_tokens ≡ none)
  unfolding revoke_refresh revoker delete_revoked update_offline_sessions delete_refresh
      Table.update_with Table.remove
  revoke_refresh-Revoked user client_id w w' h = elim (Result-cases (base.unmarshal_subject user)) [
    | inr (x, e) ↦ ground (arith, e)
    | inl (id, e) ↦ elim (Option-cases (lookup (session_id id.0 id.1) w.store.offline_sessions)) [
      | inl q ↦ ground (arith, e, q)
      | inr (o, q) ↦ elim (Option-cases (lookup client_id o.refresh)) [
        | inl v ↦ ground (arith, e, q, v)
        | inr (r, v) ↦ elim (Bool-cases (r.id == "")) [
          | inl b ↦ ground (arith, e, q, v, b)
          | inr b ↦ elim (Option-cases (lookup r.id w.store.refresh_tokens)) [
            | inl t ↦ ground (arith, e, q, v, b, t)
            | inr (token, t) ↦ (
              id,
              o,
              r,
              e,
              q,
              v,
              ground (
                arith,
                e,
                q,
                v,
                b,
                t,
                eq_refl (session_id id.0 id.1),
                lookup-insert (session_id id.0 id.1) (session_id id.0 id.1)
                    (record o { refresh = delete client_id o.refresh }) w.store.offline_sessions,
              ),
              ground (
                arith,
                e,
                q,
                v,
                b,
                t,
                eq_refl r.id,
                lookup-delete r.id r.id w.store.refresh_tokens,
              ),
            )
          ]
        ]
      ]
    ]
  ]
