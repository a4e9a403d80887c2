-- ===== src/Server/Token/Rotated.antt =====
-- server/handlers.go on storage/memory/memory.go: the rotation of a stored refresh token.
use dex.Prelude.{
  String, true, false, some, none, Error, not_found, other, Result, err, ◌≡◌, refl, sym, ◌∙◌, ap,
  inl, inr, ◌==◌, string_eq, eq_iff, Bool-cases, Option-cases, Result-cases,
}
use dex.GoMap.{Map, lookup}
use dex.GoMap.Laws.{lookup-insert_same}
use dex.Storage.{RefreshToken}
use dex.Memory.Table
use dex.Memory.{MemStorage, update_refresh_token, update_offline_sessions}
use dex.Server.Action.{next, stop}
use dex.Server.World.{World, Server, Identity}
use dex.Server.Approval.Code.{on_memory}
use dex.Server.Token.Refresh.{token_updater, session_updater, rotate_token}

-- What a rotation makes of the stored token.
pub record IsRotated (new_token : String) (old updated : RefreshToken) : Type 0 where
  pub token : updated.token ≡ new_token
  pub id : updated.id ≡ old.id
  pub client_id : updated.client_id ≡ old.client_id
  pub connector_id : updated.connector_id ≡ old.connector_id
  pub scopes : updated.scopes ≡ old.scopes
  pub nonce : updated.nonce ≡ old.nonce
  pub user_id : updated.claims.user_id ≡ old.claims.user_id

module _ (to_lower : String → String) (base : Server MemStorage) (refresh : RefreshToken) where
  -- The two updates, on the maps.
  abbrev sessions_updated : World MemStorage → Result String × MemStorage
  sessions_updated v =
      update_offline_sessions refresh.claims.user_id refresh.connector_id
        (session_updater refresh (base.clock v.ticks)) v.store

  abbrev pub tokens_updated :
      String → Identity → World MemStorage → Result (Unit {0}) × Map String RefreshToken
  tokens_updated new_token ident v =
      Table.update refresh.id (token_updater refresh new_token ident (base.clock v.ticks))
        v.store.refresh_tokens

  pub rotate_token-stopped :
      (new_token : String) (ident : Identity) (v : World MemStorage) (x : Error)
      → tokens_updated new_token ident v ≡ (err x, v.store.refresh_tokens)
      → ((rotate_token (on_memory to_lower base) refresh new_token ident v).0 ≡ stop tt)
        × ((rotate_token (on_memory to_lower base) refresh new_token ident v).1.store.refresh_tokens
            ≡ v.store.refresh_tokens)
        × ((rotate_token (on_memory to_lower base) refresh new_token ident v).1.connectors
            ≡ v.connectors)
  unfolding rotate_token update_refresh_token update_offline_sessions
  rotate_token-stopped new_token ident v x failed = elim (Result-cases (sessions_updated v).0) [
    | inr (y, e) ↦ (
      rw (e, rotate_token) refl,
      rw (e, rotate_token, update_offline_sessions) refl,
      rw (e, rotate_token) refl,
    )
    | inl (c, e) ↦ (
      rw (e, failed, rotate_token, update_offline_sessions, update_refresh_token) refl,
      rw (e, failed, rotate_token, update_offline_sessions, update_refresh_token) refl,
      rw (e, failed, rotate_token, update_offline_sessions, update_refresh_token) refl,
    )
  ]

  -- Without the value that was read, the second update fails.
  pub tokens_updated-refused :
      (new_token : String) (ident : Identity) (v : World MemStorage) (current : RefreshToken)
      → lookup refresh.id v.store.refresh_tokens ≡ some current
      → (current.token == refresh.token) ≡ false
      → tokens_updated new_token ident v
        ≡ (err (other "refresh token claimed twice"), v.store.refresh_tokens)
  unfolding Table.update token_updater
  tokens_updated-refused new_token ident v current found differs =
      rw (found, differs, Table.update, token_updater) refl

  tokens_updated-missing :
      (new_token : String) (ident : Identity) (v : World MemStorage)
      → lookup refresh.id v.store.refresh_tokens ≡ none
      → tokens_updated new_token ident v ≡ (err not_found, v.store.refresh_tokens)
  unfolding Table.update
  tokens_updated-missing new_token ident v missing = rw (missing, Table.update) refl

  rotate_token-stored :
      (new_token : String) (ident : Identity) (w w' : World MemStorage) (old : RefreshToken)
      → lookup refresh.id w.store.refresh_tokens ≡ some old
      → (old.token == refresh.token) ≡ true
      → rotate_token (on_memory to_lower base) refresh new_token ident w ≡ (next tt, w')
      → (updated : RefreshToken) × (lookup refresh.id w'.store.refresh_tokens ≡ some updated)
        × IsRotated new_token old updated
  unfolding rotate_token update_refresh_token update_offline_sessions Table.update token_updater
  rotate_token-stored new_token ident w w' old found value h =
      elim (Result-cases (sessions_updated w).0) [
        | inr (y, e) ↦ cc (rw (e, rotate_token) at h)
        | inl (c, e) ↦
            let done =
              rw
                (
                  e, found, value, rotate_token, update_offline_sessions, update_refresh_token,
                  Table.update, token_updater,
                )
                at h in
            (
              _,
              sym (ap (λ z. lookup refresh.id z.1.store.refresh_tokens) done)
                  ∙ lookup-insert_same refresh.id _ w.store.refresh_tokens,
              record {
                token = refl;
                id = refl;
                client_id = refl;
                connector_id = refl;
                scopes = refl;
                nonce = refl;
                user_id = refl;
              },
            )
      ]

  pub rotate_token-next :
      (new_token : String) (ident : Identity) (w w' : World MemStorage)
      → rotate_token (on_memory to_lower base) refresh new_token ident w ≡ (next tt, w')
      → (old : RefreshToken) × (updated : RefreshToken) × (lookup refresh.id w.store.refresh_tokens
          ≡ some old)
        × (old.token ≡ refresh.token)
        × (lookup refresh.id w'.store.refresh_tokens ≡ some updated)
        × IsRotated new_token old updated
  rotate_token-next new_token ident w w' h =
      elim (Option-cases (lookup refresh.id w.store.refresh_tokens)) [
        | inl missing ↦ cc (
          h,
          (rotate_token-stopped new_token ident w not_found
              (tokens_updated-missing new_token ident w missing)).0,
        )
        | inr (old, found) ↦ elim (Bool-cases (old.token == refresh.token)) [
          | inr differs ↦ cc (
            h,
            (rotate_token-stopped new_token ident w (other "refresh token claimed twice")
                (tokens_updated-refused new_token ident w old found differs)).0,
          )
          | inl value ↦
              let (updated, after, rotated) =
                rotate_token-stored new_token ident w w' old found value h in
              (old, updated, found, (eq_iff old.token refresh.token).0 value, after, rotated)
        ]
      ]
