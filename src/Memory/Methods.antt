-- ===== src/Memory/Methods.antt =====
-- storage/memory/memory.go: the methods that create, delete and update an object.
use dex.Prelude.{String, Error, Result, ok, err, ◌≡◌, refl, ◌⊎◌, inl, inr, Result-cases, string_eq}
use dex.Storage.{
  Client, AuthRequest, AuthCode, RefreshToken, OfflineSessions, Password, Connector, Keys,
}
use dex.Memory.State.{MemStorage, session_id, session_id_eq}
use dex.Memory.Objects.{
  create_client, create_auth_code, create_refresh, create_auth_request, create_connector,
  delete_client, delete_auth_code, delete_refresh, delete_auth_request, delete_connector,
  update_client, update_refresh_token, update_auth_request, update_connector,
}
use dex.Memory.Passwords.{create_password, delete_password, update_password}
use dex.Memory.Sessions.{
  create_offline_sessions, delete_offline_sessions, update_offline_sessions, update_keys,
}
use dex.Memory.Laws.{
  clients, auth_codes, refresh_tokens, auth_reqs, passwords, offline_sessions, connectors,
  IsCreated, IsDeleted, IsUpdated, create-IsCreated, remove-IsDeleted, update-IsUpdated,
  update_with-IsUpdated,
}

module _ (to_lower : String → String) (s : MemStorage) where
  -- Each of the seven methods that create an object, seen through lookups, either finds its key
  -- taken, returns the error for that and leaves the state as it is, or finds it free, succeeds, and
  -- leaves the object under that key, with every other key and every other map as before. The key is
  -- the object's ID, the lower-case address of a password, or the pair of user and connector of a
  -- session.
  pub create_methods-IsCreated :
      (client : Client) (code : AuthCode) (refresh : RefreshToken) (req : AuthRequest)
      (password : Password) (sessions : OfflineSessions) (connector : Connector)
      → IsCreated clients client.id s client (create_client client s)
        × IsCreated auth_codes code.id s code (create_auth_code code s)
        × IsCreated refresh_tokens refresh.id s refresh (create_refresh refresh s)
        × IsCreated auth_reqs req.id s req (create_auth_request req s)
        × IsCreated passwords
            (to_lower password.email)
            s
            password
            (create_password to_lower password s)
        × IsCreated offline_sessions
            (session_id sessions.user_id sessions.conn_id)
            s
            sessions
            (create_offline_sessions sessions s)
        × IsCreated connectors connector.id s connector (create_connector connector s)
  unfolding create_client create_auth_code create_refresh create_auth_request create_password
      create_offline_sessions create_connector
  create_methods-IsCreated client code refresh req password sessions connector = (
    create-IsCreated clients client.id s client refl,
    create-IsCreated auth_codes code.id s code refl,
    create-IsCreated refresh_tokens refresh.id s refresh refl,
    create-IsCreated auth_reqs req.id s req refl,
    create-IsCreated passwords (to_lower password.email) s password refl,
    create-IsCreated offline_sessions (session_id sessions.user_id sessions.conn_id) s sessions
        refl,
    create-IsCreated connectors connector.id s connector refl,
  )

  -- Each of the seven methods that delete an object, seen through lookups, either finds its key
  -- missing, returns the error for that and leaves the state as it is, or finds an object there,
  -- succeeds, and leaves none under that key, with every other key and every other map as before.
  pub delete_methods-IsDeleted :
      (id email user_id conn_id : String)
      → IsDeleted clients id s (delete_client id s)
        × IsDeleted auth_codes id s (delete_auth_code id s)
        × IsDeleted refresh_tokens id s (delete_refresh id s)
        × IsDeleted auth_reqs id s (delete_auth_request id s)
        × IsDeleted passwords (to_lower email) s (delete_password to_lower email s)
        × IsDeleted offline_sessions
            (session_id user_id conn_id)
            s
            (delete_offline_sessions user_id conn_id s)
        × IsDeleted connectors id s (delete_connector id s)
  unfolding delete_client delete_auth_code delete_refresh delete_auth_request delete_password
      delete_offline_sessions delete_connector
  delete_methods-IsDeleted id email user_id conn_id = (
    remove-IsDeleted clients id s refl,
    remove-IsDeleted auth_codes id s refl,
    remove-IsDeleted refresh_tokens id s refl,
    remove-IsDeleted auth_reqs id s refl,
    remove-IsDeleted passwords (to_lower email) s refl,
    remove-IsDeleted offline_sessions (session_id user_id conn_id) s refl,
    remove-IsDeleted connectors id s refl,
  )

  -- Each of the six methods that update an object under a key, seen through lookups, finds its key
  -- missing and returns the error for that, or hands on the updater's error on the object found, both
  -- with the state as it was, or succeeds and leaves what the updater made of that object under the
  -- same key, with every other key and every other map as before. UpdateKeys does the same for the
  -- keys, which are always there.
  pub update_methods-IsUpdated :
      (id email user_id conn_id : String) (on_client : Client → Result Client)
      (on_refresh : RefreshToken → Result RefreshToken) (on_req : AuthRequest → Result AuthRequest)
      (on_password : Password → Result Password)
      (on_sessions : OfflineSessions → Result (OfflineSessions × String))
      (on_connector : Connector → Result Connector) (on_keys : Keys → Result Keys)
      → IsUpdated clients id s (λ v. (v, tt)) on_client (update_client id on_client s)
        × IsUpdated refresh_tokens id s
            (λ v. (v, tt))
            on_refresh
            (update_refresh_token id on_refresh s)
        × IsUpdated auth_reqs id s (λ v. (v, tt)) on_req (update_auth_request id on_req s)
        × IsUpdated passwords
            (to_lower email)
            s
            (λ v. (v, tt))
            on_password
            (update_password to_lower email on_password s)
        × IsUpdated offline_sessions
            (session_id user_id conn_id)
            s
            (λ made. made)
            on_sessions
            (update_offline_sessions user_id conn_id on_sessions s)
        × IsUpdated connectors id s (λ v. (v, tt)) on_connector (update_connector id on_connector s)
        × (((x : Error) × (on_keys s.keys ≡ err x) × (update_keys on_keys s ≡ (err x, s)))
            ⊎ ((keys : Keys) × (on_keys s.keys ≡ ok keys)
                × (update_keys on_keys s ≡ (ok tt, record s { keys = keys }))))
  unfolding update_client update_refresh_token update_auth_request update_password
      update_offline_sessions update_connector update_keys
  update_methods-IsUpdated id email user_id conn_id on_client on_refresh on_req on_password
        on_sessions on_connector on_keys =
      (
        update-IsUpdated clients id s on_client refl,
        update-IsUpdated refresh_tokens id s on_refresh refl,
        update-IsUpdated auth_reqs id s on_req refl,
        update-IsUpdated passwords (to_lower email) s on_password refl,
        update_with-IsUpdated offline_sessions (session_id user_id conn_id) s on_sessions refl,
        update-IsUpdated connectors id s on_connector refl,
        elim (Result-cases (on_keys s.keys)) [
          | inr (x, e) ↦ inl (x, e, rw (e, update_keys) refl)
          | inl (keys, e) ↦ inr (keys, e, rw (e, update_keys) refl)
        ],
      )
