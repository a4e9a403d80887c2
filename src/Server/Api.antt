-- ===== src/Server/Api.antt =====
-- server/api.go: the gRPC API. A request's fields are arguments, a nil pointer or slice is `none`,
-- and an action stops with the error that the method returns.
pub mod Safe
use Prim.Native.String.{◌++◌ as ◌+++◌}
use dex.Prelude.{
  ℕ, String, Bool, true, false, ◌&&◌, Option, none, some, List, [], map, if◌then◌else◌, ◌==◌,
  string_eq, Result, ok, err, Error, not_found, already_exists, other, wrap,
}
use dex.GoMap.{lookup, delete, values}
use dex.Storage.{Client, Password, Bytes, OfflineSessions, RefreshTokenRef}
use dex.Server.Action.{Action, ◌>>=◌, ◌>>◌, pure, halt, or_halt, halt_if}
use dex.Server.World.{World, Server, call, new_id}
use dex.Server.Connectors.{check_cost}
use dex.Server.OAuth2.IdToken.{unix}

-- The responses: a plain one, and those with the flag AlreadyExists or NotFound set.
pub data Response (A : Type 0) : Type 0 where
  given : A → Response A
  exists_already missing : Response A

-- api.Password
pub record ApiPassword : Type 0 where
  pub email : String
  pub hash : Option Bytes
  pub username : String
  pub user_id : String

-- api.RefreshTokenRef
pub record ApiRefresh : Type 0 where
  pub id : String
  pub client_id : String
  pub created_at : ℕ
  pub last_used : ℕ

abbrev pub api_refresh : RefreshTokenRef → ApiRefresh
api_refresh r = record {
  id = r.id;
  client_id = r.client_id;
  created_at = unix r.created_at;
  last_used = unix r.last_used;
}

-- The responses to what a storage method returns.
abbrev created : {A : Type 0} → String → A → Result (Unit {0}) → Result (Response A)
created text a (ok u) = ok (given a)
created text a (err already_exists) = ok exists_already
created text a (err e) = err (wrap text e)

abbrev changed : String → Result (Unit {0}) → Result (Response (Unit {0}))
changed text (ok u) = ok (given tt)
changed text (err not_found) = ok missing
changed text (err e) = err (wrap text e)

-- The closure that UpdatePassword hands to the storage.
unfoldable pub password_updater : Option Bytes → String → Password → Result Password
password_updater new_hash new_username old =
    let hash = elim new_hash as (λ _. Bytes) [ none ↦ old.hash | some h ↦ h ] in
    let username = if new_username == "" then old.username else new_username in
    ok (record old { hash = hash; username = username })

-- The closure of RevokeRefresh, with the refresh token's ID that it captures.
unfoldable pub revoker : String → OfflineSessions → Result (OfflineSessions × String)
revoker client_id old = elim (lookup client_id old.refresh) [
  | none ↦ err not_found
  | some r ↦
      if r.id == ""
      then err not_found
      else ok (record old { refresh = delete client_id old.refresh }, r.id)
]

module _ {S : Type 0} (server : Server S) where
  abbrev Method : Type 0 → Type 0
  Method A = Action (World S) Error A

  abbrev or_random : String → Method String → Method String
  or_random text random = if text == "" then random else pure text

  abbrev two_ids : Method String
  two_ids = do a ← new_id server; b ← new_id server; pure (a +++ b)

  unfoldable pub create_client : Option Client → Method (Response Client)
  create_client none = halt (other "no client supplied")
  create_client (some client) = do
    id ← or_random client.id (new_id server)
    secret ← or_random client.secret two_ids
    r ← call (server.storage.create_client (record client { id = id; secret = secret }))
    or_halt (created "create client: " (record client { id = id; secret = secret }) r) (λ e. e)

  unfoldable pub delete_client : String → Method (Response (Unit {0}))
  delete_client id = do
    r ← call (server.storage.delete_client id)
    or_halt (changed "delete client: " r) (λ e. e)

  -- The guards on the hash of a new password.
  unfoldable pub checked_hash : ApiPassword → Result Bytes
  unfolding check_cost
  checked_hash p = if p.user_id == "" then err (other "no user ID supplied") else elim p.hash [
    | none ↦ err (other "no hash of password supplied")
    | some hash ↦ elim (check_cost server.platform hash) [ ok u ↦ ok hash | err e ↦ err e ]
  ]

  unfoldable pub create_password : Option ApiPassword → Method (Response (Unit {0}))
  unfolding checked_hash
  create_password none = halt (other "no password supplied")
  create_password (some p) = do
    hash ← or_halt (checked_hash p) (λ e. e)
    r ← call (
        server.storage.create_password
          (record { email = p.email; hash = hash; username = p.username; user_id = p.user_id }))
    or_halt (created "create password: " tt r) (λ e. e)

  -- The guards of UpdatePassword.
  unfoldable pub checked_update : String → Option Bytes → String → Result (Unit {0})
  unfolding check_cost
  checked_update email new_hash new_username =
      if email == "" then err (other "no email supplied") else elim new_hash [
        | none ↦ if new_username == "" then err (other "nothing to update") else ok tt
        | some hash ↦ check_cost server.platform hash
      ]

  unfoldable pub update_password : String → Option Bytes → String → Method (Response (Unit {0}))
  unfolding checked_update password_updater
  update_password email new_hash new_username = do
    done ← or_halt (checked_update email new_hash new_username) (λ e. e)
    r ← call (server.storage.update_password email (password_updater new_hash new_username))
    or_halt (changed "update password: " r) (λ e. e)

  unfoldable pub delete_password : String → Method (Response (Unit {0}))
  delete_password email = do
    halt_if (email == "") (other "no email supplied")
    r ← call (server.storage.delete_password email)
    or_halt (changed "delete password: " r) (λ e. e)

  -- The response leaves the hashes out.
  unfoldable pub list_passwords : Method (List ApiPassword)
  list_passwords = do
    r ← call server.storage.list_passwords
    passwords ← or_halt r (wrap "list passwords: ")
    pure (
        map
          (λ (p : Password). record {
            email = p.email;
            hash = none;
            username = p.username;
            user_id = p.user_id;
          })
          passwords)

  -- A user with no session has no refresh tokens.
  abbrev session_refs : Result OfflineSessions → Result (List RefreshTokenRef)
  session_refs (ok o) = ok (values o.refresh)
  session_refs (err not_found) = ok []
  session_refs (err e) = err e

  unfoldable pub list_refresh : String → Method (List ApiRefresh)
  list_refresh user = do
    id ← or_halt (server.unmarshal_subject user) (λ e. e)
    r ← call (server.storage.get_offline_sessions id.0 id.1)
    refs ← or_halt (session_refs r) (λ e. e)
    pure (map api_refresh refs)

  -- What RevokeRefresh does with the captured ID.
  unfoldable pub delete_revoked : Result String → Method (Response (Unit {0}))
  delete_revoked (err not_found) = pure missing
  delete_revoked (err e) = halt e
  delete_revoked (ok refresh_id) = do
    r ← call (server.storage.delete_refresh refresh_id)
    done ← or_halt r (λ e. e)
    pure (given tt)

  unfoldable pub revoke_refresh : String → String → Method (Response (Unit {0}))
  unfolding revoker delete_revoked
  revoke_refresh user client_id = do
    id ← or_halt (server.unmarshal_subject user) (λ e. e)
    r ← call (server.storage.update_offline_sessions id.0 id.1 (revoker client_id))
    delete_revoked r
