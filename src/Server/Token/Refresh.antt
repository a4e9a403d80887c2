-- ===== src/Server/Token/Refresh.antt =====
-- server/handlers.go: handleRefreshToken, which exchanges a refresh token for new tokens.
use Prim.Native.String.{◌++◌ as ◌+++◌}
use dex.Prelude.{
  ℕ, String, not, some, none, List, if◌then◌else◌, ◌==◌, string_eq, nat_eq, Error, not_found,
  panicked, other, Result, ok, err, contains, length, select,
}
use dex.GoMap.{insert, lookup}
use dex.Text.{fields}
use dex.Storage.{Client, RefreshToken, OfflineSessions}
use dex.Server.Action.{Action, ◌>>=◌, ◌>>◌, pure, attempt}
use dex.Server.World.{
  World, Server, ServerConnector, Reply, Identity, token_error, aborted, call, new_id, now, refuse,
  or_refuse, refuse_if,
}
use dex.Server.OAuth2.{err_invalid_request, parse_scopes}
use dex.Server.OAuth2.IdToken.{new_id_token}
use dex.Server.Connectors.{get_connector}
use dex.Server.Token.Form.{server_error, failed, write_access_token, claims_of}

abbrev pub invalid_refresh : Reply
invalid_refresh =
    token_error err_invalid_request
      "Refresh token is invalid or has already been claimed by another client." 400

abbrev pub bad_refresh : Error → Reply
bad_refresh not_found = invalid_refresh
bad_refresh _ = server_error

-- A run-time panic ends the handler; any other error is reported.
abbrev pub or_panic : Error → Reply
or_panic panicked = aborted
or_panic _ = server_error

-- The requested scopes that the refresh token does not have.
unfoldable pub unauthorized_scopes : List String → List String → List String
unfolding select contains
unauthorized_scopes granted requested = select (λ s. not (contains granted s)) requested

-- The identity that the refresh token holds.
abbrev pub stored_identity : RefreshToken → Identity
stored_identity refresh = record {
  user_id = refresh.claims.user_id;
  username = refresh.claims.username;
  email = refresh.claims.email;
  email_verified = refresh.claims.email_verified;
  groups = refresh.claims.groups;
  connector_data = refresh.connector_data;
}

-- The closure handed to UpdateRefreshToken.
unfoldable pub token_updater :
    RefreshToken → String → Identity → ℕ → RefreshToken → Result RefreshToken
token_updater refresh new_token ident last_used old =
    if old.token == refresh.token
    then ok (record old {
      token = new_token;
      claims = record {
        user_id = old.claims.user_id;
        username = ident.username;
        email = ident.email;
        email_verified = ident.email_verified;
        groups = ident.groups;
      };
      connector_data = ident.connector_data;
      last_used = last_used;
    })
    else err (other "refresh token claimed twice")

-- The closure handed to UpdateOfflineSessions; without a reference for the client it dereferences
-- nil.
unfoldable pub session_updater :
    RefreshToken → ℕ → OfflineSessions → Result (OfflineSessions × String)
session_updater refresh last_used old = elim (lookup refresh.client_id old.refresh) [
  | none ↦ err panicked
  | some r ↦
      if r.id == refresh.id
      then ok (
        record old {
          refresh = insert refresh.client_id (record r { last_used = last_used }) old.refresh;
        },
        "",
      )
      else err (other "refresh token invalid")
]

module _ {S : Type 0} (server : Server S) where
  abbrev Handler : Type 0 → Type 0
  Handler A = Action (World S) (Unit {0}) A

  -- The token's ID and value; a text that does not decode is an ID alone.
  unfoldable pub decode_token : String → String × String
  decode_token code = elim (server.unmarshal_refresh code) [ ok p ↦ p | err e ↦ (code, "") ]

  unfoldable pub check_refresh : String → Client → Handler RefreshToken
  unfolding decode_token
  check_refresh code client = do
    refuse_if (code == "") (token_error err_invalid_request "No refresh token in request." 400)
    found ← call (server.storage.get_refresh (decode_token code).0)
    refresh ← or_refuse found bad_refresh
    refuse_if (not (refresh.client_id == client.id)) invalid_refresh
    refuse_if (not (refresh.token == (decode_token code).1)) invalid_refresh
    pure refresh

  unfoldable pub requested_scopes : String → RefreshToken → Handler (List String)
  unfolding unauthorized_scopes
  requested_scopes scope refresh =
      if scope == ""
      then pure refresh.scopes
      else if length (unauthorized_scopes refresh.scopes (fields scope)) == 0
      then pure (fields scope)
      else refuse (
          token_error err_invalid_request
            ("Requested scopes contain unauthorized scope(s): "
              +++ server.quote_list (unauthorized_scopes refresh.scopes (fields scope))
              +++ ".")
            400)

  -- The identity, refreshed by the connector if it can.
  unfoldable pub refresh_identity :
      RefreshToken → List String → ServerConnector S → Handler Identity
  refresh_identity refresh scopes conn = elim conn.connector.refresh [
    | none ↦ pure (stored_identity refresh)
    | some f ↦ do
      ident ← call (f (parse_scopes scopes) (stored_identity refresh))
      or_refuse ident failed
  ]

  -- The two updates, at the time `last_used`.
  unfoldable pub rotate_token : RefreshToken → String → Identity → Handler (Unit {0})
  unfolding session_updater token_updater
  rotate_token refresh new_token ident = do
    last_used ← now server
    r ← call (
        server.storage.update_offline_sessions refresh.claims.user_id refresh.connector_id
          (session_updater refresh last_used))
    captured ← or_refuse r or_panic
    u ← call (
        server.storage.update_refresh_token refresh.id
          (token_updater refresh new_token ident last_used))
    or_refuse u failed

  unfoldable pub refresh_with : RefreshToken → List String → Client → Handler (Unit {0})
  unfolding refresh_identity rotate_token
  refresh_with refresh scopes client = do
    found ← get_connector server refresh.connector_id
    conn ← or_refuse found failed
    ident ← refresh_identity refresh scopes conn
    access_token ← new_id server
    minted ← attempt (
        new_id_token server client.id (claims_of ident) scopes refresh.nonce access_token
          refresh.connector_id)
    token ← or_refuse minted failed
    new_token ← new_id server
    raw_new_token ← or_refuse (server.marshal_refresh refresh.id new_token) failed
    rotate_token refresh new_token ident
    write_access_token server token.0 access_token raw_new_token token.1

  unfoldable pub handle_refresh_token : String → String → Client → Handler (Unit {0})
  unfolding check_refresh requested_scopes refresh_with
  handle_refresh_token code scope client = do
    refresh ← check_refresh code client
    scopes ← requested_scopes scope refresh
    refresh_with refresh scopes client
