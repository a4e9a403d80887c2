-- ===== src/Server/Token/AuthCode.antt =====
-- server/handlers.go: handleAuthCode, which exchanges an authorization code for tokens.
use dex.Prelude.{
  ℕ, String, Bool, true, false, not, ◌||◌, some, none, [], ltb, ◌==◌, string_eq, Error, not_found,
  Result, ok, err, contains,
}
use dex.GoMap.{insert, lookup}
use dex.Storage.{Client, AuthCode, RefreshToken, RefreshTokenRef, OfflineSessions}
use dex.Server.Action.{Action, ◌>>=◌, ◌>>◌, pure, halt, attempt}
use dex.Server.World.{
  World, Server, Reply, token_error, call, new_id, now, send, or_refuse, refuse_if,
}
use dex.Server.OAuth2.{err_invalid_request, scope_offline_access}
use dex.Server.OAuth2.IdToken.{new_id_token}
use dex.Server.Connectors.{get_connector}
use dex.Server.Token.Form.{server_error, failed, write_access_token}

abbrev pub bad_code : Error → Reply
bad_code not_found = token_error err_invalid_request "Invalid or expired code parameter." 400
bad_code _ = server_error

-- The object that refers to a refresh token.
abbrev pub token_ref : RefreshToken → RefreshTokenRef
token_ref refresh = record {
  id = refresh.id;
  client_id = refresh.client_id;
  created_at = refresh.created_at;
  last_used = refresh.last_used;
}

-- A session with one reference set.
abbrev pub with_ref : RefreshTokenRef → OfflineSessions → OfflineSessions
with_ref r o = record o { refresh = insert r.client_id r o.refresh }

module _ {S : Type 0} (server : Server S) where
  abbrev Handler : Type 0 → Type 0
  Handler A = Action (World S) (Unit {0}) A

  -- The code that was found; an expired code, and one of another client, are refused with the
  -- reply for a nil error.
  unfoldable pub check_code : String → String → Client → Handler AuthCode
  check_code code redirect_uri client = do
    found ← call (server.storage.get_auth_code code)
    auth_code ← or_refuse found bad_code
    t ← now server
    refuse_if (ltb auth_code.expiry t || not (auth_code.client_id == client.id)) server_error
    refuse_if (not (auth_code.redirect_uri == redirect_uri))
        (token_error err_invalid_request "redirect_uri did not match URI from initial request." 400)
    pure auth_code

  -- The deferred function when `deleteToken` is set, behind the reply of the failure.
  unfoldable pub delete_token : {A : Type 0} → RefreshToken → Handler A
  delete_token refresh = do
    send server_error
    r ← call (server.storage.delete_refresh refresh.id)
    done ← or_refuse r failed
    halt tt

  abbrev pub or_delete : {A : Type 0} → RefreshToken → Result A → Handler A
  or_delete refresh (ok a) = pure a
  or_delete refresh (err e) = delete_token refresh

  unfoldable pub new_session : RefreshToken → Handler (Unit {0})
  new_session refresh = do
    r ← call (
        server.storage.create_offline_sessions (
          with_ref (token_ref refresh) (record {
            user_id = refresh.claims.user_id;
            conn_id = refresh.connector_id;
            refresh = [];
          })))
    or_delete refresh r

  -- The old refresh token of the client, if the session has one.
  unfoldable pub delete_old : RefreshToken → OfflineSessions → Handler (Unit {0})
  delete_old refresh session = elim (lookup refresh.client_id session.refresh) [
    | none ↦ pure tt
    | some old ↦ do r ← call (server.storage.delete_refresh old.id); or_delete refresh r
  ]

  unfoldable pub update_session : RefreshToken → OfflineSessions → Handler (Unit {0})
  unfolding delete_old
  update_session refresh session = do
    delete_old refresh session
    r ← call (
        server.storage.update_offline_sessions session.user_id session.conn_id
          (λ old. ok (with_ref (token_ref refresh) old, "")))
    done ← or_delete refresh r
    pure tt

  -- The session of the user, created or updated.
  unfoldable pub store_session : RefreshToken → Result OfflineSessions → Handler (Unit {0})
  unfolding new_session update_session
  store_session refresh (err not_found) = new_session refresh
  store_session refresh (err e) = delete_token refresh
  store_session refresh (ok session) = update_session refresh session

  unfoldable pub new_refresh : AuthCode → Handler RefreshToken
  new_refresh code = do
    id ← new_id server
    token ← new_id server
    created_at ← now server
    last_used ← now server
    pure (record {
      id = id;
      token = token;
      created_at = created_at;
      last_used = last_used;
      client_id = code.client_id;
      connector_id = code.connector_id;
      connector_data = code.connector_data;
      claims = code.claims;
      scopes = code.scopes;
      nonce = code.nonce;
    })

  -- Under `if reqRefresh`.
  unfoldable pub create_refresh_token : AuthCode → Handler String
  unfolding new_refresh store_session
  create_refresh_token code = do
    refresh ← new_refresh code
    refresh_token ← or_refuse (server.marshal_refresh refresh.id refresh.token) failed
    r ← call (server.storage.create_refresh refresh)
    done ← or_refuse r failed
    session ← call (server.storage.get_offline_sessions refresh.claims.user_id refresh.connector_id)
    store_session refresh session
    pure refresh_token

  -- The closure `reqRefresh`: when the connector is not found it sends an error, and the handler
  -- goes on.
  unfoldable pub wants_refresh : AuthCode → Handler Bool
  wants_refresh code = do
    found ← get_connector server code.connector_id
    elim found [
      | err e ↦ (do send server_error; pure false)
      | ok conn ↦ elim conn.connector.refresh [
        | none ↦ pure false
        | some f ↦ pure (contains code.scopes scope_offline_access)
      ]
    ]

  unfoldable pub maybe_refresh_token : AuthCode → Bool → Handler String
  maybe_refresh_token code true = create_refresh_token code
  maybe_refresh_token code false = pure ""

  -- What follows once the code is deleted.
  unfoldable pub hand_out : AuthCode → String → String × ℕ → Handler (Unit {0})
  unfolding wants_refresh maybe_refresh_token
  hand_out auth_code access_token token = do
    req_refresh ← wants_refresh auth_code
    refresh_token ← maybe_refresh_token auth_code req_refresh
    write_access_token server token.0 access_token refresh_token token.1

  -- What follows once the ID token is made.
  unfoldable pub redeem_minted : String → AuthCode → String → String × ℕ → Handler (Unit {0})
  unfolding hand_out
  redeem_minted code auth_code access_token token = do
    deleted ← call (server.storage.delete_auth_code code)
    done ← or_refuse deleted failed
    hand_out auth_code access_token token

  unfoldable pub redeem_with : String → AuthCode → Client → String → Handler (Unit {0})
  unfolding redeem_minted
  redeem_with code auth_code client access_token = do
    minted ← attempt (
        new_id_token server client.id auth_code.claims auth_code.scopes auth_code.nonce access_token
          auth_code.connector_id)
    token ← or_refuse minted failed
    redeem_minted code auth_code access_token token

  -- What follows once the code is checked.
  unfoldable pub redeem : String → AuthCode → Client → Handler (Unit {0})
  unfolding redeem_with
  redeem code auth_code client = do
    access_token ← new_id server
    redeem_with code auth_code client access_token

  unfoldable pub handle_auth_code : String → String → Client → Handler (Unit {0})
  unfolding check_code redeem
  handle_auth_code code redirect_uri client = do
    auth_code ← check_code code redirect_uri client
    redeem code auth_code client
