-- ===== src/Server/Vouched/Token.antt =====
-- server/handlers.go: handleToken makes refresh tokens only for users that a connector vouches for.
use dex.Prelude.{
  not_found, ℕ, String, not, ◌||◌, some, List, Result, ok, ◌≡◌, subst, ◌==◌, string_eq, ltb, arith,
}
use dex.Storage.{Client, AuthCode, RefreshToken}
use dex.Server.Action.{Action}
use dex.Server.World.{
  World, Server, ServerConnector, OpenedConnector, Identity, Scopes, token_error,
}
use dex.Server.OAuth2.{
  err_invalid_request, err_invalid_grant, grant_type_authorization_code, grant_type_refresh_token,
  parse_scopes,
}
use dex.Server.OAuth2.IdToken.Kept.{new_id_token-Kept}
use dex.Server.Connectors.Opening.{get_connector-Ensures}
use dex.Server.Token.{credentials, authenticate, bad_client, handle_grant, handle_token}
use dex.Server.Token.Form.{TokenForm, server_error, failed, claims_of}
use dex.Server.Token.AuthCode.{
  bad_code, check_code, redeem_minted, redeem_with, redeem, handle_auth_code,
}
use dex.Server.Token.Refresh.{
  bad_refresh, or_panic, token_updater, session_updater, stored_identity, decode_token,
  check_refresh, requested_scopes, refresh_identity, rotate_token, refresh_with,
  handle_refresh_token, invalid_refresh,
}
use dex.Server.Token.Kept.{HandOutLaws, hand_out-Kept, write_access_token-Kept}
use dex.Server.Ensures.{
  Property, Ensures, Any, Calls, Ensures-pure, Ensures-call, Ensures-now, Ensures-new_id,
  Ensures-refuse, Ensures-refuse_if, Ensures-or_refuse, Ensures-bind, Ensures-if, Ensures-option,
  Ensures-attempt, Ensures-weaken,
}
use dex.Server.Vouched.{Updates, Vouches, Sound, Laws}

token_updater-Updates :
    (V : String → Type 0) (refresh : RefreshToken) (token : String) (ident : Identity) (t : ℕ)
    → Updates (λ (r : RefreshToken). V r.claims.user_id) (token_updater refresh token ident t)
unfolding token_updater
token_updater-Updates V refresh token ident t a b v e = subst V (same_user a b e) v
  where
    same_user :
        (a b : RefreshToken)
        → token_updater refresh token ident t a ≡ ok b
        → a.claims.user_id ≡ b.claims.user_id
    same_user a b e = ground arith

-- What does not change the storage.
module _ {S : Type 0} (server : Server S) (P : Property S) where
  credentials-Kept : (form : TokenForm) → Ensures P (credentials server form) Any
  unfolding credentials
  credentials-Kept form = record { at = λ w h. ground arith }

  requested_scopes-Kept :
      (scope : String) (refresh : RefreshToken)
      → Ensures P (requested_scopes server scope refresh) Any
  unfolding requested_scopes
  requested_scopes-Kept scope refresh = record { at = λ w h. ground arith }

module _ {S : Type 0} (server : Server S) (K : S → Type 0) (V : String → Type 0)
    (laws : Laws K V server) where
  abbrev Kept : {E A : Type 0} → Action (World S) E A → Type 0
  Kept m = Ensures (Sound K V) m Any

  sound-HandOutLaws : HandOutLaws server (Sound K V) V
  sound-HandOutLaws = record {
    connector = λ id.
        Ensures-weaken (λ r h. tt)
          (get_connector-Ensures server (Sound K V) (λ sc. Vouches K V sc.connector) laws.opening
            id);
    create_refresh = laws.create_refresh;
    delete_refresh = laws.delete_refresh;
    get_session = laws.get_session;
    create_session = laws.create_session;
    update_session = laws.update_session;
  }

  check_code-Vouched :
      (code redirect_uri : String) (client : Client)
      → Ensures (Sound K V) (check_code server code redirect_uri client) (λ a. V a.claims.user_id)
  unfolding check_code
  check_code-Vouched code redirect_uri client =
      Ensures-bind (Ensures-call (laws.get_auth_code code)) λ found q.
        Ensures-bind (Ensures-or_refuse found bad_code) λ a e.
          Ensures-bind (Ensures-now server) λ t u.
            Ensures-bind
              (Ensures-refuse_if (ltb a.expiry t || not (a.client_id == client.id)) server_error)
              λ v f.
                Ensures-bind
                  (Ensures-refuse_if (not (a.redirect_uri == redirect_uri)) (
                    token_error err_invalid_request
                      "redirect_uri did not match URI from initial request." 400))
                  λ w g. Ensures-pure a (q.at a e)

  redeem_minted-Kept :
      (code : String) (a : AuthCode) (access_token : String) (token : String × ℕ)
      → V a.claims.user_id
      → Kept (redeem_minted server code a access_token token)
  unfolding redeem_minted
  redeem_minted-Kept code a access_token token v =
      Ensures-bind (Ensures-call (laws.delete_auth_code code)) λ deleted u.
        Ensures-bind (Ensures-or_refuse deleted failed)
          λ done e. hand_out-Kept server (Sound K V) V sound-HandOutLaws a access_token token v

  redeem-Kept :
      (code : String) (a : AuthCode) (client : Client)
      → V a.claims.user_id
      → Kept (redeem server code a client)
  unfolding redeem redeem_with
  redeem-Kept code a client v = Ensures-bind (Ensures-new_id server) λ access_token u.
      Ensures-bind
        (Ensures-attempt (
          new_id_token-Kept server (Sound K V) laws.get_keys laws.get_client client.id a.claims
            a.scopes a.nonce access_token a.connector_id))
        λ minted u.
          Ensures-bind (Ensures-or_refuse minted failed)
            λ token e. redeem_minted-Kept code a access_token token v

  handle_auth_code-Kept :
      (code redirect_uri : String) (client : Client)
      → Kept (handle_auth_code server code redirect_uri client)
  unfolding handle_auth_code
  handle_auth_code-Kept code redirect_uri client =
      Ensures-bind (check_code-Vouched code redirect_uri client) λ a v. redeem-Kept code a client v

  check_refresh-Kept : (code : String) (client : Client) → Kept (check_refresh server code client)
  unfolding check_refresh
  check_refresh-Kept code client =
      Ensures-bind
        (Ensures-refuse_if (code == "")
          (token_error err_invalid_request "No refresh token in request." 400))
        λ u e.
          Ensures-bind (Ensures-call (laws.get_refresh (decode_token server code).0)) λ found u.
            Ensures-bind (Ensures-or_refuse found bad_refresh) λ refresh f.
              Ensures-bind
                (Ensures-refuse_if (not (refresh.client_id == client.id)) invalid_refresh)
                λ u e.
                  Ensures-bind
                    (Ensures-refuse_if (not (refresh.token == (decode_token server code).1))
                      invalid_refresh)
                    λ u e. Ensures-pure refresh tt

  refresh-Calls :
      (conn : OpenedConnector S) (f : Scopes → Identity → S → Result Identity × S)
      → Vouches K V conn
      → conn.refresh ≡ some f
      → (scopes : Scopes) (ident : Identity) → Calls (Sound K V) (f scopes ident) Any
  refresh-Calls conn f vouches e scopes ident = record {
    at = λ s c h. ((vouches.refresh f e scopes ident s h.0, h.1), tt);
  }

  refresh_identity-Kept :
      (refresh : RefreshToken) (scopes : List String) (conn : ServerConnector S)
      → Vouches K V conn.connector
      → Kept (refresh_identity server refresh scopes conn)
  unfolding refresh_identity
  refresh_identity-Kept refresh scopes conn vouches =
      Ensures-option conn.connector.refresh
        (λ f e.
          Ensures-bind
            (Ensures-call (
              refresh-Calls conn.connector f vouches e (parse_scopes scopes)
                (stored_identity refresh)))
            λ ident u. Ensures-weaken (λ a h. tt) (Ensures-or_refuse ident failed))
        (Ensures-pure (stored_identity refresh) tt)

  rotate_token-Kept :
      (refresh : RefreshToken) (new_token : String) (ident : Identity)
      → Kept (rotate_token server refresh new_token ident)
  unfolding rotate_token
  rotate_token-Kept refresh new_token ident = Ensures-bind (Ensures-now server) λ t u.
      Ensures-bind
        (Ensures-call (
          laws.update_session refresh.claims.user_id refresh.connector_id
            (session_updater refresh t)))
        λ r u. Ensures-bind (Ensures-or_refuse r or_panic) λ captured e.
          Ensures-bind
            (Ensures-call (
              laws.update_refresh_token refresh.id (token_updater refresh new_token ident t)
                (token_updater-Updates V refresh new_token ident t)))
            λ q u. Ensures-weaken (λ a h. tt) (Ensures-or_refuse q failed)

  refresh_with-Kept :
      (refresh : RefreshToken) (scopes : List String) (client : Client)
      → Kept (refresh_with server refresh scopes client)
  unfolding refresh_with
  refresh_with-Kept refresh scopes client =
      Ensures-bind
        (get_connector-Ensures server (Sound K V) (λ sc. Vouches K V sc.connector) laws.opening
          refresh.connector_id)
        λ found good. Ensures-bind (Ensures-or_refuse found failed) λ conn c.
          Ensures-bind (refresh_identity-Kept refresh scopes conn (good.at conn c)) λ ident u.
            Ensures-bind (Ensures-new_id server) λ access_token u.
              Ensures-bind
                (Ensures-attempt (
                  new_id_token-Kept server (Sound K V) laws.get_keys laws.get_client client.id
                    (claims_of ident) scopes refresh.nonce access_token refresh.connector_id))
                λ minted u. Ensures-bind (Ensures-or_refuse minted failed) λ token e.
                  Ensures-bind (Ensures-new_id server) λ new_token u.
                    Ensures-bind
                      (Ensures-or_refuse (server.marshal_refresh refresh.id new_token) failed)
                      λ raw e. Ensures-bind (rotate_token-Kept refresh new_token ident) λ u q.
                        write_access_token-Kept server (Sound K V) V sound-HandOutLaws token.0
                          access_token raw token.1

  handle_refresh_token-Kept :
      (code scope : String) (client : Client) → Kept (handle_refresh_token server code scope client)
  unfolding handle_refresh_token
  handle_refresh_token-Kept code scope client =
      Ensures-bind (check_refresh-Kept code client) λ refresh u.
        Ensures-bind (requested_scopes-Kept server (Sound K V) scope refresh)
          λ scopes u. refresh_with-Kept refresh scopes client

  authenticate-Kept :
      (client_id client_secret : String) → Kept (authenticate server client_id client_secret)
  unfolding authenticate
  authenticate-Kept client_id client_secret =
      Ensures-bind (Ensures-call (laws.get_client client_id)) λ found u.
        Ensures-bind (Ensures-or_refuse found (bad_client server)) λ client e.
          Ensures-bind
            (Ensures-refuse_if (not (client.secret == client_secret)) (bad_client server not_found))
            λ u e. Ensures-pure client tt

  handle_grant-Kept : (form : TokenForm) (client : Client) → Kept (handle_grant server form client)
  unfolding handle_grant
  handle_grant-Kept form client =
      Ensures-if (form.grant_type == grant_type_authorization_code)
        (handle_auth_code-Kept form.code form.redirect_uri client)
        (Ensures-if (form.grant_type == grant_type_refresh_token)
          (handle_refresh_token-Kept form.refresh_token form.scope client)
          (Ensures-refuse (token_error err_invalid_grant "" 400)))

  pub handle_token-Kept : (form : TokenForm) → Kept (handle_token server form)
  unfolding handle_token
  handle_token-Kept form =
      Ensures-bind (credentials-Kept server (Sound K V) form)
        λ c u. Ensures-bind (authenticate-Kept c.0 c.1) λ client u. handle_grant-Kept form client
