-- ===== src/Server/OAuth2.antt =====
-- server/oauth2.go: the constants, scopes, redirect URIs and the trust between clients.
pub mod Laws
pub mod AuthRequest
pub mod IdToken
use dex.Prelude.{
  String, Bool, true, false, Option, some, none, List, [], ◌∷◌, if◌then◌else◌, ◌==◌, string_eq,
  Error, not_found, Result, ok, err, contains, ◌&&◌, ◌||◌,
}
use dex.Text.{strip_prefix}
use dex.Storage.{Client}
use dex.Server.Action.{Action, ◌>>=◌, pure, halt}
use dex.Server.World.{World, Server, Scopes, Url, call}

abbrev pub err_invalid_request : String
err_invalid_request = "invalid_request"

abbrev pub err_unauthorized_client : String
err_unauthorized_client = "unauthorized_client"

abbrev pub err_unsupported_response_type : String
err_unsupported_response_type = "unsupported_response_type"

abbrev pub err_invalid_scope : String
err_invalid_scope = "invalid_scope"

abbrev pub err_server_error : String
err_server_error = "server_error"

abbrev pub err_invalid_grant : String
err_invalid_grant = "invalid_grant"

abbrev pub err_invalid_client : String
err_invalid_client = "invalid_client"

abbrev pub scope_offline_access : String
scope_offline_access = "offline_access"

abbrev pub scope_openid : String
scope_openid = "openid"

abbrev pub scope_groups : String
scope_groups = "groups"

abbrev pub scope_email : String
scope_email = "email"

abbrev pub scope_profile : String
scope_profile = "profile"

abbrev pub scope_federated_id : String
scope_federated_id = "federated:id"

abbrev pub scope_cross_client_prefix : String
scope_cross_client_prefix = "audience:server:client_id:"

abbrev pub redirect_uri_oob : String
redirect_uri_oob = "urn:ietf:wg:oauth:2.0:oob"

abbrev pub grant_type_authorization_code : String
grant_type_authorization_code = "authorization_code"

abbrev pub grant_type_refresh_token : String
grant_type_refresh_token = "refresh_token"

abbrev pub response_type_code : String
response_type_code = "code"

abbrev pub response_type_token : String
response_type_token = "token"

abbrev pub response_type_id_token : String
response_type_id_token = "id_token"

-- The loop of parseScopes, from the scopes seen so far.
unfoldable pub parse_scopes_from : Scopes → List String → Scopes
parse_scopes_from s [] = s
parse_scopes_from s (scope ∷ scopes) =
    parse_scopes_from
      (if scope == scope_offline_access
        then record s { offline_access = true }
        else if scope == scope_groups
        then record s { groups = true }
        else s)
      scopes

unfoldable pub parse_scopes : List String → Scopes
unfolding parse_scopes_from
parse_scopes = parse_scopes_from (record { offline_access = false; groups = false })

unfoldable pub parse_cross_client_scope : String → Option String
unfolding strip_prefix
parse_cross_client_scope scope = strip_prefix scope_cross_client_prefix scope

-- What the loop over the trusted peers of a found client says, and a client that is not found.
unfoldable pub trust_of : Result Client → String → Result Bool
unfolding contains
trust_of (ok peer) client_id = ok (contains peer.trusted_peers client_id)
trust_of (err not_found) client_id = ok false
trust_of (err e) client_id = err e

module _ {S : Type 0} (server : Server S) where
  unfoldable pub validate_cross_client_trust :
      {E : Type 0} → String → String → Action (World S) E (Result Bool)
  unfolding trust_of
  validate_cross_client_trust client_id peer_id =
      if peer_id == client_id
      then pure (ok true)
      else do peer ← call (server.storage.get_client peer_id); pure (trust_of peer client_id)

  -- The rule for public clients: "http://localhost:(port)(path)" or "http://localhost(path)".
  unfoldable pub is_localhost : Option Url → Bool
  is_localhost none = false
  is_localhost (some u) =
      if u.scheme == "http"
      then if u.host == "localhost" then true else elim (server.split_host_port u.host) [
        | none ↦ false
        | some (host, port) ↦ host == "localhost"
      ]
      else false

  unfoldable pub validate_redirect_uri : Client → String → Bool
  unfolding is_localhost contains
  validate_redirect_uri client redirect_uri =
      if client.public_client
      then if redirect_uri == redirect_uri_oob
        then true
        else is_localhost (server.parse_url redirect_uri)
      else contains client.redirect_uris redirect_uri
