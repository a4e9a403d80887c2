-- ===== src/Server/Token.antt =====
-- server/handlers.go: the token endpoint. A request's form values are the fields of `TokenForm`.
pub mod Form
pub mod AuthCode
pub mod Refresh
pub mod Checks
pub mod Kept
pub mod Gone
pub mod SingleUse
pub mod Rotated
pub mod Contended
pub mod OnMemory
use dex.Prelude.{
  ℕ, String, Bool, true, false, not, Option, some, none, if◌then◌else◌, ◌==◌, string_eq, Error,
  not_found, Result, ok, err,
}
use dex.Storage.{Client}
use dex.Server.Action.{Action, ◌>>=◌, ◌>>◌, pure}
use dex.Server.World.{World, Server, Reply, token_error, call, refuse, or_refuse, refuse_if}
use dex.Server.OAuth2.{
  err_invalid_request, err_server_error, err_invalid_client, err_invalid_grant,
  grant_type_authorization_code, grant_type_refresh_token,
}
use Form.{TokenForm, server_error}
use AuthCode.{handle_auth_code}
use Refresh.{handle_refresh_token}

module _ {S : Type 0} (server : Server S) where
  abbrev Handler : Type 0 → Type 0
  Handler A = Action (World S) (Unit {0}) A

  abbrev unescaped : String → Reply → Handler String
  unescaped text r = elim (server.query_unescape text) [ none ↦ refuse r | some s ↦ pure s ]

  -- The client's ID and secret, from the basic authentication or the form.
  unfoldable pub credentials : TokenForm → Handler (String × String)
  credentials form = elim form.basic_auth [
    | none ↦ pure (form.client_id, form.client_secret)
    | some (id, secret) ↦ do
      client_id ← unescaped id (token_error err_invalid_request "client_id improperly encoded" 400)
      client_secret ←
          unescaped secret (token_error err_invalid_request "client_secret improperly encoded" 400)
      pure (client_id, client_secret)
  ]

  abbrev pub bad_client : Error → Reply
  bad_client not_found = token_error err_invalid_client "Invalid client credentials." 401
  bad_client _ = server_error

  unfoldable pub authenticate : String → String → Handler Client
  authenticate client_id client_secret = do
    found ← call (server.storage.get_client client_id)
    client ← or_refuse found bad_client
    refuse_if (not (client.secret == client_secret)) (bad_client not_found)
    pure client

  unfoldable pub handle_grant : TokenForm → Client → Handler (Unit {0})
  handle_grant form client =
      if form.grant_type == grant_type_authorization_code
      then handle_auth_code server form.code form.redirect_uri client
      else if form.grant_type == grant_type_refresh_token
      then handle_refresh_token server form.refresh_token form.scope client
      else refuse (token_error err_invalid_grant "" 400)

  unfoldable pub handle_token : TokenForm → Handler (Unit {0})
  unfolding credentials authenticate
  handle_token form = do
    (client_id, client_secret) ← credentials form
    client ← authenticate client_id client_secret
    handle_grant form client
