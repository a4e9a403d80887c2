-- ===== src/Server/Token/Form.antt =====
-- server/handlers.go: what the handlers of the token endpoint share.
use dex.Prelude.{ℕ, String, Option, Error}
use Prim.Native.Nat.{◌-◌, ◌/◌}
use dex.Server.Rotation.{second}
use dex.Server.Action.{Action, ◌>>=◌}
use dex.Server.World.{World, Server, Reply, token_error, access_token, now, send, Identity}
use dex.Server.OAuth2.{err_server_error}
use dex.Storage.{Claims}

pub record TokenForm : Type 0 where
  pub basic_auth : Option (String × String)
  pub client_id : String
  pub client_secret : String
  pub grant_type : String
  pub code : String
  pub redirect_uri : String
  pub refresh_token : String
  pub scope : String

-- s.tokenErrHelper(w, errServerError, "", http.StatusInternalServerError)
abbrev pub server_error : Reply
server_error = token_error err_server_error "" 500

abbrev pub failed : Error → Reply
failed e = server_error

-- storage.Claims of a connector's identity.
abbrev pub claims_of : Identity → Claims
claims_of ident = record {
  user_id = ident.user_id;
  username = ident.username;
  email = ident.email;
  email_verified = ident.email_verified;
  groups = ident.groups;
}

module _ {S : Type 0} (server : Server S) where
  -- The clock has not gone past the expiry; else Go's number is negative and this one is 0.
  unfoldable pub write_access_token :
      String → String → String → ℕ → Action (World S) (Unit {0}) (Unit {0})
  write_access_token id_token new_access_token refresh_token expiry = do
    t ← now server
    send (
        access_token (record {
          access_token = new_access_token;
          token_type = "bearer";
          expires_in = (expiry - t) / second;
          refresh_token = refresh_token;
          id_token = id_token;
        }))
