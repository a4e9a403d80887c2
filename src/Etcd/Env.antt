-- ===== src/Etcd/Env.antt =====
-- storage/etcd/etcd.go: what the methods call outside this repository, and the prefixes of the keys.
use dex.Prelude.{String}
use dex.Storage.{Client, AuthCode, Password, Connector, Keys}
use dex.Etcd.Types
use dex.Etcd.Db
use dex.Etcd.Db.{Codec}

abbrev pub client_prefix : String
client_prefix = "client/"

abbrev pub auth_code_prefix : String
auth_code_prefix = "auth_code/"

abbrev pub refresh_token_prefix : String
refresh_token_prefix = "refresh_token/"

abbrev pub auth_request_prefix : String
auth_request_prefix = "auth_req/"

abbrev pub password_prefix : String
password_prefix = "password/"

abbrev pub offline_session_prefix : String
offline_session_prefix = "offline_session/"

abbrev pub connector_prefix : String
connector_prefix = "connector/"

abbrev pub keys_name : String
keys_name = "openid-connect-keys"

-- The client of etcd, strings.ToLower, %q of fmt, and encoding/json for each type that is written or
-- read. A code is written by its mirrored type and read as a stored code.
pub record Environment (D : Type 0) : Type 0 where
  pub db : Db.Client D
  pub to_lower : String → String
  pub quote : String → String
  pub client_json : Codec Client
  pub auth_code_json : Codec Types.AuthCode
  pub stored_code_json : Codec AuthCode
  pub auth_request_json : Codec Types.AuthRequest
  pub refresh_token_json : Codec Types.RefreshToken
  pub password_json : Codec Password
  pub offline_sessions_json : Codec Types.OfflineSessions
  pub connector_json : Codec Connector
  pub keys_json : Codec Keys
