-- ===== src/Storage/Interface.antt =====
-- storage/storage.go: the `Storage` interface.
--
-- An operation takes the storage's state and gives its result with the state that follows. Times
-- are counted from Go's zero time, and `[]byte` is a list of numbers.
use dex.Prelude.{ℕ, String, List, Result}
use dex.Storage.Types.{
  Client, AuthRequest, AuthCode, RefreshToken, OfflineSessions, Password, Connector, Keys, GcResult,
}

-- The `Storage` interface over a state `S`. An updater is a function of the old object; that of
-- `update_offline_sessions` also returns the text that the Go closure assigns to the variable it
-- captures (empty where it captures none), and the update hands it on.
pub record Storage (S : Type 0) : Type 0 where
  pub create_auth_request : AuthRequest → S → Result (Unit {0}) × S
  pub create_client : Client → S → Result (Unit {0}) × S
  pub create_auth_code : AuthCode → S → Result (Unit {0}) × S
  pub create_refresh : RefreshToken → S → Result (Unit {0}) × S
  pub create_password : Password → S → Result (Unit {0}) × S
  pub create_offline_sessions : OfflineSessions → S → Result (Unit {0}) × S
  pub create_connector : Connector → S → Result (Unit {0}) × S
  pub get_auth_request : String → S → Result AuthRequest × S
  pub get_auth_code : String → S → Result AuthCode × S
  pub get_client : String → S → Result Client × S
  pub get_keys : S → Result Keys × S
  pub get_refresh : String → S → Result RefreshToken × S
  pub get_password : String → S → Result Password × S
  pub get_offline_sessions : String → String → S → Result OfflineSessions × S
  pub get_connector : String → S → Result Connector × S
  pub list_clients : S → Result (List Client) × S
  pub list_refresh_tokens : S → Result (List RefreshToken) × S
  pub list_passwords : S → Result (List Password) × S
  pub list_connectors : S → Result (List Connector) × S
  pub delete_auth_request : String → S → Result (Unit {0}) × S
  pub delete_auth_code : String → S → Result (Unit {0}) × S
  pub delete_client : String → S → Result (Unit {0}) × S
  pub delete_refresh : String → S → Result (Unit {0}) × S
  pub delete_password : String → S → Result (Unit {0}) × S
  pub delete_offline_sessions : String → String → S → Result (Unit {0}) × S
  pub delete_connector : String → S → Result (Unit {0}) × S
  pub update_client : String → (Client → Result Client) → S → Result (Unit {0}) × S
  pub update_keys : (Keys → Result Keys) → S → Result (Unit {0}) × S
  pub update_auth_request : String → (AuthRequest → Result AuthRequest) → S → Result (Unit {0}) × S
  pub update_refresh_token :
      String → (RefreshToken → Result RefreshToken) → S → Result (Unit {0}) × S
  pub update_password : String → (Password → Result Password) → S → Result (Unit {0}) × S
  pub update_offline_sessions :
      String
      → String
      → (OfflineSessions → Result (OfflineSessions × String))
      → S
      → Result String × S
  pub update_connector : String → (Connector → Result Connector) → S → Result (Unit {0}) × S
  pub garbage_collect : ℕ → S → Result GcResult × S
