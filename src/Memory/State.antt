-- ===== src/Memory/State.antt =====
-- storage/memory/memory.go: the state of the in-memory storage.
use dex.Prelude.{String, Bool, ◌≡◌, ◌↔◌, true, Eq, eq_iff, ◌==◌, ◌&&◌, [], arith, string_eq}
use dex.GoMap.{Map}
use dex.Storage.{
  Client, AuthRequest, AuthCode, RefreshToken, OfflineSessions, Password, Connector, Keys, no_keys,
}

pub record OfflineSessionId : Type 0 where
  pub user_id : String
  pub conn_id : String

abbrev pub session_id_beq : OfflineSessionId → OfflineSessionId → Bool
session_id_beq a b = a.user_id == b.user_id && a.conn_id == b.conn_id

pub session_id_beq_iff : (a b : OfflineSessionId) → (session_id_beq a b ≡ true) ↔ (a ≡ b)
session_id_beq_iff a b = ground (arith, eq_iff a.user_id b.user_id, eq_iff a.conn_id b.conn_id)

instance abbrev pub session_id_eq : Eq OfflineSessionId
session_id_eq = record { equal = session_id_beq; equal_iff = session_id_beq_iff }

pub record MemStorage : Type 0 where
  pub clients : Map String Client
  pub auth_codes : Map String AuthCode
  pub refresh_tokens : Map String RefreshToken
  pub auth_reqs : Map String AuthRequest
  pub passwords : Map String Password
  pub offline_sessions : Map OfflineSessionId OfflineSessions
  pub connectors : Map String Connector
  pub keys : Keys

-- New
abbrev pub empty : MemStorage
empty = record {
  clients = [];
  auth_codes = [];
  refresh_tokens = [];
  auth_reqs = [];
  passwords = [];
  offline_sessions = [];
  connectors = [];
  keys = no_keys;
}

abbrev pub session_id : String → String → OfflineSessionId
session_id user_id conn_id = record { user_id = user_id; conn_id = conn_id }
