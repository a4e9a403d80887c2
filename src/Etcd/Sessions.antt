-- ===== src/Etcd/Sessions.antt =====
-- storage/etcd/etcd.go: the methods on offline sessions.
use dex.Prelude.{String, Result}
use dex.Storage.{OfflineSessions}
use dex.Etcd.Types.{
  from_storage_offline_sessions, to_storage_offline_sessions, zero_offline_sessions,
}
use dex.Etcd.Db.{key_session, delete_key, get_key, txn_create, txn_update, updated}
use dex.Etcd.Objects.{converted}
use dex.Etcd.Env.{Environment, offline_session_prefix}

module _ {D : Type 0} (env : Environment D) where
  unfoldable pub create_offline_sessions : OfflineSessions → D → Result (Unit {0}) × D
  unfolding txn_create key_session
  create_offline_sessions x =
      txn_create env.db env.offline_sessions_json
        (key_session env.to_lower offline_session_prefix x.user_id x.conn_id)
        (from_storage_offline_sessions x)

  unfoldable pub update_offline_sessions :
      String
      → String
      → (OfflineSessions → Result (OfflineSessions × String))
      → D
      → Result String × D
  unfolding txn_update updated key_session
  update_offline_sessions user_id conn_id f =
      txn_update env.db env.quote (key_session env.to_lower offline_session_prefix user_id conn_id)
        (updated env.offline_sessions_json zero_offline_sessions to_storage_offline_sessions
          from_storage_offline_sessions f)

  unfoldable pub get_offline_sessions : String → String → D → Result OfflineSessions × D
  unfolding get_key key_session
  get_offline_sessions user_id conn_id d = converted to_storage_offline_sessions (
      get_key env.db env.offline_sessions_json
        (key_session env.to_lower offline_session_prefix user_id conn_id) d)

  unfoldable pub delete_offline_sessions : String → String → D → Result (Unit {0}) × D
  unfolding delete_key key_session
  delete_offline_sessions user_id conn_id =
      delete_key env.db (key_session env.to_lower offline_session_prefix user_id conn_id)
