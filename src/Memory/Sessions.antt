-- ===== src/Memory/Sessions.antt =====
-- storage/memory/memory.go: the methods on the keys and on offline sessions.
use dex.Prelude.{String, Result, ok, err, string_eq}
use dex.Storage.{OfflineSessions, Keys}
use dex.Memory.State.{MemStorage, session_id, session_id_eq}
use dex.Memory.Table

unfoldable pub get_keys : MemStorage → Result Keys × MemStorage
get_keys s = (ok s.keys, s)

unfoldable pub update_keys : (Keys → Result Keys) → MemStorage → Result (Unit {0}) × MemStorage
update_keys updater s = elim (updater s.keys) [
  | ok keys ↦ (Table.done, record s { keys = keys })
  | err x ↦ (err x, s)
]

unfoldable pub create_offline_sessions :
    OfflineSessions → MemStorage → Result (Unit {0}) × MemStorage
unfolding Table.create
create_offline_sessions o s =
    let (r, m) = Table.create (session_id o.user_id o.conn_id) o s.offline_sessions in
    (r, record s { offline_sessions = m })

unfoldable pub get_offline_sessions :
    String → String → MemStorage → Result OfflineSessions × MemStorage
unfolding Table.get
get_offline_sessions user_id conn_id s =
    (Table.get (session_id user_id conn_id) s.offline_sessions, s)

unfoldable pub delete_offline_sessions :
    String → String → MemStorage → Result (Unit {0}) × MemStorage
unfolding Table.remove
delete_offline_sessions user_id conn_id s =
    let (r, m) = Table.remove (session_id user_id conn_id) s.offline_sessions in
    (r, record s { offline_sessions = m })

unfoldable pub update_offline_sessions :
    String
    → String
    → (OfflineSessions → Result (OfflineSessions × String))
    → MemStorage
    → Result String × MemStorage
unfolding Table.update_with
update_offline_sessions user_id conn_id updater s =
    let (r, m) = Table.update_with (session_id user_id conn_id) updater s.offline_sessions in
    (r, record s { offline_sessions = m })
