-- ===== src/Etcd.antt =====
-- storage/etcd/etcd.go: the etcd storage. A method is one call of the client of etcd, or two; the
-- database is whatever state that client works on.
pub mod Types
pub mod Db
pub mod Env
pub mod Objects
pub mod Configured
pub mod Sessions
pub mod Collect
pub mod Laws
pub mod Update
pub mod Shared
use dex.Storage.{Storage}
use dex.Etcd.Env.{Environment}
use dex.Etcd.Objects
use dex.Etcd.Configured
use dex.Etcd.Sessions
use dex.Etcd.Collect

-- The methods, as the storage interface.
abbrev pub etcd : {D : Type 0} → Environment D → Storage D
etcd env = record {
  create_auth_request = Objects.create_auth_request env;
  create_auth_code = Objects.create_auth_code env;
  create_refresh = Objects.create_refresh env;
  get_auth_request = Objects.get_auth_request env;
  get_auth_code = Objects.get_auth_code env;
  get_refresh = Objects.get_refresh env;
  delete_auth_request = Objects.delete_auth_request env;
  delete_auth_code = Objects.delete_auth_code env;
  delete_refresh = Objects.delete_refresh env;
  update_auth_request = Objects.update_auth_request env;
  update_refresh_token = Objects.update_refresh_token env;
  list_refresh_tokens = Objects.list_refresh_tokens env;
  create_client = Configured.create_client env;
  create_password = Configured.create_password env;
  create_connector = Configured.create_connector env;
  get_client = Configured.get_client env;
  get_password = Configured.get_password env;
  get_connector = Configured.get_connector env;
  get_keys = Configured.get_keys env;
  list_clients = Configured.list_clients env;
  list_passwords = Configured.list_passwords env;
  list_connectors = Configured.list_connectors env;
  delete_client = Configured.delete_client env;
  delete_password = Configured.delete_password env;
  delete_connector = Configured.delete_connector env;
  update_client = Configured.update_client env;
  update_keys = Configured.update_keys env;
  update_password = Configured.update_password env;
  update_connector = Configured.update_connector env;
  create_offline_sessions = Sessions.create_offline_sessions env;
  get_offline_sessions = Sessions.get_offline_sessions env;
  delete_offline_sessions = Sessions.delete_offline_sessions env;
  update_offline_sessions = Sessions.update_offline_sessions env;
  garbage_collect = Collect.garbage_collect env;
}
