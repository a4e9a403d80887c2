-- ===== src/Memory.antt =====
-- storage/memory/memory.go: the in-memory storage. `tx` holds the lock for a whole method, so a
-- method is one step on the state.
pub mod Table
pub mod State
mod Objects
mod Sessions
pub mod Collect
pub mod Every
mod Passwords
pub mod Laws
pub mod Methods
pub mod Gc
unfoldable pub use State.*
unfoldable pub use Objects.*
unfoldable pub use Sessions.*
unfoldable pub use Collect.*
unfoldable pub use Passwords.*
use dex.Prelude.{String}
use dex.Storage.{Storage}

-- `strings.ToLower` is a parameter.
module _ (to_lower : String → String) where
  -- The methods, as the storage interface.
  abbrev pub memory : Storage MemStorage
  memory = record {
    create_auth_request = create_auth_request;
    create_client = create_client;
    create_auth_code = create_auth_code;
    create_refresh = create_refresh;
    create_password = create_password to_lower;
    create_offline_sessions = create_offline_sessions;
    create_connector = create_connector;
    get_auth_request = get_auth_request;
    get_auth_code = get_auth_code;
    get_client = get_client;
    get_keys = get_keys;
    get_refresh = get_refresh;
    get_password = get_password to_lower;
    get_offline_sessions = get_offline_sessions;
    get_connector = get_connector;
    list_clients = list_clients;
    list_refresh_tokens = list_refresh_tokens;
    list_passwords = list_passwords;
    list_connectors = list_connectors;
    delete_auth_request = delete_auth_request;
    delete_auth_code = delete_auth_code;
    delete_client = delete_client;
    delete_refresh = delete_refresh;
    delete_password = delete_password to_lower;
    delete_offline_sessions = delete_offline_sessions;
    delete_connector = delete_connector;
    update_client = update_client;
    update_keys = update_keys;
    update_auth_request = update_auth_request;
    update_refresh_token = update_refresh_token;
    update_password = update_password to_lower;
    update_offline_sessions = update_offline_sessions;
    update_connector = update_connector;
    garbage_collect = garbage_collect;
  }
