-- ===== src/Etcd/Configured.antt =====
-- storage/etcd/etcd.go: the methods on clients, passwords, connectors and keys.
use Prim.Native.String.{◌++◌ as ◌+++◌}
use dex.Prelude.{String, Option, some, none, List, Result, ok, err}
use dex.Storage.{Client, Password, Connector, Keys, no_keys}
use dex.Etcd.Types.{zero_client, zero_password, zero_connector}
use dex.Etcd.Db
use dex.Etcd.Db.{
  Codec, key_id, key_email, delete_key, get_key, list_keys, txn_create, txn_update, updated, plain,
}
use dex.Etcd.Env.{Environment, client_prefix, password_prefix, connector_prefix, keys_name}

-- The keys that were read; none are the zero value.
abbrev pub decoded_keys : Codec Keys → Result (Option Db.KeyValue) → Result Keys
decoded_keys codec (err e) = err e
decoded_keys codec (ok none) = ok no_keys
decoded_keys codec (ok (some kv)) = codec.unmarshal kv.value

module _ {D : Type 0} (env : Environment D) where
  unfoldable pub create_client : Client → D → Result (Unit {0}) × D
  unfolding txn_create key_id
  create_client x = txn_create env.db env.client_json (key_id client_prefix x.id) x

  unfoldable pub get_client : String → D → Result Client × D
  unfolding get_key key_id
  get_client id = get_key env.db env.client_json (key_id client_prefix id)

  unfoldable pub update_client : String → (Client → Result Client) → D → Result (Unit {0}) × D
  unfolding txn_update updated key_id
  update_client id f =
      txn_update env.db env.quote (key_id client_prefix id)
        (updated env.client_json zero_client (λ a. a) (λ a. a) (plain f))

  unfoldable pub delete_client : String → D → Result (Unit {0}) × D
  unfolding delete_key key_id
  delete_client id = delete_key env.db (key_id client_prefix id)

  unfoldable pub list_clients : D → Result (List Client) × D
  unfolding list_keys
  list_clients = list_keys env.db env.client_json client_prefix

  unfoldable pub create_password : Password → D → Result (Unit {0}) × D
  unfolding txn_create
  create_password x =
      txn_create env.db env.password_json (password_prefix +++ env.to_lower x.email) x

  unfoldable pub get_password : String → D → Result Password × D
  unfolding get_key key_email
  get_password email =
      get_key env.db env.password_json (key_email env.to_lower password_prefix email)

  unfoldable pub update_password : String → (Password → Result Password) → D → Result (Unit {0}) × D
  unfolding txn_update updated key_email
  update_password email f =
      txn_update env.db env.quote (key_email env.to_lower password_prefix email)
        (updated env.password_json zero_password (λ a. a) (λ a. a) (plain f))

  unfoldable pub delete_password : String → D → Result (Unit {0}) × D
  unfolding delete_key key_email
  delete_password email = delete_key env.db (key_email env.to_lower password_prefix email)

  unfoldable pub list_passwords : D → Result (List Password) × D
  unfolding list_keys
  list_passwords = list_keys env.db env.password_json password_prefix

  unfoldable pub create_connector : Connector → D → Result (Unit {0}) × D
  unfolding txn_create key_id
  create_connector x = txn_create env.db env.connector_json (key_id connector_prefix x.id) x

  unfoldable pub get_connector : String → D → Result Connector × D
  unfolding get_key key_id
  get_connector id = get_key env.db env.connector_json (key_id connector_prefix id)

  unfoldable pub update_connector :
      String → (Connector → Result Connector) → D → Result (Unit {0}) × D
  unfolding txn_update updated key_id
  update_connector id f =
      txn_update env.db env.quote (key_id connector_prefix id)
        (updated env.connector_json zero_connector (λ a. a) (λ a. a) (plain f))

  unfoldable pub delete_connector : String → D → Result (Unit {0}) × D
  unfolding delete_key key_id
  delete_connector id = delete_key env.db (key_id connector_prefix id)

  unfoldable pub list_connectors : D → Result (List Connector) × D
  unfolding list_keys
  list_connectors = list_keys env.db env.connector_json connector_prefix

  unfoldable pub get_keys : D → Result Keys × D
  get_keys d = let (r, d') = env.db.get keys_name d in (decoded_keys env.keys_json r, d')

  unfoldable pub update_keys : (Keys → Result Keys) → D → Result (Unit {0}) × D
  unfolding txn_update updated
  update_keys f =
      txn_update env.db env.quote keys_name
        (updated env.keys_json no_keys (λ a. a) (λ a. a) (plain f))
