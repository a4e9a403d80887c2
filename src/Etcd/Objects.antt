-- ===== src/Etcd/Objects.antt =====
-- storage/etcd/etcd.go: the methods on authorization requests, codes and refresh tokens.
use dex.Prelude.{String, List, map, Result, ok, err}
use dex.Storage.{AuthRequest, AuthCode, RefreshToken}
use dex.Etcd.Types.{
  from_storage_auth_code, from_storage_auth_request, to_storage_auth_request,
  from_storage_refresh_token, to_storage_refresh_token, zero_auth_request, zero_refresh_token,
}
use dex.Etcd.Db.{key_id, delete_key, get_key, list_keys, txn_create, txn_update, updated, plain}
use dex.Etcd.Env.{Environment, auth_code_prefix, refresh_token_prefix, auth_request_prefix}

-- A result that is converted once it is decoded.
abbrev pub converted : {A B D : Type 0} → (A → B) → Result A × D → Result B × D
converted f (ok a, d) = (ok (f a), d)
converted f (err e, d) = (err e, d)

module _ {D : Type 0} (env : Environment D) where
  unfoldable pub create_auth_request : AuthRequest → D → Result (Unit {0}) × D
  unfolding txn_create key_id
  create_auth_request x =
      txn_create env.db env.auth_request_json (key_id auth_request_prefix x.id)
        (from_storage_auth_request x)

  unfoldable pub get_auth_request : String → D → Result AuthRequest × D
  unfolding get_key key_id
  get_auth_request id d =
      converted to_storage_auth_request
        (get_key env.db env.auth_request_json (key_id auth_request_prefix id) d)

  unfoldable pub update_auth_request :
      String → (AuthRequest → Result AuthRequest) → D → Result (Unit {0}) × D
  unfolding txn_update updated key_id
  update_auth_request id f = txn_update env.db env.quote (key_id auth_request_prefix id) (
      updated env.auth_request_json zero_auth_request to_storage_auth_request
        from_storage_auth_request (plain f))

  unfoldable pub delete_auth_request : String → D → Result (Unit {0}) × D
  unfolding delete_key key_id
  delete_auth_request id = delete_key env.db (key_id auth_request_prefix id)

  unfoldable pub create_auth_code : AuthCode → D → Result (Unit {0}) × D
  unfolding txn_create key_id
  create_auth_code x =
      txn_create env.db env.auth_code_json (key_id auth_code_prefix x.id) (from_storage_auth_code x)

  unfoldable pub get_auth_code : String → D → Result AuthCode × D
  unfolding get_key key_id
  get_auth_code id = get_key env.db env.stored_code_json (key_id auth_code_prefix id)

  unfoldable pub delete_auth_code : String → D → Result (Unit {0}) × D
  unfolding delete_key key_id
  delete_auth_code id = delete_key env.db (key_id auth_code_prefix id)

  unfoldable pub create_refresh : RefreshToken → D → Result (Unit {0}) × D
  unfolding txn_create key_id
  create_refresh x =
      txn_create env.db env.refresh_token_json (key_id refresh_token_prefix x.id)
        (from_storage_refresh_token x)

  unfoldable pub get_refresh : String → D → Result RefreshToken × D
  unfolding get_key key_id
  get_refresh id d =
      converted to_storage_refresh_token
        (get_key env.db env.refresh_token_json (key_id refresh_token_prefix id) d)

  unfoldable pub update_refresh_token :
      String → (RefreshToken → Result RefreshToken) → D → Result (Unit {0}) × D
  unfolding txn_update updated key_id
  update_refresh_token id f = txn_update env.db env.quote (key_id refresh_token_prefix id) (
      updated env.refresh_token_json zero_refresh_token to_storage_refresh_token
        from_storage_refresh_token (plain f))

  unfoldable pub delete_refresh : String → D → Result (Unit {0}) × D
  unfolding delete_key key_id
  delete_refresh id = delete_key env.db (key_id refresh_token_prefix id)

  unfoldable pub list_refresh_tokens : D → Result (List RefreshToken) × D
  unfolding list_keys
  list_refresh_tokens d =
      converted (map to_storage_refresh_token)
        (list_keys env.db env.refresh_token_json refresh_token_prefix d)
