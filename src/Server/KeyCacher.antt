-- ===== src/Server/KeyCacher.antt =====
-- server/server.go: `keyCacher`, the storage that keeps a copy of the keys until they rotate.
use dex.Prelude.{ℕ, Option, some, none, Result, ok, err, if◌then◌else◌, ltb}
use dex.Storage.{Storage, Keys}

-- The atomic value, beside the storage behind and the time that the clock shows. The clock does
-- not move within one call of GetKeys.
pub record Cacher (S : Type 0) : Type 0 where
  pub store : S
  pub cached : Option Keys
  pub clock : ℕ

-- newKeyCacher
abbrev pub new_key_cacher {ℓ} : {S : Type 0} → S → ℕ → Cacher S
new_key_cacher s now = record { store = s; cached = none; clock = now }

-- `ok && keys != nil && k.now().Before(keys.NextRotation)`
unfoldable pub fresh : Option Keys → ℕ → Option Keys
fresh none now = none
fresh (some keys) now = if ltb now keys.next_rotation then some keys else none

module _ {S : Type 0} (st : Storage S) where
  unfoldable pub get_keys : Cacher S → Result Keys × Cacher S
  unfolding fresh
  get_keys c = elim (fresh c.cached c.clock) [
    | some keys ↦ (ok keys, c)
    | none ↦
        let (r, s) = st.get_keys c.store in
        elim r [
          | err e ↦ (err e, record c { store = s })
          | ok keys ↦ (
            ok keys,
            record c {
              store = s;
              cached = if ltb c.clock keys.next_rotation then some keys else c.cached;
            },
          )
        ]
  ]

  -- An operation of the embedded storage.
  abbrev inner {ℓ} : {A : Type ℓ} → (S → A × S) → Cacher S → A × Cacher S
  inner op c = let (r, s) = op c.store in (r, record c { store = s })

  unfoldable pub key_cacher : Storage (Cacher S)
  unfolding get_keys
  key_cacher = record {
    get_keys = get_keys;
    create_auth_request = λ a. inner (st.create_auth_request a);
    create_client = λ a. inner (st.create_client a);
    create_auth_code = λ a. inner (st.create_auth_code a);
    create_refresh = λ a. inner (st.create_refresh a);
    create_password = λ a. inner (st.create_password a);
    create_offline_sessions = λ a. inner (st.create_offline_sessions a);
    create_connector = λ a. inner (st.create_connector a);
    get_auth_request = λ a. inner (st.get_auth_request a);
    get_auth_code = λ a. inner (st.get_auth_code a);
    get_client = λ a. inner (st.get_client a);
    get_refresh = λ a. inner (st.get_refresh a);
    get_password = λ a. inner (st.get_password a);
    get_offline_sessions = λ a b. inner (st.get_offline_sessions a b);
    get_connector = λ a. inner (st.get_connector a);
    list_clients = inner st.list_clients;
    list_refresh_tokens = inner st.list_refresh_tokens;
    list_passwords = inner st.list_passwords;
    list_connectors = inner st.list_connectors;
    delete_auth_request = λ a. inner (st.delete_auth_request a);
    delete_auth_code = λ a. inner (st.delete_auth_code a);
    delete_client = λ a. inner (st.delete_client a);
    delete_refresh = λ a. inner (st.delete_refresh a);
    delete_password = λ a. inner (st.delete_password a);
    delete_offline_sessions = λ a b. inner (st.delete_offline_sessions a b);
    delete_connector = λ a. inner (st.delete_connector a);
    update_client = λ a b. inner (st.update_client a b);
    update_keys = λ a. inner (st.update_keys a);
    update_auth_request = λ a b. inner (st.update_auth_request a b);
    update_refresh_token = λ a b. inner (st.update_refresh_token a b);
    update_password = λ a b. inner (st.update_password a b);
    update_offline_sessions = λ a b c. inner (st.update_offline_sessions a b c);
    update_connector = λ a b. inner (st.update_connector a b);
    garbage_collect = λ a. inner (st.garbage_collect a);
  }
