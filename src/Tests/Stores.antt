-- ===== src/Tests/Stores.antt =====
-- The in-memory storage and the static storages at concrete inputs.
use dex.Prelude.{
  Error, String, some, none, List, [], ◌∷◌, Result, ok, err, other, ◌≡◌, refl, In, ◌↔◌, ◌⊎◌,
  string_eq,
}
use dex.GoMap.{lookup}
use dex.Storage.{Client, Password, Connector, OfflineSessions, Keys}
use dex.Storage.Static.Clients.ReadOnly.{wrapped_clients, static_client, static_clients_read_only}
use dex.Storage.Static.Passwords.ReadOnly.{
  wrapped_passwords, static_password, static_passwords_read_only, static_passwords_pass_through,
  list-static_passwords,
}
use dex.Storage.Static.Connectors.ReadOnly.{
  wrapped_connectors, static_connector, static_connectors_read_only, static_connectors_pass_through,
  list-static_connectors,
}
use dex.Memory.{
  memory, garbage_collect, list_passwords, list_connectors, session_id, session_id_eq,
  create_client, create_auth_code, create_refresh, create_auth_request, create_password,
  create_offline_sessions, create_connector, delete_client, delete_auth_code, delete_refresh,
  delete_auth_request, delete_password, delete_offline_sessions, delete_connector, update_client,
  update_refresh_token, update_auth_request, update_password, update_offline_sessions,
  update_connector, update_keys,
}
use dex.Memory.Laws.{
  clients, auth_codes, refresh_tokens, auth_reqs, passwords, offline_sessions, connectors,
  IsCreated, IsDeleted, IsUpdated,
}
use dex.Memory.Methods.{
  create_methods-IsCreated, delete_methods-IsDeleted, update_methods-IsUpdated,
}
use dex.Memory.Gc.{garbage_collect_exact, expired_count, live, code_expiry, request_expiry}
use dex.Tests.Data.{store, web, ldap, code, refresh, session}
use dex.Tests.Login.{request}

abbrev first_user : Password
first_user = record { email = "admin"; hash = []; username = "Admin"; user_id = "1" }

abbrev app : Client
app = record web { id = "app" }

create_methods-IsCreated_example :
    IsCreated clients "app" store app (create_client app store)
    × IsCreated auth_codes "code" store code (create_auth_code code store)
    × IsCreated refresh_tokens "refresh" store refresh (create_refresh refresh store)
    × IsCreated auth_reqs "request" store request (create_auth_request request store)
    × IsCreated passwords "admin" store first_user (create_password (λ s. s) first_user store)
    × IsCreated offline_sessions
        (session_id "jane" "ldap")
        store
        session
        (create_offline_sessions session store)
    × IsCreated connectors "ldap" store ldap (create_connector ldap store)
create_methods-IsCreated_example =
    create_methods-IsCreated (λ s. s) store app code refresh request first_user session ldap

delete_methods-IsDeleted_example :
    IsDeleted clients "web" store (delete_client "web" store)
    × IsDeleted auth_codes "web" store (delete_auth_code "web" store)
    × IsDeleted refresh_tokens "web" store (delete_refresh "web" store)
    × IsDeleted auth_reqs "web" store (delete_auth_request "web" store)
    × IsDeleted passwords "admin" store (delete_password (λ s. s) "admin" store)
    × IsDeleted offline_sessions
        (session_id "jane" "ldap")
        store
        (delete_offline_sessions "jane" "ldap" store)
    × IsDeleted connectors "web" store (delete_connector "web" store)
delete_methods-IsDeleted_example =
    delete_methods-IsDeleted (λ s. s) store "web" "admin" "jane" "ldap"

abbrev renamed : Client → Result Client
renamed c = ok (record c { name = "New" })

abbrev same_sessions : OfflineSessions → Result (OfflineSessions × String)
same_sessions o = ok (o, "")

update_methods-IsUpdated_example :
    IsUpdated clients "web" store (λ v. (v, tt)) renamed (update_client "web" renamed store)
    × IsUpdated refresh_tokens "web" store (λ v. (v, tt)) ok (update_refresh_token "web" ok store)
    × IsUpdated auth_reqs "web" store (λ v. (v, tt)) ok (update_auth_request "web" ok store)
    × IsUpdated passwords "admin" store
        (λ v. (v, tt))
        ok
        (update_password (λ s. s) "admin" ok store)
    × IsUpdated offline_sessions
        (session_id "jane" "ldap")
        store
        (λ made. made)
        same_sessions
        (update_offline_sessions "jane" "ldap" same_sessions store)
    × IsUpdated connectors "web" store (λ v. (v, tt)) ok (update_connector "web" ok store)
    × (((x : Error) × (◌≡◌ {A = Result Keys} (ok store.keys) (err x))
          × (update_keys ok store ≡ (err x, store)))
        ⊎ ((keys : Keys) × (◌≡◌ {A = Result Keys} (ok store.keys) (ok keys))
            × (update_keys ok store ≡ (ok tt, record store { keys = keys }))))
update_methods-IsUpdated_example =
    update_methods-IsUpdated (λ s. s) store "web" "admin" "jane" "ldap" renamed ok ok ok
      same_sessions ok ok

garbage_collect_exact_example :
    let t = (garbage_collect 61 store).1 in
    ((garbage_collect 61 store).0
      ≡ ok (record {
        auth_requests = expired_count request_expiry 61 store.auth_reqs;
        auth_codes = expired_count code_expiry 61 store.auth_codes;
      }))
    × ((id : String) → lookup id t.auth_codes ≡ live code_expiry 61 (lookup id store.auth_codes))
    × ((id : String) → lookup id t.auth_reqs ≡ live request_expiry 61 (lookup id store.auth_reqs))
    × (t ≡ record store { auth_codes = t.auth_codes; auth_reqs = t.auth_reqs })
unfolding lookup
garbage_collect_exact_example = garbage_collect_exact 61 store (refl, tt) tt

abbrev lower : String → String
lower s = s

abbrev admin : Password
admin = record { email = "admin@example.org"; hash = []; username = "admin"; user_id = "1" }

abbrev static_clients : List Client
static_clients = web ∷ []

abbrev other_client : Client
other_client = record web { id = "app" }

static_client_found : static_client (memory lower) static_clients "web" ≡ some web
static_client_found = refl

static_clients_read_only_example :
    let st = wrapped_clients (memory lower) static_clients in
    (st.get_client "web" store ≡ (ok web, store))
    × (st.create_client web store
        ≡ (err (other "static clients: read-only cannot create client"), store))
    × (st.delete_client "web" store
        ≡ (err (other "static clients: read-only cannot delete client"), store))
    × (st.update_client "web" ok store
        ≡ (err (other "static clients: read-only cannot update client"), store))
static_clients_read_only_example =
    static_clients_read_only (memory lower) static_clients "web" store web web ok
      static_client_found refl

abbrev stored_clients : List Client
stored_clients = web ∷ []

abbrev static_passwords : List Password
static_passwords = admin ∷ []

abbrev other_password : Password
other_password = record admin { email = "joe@example.org" }

static_password_found :
    static_password lower (memory lower) static_passwords "admin@example.org" ≡ some admin
static_password_found = refl

static_password_missing :
    static_password lower (memory lower) static_passwords "joe@example.org" ≡ none
static_password_missing = refl

static_passwords_read_only_example :
    let st = wrapped_passwords lower (memory lower) static_passwords in
    (st.get_password "admin@example.org" store ≡ (ok admin, store))
    × (st.create_password admin store
        ≡ (err (other "static passwords: read-only cannot create password"), store))
    × (st.delete_password "admin@example.org" store
        ≡ (err (other "static passwords: read-only cannot delete password"), store))
    × (st.update_password "admin@example.org" ok store
        ≡ (err (other "static passwords: read-only cannot update password"), store))
static_passwords_read_only_example =
    static_passwords_read_only lower (memory lower) static_passwords "admin@example.org" store admin
      admin ok static_password_found refl

static_passwords_pass_through_example :
    let st = wrapped_passwords lower (memory lower) static_passwords in
    let base = memory lower in
    (st.get_password "joe@example.org" store ≡ base.get_password "joe@example.org" store)
    × (st.create_password other_password store ≡ base.create_password other_password store)
    × (st.delete_password "joe@example.org" store ≡ base.delete_password "joe@example.org" store)
    × (st.update_password "joe@example.org" ok store
        ≡ base.update_password "joe@example.org" ok store)
static_passwords_pass_through_example =
    static_passwords_pass_through lower (memory lower) static_passwords "joe@example.org" store
      other_password ok static_password_missing refl

abbrev stored_passwords : List Password
stored_passwords = []

listed_passwords : (list_passwords store).0 ≡ ok stored_passwords
unfolding list_passwords
listed_passwords = refl

list-static_passwords_example :
    (all : List Password) × (((wrapped_passwords lower
          (memory lower)
          static_passwords).list_passwords
        store).0
      ≡ ok all)
    × (In admin all ↔ (
        In admin static_passwords
        ⊎ (In admin stored_passwords
            × (static_password lower (memory lower) static_passwords admin.email ≡ none))))
list-static_passwords_example =
    list-static_passwords lower (memory lower) static_passwords store stored_passwords admin
      listed_passwords

abbrev static_connectors : List Connector
static_connectors = ldap ∷ []

abbrev other_connector : Connector
other_connector = record ldap { id = "github" }

static_connector_found : static_connector (memory lower) static_connectors "ldap" ≡ some ldap
static_connector_found = refl

static_connector_missing : static_connector (memory lower) static_connectors "github" ≡ none
static_connector_missing = refl

static_connectors_read_only_example :
    let st = wrapped_connectors (memory lower) static_connectors in
    (st.get_connector "ldap" store ≡ (ok ldap, store))
    × (st.create_connector ldap store
        ≡ (err (other "static connectors: read-only cannot create connector"), store))
    × (st.delete_connector "ldap" store
        ≡ (err (other "static connectors: read-only cannot delete connector"), store))
    × (st.update_connector "ldap" ok store
        ≡ (err (other "static connectors: read-only cannot update connector"), store))
static_connectors_read_only_example =
    static_connectors_read_only (memory lower) static_connectors "ldap" store ldap ldap ok
      static_connector_found refl

static_connectors_pass_through_example :
    let st = wrapped_connectors (memory lower) static_connectors in
    let base = memory lower in
    (st.get_connector "github" store ≡ base.get_connector "github" store)
    × (st.create_connector other_connector store ≡ base.create_connector other_connector store)
    × (st.delete_connector "github" store ≡ base.delete_connector "github" store)
    × (st.update_connector "github" ok store ≡ base.update_connector "github" ok store)
static_connectors_pass_through_example =
    static_connectors_pass_through (memory lower) static_connectors "github" store other_connector
      ok static_connector_missing refl

abbrev stored_connectors : List Connector
stored_connectors = ldap ∷ []

listed_connectors : (list_connectors store).0 ≡ ok stored_connectors
unfolding list_connectors
listed_connectors = refl

list-static_connectors_example :
    (all : List Connector) × (((wrapped_connectors (memory lower) static_connectors).list_connectors
        store).0
      ≡ ok all)
    × (In ldap all ↔ (
        In ldap static_connectors
        ⊎ (In ldap stored_connectors
            × (static_connector (memory lower) static_connectors ldap.id ≡ none))))
list-static_connectors_example =
    list-static_connectors (memory lower) static_connectors store stored_connectors ldap
      listed_connectors
