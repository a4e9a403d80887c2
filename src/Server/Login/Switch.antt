-- ===== src/Server/Login/Switch.antt =====
-- server/handlers.go on storage/memory/memory.go: handleConnectorLogin on a request that is logged in
-- already.
use dex.Prelude.{
  String, Bool, true, false, some, none, ◌∷◌, Result, ◌≡◌, refl, ◌==◌, string_eq, ltb, length,
}
use dex.GoMap.{lookup, insert}
use dex.GoMap.Laws.{lookup-insert_same}
use dex.Storage.{AuthRequest, Connector}
use dex.Memory.Table
use dex.Memory.{MemStorage, update_auth_request, get_auth_request}
use dex.Server.Action.{next}
use dex.Server.World.{World, Server, ServerConnector, Scopes, Identity, password_page}
use dex.Server.Connectors.{current_connector}
use dex.Server.Approval.{send_code_response, handle_approval}
use dex.Server.Approval.Code.{on_memory}
use dex.Server.Login.{
  LoginForm, connector_updater, choose_connector, username_prompt, show_login, run_login,
  handle_connector_login,
}
use dex.Server.Login.OnMemory.{get_connector-run, handle_approval-run}

abbrev pub Login : Type 0
Login = Scopes → String → String → MemStorage → Result (Identity × Bool) × MemStorage

module _ (to_lower : String → String) (base : Server MemStorage) (form : LoginForm)
    (req : AuthRequest) (w : World MemStorage) where
  -- The request with the connector of the new page.
  abbrev pub switched : AuthRequest
  switched = record req { connector_id = form.connector_id }

  abbrev pub chosen : World MemStorage
  chosen = record w {
    store = record w.store { auth_reqs = insert form.req switched w.store.auth_reqs };
  }

  -- The world with the page of a password connector.
  abbrev pub shown : ServerConnector MemStorage → World MemStorage
  shown conn = record chosen {
    replies =
        password_page form.url "" (username_prompt conn.connector) false
          (ltb 1 (length w.connectors))
        ∷ w.replies;
  }

  choose_connector-run :
      lookup form.req w.store.auth_reqs ≡ some req
      → (req.connector_id == form.connector_id) ≡ false
      → choose_connector (on_memory to_lower base) form req w ≡ (next tt, chosen)
  unfolding choose_connector connector_updater update_auth_request Table.update
  choose_connector-run stored differs =
      rw (differs, stored, choose_connector, update_auth_request, Table.update, connector_updater)
        refl

  run_login-run :
      (conn : ServerConnector MemStorage) (login : Login)
      → form.method ≡ "GET"
      → conn.connector.login_url ≡ none
      → conn.connector.login ≡ some login
      → run_login
          (on_memory to_lower base)
          form
          conn.connector
          (ltb 1 (length w.connectors))
          req
          chosen
        ≡ (next tt, shown conn)
  unfolding run_login show_login
  run_login-run conn login method no_url has = rw (method, no_url, has, run_login, show_login) refl

  -- On the in-memory storage, when a stored request that is logged in comes by GET to the login page
  -- of another connector, a password connector that is open in its stored version:
  -- handleConnectorLogin stores that connector in the request, shows the password page, and keeps the
  -- login and the claims; an approval of the request, with no password given, then sends the code
  -- response for those claims under the other connector's ID.
  pub handle_connector_login-switched :
      (stored : Connector) (conn : ServerConnector MemStorage) (login : Login)
      → lookup form.connector_id w.store.connectors ≡ some stored
      → current_connector stored (lookup form.connector_id w.connectors) ≡ some conn
      → form.method ≡ "GET"
      → conn.connector.login_url ≡ none
      → conn.connector.login ≡ some login
      → lookup form.req w.store.auth_reqs ≡ some req
      → (req.connector_id == form.connector_id) ≡ false
      → req.logged_in ≡ true
      → (handle_connector_login (on_memory to_lower base) form w ≡ (next tt, shown conn))
        × (handle_approval (on_memory to_lower base) "POST" form.req "approve" (shown conn)
            ≡ send_code_response (on_memory to_lower base) switched (shown conn))
        × (switched.claims ≡ req.claims)
  unfolding handle_connector_login get_auth_request Table.get
  handle_connector_login-switched stored conn login known current method no_url has found differs
        logged =
      (
        rw
            (
              handle_connector_login,
              get_connector-run to_lower base w form.connector_id stored conn known current,
              get_auth_request,
              Table.get,
              found,
              choose_connector-run found differs,
              run_login-run conn login method no_url has,
            )
            refl,
        handle_approval-run to_lower base (shown conn) form.req switched
            (lookup-insert_same form.req switched w.store.auth_reqs) logged,
        refl,
      )
