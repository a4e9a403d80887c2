-- ===== src/Server/Login/Finished.antt =====
-- server/handlers.go on storage/memory/memory.go: a callback that the connector accepts.
use Prim.Native.String.{◌++◌ as ◌+++◌}
use dex.Prelude.{
  subst, sym, String, true, false, not, ◌&&◌, Result, some, [], ◌∷◌, ok, ◌≡◌, refl, ◌==◌, string_eq,
  eq_refl,
}
use dex.GoMap.{lookup, insert}
use dex.GoMap.Laws.{lookup-insert}
use dex.Storage.{AuthRequest, Connector}
use dex.Memory.Table
use dex.Memory.{MemStorage, get_auth_request, update_auth_request}
use dex.Server.Action.{next}
use dex.Server.World.{World, Server, ServerConnector, OpenedConnector, Scopes, Identity, redirect}
use dex.Server.OAuth2.{parse_scopes}
use dex.Server.Token.Form.{claims_of}
use dex.Server.Connectors.{current_connector}
use dex.Server.Approval.{finalize_login, login_updater}
use dex.Server.Approval.Code.{on_memory}
use dex.Server.Login.OnMemory.{get_connector-run}
use dex.Server.Login.{
  CallbackForm, checked_callback, callback_id, call_connector, finish_login,
  handle_connector_callback,
}

module _ (to_lower : String → String) (base : Server MemStorage) (form : CallbackForm)
    (req : AuthRequest) (identity : Identity) (w : World MemStorage) where
  -- The request after the login.
  abbrev pub finished : AuthRequest
  finished = record req {
    logged_in = true;
    claims = claims_of identity;
    connector_data = identity.connector_data;
  }

  abbrev pub approval_path : String
  approval_path =
      base.join_path (base.url_path base.issuer ∷ "/approval" ∷ []) +++ "?req=" +++ req.id

  abbrev pub logged_in : World MemStorage
  logged_in = record w {
    store = record w.store { auth_reqs = insert req.id finished w.store.auth_reqs };
    replies = redirect approval_path ∷ w.replies;
  }

  checked_callback-run :
      form.method ≡ "GET"
      → (form.state == "") ≡ false
      → checked_callback (on_memory to_lower base) form w ≡ (next form.state, w)
  unfolding checked_callback callback_id
  checked_callback-run method state = rw (method, state, checked_callback, callback_id) refl

  call_connector-run :
      (conn : OpenedConnector MemStorage) (url : Scopes → String → String → Result String)
      → form.method ≡ "GET"
      → conn.login_url ≡ some url
      → conn.handle_callback (parse_scopes req.scopes) form.query ≡ ok identity
      → call_connector (on_memory to_lower base) form conn req w ≡ (next (ok identity), w)
  unfolding call_connector
  call_connector-run conn url method has answered = rw (has, method, answered, call_connector) refl

  finish_login-run :
      lookup req.id w.store.auth_reqs ≡ some req
      → finish_login (on_memory to_lower base) identity req w ≡ (next tt, logged_in)
  unfolding finish_login finalize_login login_updater update_auth_request Table.update
  finish_login-run found =
      rw (found, finish_login, finalize_login, login_updater, update_auth_request, Table.update)
        refl

  -- The callback runs to its end.
  pub handle_connector_callback-finished :
      (stored : Connector) (conn : ServerConnector MemStorage)
      (url : Scopes → String → String → Result String)
      → form.method ≡ "GET"
      → (form.state == "") ≡ false
      → lookup form.state w.store.auth_reqs ≡ some req
      → req.id ≡ form.state
      → (not (form.connector_id == "") && not (form.connector_id == req.connector_id)) ≡ false
      → lookup req.connector_id w.store.connectors ≡ some stored
      → current_connector stored (lookup req.connector_id w.connectors) ≡ some conn
      → conn.connector.login_url ≡ some url
      → conn.connector.handle_callback (parse_scopes req.scopes) form.query ≡ ok identity
      → (handle_connector_callback (on_memory to_lower base) form w ≡ (next tt, logged_in))
        × (lookup req.id logged_in.store.auth_reqs ≡ some finished)
  unfolding handle_connector_callback get_auth_request Table.get
  handle_connector_callback-finished stored conn url method state found same path known current has
        answered =
      (
        rw
            (
              handle_connector_callback,
              checked_callback-run method state,
              get_auth_request,
              Table.get,
              found,
              path,
              get_connector-run to_lower base w req.connector_id stored conn known current,
              call_connector-run conn.connector url method has answered,
              finish_login-run
                  (subst (λ k. lookup k w.store.auth_reqs ≡ some req) (sym same) found),
            )
            refl,
        rw (lookup-insert req.id req.id finished w.store.auth_reqs, eq_refl req.id) refl,
      )
