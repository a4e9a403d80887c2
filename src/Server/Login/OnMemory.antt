-- ===== src/Server/Login/OnMemory.antt =====
-- server/handlers.go and server/server.go on storage/memory/memory.go: steps that the login handlers
-- take in the same way.
use dex.Prelude.{String, true, some, ok, ◌≡◌, refl, string_eq}
use dex.GoMap.{lookup}
use dex.Storage.{AuthRequest, Connector}
use dex.Memory.Table
use dex.Memory.{MemStorage, get_auth_request, get_connector as stored_connector}
use dex.Server.Action.{next}
use dex.Server.World.{World, Server, ServerConnector}
use dex.Server.Connectors.{get_connector, current_connector}
use dex.Server.Approval.{send_code_response, decide_approval, handle_approval}
use dex.Server.Approval.Code.{on_memory}

module _ (to_lower : String → String) (base : Server MemStorage) (w : World MemStorage) where
  -- A connector that is open in its stored version.
  pub get_connector-run :
      (id : String) (stored : Connector) (conn : ServerConnector MemStorage)
      → lookup id w.store.connectors ≡ some stored
      → current_connector stored (lookup id w.connectors) ≡ some conn
      → get_connector {E = Unit {0}} (on_memory to_lower base) id w ≡ (next (ok conn), w)
  unfolding get_connector stored_connector Table.get lookup
  get_connector-run id stored conn known current =
      rw (known, current, get_connector, stored_connector, Table.get) refl

  -- The approval of a request that is logged in.
  pub handle_approval-run :
      (id : String) (req : AuthRequest)
      → lookup id w.store.auth_reqs ≡ some req
      → req.logged_in ≡ true
      → handle_approval (on_memory to_lower base) "POST" id "approve" w
        ≡ send_code_response (on_memory to_lower base) req w
  unfolding handle_approval decide_approval get_auth_request Table.get
  handle_approval-run id req found logged =
      rw (found, logged, handle_approval, get_auth_request, Table.get, decide_approval) refl
