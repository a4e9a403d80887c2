-- ===== src/Server/Setup/Vouched.antt =====
-- server/server.go: the server, from its start and through any requests, stores only users that a
-- connector vouches for.
use dex.Prelude.{
  String, Option, some, none, List, [], ◌∷◌, length, other, wrap, ok, ◌≡◌, ◌==◌, string_eq, nat_eq,
}
use Prim.Native.String.{◌++◌ as ◌+++◌}
use dex.GoMap.{lookup}
use dex.Storage.{Connector, Keys, Jwk}
use dex.Memory.{MemStorage}
use dex.Server.Action.{Action}
use dex.Server.World.{
  World, Server, ServerConnector, OpenedConnector, rendered_error, health_passed,
}
use dex.Server.Connectors.Opening.{open_connector-Ensures}
use dex.Server.Approval.{internal_error}
use dex.Server.Approval.Code.{on_memory}
use dex.Server.Status.{
  key_set, max_age, send_keys, handle_public_keys, health_request, health_check, handle_health,
}
use dex.Server.Setup.{
  Event, authorization, connector_login, connector_callback, approval, token, public_keys, health,
  collection, supported_types, open_all, new_server, collect_garbage, handle, after, serve,
}
use dex.Server.Ensures.{
  Property, Ensures, outcome_property, Any, Ensures-pure, Ensures-call, Ensures-now, Ensures-new_id,
  Ensures-or_halt, Ensures-halt_if, Ensures-or_refuse, Ensures-bind, Ensures-attempt, Ensures-send,
  Ensures-weaken,
}
use dex.Server.Vouched.{Vouches, Sound, Laws}
use dex.Server.Vouched.Login.{
  handle_authorization-Kept, handle_connector_login-Kept, handle_connector_callback-Kept,
}
use dex.Server.Vouched.Approval.{handle_approval-Kept}
use dex.Server.Vouched.Token.{handle_token-Kept}
use dex.Server.Vouched.OnMemory.{Names, memory-Laws}

-- What does not change the storage.
send_keys-Kept :
    {S : Type 0} (server : Server S) (P : Property S) (keys : Keys) (o : Option (List Jwk))
    → Ensures P (send_keys server keys o) Any
unfolding max_age
send_keys-Kept server P keys none = record { at = λ w h. h }
send_keys-Kept server P keys (some served) = record { at = λ w h. (h, tt) }

module _ {S : Type 0} (server : Server S) (K : S → Type 0) (V : String → Type 0)
    (laws : Laws K V server) where
  abbrev Kept : {E A : Type 0} → Action (World S) E A → Type 0
  Kept m = Ensures (Sound K V) m Any

  handle_public_keys-Kept : Kept (handle_public_keys server)
  unfolding handle_public_keys
  handle_public_keys-Kept = Ensures-bind (Ensures-call laws.get_keys) λ r u.
      Ensures-bind (Ensures-or_refuse r (λ e. internal_error))
        λ keys e. send_keys-Kept server (Sound K V) keys (key_set keys)

  health_check-Kept : Kept (health_check server)
  unfolding health_check
  health_check-Kept = Ensures-bind (Ensures-new_id server) λ id u.
      Ensures-bind (Ensures-new_id server) λ client_id u. Ensures-bind (Ensures-now server) λ t u.
        Ensures-bind
          (Ensures-call (laws.create_auth_request (health_request server id client_id t) (λ l. cc)))
          λ r u. Ensures-bind (Ensures-or_halt r (wrap "create auth request: ")) λ done e.
            Ensures-bind (Ensures-call (laws.delete_auth_request id))
              λ r' u. Ensures-weaken (λ a h. tt) (Ensures-or_halt r' (wrap "delete auth request: "))

  handle_health-Kept : Kept (handle_health server)
  unfolding handle_health
  handle_health-Kept = Ensures-bind (Ensures-now server) λ started u.
      Ensures-bind (Ensures-attempt health_check-Kept) λ r u.
        Ensures-bind (Ensures-now server) λ t u.
          Ensures-bind (Ensures-or_refuse r (λ e. rendered_error 500 "Health check failed."))
            λ done e. Ensures-send health_passed

  collect_garbage-Kept : Kept (collect_garbage server)
  unfolding collect_garbage
  collect_garbage-Kept =
      Ensures-bind (Ensures-now server)
        λ t u. Ensures-bind (Ensures-call (laws.garbage_collect t)) λ r u. Ensures-pure tt tt

  handle-Kept : (event : Event) → Kept (handle server event)
  unfolding handle
  handle-Kept (authorization form) = handle_authorization-Kept server K V laws form
  handle-Kept (connector_login form) = handle_connector_login-Kept server K V laws form
  handle-Kept (connector_callback form) = handle_connector_callback-Kept server K V laws form
  handle-Kept (approval method id decision) =
      handle_approval-Kept server K V laws method id decision
  handle-Kept (token form) = handle_token-Kept server K V laws form
  handle-Kept public_keys = handle_public_keys-Kept
  handle-Kept health = handle_health-Kept
  handle-Kept collection = collect_garbage-Kept

  pub serve-Sound :
      (events : List Event) (w : World S)
      → Sound K V w.store w.connectors
      → Sound K V (serve server events w).store (serve server events w).connectors
  unfolding serve
  serve-Sound [] w h = h
  serve-Sound (event ∷ events) w h =
      serve-Sound events (after server event w)
        (outcome_property (Sound K V) Any (handle server event w) ((handle-Kept event).at w h))

  open_all-Kept : (connectors : List Connector) → Kept (open_all server connectors)
  unfolding open_all
  open_all-Kept [] = Ensures-pure tt tt
  open_all-Kept (conn ∷ connectors) =
      Ensures-bind
        (open_connector-Ensures server (Sound K V) (λ sc. Vouches K V sc.connector) laws.opening
          conn)
        λ r u.
          Ensures-bind
            (Ensures-or_halt r (wrap ("server: Failed to open connector " +++ conn.id +++ ": ")))
            λ opened e. open_all-Kept connectors

  pub new_server-Kept : (types : List String) → Kept (new_server server types)
  unfolding new_server
  new_server-Kept types =
      Ensures-bind (Ensures-or_halt (supported_types server types) (λ e. e)) λ supported e.
        Ensures-bind (Ensures-call laws.list_connectors) λ listed u.
          Ensures-bind
            (Ensures-or_halt listed
              (wrap "server: failed to list connector objects from storage: "))
            λ connectors f.
              Ensures-bind
                (Ensures-halt_if (length connectors == 0) (other "server: no connectors specified"))
                λ u g. Ensures-bind (open_all-Kept connectors) λ u q. Ensures-pure supported tt

-- The world that newServer leaves.
abbrev pub started :
    (String → String) → Server MemStorage → List String → World MemStorage → World MemStorage
started to_lower base types w = let (r, v) = new_server (on_memory to_lower base) types w in v

module _ (to_lower : String → String) (base : Server MemStorage) (V : String → Type 0) where
  -- On the in-memory storage, with no connector open before newServer: if every connector that can be
  -- opened logs in only users of a set and keeps that what is stored names only such users, and if
  -- the requests that are logged in, the codes, the refresh tokens and the passwords that are stored
  -- name such users, then they do so after newServer, with any response types, and after any
  -- sequence of requests and garbage collections, whether or not these succeed.
  pub serve-Names :
      (opens : (c : Connector) (o : OpenedConnector MemStorage)
        → base.open_connector c ≡ ok o
        → Vouches (Names V) V o)
      (types : List String) (events : List Event) (w : World MemStorage)
      → w.connectors ≡ []
      → Names V w.store
      → Names V (serve (on_memory to_lower base) events (started to_lower base types w)).store
  unfolding lookup
  serve-Names opens types events w none_open h =
      let laws = memory-Laws to_lower base V opens in
      let none : (id : String) (sc : ServerConnector MemStorage)
          → lookup id w.connectors ≡ some sc
          → Vouches (Names V) V sc.connector =
        λ id sc e. cc (rw none_open at e) in
      let first =
        outcome_property (Sound (Names V) V) Any (new_server (on_memory to_lower base) types w)
          ((new_server-Kept (on_memory to_lower base) (Names V) V laws types).at w (h, none)) in
      (serve-Sound (on_memory to_lower base) (Names V) V laws events (started to_lower base types w)
        first).0
