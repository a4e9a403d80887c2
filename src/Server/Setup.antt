-- ===== src/Server/Setup.antt =====
-- server/server.go: what newServer checks and opens, and the requests that its routes hand to the
-- handlers; with the garbage collection that it starts.
pub mod Vouched
use Prim.Native.String.{◌++◌ as ◌+++◌}
use dex.Prelude.{
  String, Bool, true, false, not, ◌||◌, Option, List, [], ◌∷◌, if◌then◌else◌, ◌==◌, string_eq,
  nat_eq, length, Error, other, wrap, Result, ok, err,
}
use dex.Storage.{Connector}
use dex.Server.Action.{Action, Flow, ◌>>=◌, ◌>>◌, pure, halt, or_halt, halt_if}
use dex.Server.World.{World, Server, call, now}
use dex.Server.OAuth2.{response_type_code, response_type_id_token, response_type_token}
use dex.Server.OAuth2.AuthRequest.{AuthForm}
use dex.Server.Connectors.{open_connector}
use dex.Server.Login.{
  LoginForm, CallbackForm, handle_authorization, handle_connector_login, handle_connector_callback,
}
use dex.Server.Approval.{handle_approval}
use dex.Server.Status.{handle_public_keys, handle_health}
use dex.Server.Token.{handle_token}
use dex.Server.Token.Form.{TokenForm}

-- The cases of the switch over a configured response type.
abbrev pub is_response_type : String → Bool
is_response_type t =
    t == response_type_code || t == response_type_id_token || t == response_type_token

-- A request that the router hands to a handler, with what the handler reads of it, or a round of the
-- garbage collection.
pub data Event : Type 0 where
  authorization : Option AuthForm → Event
  connector_login : LoginForm → Event
  connector_callback : CallbackForm → Event
  approval : (method request_id decision : String) → Event
  token : TokenForm → Event
  public_keys : Event
  health : Event
  collection : Event

module _ {S : Type 0} (server : Server S) where
  -- The loop over the configured response types.
  unfoldable pub check_types : List String → Result (List String)
  check_types [] = ok []
  check_types (t ∷ types) =
      let rest = check_types types in
      if is_response_type t
      then elim rest [ ok checked ↦ ok (t ∷ checked) | err e ↦ err e ]
      else err (other ("unsupported response_type " +++ server.quote t))

  -- The configured response types; "code" alone if there are none.
  unfoldable pub supported_types : List String → Result (List String)
  unfolding check_types
  supported_types [] = check_types (response_type_code ∷ [])
  supported_types (t ∷ types) = check_types (t ∷ types)

  -- The loop that opens the stored connectors.
  unfoldable pub open_all : List Connector → Action (World S) Error (Unit {0})
  open_all [] = pure tt
  open_all (conn ∷ connectors) = do
    r ← open_connector server conn
    opened ← or_halt r (wrap ("server: Failed to open connector " +++ conn.id +++ ": "))
    open_all connectors

  -- newServer, from the response types to the connectors; the map of open connectors is empty
  -- before.
  unfoldable pub new_server : List String → Action (World S) Error (List String)
  unfolding supported_types open_all
  new_server types = do
    supported ← or_halt (supported_types types) (λ e. e)
    listed ← call server.storage.list_connectors
    connectors ← or_halt listed (wrap "server: failed to list connector objects from storage: ")
    halt_if (length connectors == 0) (other "server: no connectors specified")
    open_all connectors
    pure supported

  -- The goroutine of startGarbageCollection, one round; a failure is only logged.
  unfoldable pub collect_garbage : Action (World S) (Unit {0}) (Unit {0})
  collect_garbage = do t ← now server; r ← call (server.storage.garbage_collect t); pure tt

  unfoldable pub handle : Event → Action (World S) (Unit {0}) (Unit {0})
  unfolding collect_garbage
  handle (authorization form) = handle_authorization server form
  handle (connector_login form) = handle_connector_login server form
  handle (connector_callback form) = handle_connector_callback server form
  handle (approval method request_id decision) = handle_approval server method request_id decision
  handle (token form) = handle_token server form
  handle public_keys = handle_public_keys server
  handle health = handle_health server
  handle collection = collect_garbage

  -- The world after a handler, which has gone on to its end or has stopped.
  abbrev pub after : Event → World S → World S
  after event w = let (r, v) = handle event w in v

  -- One request after the other.
  unfoldable pub serve : List Event → World S → World S
  unfolding handle
  serve [] w = w
  serve (event ∷ events) w = serve events (after event w)
