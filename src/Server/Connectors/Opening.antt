-- ===== src/Server/Connectors/Opening.antt =====
-- server/server.go: what getConnector keeps, whether it finds the connector open or opens it.
use dex.Prelude.{String, Option, some, none, Result, ok, err, wrap, ◌≡◌, refl, string_eq, arith}
use dex.GoMap.{Map, lookup, insert}
use dex.Storage.{Connector}
use dex.Server.World.{World, Server, ServerConnector, OpenedConnector}
use dex.Server.Connectors.{opened, current_connector, open_connector, get_connector, reopened}
use dex.Server.Ensures.{
  Property, Ensures, Outcome, Any, Calls, Returns, Returns-ok, Returns-err, Ensures-pure,
  Ensures-gets, Ensures-call, Ensures-bind, Ensures-result, Ensures-option,
}

-- The entry that is made for a connector that was opened.
abbrev pub entry : {S : Type 0} → Connector → OpenedConnector S → ServerConnector S
entry conn c = record { resource_version = conn.resource_version; connector = c }

module _ {S : Type 0} (server : Server S) (P : Property S) (Good : ServerConnector S → Type 0) where
  -- What is asked of a property: reading a connector keeps it, the connectors that are open are
  -- good, and one that is opened is good and may be kept.
  pub record Opening : Type 0 where
    pub read : (id : String) → Calls P (server.storage.get_connector id) Any
    pub good :
        (s : S) (c : Map String (ServerConnector S)) (id : String) (sc : ServerConnector S)
        → P s c
        → lookup id c ≡ some sc
        → Good sc
    pub opening :
        (s : S) (c : Map String (ServerConnector S)) (conn : Connector) (o : OpenedConnector S)
        → P s c
        → opened server conn ≡ ok o
        → P s (insert conn.id (entry conn o) c) × Good (entry conn o)

current_connector-open :
    {S : Type 0} (conn : Connector) (o : Option (ServerConnector S)) (sc : ServerConnector S)
    → current_connector conn o ≡ some sc
    → o ≡ some sc
unfolding current_connector
current_connector-open conn none sc h = cc
current_connector-open conn (some c) sc h = ground arith

open_connector-Outcome :
    {S : Type 0} (E : Type 0) (server : Server S) (P : Property S)
    (Good : ServerConnector S → Type 0) (laws : Opening server P Good) (conn : Connector)
    (r : Result (OpenedConnector S)) (w : World S)
    → opened server conn ≡ r
    → P w.store w.connectors
    → Outcome {E = E} P (Returns Good) (open_connector server conn w)
unfolding open_connector
open_connector-Outcome E server P Good laws conn (ok o) w e h =
    let (kept, good) = laws.opening w.store w.connectors conn o h e in
    rw (e, open_connector) (kept, Returns-ok (entry conn o) good)
open_connector-Outcome E server P Good laws conn (err x) w e h =
    rw (e, open_connector) (h, Returns-err _)

reopened-Returns :
    {S : Type 0} (Good : ServerConnector S → Type 0) (r : Result (ServerConnector S))
    → Returns Good r
    → Returns Good (reopened r)
reopened-Returns Good (ok c) q = q
reopened-Returns Good (err e) q = Returns-err _

module _ {S E : Type 0} (server : Server S) (P : Property S) (Good : ServerConnector S → Type 0)
    (laws : Opening server P Good) where
  pub open_connector-Ensures :
      (conn : Connector) → Ensures {E = E} P (open_connector server conn) (Returns Good)
  open_connector-Ensures conn = record {
    at = λ w h. open_connector-Outcome E server P Good laws conn (opened server conn) w refl h;
  }

  pub get_connector-Ensures :
      (id : String) → Ensures {E = E} P (get_connector server id) (Returns Good)
  unfolding get_connector
  get_connector-Ensures id = Ensures-bind (Ensures-call (laws.read id)) λ found q.
      Ensures-bind {Q = λ c. (i : String) (sc : ServerConnector S) → lookup i c ≡ some sc → Good sc}
        (Ensures-gets _ (λ w h i sc e. laws.good w.store w.connectors i sc h e))
        λ connectors good.
          Ensures-result found
            (λ stored e.
              Ensures-option (current_connector stored (lookup id connectors))
                (λ sc o.
                  Ensures-pure _ (Returns-ok sc (good _ sc (current_connector-open stored _ sc o))))
                (Ensures-bind (open_connector-Ensures stored)
                  λ r k. Ensures-pure _ (reopened-Returns Good r k)))
            (λ e.
              Ensures-pure _ (Returns-err (wrap "failed to get connector object from storage: " e)))
