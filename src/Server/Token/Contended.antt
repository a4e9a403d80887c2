-- ===== src/Server/Token/Contended.antt =====
-- server/handlers.go on storage/memory/memory.go: two refresh requests that read the same token.
use dex.Prelude.{◌+◌, String, false, some, Result, ok, ◌≡◌, ◌==◌, string_eq}
use dex.GoMap.{lookup}
use dex.Storage.{Connector, RefreshToken}
use dex.Memory.Every.{Every}
use dex.Memory.{MemStorage, get_connector as stored_connector}
use dex.Server.World.{World, Server, ServerConnector, OpenedConnector, Scopes, Identity}
use dex.Server.Ensures.{Property, Ensures}
use dex.Server.Connectors.{get_connector}
use dex.Server.Connectors.Opening.{Opening}
use dex.Server.Approval.Code.{on_memory}

-- A connector that leaves the stored refresh token of an ID as it is.
abbrev pub Leaves : String → OpenedConnector MemStorage → Type 0
Leaves id conn =
    (f : Scopes → Identity → MemStorage → Result Identity × MemStorage)
    → conn.refresh ≡ some f
    → (scopes : Scopes) (ident : Identity) (s : MemStorage)
    → lookup id (f scopes ident s).1.refresh_tokens ≡ lookup id s.refresh_tokens

module _ (to_lower : String → String) (base : Server MemStorage) (refresh : RefreshToken) where
  abbrev dex_server : Server MemStorage
  dex_server = on_memory to_lower base

  module _
      (leaves : (c : Connector) (o : OpenedConnector MemStorage)
        → base.open_connector c ≡ ok o
        → Leaves refresh.id o)
      (current : RefreshToken) (differs : (current.token == refresh.token) ≡ false) where
    -- The token is stored with another value, and the connectors that are open leave it so.
    abbrev Contended : Property MemStorage
    Contended s c =
        (lookup refresh.id s.refresh_tokens ≡ some current)
        × Every (λ (sc : ServerConnector MemStorage). Leaves refresh.id sc.connector) c

  -- The world when a random ID has been taken.
  abbrev drawn : World MemStorage → World MemStorage
  drawn u = record u { drawn = u.drawn + 1 }
