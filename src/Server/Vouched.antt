-- ===== src/Server/Vouched.antt =====
-- server/handlers.go: the users that a connector vouches for. The server keeps that a request that is
-- logged in, an authorization code and a refresh token name such a user.
pub mod Login
pub mod Approval
pub mod Token
pub mod OnMemory
use dex.Prelude.{ℕ, String, Bool, true, Option, some, List, Result, ok, ◌≡◌, string_eq}
use dex.GoMap.{Map, lookup}
use dex.Storage.{Storage, AuthRequest, AuthCode, RefreshToken, OfflineSessions}
use dex.Server.World.{Server, ServerConnector, OpenedConnector, Scopes, Identity}
use dex.Server.Connectors.Opening.{Opening}
use dex.Server.Ensures.{Property, Any, Calls, Returns}

-- A request that is logged in names a user of `V`.
abbrev pub Honest : (String → Type 0) → AuthRequest → Type 0
Honest V a = a.logged_in ≡ true → V a.claims.user_id

-- An updater that keeps a property of the object.
abbrev pub Updates : {A : Type 0} → (A → Type 0) → (A → Result A) → Type 0
Updates {A} Q f = (a b : A) → Q a → f a ≡ ok b → Q b

-- What a password connector answers: a valid login is one of a user of `V`.
abbrev pub Answered : (String → Type 0) → Identity × Bool → Type 0
Answered V p = p.1 ≡ true → V p.0.user_id

module _ {S : Type 0} (K : S → Type 0) (V : String → Type 0) where
  -- A connector that logs in users of `V` only, and keeps a property of the storage.
  pub record Vouches (conn : OpenedConnector S) : Type 0 where
    pub login :
        (f : Scopes → String → String → S → Result (Identity × Bool) × S)
        → conn.login ≡ some f
        → (scopes : Scopes) (user password : String) (s : S) → K s
        → K (f scopes user password s).1 × Returns (Answered V) (f scopes user password s).0
    pub callback :
        (scopes : Scopes) (query : List (String × String))
        → Returns (λ (i : Identity). V i.user_id) (conn.handle_callback scopes query)
    pub post :
        (scopes : Scopes) (response id : String)
        → Returns (λ (i : Identity). V i.user_id) (conn.handle_post scopes response id)
    pub refresh :
        (f : Scopes → Identity → S → Result Identity × S)
        → conn.refresh ≡ some f
        → (scopes : Scopes) (ident : Identity) (s : S) → K s
        → K (f scopes ident s).1

  -- The storage has a property, and every open connector vouches.
  abbrev pub Sound : Property S
  Sound s c =
      K s × ((id : String) (sc : ServerConnector S) → lookup id c ≡ some sc → Vouches sc.connector)

  -- What is asked of a server: that the calls of its storage keep the property, as long as what is
  -- stored names users of `V`, and that the connectors that it opens vouch.
  pub record Laws (server : Server S) : Type 0 where
    pub opening : Opening server Sound (λ sc. Vouches sc.connector)
    pub create_auth_request :
        (a : AuthRequest) → Honest V a → Calls Sound (server.storage.create_auth_request a) Any
    pub get_auth_request :
        (id : String) → Calls Sound (server.storage.get_auth_request id) (Returns (Honest V))
    pub update_auth_request :
        (id : String) (f : AuthRequest → Result AuthRequest)
        → Updates (Honest V) f
        → Calls Sound (server.storage.update_auth_request id f) Any
    pub delete_auth_request :
        (id : String) → Calls Sound (server.storage.delete_auth_request id) Any
    pub create_auth_code :
        (c : AuthCode) → V c.claims.user_id → Calls Sound (server.storage.create_auth_code c) Any
    pub get_auth_code :
        (id : String)
        → Calls Sound
            (server.storage.get_auth_code id)
            (Returns (λ (c : AuthCode). V c.claims.user_id))
    pub delete_auth_code : (id : String) → Calls Sound (server.storage.delete_auth_code id) Any
    pub create_refresh :
        (r : RefreshToken) → V r.claims.user_id → Calls Sound (server.storage.create_refresh r) Any
    pub get_refresh : (id : String) → Calls Sound (server.storage.get_refresh id) Any
    pub update_refresh_token :
        (id : String) (f : RefreshToken → Result RefreshToken)
        → Updates (λ (r : RefreshToken). V r.claims.user_id) f
        → Calls Sound (server.storage.update_refresh_token id f) Any
    pub delete_refresh : (id : String) → Calls Sound (server.storage.delete_refresh id) Any
    pub get_session :
        (user conn : String) → Calls Sound (server.storage.get_offline_sessions user conn) Any
    pub create_session :
        (o : OfflineSessions) → Calls Sound (server.storage.create_offline_sessions o) Any
    pub update_session :
        (user conn : String) (f : OfflineSessions → Result (OfflineSessions × String))
        → Calls Sound (server.storage.update_offline_sessions user conn f) Any
    pub get_client : (id : String) → Calls Sound (server.storage.get_client id) Any
    pub list_connectors : Calls Sound server.storage.list_connectors Any
    pub get_keys : Calls Sound server.storage.get_keys Any
    pub garbage_collect : (t : ℕ) → Calls Sound (server.storage.garbage_collect t) Any
