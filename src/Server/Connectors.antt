-- ===== src/Server/Connectors.antt =====
-- server/server.go: the password database, and the connectors that the server has opened.
pub mod PasswordDb
pub mod Opening
use dex.Prelude.{
  ℕ, String, Bool, true, false, Option, some, none, [], if◌then◌else◌, ◌==◌, string_eq, not_found,
  other, Result, ok, err, wrap, ltb,
}
use dex.GoMap.{lookup, insert}
use dex.Storage.{Storage, Connector, Password, Bytes}
use dex.Server.Action.{Action, ◌>>=◌, ◌>>◌, pure, modify, gets}
use dex.Server.World.{
  World, Server, Platform, OpenedConnector, ServerConnector, Scopes, Identity, call,
}

-- server/api.go: the bounds on the cost of a bcrypt hash; the lower one is bcrypt's default.
abbrev pub default_cost : ℕ
default_cost = 10

abbrev pub up_bound_cost : ℕ
up_bound_cost = 16

abbrev pub local_connector : String
local_connector = "local"

module _ {S : Type 0} (platform : Platform S) where
  -- server/api.go: checkCost, from the result of bcrypt.Cost.
  unfoldable pub check_cost : Bytes → Result (Unit {0})
  check_cost hash = elim (platform.bcrypt_cost hash) [
    | err e ↦ err (wrap "parsing bcrypt hash: " e)
    | ok actual ↦
        if ltb actual default_cost
        then err (other "given hash cost does not meet minimum cost requirement")
        else if ltb up_bound_cost actual
        then err (other "given hash cost is above upper bound cost")
        else ok tt
  ]

  abbrev pub no_identity : Identity
  no_identity = record {
    user_id = "";
    username = "";
    email = "";
    email_verified = false;
    groups = [];
    connector_data = [];
  }

  abbrev pub password_identity : Password → Identity
  password_identity p = record {
    user_id = p.user_id;
    username = p.username;
    email = p.email;
    email_verified = true;
    groups = [];
    connector_data = [];
  }

  -- Login of the password database, from the result of GetPassword.
  unfoldable pub check_password : Result Password → String → Result (Identity × Bool)
  unfolding check_cost
  check_password (err not_found) password = ok (no_identity, false)
  check_password (err e) password = err (wrap "get password: " e)
  check_password (ok p) password = elim (check_cost p.hash) [
    | err e ↦ err e
    | ok u ↦
        if platform.bcrypt_matches p.hash password
        then ok (password_identity p, true)
        else ok (no_identity, false)
  ]

-- Refresh of the password database, from the result of GetPassword.
unfoldable pub refreshed_identity : Result Password → Identity → Result Identity
refreshed_identity (err not_found) identity = err (other "user not found")
refreshed_identity (err e) identity = err (wrap "get password: " e)
refreshed_identity (ok p) identity =
    if p.user_id == identity.user_id
    then ok (record identity { username = p.username })
    else err (other "user not found")

module _ {S : Type 0} (st : Storage S) (platform : Platform S) where
  unfoldable pub password_db_login : Scopes → String → String → S → Result (Identity × Bool) × S
  unfolding check_password
  password_db_login scopes email password s =
      let (r, t) = st.get_password email s in (check_password platform r password, t)

  unfoldable pub password_db_refresh : Scopes → Identity → S → Result Identity × S
  unfolding refreshed_identity
  password_db_refresh scopes identity s =
      let (r, t) = st.get_password identity.email s in (refreshed_identity r identity, t)

  -- newPasswordDB
  abbrev pub password_db : OpenedConnector S
  password_db = record {
    login_url = none;
    handle_callback = λ scopes form. err (other "not a callback connector");
    login = some password_db_login;
    prompt = "Email Address";
    post_data = none;
    handle_post = λ scopes response id. err (other "not a SAML connector");
    refresh = some password_db_refresh;
  }

module _ {S : Type 0} (server : Server S) where
  abbrev pub opened : Connector → Result (OpenedConnector S)
  opened conn =
      if conn.type == local_connector
      then ok (password_db server.storage server.platform)
      else server.open_connector conn

module _ {S : Type 0} where
  -- The connector that is open under an ID, unless its stored version is another.
  unfoldable pub current_connector :
      Connector → Option (ServerConnector S) → Option (ServerConnector S)
  current_connector stored none = none
  current_connector stored (some conn) =
      if stored.resource_version == conn.resource_version then some conn else none

  abbrev pub reopened : Result (ServerConnector S) → Result (ServerConnector S)
  reopened (ok conn) = ok conn
  reopened (err e) = err (wrap "failed to open connector: " e)

module _ {S E : Type 0} (server : Server S) where
  unfoldable pub open_connector : Connector → Action (World S) E (Result (ServerConnector S))
  open_connector conn w = elim (opened server conn) [
    | err e ↦ pure (err (wrap "failed to open connector: " e)) w
    | ok c ↦
        let sc : ServerConnector S = record {
          resource_version = conn.resource_version;
          connector = c;
        } in
        (modify (λ (v : World S). record v { connectors = insert conn.id sc v.connectors })
            >> pure (ok sc))
          w
  ]

  unfoldable pub get_connector : String → Action (World S) E (Result (ServerConnector S))
  unfolding open_connector current_connector
  get_connector id = do
    found ← call (server.storage.get_connector id)
    open_connectors ← gets (λ (w : World S). w.connectors)
    elim found [
      | err e ↦ pure (err (wrap "failed to get connector object from storage: " e))
      | ok stored ↦ elim (current_connector stored (lookup id open_connectors)) [
        | some conn ↦ pure (ok conn)
        | none ↦ do conn ← open_connector stored; pure (reopened conn)
      ]
    ]
