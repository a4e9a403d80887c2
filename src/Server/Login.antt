-- ===== src/Server/Login.antt =====
-- server/handlers.go: handleAuthorization, handleConnectorLogin and handleConnectorCallback, and what
-- server/oauth2.go makes of an error.
pub mod Switch
pub mod Errors
pub mod Finished
pub mod OnMemory
pub mod Redeemed
use Prim.Native.Nat.{◌*◌}
use Prim.Native.String.{◌++◌ as ◌+++◌}
use dex.Prelude.{
  ℕ, ◌+◌, String, Bool, true, false, not, ◌&&◌, Option, none, some, List, [], ◌∷◌, ◌++◌, map,
  length, if◌then◌else◌, ltb, ◌==◌, string_eq, Result, ok, err, Error, not_found, other,
}
use dex.Text.{has_char}
use dex.Storage.{AuthRequest, Connector}
use dex.Server.Rotation.{hour}
use dex.Server.Action.{Action, ◌>>=◌, ◌>>◌, pure, gets, catch}
use dex.Server.World.{
  World, Server, ServerConnector, OpenedConnector, Scopes, Reply, Identity, rendered_error,
  redirect, login_page, password_page, saml_page, call, now, send, refuse, or_refuse, refuse_if,
}
use dex.Server.OAuth2.{err_server_error, parse_scopes}
use dex.Server.OAuth2.AuthRequest.{AuthErr, AuthForm, parse_authorization_request}
use dex.Server.Connectors.{get_connector}
use dex.Server.Approval.{finalize_login}

-- The request of handleConnectorLogin: its method and URL, the connector in its path, and the form.
pub record LoginForm : Type 0 where
  pub method : String
  pub url : String
  pub connector_id : String
  pub req : String
  pub login : String
  pub password : String

-- The request of handleConnectorCallback, with the values of its query.
pub record CallbackForm : Type 0 where
  pub method : String
  pub connector_id : String
  pub state : String
  pub relay_state : String
  pub saml_response : String
  pub query : List (String × String)

-- authErr.Status
unfoldable pub auth_err_status : AuthErr → ℕ
auth_err_status e = if e.state == err_server_error then 500 else 400

-- usernamePrompt
abbrev pub username_prompt : {S : Type 0} → OpenedConnector S → String
username_prompt c = if c.prompt == "" then "Username" else c.prompt

-- The closure that sets the connector of a request.
unfoldable pub connector_updater : String → AuthRequest → Result AuthRequest
connector_updater conn_id a = ok (record a { connector_id = conn_id })

module _ {S : Type 0} (server : Server S) where
  abbrev Handler : Type 0 → Type 0
  Handler A = Action (World S) (Unit {0}) A

  abbrev pub abs_path : List String → String
  abs_path items = server.join_path (server.url_path server.issuer ∷ items)

  abbrev pub abs_url : List String → String
  abs_url items = server.with_path server.issuer (abs_path items)

  -- authErr.Handle: the redirect to the client, unless there is no redirect URI.
  unfoldable pub auth_err_redirect : AuthErr → Option String
  unfolding has_char
  auth_err_redirect e =
      if e.redirect_uri == ""
      then none
      else let described : List (String × String) =
          if e.description == "" then [] else ("error_description", e.description) ∷ [] in
        some (
          e.redirect_uri
          +++ (if has_char b'?' e.redirect_uri then "&" else "?")
          +++ server.encode_values (("state", e.state) ∷ ("error", e.type) ∷ described))

  -- The reply to a request that does not parse.
  unfoldable pub auth_err_reply : AuthErr → Reply
  unfolding auth_err_redirect auth_err_status
  auth_err_reply e = elim (auth_err_redirect e) [
    | some uri ↦ redirect uri
    | none ↦ rendered_error (auth_err_status e) e.description
  ]

  abbrev login_url : String → String → String
  login_url conn_id req_id = abs_path ("/auth" ∷ conn_id ∷ []) +++ "?req=" +++ req_id

  -- One connector is taken at once; else the user has the choice.
  unfoldable pub offer_connectors : String → List Connector → Reply
  offer_connectors req_id connectors = elim connectors [
    | c ∷ [] ↦ redirect (login_url c.id req_id)
    | cs ↦ login_page (map (λ (c : Connector). (c.id, c.name, login_url c.id req_id)) cs)
  ]

  unfoldable pub handle_authorization : Option AuthForm → Handler (Unit {0})
  unfolding auth_err_reply offer_connectors
  handle_authorization form = do
    req ← catch (parse_authorization_request server form) (λ e. refuse (auth_err_reply e))
    t ← now server
    r ← call (server.storage.create_auth_request (record req { expiry = t + 24 * hour }))
    done ← or_refuse r (λ e. rendered_error 500 "Failed to connect to the database.")
    listed ← call server.storage.list_connectors
    connectors ← or_refuse listed (λ e. rendered_error 500 "Failed to retrieve connector list.")
    send (offer_connectors req.id connectors)

  abbrev pub no_session : Error → Reply
  no_session not_found = rendered_error 400 "Login session expired."
  no_session _ = rendered_error 500 "Database error."

  -- The connector being used for the login.
  unfoldable pub choose_connector : LoginForm → AuthRequest → Handler (Unit {0})
  unfolding connector_updater
  choose_connector form req = if req.connector_id == form.connector_id then pure tt else do
    r ← call (server.storage.update_auth_request form.req (connector_updater form.connector_id))
    or_refuse r (λ e. rendered_error 500 "Database error.")

  -- The page for the method GET; a callback connector comes first, then one for passwords.
  unfoldable pub show_login : LoginForm → OpenedConnector S → Scopes → Bool → Handler (Unit {0})
  show_login form conn scopes backlink = elim conn.login_url [
    | some url ↦ do
      to ←
          or_refuse (url scopes (abs_url ("/callback" ∷ [])) form.req)
            (λ e. rendered_error 500 "Login error.")
      send (redirect to)
    | none ↦ elim conn.login [
      | some f ↦ send (password_page form.url "" (username_prompt conn) false backlink)
      | none ↦ elim conn.post_data [
        | none ↦ refuse (rendered_error 400 "Requested resource does not exist.")
        | some post ↦ do
          values ←
              or_refuse (post scopes form.req) (λ e. rendered_error 500 "Connector Login Error")
          send (saml_page values.0 values.1 form.req)
      ]
    ]
  ]

  -- finalizeLogin, and the redirect to the approval page.
  unfoldable pub finish_login : Identity → AuthRequest → Handler (Unit {0})
  unfolding finalize_login
  finish_login identity req = do
    r ← finalize_login server identity req
    url ← or_refuse r (λ e. rendered_error 500 "Login error.")
    send (redirect url)

  -- What follows the connector's answer about a password.
  unfoldable pub accept_login :
      LoginForm → OpenedConnector S → Bool → AuthRequest → Identity × Bool → Handler (Unit {0})
  unfolding finish_login
  accept_login form conn backlink req answer =
      if answer.1
      then finish_login answer.0 req
      else refuse (password_page form.url form.login (username_prompt conn) true backlink)

  -- The method POST.
  unfoldable pub submit_login :
      LoginForm → OpenedConnector S → Scopes → Bool → AuthRequest → Handler (Unit {0})
  unfolding accept_login
  submit_login form conn scopes backlink req = elim conn.login [
    | none ↦ refuse (rendered_error 400 "Requested resource does not exist.")
    | some f ↦ do
      r ← call (f scopes form.login form.password)
      answer ← or_refuse r (λ e. rendered_error 500 "Login error.")
      accept_login form conn backlink req answer
  ]

  -- The switch over the method.
  unfoldable pub run_login : LoginForm → OpenedConnector S → Bool → AuthRequest → Handler (Unit {0})
  unfolding show_login submit_login
  run_login form conn backlink req =
      if form.method == "GET"
      then show_login form conn (parse_scopes req.scopes) backlink
      else if form.method == "POST"
      then submit_login form conn (parse_scopes req.scopes) backlink req
      else refuse (rendered_error 400 "Unsupported request method.")

  unfoldable pub handle_connector_login : LoginForm → Handler (Unit {0})
  unfolding choose_connector run_login
  handle_connector_login form = do
    found ← get_connector server form.connector_id
    conn ← or_refuse found (λ e. rendered_error 400 "Requested resource does not exist")
    r ← call (server.storage.get_auth_request form.req)
    req ← or_refuse r no_session
    choose_connector form req
    backlink ← gets (λ (w : World S). ltb 1 (length w.connectors))
    run_login form conn.connector backlink req

  -- The request ID that a callback carries.
  unfoldable pub callback_id : CallbackForm → Result String
  callback_id form =
      if form.method == "GET"
      then ok form.state
      else if form.method == "POST"
      then ok form.relay_state
      else err (other "Method not supported")

  unfoldable pub checked_callback : CallbackForm → Handler String
  unfolding callback_id
  checked_callback form = do
    id ← or_refuse (callback_id form) (λ e. rendered_error 400 "Method not supported")
    refuse_if (id == "") (rendered_error 400 "User session error.")
    pure id

  abbrev pub no_resource : Reply
  no_resource = rendered_error 500 "Requested resource does not exist."

  abbrev pub no_request : Error → Reply
  no_request not_found = no_resource
  no_request _ = rendered_error 500 "Database error."

  -- What the connector makes of the callback: the identity, or an error.
  unfoldable pub call_connector :
      CallbackForm → OpenedConnector S → AuthRequest → Handler (Result Identity)
  call_connector form conn req = elim conn.login_url [
    | some f ↦ do
      refuse_if (not (form.method == "GET")) (rendered_error 400 "Invalid request")
      pure (conn.handle_callback (parse_scopes req.scopes) form.query)
    | none ↦ elim conn.post_data [
      | none ↦ refuse no_resource
      | some f ↦ do
        refuse_if (not (form.method == "POST")) (rendered_error 400 "Invalid request")
        pure (conn.handle_post (parse_scopes req.scopes) form.saml_response req.id)
    ]
  ]

  unfoldable pub handle_connector_callback : CallbackForm → Handler (Unit {0})
  unfolding checked_callback call_connector finish_login
  handle_connector_callback form = do
    id ← checked_callback form
    r ← call (server.storage.get_auth_request id)
    req ← or_refuse r no_request
    refuse_if (not (form.connector_id == "") && not (form.connector_id == req.connector_id))
        no_resource
    found ← get_connector server req.connector_id
    conn ← or_refuse found (λ e. no_resource)
    answer ← call_connector form conn.connector req
    identity ← or_refuse answer (λ e. rendered_error 500 "Failed to return user's identity.")
    finish_login identity req
