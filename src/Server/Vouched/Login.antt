-- ===== src/Server/Vouched/Login.antt =====
-- server/handlers.go: handleAuthorization, handleConnectorLogin and handleConnectorCallback log in
-- only users that a connector vouches for.
use Prim.Native.Nat.{◌*◌}
use dex.Prelude.{
  ok_injective, ◌+◌, subst, String, Bool, true, false, not, Option, some, Result, ◌≡◌, refl, ◌==◌,
  string_eq, length, ltb, arith, ◌&&◌,
}
use dex.Storage.{AuthRequest}
use dex.Server.Rotation.{hour}
use dex.Server.Action.{Action}
use dex.Server.World.{World, Server, OpenedConnector, Scopes, Identity, rendered_error, redirect}
use dex.Server.OAuth2.{parse_scopes}
use dex.Server.OAuth2.AuthRequest.{AuthForm}
use dex.Server.OAuth2.AuthRequest.Kept.{parse_authorization_request-Kept}
use dex.Server.Connectors.Opening.{get_connector-Ensures}
use dex.Server.Approval.{login_updater, finalize_login}
use dex.Server.Login.{
  offer_connectors, LoginForm, CallbackForm, auth_err_reply, connector_updater,
  handle_authorization, choose_connector, show_login, finish_login, accept_login, submit_login,
  run_login, no_session, no_resource, no_request, handle_connector_login, checked_callback,
  call_connector, handle_connector_callback,
}
use dex.Server.Ensures.{
  Property, Ensures-send, Ensures-weaken, Ensures, Any, Calls, Returns, Ensures-pure, Ensures-gets,
  Ensures-call, Ensures-now, Ensures-refuse, Ensures-refuse_if, Ensures-or_refuse, Ensures-bind,
  Ensures-option, Ensures-if, Ensures-catch,
}
use dex.Server.Vouched.{Honest, Updates, Answered, Vouches, Sound, Laws}

-- The updaters of a login.
connector_updater-Updates :
    (V : String → Type 0) (id : String) → Updates (Honest V) (connector_updater id)
unfolding connector_updater
connector_updater-Updates V id a b h e = subst (Honest V) (ok_injective e) h

login_updater-Updates :
    (V : String → Type 0) (identity : Identity)
    → V identity.user_id
    → Updates (Honest V) (login_updater identity)
unfolding login_updater
login_updater-Updates V identity v a b h e = subst (Honest V) (ok_injective e) (λ l. v)

-- What does not change the storage.
module _ {S : Type 0} (server : Server S) (P : Property S) where
  show_login-Kept :
      (form : LoginForm) (conn : OpenedConnector S) (scopes : Scopes) (backlink : Bool)
      → Ensures P (show_login server form conn scopes backlink) Any
  unfolding show_login
  show_login-Kept form conn scopes backlink = record { at = λ w h. ground arith }

  checked_callback-Kept : (form : CallbackForm) → Ensures P (checked_callback server form) Any
  unfolding checked_callback
  checked_callback-Kept form = record { at = λ w h. ground arith }

module _ {S : Type 0} (server : Server S) (K : S → Type 0) (V : String → Type 0)
    (laws : Laws K V server) where
  abbrev Kept : {E A : Type 0} → Action (World S) E A → Type 0
  Kept m = Ensures (Sound K V) m Any

  pub handle_authorization-Kept : (form : Option AuthForm) → Kept (handle_authorization server form)
  unfolding handle_authorization
  handle_authorization-Kept form =
      Ensures-bind
        (Ensures-catch (parse_authorization_request-Kept server (Sound K V) laws.get_client form)
          (λ e. Ensures-refuse (auth_err_reply server e)))
        λ req n. Ensures-bind (Ensures-now server) λ t u.
          Ensures-bind
            (Ensures-call
              (laws.create_auth_request (record req { expiry = t + 24 * hour }) (λ l. cc)))
            λ r u.
              Ensures-bind
                (Ensures-or_refuse r (λ e. rendered_error 500 "Failed to connect to the database."))
                λ done v. Ensures-bind (Ensures-call laws.list_connectors) λ listed a.
                  Ensures-bind
                    (Ensures-or_refuse listed
                      (λ e. rendered_error 500 "Failed to retrieve connector list."))
                    λ connectors b. Ensures-send (offer_connectors server req.id connectors)

  finalize_login-Kept :
      (identity : Identity) (req : AuthRequest)
      → V identity.user_id
      → Kept {E = Unit {0}} (finalize_login server identity req)
  unfolding finalize_login
  finalize_login-Kept identity req v = record {
    at = λ w h.
        let update = laws.update_auth_request req.id _ (login_updater-Updates V identity v) in
        ((update.at w.store w.connectors h).0, tt);
  }

  finish_login-Kept :
      (identity : Identity) (req : AuthRequest)
      → V identity.user_id
      → Kept (finish_login server identity req)
  unfolding finish_login
  finish_login-Kept identity req v = Ensures-bind (finalize_login-Kept identity req v) λ r u.
      Ensures-bind (Ensures-or_refuse r (λ e. rendered_error 500 "Login error."))
        λ url e. Ensures-send (redirect url)

  choose_connector-Kept :
      (form : LoginForm) (req : AuthRequest) → Kept (choose_connector server form req)
  unfolding choose_connector
  choose_connector-Kept form req =
      Ensures-if (req.connector_id == form.connector_id) (Ensures-pure tt tt) (
        Ensures-bind
          (Ensures-call
            (laws.update_auth_request form.req _ (connector_updater-Updates V form.connector_id)))
          λ r u.
            Ensures-weaken (λ a h. tt)
              (Ensures-or_refuse r (λ e. rendered_error 500 "Database error.")))

  accept_login-Kept :
      (form : LoginForm) (conn : OpenedConnector S) (backlink : Bool) (req : AuthRequest)
      (answer : Identity × Bool)
      → Answered V answer
      → Kept (accept_login server form conn backlink req answer)
  unfolding accept_login
  accept_login-Kept form conn backlink req (identity, true) v =
      finish_login-Kept identity req (v refl)
  accept_login-Kept form conn backlink req (identity, false) v = record { at = λ w h. h }

  login-Calls :
      (conn : OpenedConnector S) (f : Scopes → String → String → S → Result (Identity × Bool) × S)
      → Vouches K V conn
      → conn.login ≡ some f
      → (scopes : Scopes) (user password : String)
      → Calls (Sound K V) (f scopes user password) (Returns (Answered V))
  login-Calls conn f vouches e scopes user password = record {
    at = λ s c h. let (k, q) = vouches.login f e scopes user password s h.0 in ((k, h.1), q);
  }

  submit_login-Kept :
      (form : LoginForm) (conn : OpenedConnector S) (scopes : Scopes) (backlink : Bool)
      (req : AuthRequest)
      → Vouches K V conn
      → Kept (submit_login server form conn scopes backlink req)
  unfolding submit_login
  submit_login-Kept form conn scopes backlink req vouches =
      Ensures-option conn.login
        (λ f e.
          Ensures-bind (Ensures-call (login-Calls conn f vouches e scopes form.login form.password))
            λ r answered.
              Ensures-bind (Ensures-or_refuse r (λ x. rendered_error 500 "Login error."))
                λ answer a. accept_login-Kept form conn backlink req answer (answered.at answer a))
        (Ensures-refuse (rendered_error 400 "Requested resource does not exist."))

  run_login-Kept :
      (form : LoginForm) (conn : OpenedConnector S) (backlink : Bool) (req : AuthRequest)
      → Vouches K V conn
      → Kept (run_login server form conn backlink req)
  unfolding run_login
  run_login-Kept form conn backlink req vouches =
      Ensures-if (form.method == "GET")
        (show_login-Kept server (Sound K V) form conn (parse_scopes req.scopes) backlink)
        (Ensures-if (form.method == "POST")
          (submit_login-Kept form conn (parse_scopes req.scopes) backlink req vouches)
          (Ensures-refuse (rendered_error 400 "Unsupported request method.")))

  pub handle_connector_login-Kept : (form : LoginForm) → Kept (handle_connector_login server form)
  unfolding handle_connector_login
  handle_connector_login-Kept form =
      Ensures-bind
        (get_connector-Ensures server (Sound K V) (λ sc. Vouches K V sc.connector) laws.opening
          form.connector_id)
        λ found good.
          Ensures-bind
            (Ensures-or_refuse found (λ x. rendered_error 400 "Requested resource does not exist"))
            λ conn c. Ensures-bind (Ensures-call (laws.get_auth_request form.req)) λ r u.
              Ensures-bind (Ensures-or_refuse r (no_session server)) λ req e.
                Ensures-bind (choose_connector-Kept form req) λ v a.
                  Ensures-bind
                    (Ensures-gets {Q = Any} (λ (w : World S). ltb 1 (length w.connectors))
                      (λ w h. tt))
                    λ backlink b. run_login-Kept form conn.connector backlink req (good.at conn c)

  call_connector-Vouched :
      (form : CallbackForm) (conn : OpenedConnector S) (req : AuthRequest)
      → Vouches K V conn
      → Ensures
          (Sound K V)
          (call_connector server form conn req)
          (Returns (λ (i : Identity). V i.user_id))
  unfolding call_connector
  call_connector-Vouched form conn req vouches =
      let scopes = parse_scopes req.scopes in
      let get_answer : Result Identity = conn.handle_callback scopes form.query in
      let post_answer : Result Identity = conn.handle_post scopes form.saml_response req.id in
      Ensures-option conn.login_url
        (λ f e.
          Ensures-bind
            (Ensures-refuse_if (not (form.method == "GET")) (rendered_error 400 "Invalid request"))
            λ u g. Ensures-pure get_answer (vouches.callback scopes form.query))
        (Ensures-option conn.post_data
          (λ f e.
            Ensures-bind
              (Ensures-refuse_if (not (form.method == "POST"))
                (rendered_error 400 "Invalid request"))
              λ u g. Ensures-pure post_answer (vouches.post scopes form.saml_response req.id))
          (Ensures-refuse (no_resource server)))

  pub handle_connector_callback-Kept :
      (form : CallbackForm) → Kept (handle_connector_callback server form)
  unfolding handle_connector_callback
  handle_connector_callback-Kept form =
      Ensures-bind (checked_callback-Kept server (Sound K V) form) λ id u.
        Ensures-bind (Ensures-call (laws.get_auth_request id)) λ r honest.
          Ensures-bind (Ensures-or_refuse r (no_request server)) λ req e.
            Ensures-bind
              (Ensures-refuse_if
                (not (form.connector_id == "") && not (form.connector_id == req.connector_id))
                (no_resource server))
              λ v e'.
                Ensures-bind
                  (get_connector-Ensures server (Sound K V) (λ sc. Vouches K V sc.connector)
                    laws.opening req.connector_id)
                  λ found good.
                    Ensures-bind (Ensures-or_refuse found (λ x. no_resource server)) λ conn c.
                      Ensures-bind (call_connector-Vouched form conn.connector req (good.at conn c))
                        λ answer vouched.
                          Ensures-bind
                            (Ensures-or_refuse answer
                              (λ x. rendered_error 500 "Failed to return user's identity."))
                            λ identity i. finish_login-Kept identity req (vouched.at identity i)
