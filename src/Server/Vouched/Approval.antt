-- ===== src/Server/Vouched/Approval.antt =====
-- server/handlers.go: handleApproval makes codes only for users that a connector vouches for.
use dex.Prelude.{
  String, Bool, true, false, not, Option, some, none, List, [], ◌∷◌, ◌≡◌, refl, ◌==◌, string_eq,
  ltb, arith,
}
use dex.Storage.{AuthRequest}
use dex.Server.Action.{Action}
use dex.Server.World.{World, Server, Url, rendered_error, oob_page, approval_page}
use dex.Server.OAuth2.{
  redirect_uri_oob, response_type_code, response_type_token, response_type_id_token,
}
use dex.Server.OAuth2.IdToken.Kept.{new_id_token-Kept}
use dex.Server.Token.Form.{failed}
use dex.Server.Approval.{
  CodeResponse, no_response, new_code, make_code, make_id_token, respond, respond_all,
  redirect_back, parsed, undeleted, internal_error, send_code_response, show_approval,
  decide_approval, handle_approval,
}
use dex.Server.Ensures.{
  Property, Ensures, Any, Ensures-pure, Ensures-call, Ensures-now, Ensures-new_id, Ensures-refuse,
  Ensures-refuse_if, Ensures-or_refuse, Ensures-bind, Ensures-if, Ensures-send, Ensures-attempt,
}
use dex.Server.Vouched.{Sound, Laws}

was_true : (b : Bool) → not b ≡ false → b ≡ true
was_true true h = refl
was_true false h = cc

-- What does not change the storage.
module _ {S : Type 0} (server : Server S) (P : Property S) where
  redirect_back-Kept :
      (req : AuthRequest) (access_token : String) (c : CodeResponse)
      → Ensures P (redirect_back server req access_token c) Any
  unfolding redirect_back
  redirect_back-Kept req access_token c = record { at = λ w h. ground arith }

  parsed-Kept : (o : Option Url) → Ensures P (parsed server o) Any
  parsed-Kept none = Ensures-refuse (rendered_error 500 "Invalid redirect URI.")
  parsed-Kept (some url) = Ensures-pure url tt

module _ {S : Type 0} (server : Server S) (K : S → Type 0) (V : String → Type 0)
    (laws : Laws K V server) where
  abbrev Kept : {E A : Type 0} → Action (World S) E A → Type 0
  Kept m = Ensures (Sound K V) m Any

  make_code-Kept :
      (req : AuthRequest) (c : CodeResponse) → V req.claims.user_id → Kept (make_code server req c)
  unfolding make_code
  make_code-Kept req c v = Ensures-bind (Ensures-new_id server) λ id u.
      Ensures-bind (Ensures-now server) λ t u.
        Ensures-bind (Ensures-call (laws.create_auth_code (new_code req id t) v)) λ r u.
          Ensures-bind (Ensures-or_refuse r (λ e. internal_error)) λ done e.
            Ensures-bind (Ensures-refuse_if (req.redirect_uri == redirect_uri_oob) (oob_page id))
              λ w f. Ensures-pure (record c { code_id = id }) tt

  make_id_token-Kept :
      (req : AuthRequest) (access_token : String) (c : CodeResponse)
      → Kept (make_id_token server req access_token c)
  unfolding make_id_token
  make_id_token-Kept req access_token c =
      Ensures-bind
        (Ensures-attempt (
          new_id_token-Kept server (Sound K V) laws.get_keys laws.get_client req.client_id
            req.claims req.scopes req.nonce access_token req.connector_id))
        λ minted u. Ensures-bind (Ensures-or_refuse minted failed) λ token e.
          Ensures-pure
            (record c { implicit_or_hybrid = true; id_token = token.0; id_token_expiry = token.1 })
            tt

  respond-Kept :
      (req : AuthRequest) (access_token : String) (c : CodeResponse) (response_type : String)
      → V req.claims.user_id
      → Kept (respond server req access_token c response_type)
  unfolding respond
  respond-Kept req access_token c response_type v =
      Ensures-if (response_type == response_type_code) (make_code-Kept req c v) (
        Ensures-if (response_type == response_type_token)
          (Ensures-pure (record c { implicit_or_hybrid = true }) tt)
          (Ensures-if (response_type == response_type_id_token)
            (make_id_token-Kept req access_token c) (Ensures-pure c tt)))

  respond_all-Kept :
      (req : AuthRequest) (access_token : String) (c : CodeResponse) (types : List String)
      → V req.claims.user_id
      → Kept (respond_all server req access_token c types)
  unfolding respond_all
  respond_all-Kept req access_token c [] v = Ensures-pure c tt
  respond_all-Kept req access_token c (t ∷ types) v =
      Ensures-bind (respond-Kept req access_token c t v)
        λ c' u. respond_all-Kept req access_token c' types v

  send_code_response-Kept :
      (req : AuthRequest) → V req.claims.user_id → Kept (send_code_response server req)
  unfolding send_code_response
  send_code_response-Kept req v = Ensures-bind (Ensures-now server) λ t u.
      Ensures-bind
        (Ensures-refuse_if (ltb req.expiry t) (rendered_error 400 "User session has expired."))
        λ a e. Ensures-bind (Ensures-call (laws.delete_auth_request req.id)) λ r u.
          Ensures-bind (Ensures-or_refuse r (undeleted server)) λ done d.
            Ensures-bind (parsed-Kept server (Sound K V) (server.parse_url req.redirect_uri))
              λ url b. Ensures-bind (Ensures-new_id server) λ access_token u.
                Ensures-bind (respond_all-Kept req access_token no_response req.response_types v)
                  λ c u. redirect_back-Kept server (Sound K V) req access_token c

  show_approval-Kept : (req : AuthRequest) → Kept (show_approval server req)
  unfolding show_approval
  show_approval-Kept req = Ensures-bind (Ensures-call (laws.get_client req.client_id)) λ found u.
      Ensures-bind (Ensures-or_refuse found (λ e. rendered_error 500 "Failed to retrieve client."))
        λ client e. Ensures-send (approval_page req.id req.claims.username client.name req.scopes)

  decide_approval-Kept :
      (method approval : String) (req : AuthRequest)
      → V req.claims.user_id
      → Kept (decide_approval server method approval req)
  unfolding decide_approval
  decide_approval-Kept method approval req v =
      Ensures-if (method == "GET")
        (Ensures-if server.skip_approval (send_code_response-Kept req v) (show_approval-Kept req))
        (Ensures-if (method == "POST")
          (Ensures-if (approval == "approve") (send_code_response-Kept req v)
            (Ensures-refuse (rendered_error 500 "Approval rejected.")))
          (Ensures-pure tt tt))

  pub handle_approval-Kept :
      (method request_id approval : String)
      → Kept (handle_approval server method request_id approval)
  unfolding handle_approval
  handle_approval-Kept method request_id approval =
      Ensures-bind (Ensures-call (laws.get_auth_request request_id)) λ found honest.
        Ensures-bind (Ensures-or_refuse found (λ e. rendered_error 500 "Database error.")) λ req e.
          Ensures-bind
            (Ensures-refuse_if (not req.logged_in)
              (rendered_error 500 "Login process not yet finalized."))
            λ u f.
              decide_approval-Kept method approval req (honest.at req e (was_true req.logged_in f))
