-- ===== src/Server/Approval.antt =====
-- server/handlers.go: what comes after the login: finalizeLogin, handleApproval and
-- sendCodeResponse.
pub mod Code
use Prim.Native.Nat.{◌-◌, ◌*◌, ◌/◌}
use Prim.Native.String.{◌++◌ as ◌+++◌}
use dex.Prelude.{
  ℕ, ◌+◌, String, Bool, true, false, not, Option, none, some, List, [], ◌∷◌, ◌++◌, map,
  if◌then◌else◌, ltb, ◌==◌, string_eq, Result, ok, err, Error, not_found, wrap,
}
use dex.Storage.{AuthRequest, AuthCode, VerificationKey, Keys, Jwk}
use dex.Server.Rotation.{second}
use dex.Server.Action.{Action, ◌>>=◌, ◌>>◌, pure, halt, or_halt, attempt}
use dex.Server.World.{
  World, Server, Url, Reply, Identity, rendered_error, oob_page, approval_page, query_redirect,
  fragment_redirect, public_keys, health_passed, call, new_id, now, send, refuse, or_refuse,
  refuse_if,
}
use dex.Server.OAuth2.{
  redirect_uri_oob, response_type_code, response_type_token, response_type_id_token,
}
use dex.Server.OAuth2.AuthRequest.{no_claims}
use dex.Server.OAuth2.IdToken.{new_id_token}
use dex.Server.Token.Form.{failed, claims_of}

abbrev pub minute : ℕ
minute = 60 * second

abbrev pub internal_error : Reply
internal_error = rendered_error 500 "Internal server error."

-- The closure that finalizeLogin hands to UpdateAuthRequest.
unfoldable pub login_updater : Identity → AuthRequest → Result AuthRequest
login_updater identity a = ok (record a {
  logged_in = true;
  claims = claims_of identity;
  connector_data = identity.connector_data;
})

-- The variables of sendCodeResponse; `code_id` is empty until a code is made.
pub record CodeResponse : Type 0 where
  pub implicit_or_hybrid : Bool
  pub code_id : String
  pub id_token : String
  pub id_token_expiry : ℕ

abbrev pub no_response : CodeResponse
no_response = record {
  implicit_or_hybrid = false;
  code_id = "";
  id_token = "";
  id_token_expiry = 0;
}

abbrev pub new_code : AuthRequest → String → ℕ → AuthCode
new_code req id t = record {
  id = id;
  client_id = req.client_id;
  redirect_uri = req.redirect_uri;
  nonce = req.nonce;
  scopes = req.scopes;
  connector_id = req.connector_id;
  connector_data = req.connector_data;
  claims = req.claims;
  expiry = t + 30 * minute;
}

module _ {S : Type 0} (server : Server S) where
  abbrev Handler : Type 0 → Type 0
  Handler A = Action (World S) (Unit {0}) A

  -- The approval page's path, with the request's ID.
  unfoldable pub finalize_login :
      {E : Type 0} → Identity → AuthRequest → Action (World S) E (Result String)
  unfolding login_updater
  finalize_login identity req = do
    r ← call (server.storage.update_auth_request req.id (login_updater identity))
    pure (elim r [
      | ok u ↦ ok (
          server.join_path (server.url_path server.issuer ∷ "/approval" ∷ [])
          +++ "?req="
          +++ req.id)
      | err e ↦ err (wrap "failed to update auth request: " e)
    ])

  -- The case of the response type "code".
  unfoldable pub make_code : AuthRequest → CodeResponse → Handler CodeResponse
  make_code req c = do
    id ← new_id server
    t ← now server
    r ← call (server.storage.create_auth_code (new_code req id t))
    done ← or_refuse r (λ e. internal_error)
    refuse_if (req.redirect_uri == redirect_uri_oob) (oob_page id)
    pure (record c { code_id = id })

  -- The case of the response type "id_token".
  unfoldable pub make_id_token : AuthRequest → String → CodeResponse → Handler CodeResponse
  make_id_token req access_token c = do
    minted ← attempt (
        new_id_token server req.client_id req.claims req.scopes req.nonce access_token
          req.connector_id)
    token ← or_refuse minted failed
    pure (record c { implicit_or_hybrid = true; id_token = token.0; id_token_expiry = token.1 })

  unfoldable pub respond : AuthRequest → String → CodeResponse → String → Handler CodeResponse
  unfolding make_code make_id_token
  respond req access_token c response_type =
      if response_type == response_type_code
      then make_code req c
      else if response_type == response_type_token
      then pure (record c { implicit_or_hybrid = true })
      else if response_type == response_type_id_token
      then make_id_token req access_token c
      else pure c

  -- The loop over the response types.
  unfoldable pub respond_all :
      AuthRequest → String → CodeResponse → List String → Handler CodeResponse
  unfolding respond
  respond_all req access_token c [] = pure c
  respond_all req access_token c (response_type ∷ rest) = do
    c' ← respond req access_token c response_type
    respond_all req access_token c' rest

  abbrev code_value : CodeResponse → List (String × String)
  code_value c = if c.code_id == "" then [] else ("code", c.code_id) ∷ []

  abbrev expiring_values : CodeResponse → Handler (List (String × String))
  expiring_values c = do
    t ← now server
    pure (
        ("id_token", c.id_token)
        ∷ ("expires_in", server.itoa ((c.id_token_expiry - t) / second))
        ∷ [])

  -- The values of the ID token; how long it is valid is told if there is no code.
  unfoldable pub id_token_values : CodeResponse → Handler (List (String × String))
  id_token_values c =
      if c.id_token == ""
      then pure []
      else if c.code_id == ""
      then expiring_values c
      else pure (("id_token", c.id_token) ∷ [])

  abbrev send_fragment : AuthRequest → String → CodeResponse → Handler (Unit {0})
  send_fragment req access_token c = do
    values ← id_token_values c
    send (
        fragment_redirect req.redirect_uri (
          (("access_token", access_token)
            ∷ ("token_type", "bearer")
            ∷ ("state", req.state)
            ∷ values)
          ++ code_value c))

  -- The redirect at the end.
  unfoldable pub redirect_back : AuthRequest → String → CodeResponse → Handler (Unit {0})
  unfolding id_token_values
  redirect_back req access_token c =
      if c.implicit_or_hybrid
      then send_fragment req access_token c
      else send (query_redirect req.redirect_uri (("code", c.code_id) ∷ ("state", req.state) ∷ []))

  abbrev pub parsed : Option Url → Handler Url
  parsed none = refuse (rendered_error 500 "Invalid redirect URI.")
  parsed (some u) = pure u

  abbrev pub undeleted : Error → Reply
  undeleted not_found = rendered_error 400 "User session error."
  undeleted _ = internal_error

  unfoldable pub send_code_response : AuthRequest → Handler (Unit {0})
  unfolding respond_all redirect_back
  send_code_response req = do
    t ← now server
    refuse_if (ltb req.expiry t) (rendered_error 400 "User session has expired.")
    r ← call (server.storage.delete_auth_request req.id)
    done ← or_refuse r undeleted
    url ← parsed (server.parse_url req.redirect_uri)
    access_token ← new_id server
    c ← respond_all req access_token no_response req.response_types
    redirect_back req access_token c

  -- The approval page.
  unfoldable pub show_approval : AuthRequest → Handler (Unit {0})
  show_approval req = do
    found ← call (server.storage.get_client req.client_id)
    client ← or_refuse found (λ e. rendered_error 500 "Failed to retrieve client.")
    send (approval_page req.id req.claims.username client.name req.scopes)

  -- The switch over the method of the request.
  unfoldable pub decide_approval : String → String → AuthRequest → Handler (Unit {0})
  unfolding send_code_response show_approval
  decide_approval method approval req =
      if method == "GET"
      then (if server.skip_approval then send_code_response req else show_approval req)
      else if method == "POST"
      then if approval == "approve"
        then send_code_response req
        else refuse (rendered_error 500 "Approval rejected.")
      else pure tt

  unfoldable pub handle_approval : String → String → String → Handler (Unit {0})
  unfolding decide_approval
  handle_approval method request_id approval = do
    found ← call (server.storage.get_auth_request request_id)
    req ← or_refuse found (λ e. rendered_error 500 "Database error.")
    refuse_if (not req.logged_in) (rendered_error 500 "Login process not yet finalized.")
    decide_approval method approval req
