-- ===== src/Server/OAuth2/AuthRequest.antt =====
-- server/oauth2.go: parseAuthorizationRequest.
pub mod Scopes
pub mod Responses
pub mod Sound
pub mod Kept
pub mod Redirect
use Prim.Native.String.{◌++◌ as ◌+++◌}
use dex.Prelude.{
  String, Bool, true, false, not, ◌&&◌, Option, some, none, List, [], ◌∷◌, ◌++◌, if◌then◌else◌,
  ◌==◌, string_eq, Error, not_found, Result, ok, err, contains, length, nat_eq,
}
use dex.Text.{fields}
use dex.Storage.{Client, AuthRequest, Claims}
use dex.Server.Action.{Action, ◌>>=◌, ◌>>◌, pure, halt, or_halt, halt_if}
use dex.Server.World.{World, Server, call, new_id}
use dex.Server.OAuth2.{
  err_invalid_request, err_unauthorized_client, err_server_error, err_invalid_scope,
  err_unsupported_response_type, scope_openid, scope_offline_access, scope_email, scope_profile,
  scope_groups, scope_federated_id, parse_cross_client_scope, validate_cross_client_trust,
  validate_redirect_uri, response_type_code, response_type_id_token, response_type_token,
  redirect_uri_oob,
}

-- `authErr`
pub record AuthErr : Type 0 where
  pub state : String
  pub redirect_uri : String
  pub type : String
  pub description : String

-- The form values that the request carries; `none` if the form does not parse.
pub record AuthForm : Type 0 where
  pub redirect_uri : String
  pub client_id : String
  pub state : String
  pub nonce : String
  pub scope : String
  pub response_type : String
  pub approval_prompt : String

-- The variables of the loop over the scopes.
pub record ScopeCheck : Type 0 where
  pub has_openid_scope : Bool
  pub unrecognized : List String
  pub invalid_scopes : List String

-- The scopes of the case that does nothing.
unfoldable pub is_known_scope : String → Bool
is_known_scope scope =
    contains
      (scope_offline_access ∷ scope_email ∷ scope_profile ∷ scope_groups ∷ scope_federated_id ∷ [])
      scope

-- `rt`
pub record ResponseTypes : Type 0 where
  pub code : Bool
  pub id_token : Bool
  pub token : Bool

-- The switch over one response type; `none` is its default case.
unfoldable pub add_response_type : ResponseTypes → String → Option ResponseTypes
add_response_type rt response_type =
    if response_type == response_type_code
    then some (record rt { code = true })
    else if response_type == response_type_id_token
    then some (record rt { id_token = true })
    else if response_type == response_type_token
    then some (record rt { token = true })
    else none

abbrev pub no_claims : Claims
no_claims = record { user_id = ""; username = ""; email = ""; email_verified = false; groups = [] }

-- The request that is returned at the end.
unfoldable pub new_request : AuthForm → String → Client → String → AuthRequest
new_request q redirect_uri client id = record {
  id = id;
  client_id = client.id;
  response_types = fields q.response_type;
  scopes = fields q.scope;
  redirect_uri = redirect_uri;
  nonce = q.nonce;
  state = q.state;
  force_approval_prompt = q.approval_prompt == "force";
  expiry = 0;
  logged_in = false;
  claims = no_claims;
  connector_id = "";
  connector_data = [];
}

module _ {S : Type 0} (server : Server S) where
  -- newErr: an error that goes back to the client by a redirect.
  abbrev new_err : AuthForm → String → String → String → AuthErr
  new_err q redirect_uri type description = record {
    state = q.state;
    redirect_uri = redirect_uri;
    type = type;
    description = description;
  }

  -- An error before the redirect URI is known to be valid.
  abbrev plain_err : String → String → AuthErr
  plain_err type description = record {
    state = "";
    redirect_uri = "";
    type = type;
    description = description;
  }

  -- What the loop makes of a scope that names a peer, or of an unknown one.
  unfoldable pub check_peer :
      AuthErr → String → ScopeCheck → String → Option String → Action (World S) AuthErr ScopeCheck
  check_peer failure client_id c scope none =
      pure (record c { unrecognized = c.unrecognized ++ (scope ∷ []) })
  check_peer failure client_id c scope (some peer_id) = do
    trust ← validate_cross_client_trust server client_id peer_id
    trusted ← or_halt trust (λ _. failure)
    pure (if trusted then c else record c { invalid_scopes = c.invalid_scopes ++ (scope ∷ []) })

  unfoldable pub check_scope :
      AuthErr → String → ScopeCheck → String → Action (World S) AuthErr ScopeCheck
  unfolding check_peer is_known_scope
  check_scope failure client_id c scope =
      if scope == scope_openid
      then pure (record c { has_openid_scope = true })
      else if is_known_scope scope
      then pure c
      else check_peer failure client_id c scope (parse_cross_client_scope scope)

  unfoldable pub check_scopes :
      AuthErr → String → ScopeCheck → List String → Action (World S) AuthErr ScopeCheck
  unfolding check_scope
  check_scopes failure client_id c [] = pure c
  check_scopes failure client_id c (scope ∷ scopes) = do
    c' ← check_scope failure client_id c scope
    check_scopes failure client_id c' scopes

  -- The loop over the response types.
  unfoldable pub check_response_types :
      AuthForm → String → ResponseTypes → List String → Action (World S) AuthErr ResponseTypes
  unfolding add_response_type
  check_response_types q redirect_uri rt [] = pure rt
  check_response_types q redirect_uri rt (response_type ∷ rest) =
      elim (add_response_type rt response_type) [
        | none ↦ halt (
            new_err q redirect_uri "invalid_request"
              ("Invalid response type " +++ server.quote response_type))
        | some rt' ↦
            if contains server.supported_response_types response_type
            then check_response_types q redirect_uri rt' rest
            else halt (
                new_err q redirect_uri err_unsupported_response_type
                  ("Unsupported response type " +++ server.quote response_type))
      ]

  -- The guards behind the loop.
  unfoldable pub check_flow :
      AuthForm → String → List String → ResponseTypes → Action (World S) AuthErr (Unit {0})
  check_flow q redirect_uri response_types rt = do
    halt_if (length response_types == 0)
        (new_err q redirect_uri "invalid_requests" "No response_type provided")
    halt_if (rt.token && not rt.code && not rt.id_token) (
        new_err q redirect_uri "invalid_request"
          "Response type 'token' must be provided with type 'id_token' and/or 'code'")
    halt_if (not rt.code && q.nonce == "")
        (new_err q redirect_uri "invalid_request" "Response type 'token' requires a 'nonce' value.")
    halt_if (rt.token && redirect_uri == redirect_uri_oob) (
        new_err q redirect_uri "invalid_request"
          ("Cannot use response type 'token' with redirect_uri '" +++ redirect_uri_oob +++ "'."))

  -- The client and the redirect URI, before any error may go back by a redirect.
  unfoldable pub check_client : AuthForm → String → Action (World S) AuthErr Client
  check_client q redirect_uri = do
    found ← call (server.storage.get_client q.client_id)
    client ← or_halt found (λ e. elim e [
      | not_found ↦
          plain_err err_unauthorized_client
            ("Invalid client_id (" +++ server.quote q.client_id +++ ").")
      | _ ↦ plain_err err_server_error ""
    ])
    halt_if (not (validate_redirect_uri server client redirect_uri)) (
        plain_err err_invalid_request
          ("Unregistered redirect_uri (" +++ server.quote redirect_uri +++ ")."))
    pure client

  unfoldable pub check_scope_list : AuthForm → String → Action (World S) AuthErr (Unit {0})
  check_scope_list q redirect_uri = do
    c ←
        check_scopes (new_err q redirect_uri err_server_error "Internal server error.") q.client_id
          (record { has_openid_scope = false; unrecognized = []; invalid_scopes = [] })
          (fields q.scope)
    halt_if (not c.has_openid_scope)
        (new_err q redirect_uri "invalid_scope" "Missing required scope(s) [\"openid\"].")
    halt_if (not (length c.unrecognized == 0)) (
        new_err q redirect_uri "invalid_scope"
          ("Unrecognized scope(s) " +++ server.quote_list c.unrecognized))
    halt_if (not (length c.invalid_scopes == 0)) (
        new_err q redirect_uri "invalid_scope"
          ("Client can't request scope(s) " +++ server.quote_list c.invalid_scopes))

  -- What follows when the redirect URI is unescaped.
  unfoldable pub parse_unescaped : AuthForm → String → Action (World S) AuthErr AuthRequest
  parse_unescaped q redirect_uri = do
    client ← check_client q redirect_uri
    check_scope_list q redirect_uri
    rt ←
        check_response_types q redirect_uri
          (record { code = false; id_token = false; token = false }) (fields q.response_type)
    check_flow q redirect_uri (fields q.response_type) rt
    id ← new_id server
    pure (new_request q redirect_uri client id)

  unfoldable pub parse_authorization_request :
      Option AuthForm → Action (World S) AuthErr AuthRequest
  parse_authorization_request none =
      halt (plain_err err_invalid_request "Failed to parse request body.")
  parse_authorization_request (some q) = elim (server.query_unescape q.redirect_uri) [
    | none ↦ halt (plain_err err_invalid_request "No redirect_uri provided.")
    | some redirect_uri ↦ parse_unescaped q redirect_uri
  ]
