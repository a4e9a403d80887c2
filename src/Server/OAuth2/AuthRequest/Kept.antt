-- ===== src/Server/OAuth2/AuthRequest/Kept.antt =====
-- server/oauth2.go: parseAuthorizationRequest keeps whatever reading a client keeps, and what it
-- returns is not logged in.
use dex.Prelude.{
  String, true, false, Option, some, none, List, [], ◌∷◌, ok, ◌≡◌, refl, ◌==◌, string_eq, nat_eq,
  contains, arith,
}
use dex.Text.{fields}
use dex.Server.Action.{Action}
use dex.Server.World.{World, Server}
use dex.Server.OAuth2.{
  validate_cross_client_trust, scope_openid, parse_cross_client_scope, trust_of,
}
use dex.Server.OAuth2.AuthRequest.{
  AuthErr, AuthForm, ScopeCheck, ResponseTypes, is_known_scope, check_peer, check_scope,
  check_scopes, check_response_types, check_flow, check_client, check_scope_list, parse_unescaped,
  parse_authorization_request, new_request, add_response_type,
}
use dex.Server.Ensures.{
  Property, Ensures, Any, Calls, Ensures-pure, Ensures-halt, Ensures-call, Ensures-new_id,
  Ensures-bind, Ensures-option, Ensures-if,
}

module _ {S : Type 0} (server : Server S) (P : Property S)
    (get_client : (id : String) → Calls P (server.storage.get_client id) Any) where
  abbrev Kept : {E A : Type 0} → Action (World S) E A → Type 0
  Kept m = Ensures P m Any

  check_client-Kept : (q : AuthForm) (uri : String) → Kept (check_client server q uri)
  unfolding check_client
  check_client-Kept q uri = record {
    at = λ w h. let k = (get_client q.client_id).at w.store w.connectors h in ground (arith, k.0);
  }

  pub validate_cross_client_trust-Kept :
      {E : Type 0} (client_id peer_id : String)
      → Kept (validate_cross_client_trust server {E = E} client_id peer_id)
  unfolding validate_cross_client_trust
  validate_cross_client_trust-Kept client_id peer_id =
      Ensures-if (peer_id == client_id) (Ensures-pure (ok true) tt) (
        Ensures-bind (Ensures-call (get_client peer_id))
          λ peer u. Ensures-pure (trust_of peer client_id) tt)

  check_peer-Kept :
      (failure : AuthErr) (client_id scope : String) (c : ScopeCheck) (peer : Option String)
      → Kept (check_peer server failure client_id c scope peer)
  unfolding check_peer
  check_peer-Kept failure client_id scope c none = record { at = λ w h. (h, tt) }
  check_peer-Kept failure client_id scope c (some peer_id) =
      Ensures-bind (validate_cross_client_trust-Kept client_id peer_id)
        λ trust u. record { at = λ w h. ground arith }

  check_scope-Kept :
      (failure : AuthErr) (client_id scope : String) (c : ScopeCheck)
      → Kept (check_scope server failure client_id c scope)
  unfolding check_scope
  check_scope-Kept failure client_id scope c =
      Ensures-if (scope == scope_openid) (Ensures-pure (record c { has_openid_scope = true }) tt) (
        Ensures-if (is_known_scope scope) (Ensures-pure c tt)
          (check_peer-Kept failure client_id scope c (parse_cross_client_scope scope)))

  check_scopes-Kept :
      (failure : AuthErr) (client_id : String) (c : ScopeCheck) (scopes : List String)
      → Kept (check_scopes server failure client_id c scopes)
  unfolding check_scopes
  check_scopes-Kept failure client_id c [] = Ensures-pure c tt
  check_scopes-Kept failure client_id c (scope ∷ scopes) =
      Ensures-bind (check_scope-Kept failure client_id scope c)
        λ c' u. check_scopes-Kept failure client_id c' scopes

  check_scope_list-Kept : (q : AuthForm) (uri : String) → Kept (check_scope_list server q uri)
  unfolding check_scope_list
  check_scope_list-Kept q uri =
      Ensures-bind (check_scopes-Kept _ q.client_id _ (fields q.scope))
        λ c u. record { at = λ w h. ground arith }

  check_response_types-Kept :
      (q : AuthForm) (uri : String) (rt : ResponseTypes) (types : List String)
      → Kept (check_response_types server q uri rt types)
  unfolding check_response_types
  check_response_types-Kept q uri rt [] = Ensures-pure rt tt
  check_response_types-Kept q uri rt (t ∷ types) =
      Ensures-option (add_response_type rt t)
        (λ rt' e.
          Ensures-if (contains server.supported_response_types t)
            (check_response_types-Kept q uri rt' types) (Ensures-halt _))
        (Ensures-halt _)

  check_flow-Kept :
      (q : AuthForm) (uri : String) (types : List String) (rt : ResponseTypes)
      → Kept (check_flow server q uri types rt)
  unfolding check_flow
  check_flow-Kept q uri types rt = record { at = λ w h. ground arith }

  parse_unescaped-Kept :
      (q : AuthForm) (uri : String)
      → Ensures P (parse_unescaped server q uri) (λ req. req.logged_in ≡ false)
  unfolding parse_unescaped new_request
  parse_unescaped-Kept q uri = Ensures-bind (check_client-Kept q uri) λ client u.
      Ensures-bind (check_scope_list-Kept q uri) λ v e.
        Ensures-bind (check_response_types-Kept q uri _ (fields q.response_type)) λ rt e'.
          Ensures-bind (check_flow-Kept q uri (fields q.response_type) rt) λ w e''.
            Ensures-bind (Ensures-new_id server)
              λ id e'''. Ensures-pure (new_request q uri client id) refl

  pub parse_authorization_request-Kept :
      (form : Option AuthForm)
      → Ensures P (parse_authorization_request server form) (λ req. req.logged_in ≡ false)
  unfolding parse_authorization_request
  parse_authorization_request-Kept none = Ensures-halt _
  parse_authorization_request-Kept (some q) =
      Ensures-option (server.query_unescape q.redirect_uri) (λ uri e. parse_unescaped-Kept q uri)
        (Ensures-halt _)
