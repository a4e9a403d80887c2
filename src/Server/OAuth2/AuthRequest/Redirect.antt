-- ===== src/Server/OAuth2/AuthRequest/Redirect.antt =====
-- server/oauth2.go: an error of parseAuthorizationRequest goes back by a redirect only to a redirect
-- URI that is valid for a stored client.
use dex.Prelude.{
  String, true, false, Option, some, List, [], ◌∷◌, ◌≡◌, ◌⊎◌, inl, inr, refl, ok, arith, contains,
  string_eq, nat_eq, Bool-cases, Option-cases, sym, ◌∙◌, ap, subst,
}
use dex.Text.{fields}
use dex.Storage.{Client, AuthRequest}
use dex.Server.Action.{Action, Flow, next, stop, continue, ◌>>=◌, ◌>>◌, pure}
use dex.Server.World.{World, Server, new_id}
use dex.Server.OAuth2.{validate_redirect_uri, validate_cross_client_trust, parse_cross_client_scope}
use dex.Server.OAuth2.AuthRequest.{
  AuthErr, AuthForm, ScopeCheck, ResponseTypes, check_peer, check_scope, check_scopes,
  check_response_types, check_flow, check_client, check_scope_list, parse_unescaped,
  parse_authorization_request, add_response_type, new_request,
}
use dex.Server.OAuth2.AuthRequest.Sound.{check_client-next}

module _ {S A : Type 0} where
  abbrev Stops : (AuthErr → Type 0) → Flow AuthErr A × World S → Type 0
  Stops Q (next a, w) = Unit
  Stops Q (stop e, w) = Q e

  -- Where an action stops, its error has a property.
  record Fails (Q : AuthErr → Type 0) (m : Action (World S) AuthErr A) : Type 0 where
    pub at : (w : World S) → Stops Q (m w)

module _ {S A B : Type 0} {Q : AuthErr → Type 0} where
  continue-Fails :
      (f : A → Action (World S) AuthErr B)
      → ((a : A) → Fails Q (f a))
      → (p : Flow AuthErr A × World S) → Stops Q p
      → Stops Q (continue p.0 f p.1)
  continue-Fails f k (next a, w) h = (k a).at w
  continue-Fails f k (stop e, w) h = h

  Fails-bind :
      {m : Action (World S) AuthErr A} {f : A → Action (World S) AuthErr B}
      → Fails Q m
      → ((a : A) → Fails Q (f a))
      → Fails Q (m >>= f)
  Fails-bind {m} {f} j k = record { at = λ w. continue-Fails f k (m w) (j.at w) }

module _ {S : Type 0} (server : Server S) (uri : String) where
  -- Errors that go back to a redirect URI.
  abbrev Back : AuthErr → Type 0
  Back e = e.redirect_uri ≡ uri

  check_peer-Back :
      (failure : AuthErr) (client_id scope : String) (c : ScopeCheck) (peer : Option String)
      → Back failure
      → Fails Back (check_peer server failure client_id c scope peer)
  unfolding check_peer validate_cross_client_trust
  check_peer-Back failure client_id scope c peer back = record { at = λ w. ground arith }

  check_scope-Back :
      (failure : AuthErr) (client_id scope : String) (c : ScopeCheck)
      → Back failure
      → Fails Back (check_scope server failure client_id c scope)
  unfolding check_scope
  check_scope-Back failure client_id scope c back = record {
    at = λ w.
        let peer = parse_cross_client_scope scope in
        ground (arith, (check_peer-Back failure client_id scope c peer back).at w);
  }

  check_scopes-Back :
      (failure : AuthErr) (client_id : String) (c : ScopeCheck) (scopes : List String)
      → Back failure
      → Fails Back (check_scopes server failure client_id c scopes)
  unfolding check_scopes
  check_scopes-Back failure client_id c [] back = record { at = λ w. tt }
  check_scopes-Back failure client_id c (scope ∷ scopes) back =
      Fails-bind (check_scope-Back failure client_id scope c back)
        λ c'. check_scopes-Back failure client_id c' scopes back

  check_scope_list-Back : (q : AuthForm) → Fails Back (check_scope_list server q uri)
  unfolding check_scope_list
  check_scope_list-Back q =
      Fails-bind (check_scopes-Back _ q.client_id _ (fields q.scope) refl)
        λ c. record { at = λ w. ground arith }

  check_response_types-Back :
      (q : AuthForm) (rt : ResponseTypes) (types : List String)
      → Fails Back (check_response_types server q uri rt types)
  unfolding check_response_types
  check_response_types-Back q rt [] = record { at = λ w. tt }
  check_response_types-Back q rt (t ∷ types) = record {
    at = λ w. elim (Option-cases (add_response_type rt t)) [
      | inl e ↦ rw (e, check_response_types) refl
      | inr (rt', e) ↦ elim (Bool-cases (contains server.supported_response_types t)) [
        | inl s ↦ rw (e, s, check_response_types) ((check_response_types-Back q rt' types).at w)
        | inr s ↦ rw (e, s, check_response_types) refl
      ]
    ];
  }

  check_flow-Back :
      (q : AuthForm) (types : List String) (rt : ResponseTypes)
      → Fails Back (check_flow server q uri types rt)
  unfolding check_flow
  check_flow-Back q types rt = record { at = λ w. ground arith }

  -- What follows the check of the client.
  abbrev checked : AuthForm → Client → Action (World S) AuthErr AuthRequest
  checked q client = do
    check_scope_list server q uri
    rt ←
        check_response_types server q uri (record { code = false; id_token = false; token = false })
          (fields q.response_type)
    check_flow server q uri (fields q.response_type) rt
    id ← new_id server
    pure (new_request q uri client id)

  checked-Back : (q : AuthForm) (client : Client) → Fails Back (checked q client)
  checked-Back q client = Fails-bind (check_scope_list-Back q) λ u.
      Fails-bind (check_response_types-Back q _ (fields q.response_type)) λ rt.
        Fails-bind (check_flow-Back q (fields q.response_type) rt) λ v. record { at = λ w. tt }

  check_client-Plain : (q : AuthForm) → Fails (λ e. e.redirect_uri ≡ "") (check_client server q uri)
  unfolding check_client
  check_client-Plain q = record { at = λ w. ground arith }

-- An error that goes back to no URI, or to one that is valid for the client of the request.
abbrev pub IsSafe : {S : Type 0} → Server S → S → AuthForm → AuthErr → Type 0
IsSafe server s q e =
    (e.redirect_uri ≡ "")
    ⊎ ((server.query_unescape q.redirect_uri ≡ some e.redirect_uri)
        × (client : Client) × ((server.storage.get_client q.client_id s).0 ≡ ok client)
        × (validate_redirect_uri server client e.redirect_uri ≡ true))

weaken-Stops :
    {S A : Type 0} (Q R : AuthErr → Type 0) (p : Flow AuthErr A × World S)
    → ((e : AuthErr) → Q e → R e)
    → Stops Q p
    → Stops R p
weaken-Stops Q R (next a, w) k h = tt
weaken-Stops Q R (stop e, w) k h = k e h

module _ {S : Type 0} (server : Server S) (q : AuthForm) (w : World S) where
  unescaped-IsSafe :
      (uri : String)
      → server.query_unescape q.redirect_uri ≡ some uri
      → Stops (IsSafe server w.store q) (parse_unescaped server q uri w)
  unfolding parse_unescaped
  unescaped-IsSafe uri u = bound (check_client server q uri w) refl
    where
      bound :
          (p : Flow AuthErr Client × World S)
          → check_client server q uri w ≡ p
          → Stops (IsSafe server w.store q) (continue p.0 (checked server uri q) p.1)
      bound (stop e, v) h =
          inl (subst (Stops (λ x. x.redirect_uri ≡ "")) h ((check_client-Plain server uri q).at w))
      bound (next client, v) h =
          let (found, valid, s) = check_client-next server q uri w v client h in
          weaken-Stops (Back server uri) (IsSafe server w.store q) (checked server uri q client v)
            (λ e b. inr (
              u ∙ ap some (sym b),
              client,
              found,
              subst (λ x. validate_redirect_uri server client x ≡ true) (sym b) valid,
            ))
            ((checked-Back server uri q client).at v)

  pub parse_authorization_request-IsSafe :
      (e : AuthErr) (w' : World S)
      → parse_authorization_request server (some q) w ≡ (stop e, w')
      → IsSafe server w.store q e
  unfolding parse_authorization_request
  parse_authorization_request-IsSafe e w' h =
      elim (Option-cases (server.query_unescape q.redirect_uri)) [
        | inl u ↦ inl (cc (rw (u, parse_authorization_request) at h))
        | inr (uri, u) ↦
            subst (Stops (IsSafe server w.store q)) (rw (u, parse_authorization_request) at h)
              (unescaped-IsSafe uri u)
      ]
