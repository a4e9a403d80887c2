-- ===== src/Server/OAuth2/AuthRequest/Sound.antt =====
-- server/oauth2.go: what an authorization request that parseAuthorizationRequest accepts has been
-- checked for.
use dex.Prelude.{
  ◌+◌, String, true, false, not, some, List, [], ◌∷◌, ◌≡◌, ◌≢◌, refl, subst, ◌∙◌, ◌⊎◌, inl, inr,
  All, arith, ok, Result-cases, Bool-cases, Option-cases, contains, ◌==◌, string_eq, eq_iff, length,
  nat_eq, ap,
}
use dex.Storage.{Client, AuthRequest}
use dex.Text.{fields}
use dex.Server.Action.{bind-next, next, continue, pure, halt_if, halt_if-next}
use dex.Server.World.{World, Server}
use dex.Server.OAuth2.{
  scope_openid, response_type_code, response_type_token, response_type_id_token, redirect_uri_oob,
  validate_redirect_uri,
}
use dex.Server.OAuth2.AuthRequest.{
  AuthErr, AuthForm, ResponseTypes, check_response_types, check_flow, check_client, check_scopes,
  check_scope_list, new_request, parse_unescaped, parse_authorization_request,
}
use dex.Server.OAuth2.AuthRequest.Scopes.{QuietClients, Allowed, check_scopes-Sound}
use dex.Server.OAuth2.AuthRequest.Responses.{
  Flags, Known, no_types, some-Known, check_response_types-Flags,
}

module _ {S : Type 0} (server : Server S) where
  new_id-next :
      (f : String → AuthRequest) (req : AuthRequest) (w w' : World S)
      → continue {W = World S} {E = AuthErr}
          (next (server.id_source w.drawn))
          (λ id. pure (f id))
          (record w { drawn = w.drawn + 1 })
        ≡ (next req, w')
      → f (server.id_source w.drawn) ≡ req
  new_id-next f req w w' h = ground arith

  -- What an accepted request has been checked for, in the state of the storage before.
  pub record IsChecked (s : S) (q : AuthForm) (req : AuthRequest) : Type 0 where
    pub client : Client
    pub found : (server.storage.get_client q.client_id s).0 ≡ ok client
    pub client_id : req.client_id ≡ client.id
    pub unescaped : server.query_unescape q.redirect_uri ≡ some req.redirect_uri
    pub registered : validate_redirect_uri server client req.redirect_uri ≡ true
    pub openid : contains req.scopes scope_openid ≡ true
    pub allowed : All (Allowed server s q.client_id) req.scopes
    pub some_type : req.response_types ≢ []
    pub supported :
        All (λ t. (contains server.supported_response_types t ≡ true) × Known t) req.response_types
    pub not_only_token :
        (contains req.response_types response_type_code ≡ true)
        ⊎ (contains req.response_types response_type_id_token ≡ true)
    pub nonce : contains req.response_types response_type_code ≡ false → req.nonce ≢ ""
    pub not_oob :
        contains req.response_types response_type_token ≡ true → req.redirect_uri ≢ redirect_uri_oob
    pub not_logged_in : req.logged_in ≡ false

  check_flow-next :
      (q : AuthForm) (uri : String) (types : List String) (rt : ResponseTypes) (w w' : World S)
      (u : Unit {0})
      → check_flow server q uri types rt w ≡ (next u, w')
      → (w' ≡ w)
        × (types ≢ [])
        × (rt.token ≡ true → rt.code ≡ false → rt.id_token ≡ true)
        × (rt.code ≡ false → q.nonce ≢ "")
        × (rt.token ≡ true → uri ≢ redirect_uri_oob)
  unfolding check_flow
  check_flow-next q uri [] rt w w' u h = cc
  check_flow-next q uri (t ∷ types) rt w w' u h = (
    ground arith,
    (λ e. cc),
    (λ a b. ground arith),
    (λ a b. ground (arith, eq_iff q.nonce "")),
    (λ a b. ground (arith, eq_iff uri redirect_uri_oob)),
  )

  pub check_client-next :
      (q : AuthForm) (uri : String) (w w' : World S) (client : Client)
      → check_client server q uri w ≡ (next client, w')
      → ((server.storage.get_client q.client_id w.store).0 ≡ ok client)
        × (validate_redirect_uri server client uri ≡ true)
        × (w'.store ≡ (server.storage.get_client q.client_id w.store).1)
  unfolding check_client
  check_client-next q uri w w' client h =
      elim (Result-cases (server.storage.get_client q.client_id w.store).0) [
        | inl (c, e) ↦ elim (Bool-cases (validate_redirect_uri server c uri)) [
          | inl v ↦ (ground (arith, e, v), ground (arith, e, v), ground (arith, e, v))
          | inr v ↦ ground (arith, e, v)
        ]
        | inr (x, e) ↦ ground (arith, e)
      ]

  length_zero_nil : (xs : List String) → not (length xs == 0) ≡ false → xs ≡ []
  length_zero_nil [] h = refl
  length_zero_nil (x ∷ xs) h = ground arith

  module _ (quiet : QuietClients server) where
    check_scope_list-next :
        (q : AuthForm) (uri : String) (w w' : World S) (u : Unit {0})
        → check_scope_list server q uri w ≡ (next u, w')
        → (w'.store ≡ w.store)
          × (contains (fields q.scope) scope_openid ≡ true)
          × All (Allowed server w.store q.client_id) (fields q.scope)
    unfolding check_scope_list
    check_scope_list-next q uri w w' u h =
        let (c, v, e, k) = bind-next (check_scopes server _ q.client_id _ (fields q.scope)) _ w h in
        let (u₁, v₁, e₁, k₁) = bind-next (halt_if (not c.has_openid_scope) _) _ v k in
        let (u₂, v₂, e₂, k₂) = bind-next (halt_if (not (length c.unrecognized == 0)) _) _ v₁ k₁ in
        let (a₁, b₁) = halt_if-next (not c.has_openid_scope) _ v e₁ in
        let (a₂, b₂) = halt_if-next (not (length c.unrecognized == 0)) _ v₁ e₂ in
        let (a₃, b₃) = halt_if-next (not (length c.invalid_scopes == 0)) _ v₂ k₂ in
        let (store, openid, allowed) =
          check_scopes-Sound server quiet _ q.client_id _ c (fields q.scope) w v e in
        (
          ap (λ (x : World S). x.store) (b₃ ∙ b₂ ∙ b₁) ∙ store,
          elim (openid (ground arith)) [ inl m ↦ m | inr m ↦ cc ],
          (allowed (length_zero_nil c.unrecognized a₂) (length_zero_nil c.invalid_scopes a₃)).0,
        )

    assembled :
        (q : AuthForm) (uri : String) (client : Client) (rt : ResponseTypes) (s : S) (id : String)
        → server.query_unescape q.redirect_uri ≡ some uri
        → (server.storage.get_client q.client_id s).0 ≡ ok client
        → validate_redirect_uri server client uri ≡ true
        → contains (fields q.scope) scope_openid ≡ true
        → All (Allowed server s q.client_id) (fields q.scope)
        → Flags no_types (fields q.response_type) rt
        → All
            (λ t. (contains server.supported_response_types t ≡ true) × Known t)
            (fields q.response_type)
        → fields q.response_type ≢ []
        → (rt.token ≡ true → rt.code ≡ false → rt.id_token ≡ true)
        → (rt.code ≡ false → q.nonce ≢ "")
        → (rt.token ≡ true → uri ≢ redirect_uri_oob)
        → IsChecked s q (new_request q uri client id)
    unfolding new_request
    assembled q uri client rt s id e found valid openid allowed flags supported some_type only nonce
          oob =
        record {
          client = client;
          found = found;
          client_id = refl;
          unescaped = e;
          registered = valid;
          openid = openid;
          allowed = allowed;
          some_type = some_type;
          supported = supported;
          not_only_token =
              elim (some-Known (λ t. contains server.supported_response_types t ≡ true)
                (fields q.response_type) some_type supported) [
                  | inl c ↦ inl c
                  | inr (inl i) ↦ inr i
                  | inr (inr t) ↦ ground (arith, only)
                ];
          nonce = λ c. nonce (flags.0 ∙ c);
          not_oob = λ t. oob (flags.2 ∙ t);
          not_logged_in = refl;
        }

    accepted :
        (q : AuthForm) (req : AuthRequest) (w w' : World S) (uri : String)
        → server.query_unescape q.redirect_uri ≡ some uri
        → parse_unescaped server q uri w ≡ (next req, w')
        → IsChecked w.store q req
    unfolding parse_unescaped
    accepted q req w w' uri e h =
        let types = fields q.response_type in
        let (client, w₁, e₁, k₁) = bind-next (check_client server q uri) _ w h in
        let (u₂, w₂, e₂, k₂) = bind-next (check_scope_list server q uri) _ w₁ k₁ in
        let (rt, w₃, e₃, k₃) = bind-next (check_response_types server q uri _ types) _ w₂ k₂ in
        let (u₄, w₄, e₄, k₄) = bind-next (check_flow server q uri types rt) _ w₃ k₃ in
        let (found, valid, s₁) = check_client-next q uri w w₁ client e₁ in
        let (s₂, openid, allowed) = check_scope_list-next q uri w₁ w₂ u₂ e₂ in
        let (s₃, flags, supported) = check_response_types-Flags server q uri _ rt types w₂ w₃ e₃ in
        let (s₄, some_type, only, nonce, oob) = check_flow-next q uri types rt w₃ w₄ u₄ e₄ in
        subst (IsChecked w.store q) (new_id-next (new_request q uri client) req w₄ w' k₄) (
          assembled q uri client rt w.store (server.id_source w₄.drawn) e found valid openid
            (subst (λ t. All (Allowed server t q.client_id) (fields q.scope))
              (s₁ ∙ quiet q.client_id w.store) allowed)
            flags supported some_type only nonce oob)

    -- If reading a client leaves the storage as it is, a request that parseAuthorizationRequest accepts names a stored client, carries the unescaped
    -- redirect URI, which is valid for that client, asks for the scope "openid" and only for known
    -- scopes and those of peers that trust the client, has supported response types that are not
    -- "token" alone, a nonce unless "code" is among them, no out-of-band redirect with "token", and
    -- is not logged in.
    pub parse_authorization_request-IsChecked :
        (q : AuthForm) (req : AuthRequest) (w w' : World S)
        → parse_authorization_request server (some q) w ≡ (next req, w')
        → IsChecked w.store q req
    unfolding parse_authorization_request
    parse_authorization_request-IsChecked q req w w' h =
        elim (Option-cases (server.query_unescape q.redirect_uri)) [
          | inl e ↦ cc (rw (e, parse_authorization_request) at h)
          | inr (uri, e) ↦ accepted q req w w' uri e (rw (e, parse_authorization_request) at h)
        ]
