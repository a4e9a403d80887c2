-- ===== src/Server/OAuth2/AuthRequest/Scopes.antt =====
-- server/oauth2.go, parseAuthorizationRequest: the loop over the scopes.
use dex.Prelude.{
  String, Bool, true, false, Option, some, none, List, [], ◌∷◌, ◌++◌, ◌≡◌, refl, sym, subst, ◌∙◌,
  ◌⊎◌, inl, inr, All, arith, ok, err, snoc_ne_nil, Bool-cases, contains, ◌==◌, string_eq, eq_iff,
  not_found, if◌then◌else◌, Result,
}
use dex.Storage.{Client}
use dex.Server.Action.{bind-next, next, continue, or_halt, pure}
use dex.Server.World.{World, Server}
use dex.Server.OAuth2.{
  scope_openid, parse_cross_client_scope, validate_cross_client_trust, trust_of,
}
use dex.Server.OAuth2.AuthRequest.{
  AuthErr, ScopeCheck, is_known_scope, check_peer, check_scope, check_scopes,
}

-- Reading a client leaves the storage as it was.
abbrev pub QuietClients : {S : Type 0} → Server S → Type 0
QuietClients {S} server = (id : String) (s : S) → (server.storage.get_client id s).1 ≡ s

module _ {S : Type 0} (server : Server S) where
  -- A peer trusts a client: it is the client itself, or a stored client that names it.
  abbrev pub Trusts : S → String → String → Type 0
  Trusts s client_id peer_id =
      (peer_id ≡ client_id)
      ⊎ ((peer : Client) × ((server.storage.get_client peer_id s).0 ≡ ok peer)
          × (contains peer.trusted_peers client_id ≡ true))

  -- The scopes that a client may ask for.
  abbrev pub Allowed : S → String → String → Type 0
  Allowed s client_id scope =
      (scope ≡ scope_openid)
      ⊎ ((is_known_scope scope ≡ true)
          ⊎ ((peer_id : String) × (parse_cross_client_scope scope ≡ some peer_id)
              × Trusts s client_id peer_id))

  trust_of-Trusts :
      (s : S) (client_id peer_id : String) (r : Result Client)
      → (server.storage.get_client peer_id s).0 ≡ r
      → trust_of r client_id ≡ ok true
      → Trusts s client_id peer_id
  unfolding trust_of
  trust_of-Trusts s client_id peer_id (ok peer) e h = inr (peer, e, ground (arith, h))
  trust_of-Trusts s client_id peer_id (err not_found) e h = cc
  trust_of-Trusts s client_id peer_id (err x) e h = cc

  module _ (quiet : QuietClients server) where
    pub validate_cross_client_trust-Trusts :
        {E : Type 0} (client_id peer_id : String) (w w' : World S) (r : Result Bool)
        → validate_cross_client_trust server {E = E} client_id peer_id w ≡ (next r, w')
        → (w'.store ≡ w.store) × (r ≡ ok true → Trusts w.store client_id peer_id)
    unfolding validate_cross_client_trust
    validate_cross_client_trust-Trusts client_id peer_id w w' r h =
        elim (Bool-cases (peer_id == client_id)) [
          | inl e ↦ (ground (arith, e), λ p. inl ((eq_iff peer_id client_id).0 e))
          | inr e ↦ (
            ground (arith, e, quiet peer_id w.store),
            λ p.
                trust_of-Trusts w.store client_id peer_id
                  (server.storage.get_client peer_id w.store).0 refl (ground (arith, e, p)),
          )
        ]

    -- What one round of the loop says of its scope.
    abbrev Sound : World S → String → ScopeCheck → ScopeCheck → String → World S → Type 0
    Sound w client_id c c' scope w' =
        (w'.store ≡ w.store)
        × (c'.has_openid_scope ≡ true → (scope ≡ scope_openid) ⊎ (c.has_openid_scope ≡ true))
        × (c'.unrecognized ≡ []
            → c'.invalid_scopes ≡ []
            → Allowed w.store client_id scope × (c.unrecognized ≡ []) × (c.invalid_scopes ≡ []))

    after_trust-Sound :
        (failure : AuthErr) (client_id : String) (c c' : ScopeCheck) (scope peer_id : String)
        (w v w' : World S) (r : Result Bool)
        → parse_cross_client_scope scope ≡ some peer_id
        → v.store ≡ w.store
        → (r ≡ ok true → Trusts w.store client_id peer_id)
        → continue
            (or_halt r (λ _. failure) v).0
            (λ trusted.
              pure (
                if trusted
                then c
                else record c { invalid_scopes = c.invalid_scopes ++ scope ∷ [] }))
            (or_halt r (λ _. failure) v).1
          ≡ (next c', w')
        → Sound w client_id c c' scope w'
    after_trust-Sound failure client_id c c' scope peer_id w v w' (ok true) p store trusts h = (
      ground arith,
      (λ o. inr (ground arith)),
      (λ u i. (inr (inr (peer_id, p, trusts refl)), ground arith, ground arith)),
    )
    after_trust-Sound failure client_id c c' scope peer_id w v w' (ok false) p store trusts h = (
      ground arith,
      (λ o. inr (ground arith)),
      (λ u i. absurd (snoc_ne_nil c.invalid_scopes scope (ground arith))),
    )
    after_trust-Sound failure client_id c c' scope peer_id w v w' (err e) p store trusts h = cc

    check_peer-Sound :
        (failure : AuthErr) (client_id : String) (c c' : ScopeCheck) (scope : String)
        (peer : Option String) (w w' : World S)
        → parse_cross_client_scope scope ≡ peer
        → check_peer server failure client_id c scope peer w ≡ (next c', w')
        → Sound w client_id c c' scope w'
    unfolding check_peer
    check_peer-Sound failure client_id c c' scope none w w' p h = (
      ground arith,
      (λ o. inr (ground arith)),
      (λ u i. absurd (snoc_ne_nil c.unrecognized scope (ground arith))),
    )
    check_peer-Sound failure client_id c c' scope (some peer_id) w w' p h =
        let (r, v, e, k) =
          bind-next (validate_cross_client_trust server {E = AuthErr} client_id peer_id) _ w h in
        let (store, trusts) = validate_cross_client_trust-Trusts client_id peer_id w v r e in
        after_trust-Sound failure client_id c c' scope peer_id w v w' r p store trusts k

    check_scope-Sound :
        (failure : AuthErr) (client_id : String) (c c' : ScopeCheck) (scope : String)
        (w w' : World S)
        → check_scope server failure client_id c scope w ≡ (next c', w')
        → Sound w client_id c c' scope w'
    unfolding check_scope
    check_scope-Sound failure client_id c c' scope w w' h =
        elim (Bool-cases (scope == scope_openid)) [
          | inl e ↦
              let is : scope ≡ scope_openid = (eq_iff scope scope_openid).0 e in
              (
                ground (arith, e),
                (λ o. inl is),
                (λ u i. (inl is, ground (arith, e), ground (arith, e))),
              )
          | inr e ↦ elim (Bool-cases (is_known_scope scope)) [
            | inl k ↦ (
              ground (arith, e, k),
              (λ o. inr (ground (arith, e, k))),
              (λ u i. (inr (inl k), ground (arith, e, k), ground (arith, e, k))),
            )
            | inr k ↦
                check_peer-Sound failure client_id c c' scope (parse_cross_client_scope scope) w w'
                  refl (ground (arith, e, k))
          ]
        ]

    -- A loop that goes on with no scope to complain of has seen only allowed ones.
    pub check_scopes-Sound :
        (failure : AuthErr) (client_id : String) (c c' : ScopeCheck) (scopes : List String)
        (w w' : World S)
        → check_scopes server failure client_id c scopes w ≡ (next c', w')
        → (w'.store ≡ w.store)
          × (c'.has_openid_scope ≡ true
              → (contains scopes scope_openid ≡ true) ⊎ (c.has_openid_scope ≡ true))
          × (c'.unrecognized ≡ []
              → c'.invalid_scopes ≡ []
              → All (Allowed w.store client_id) scopes
                × (c.unrecognized ≡ [])
                × (c.invalid_scopes ≡ []))
    unfolding check_scopes contains
    check_scopes-Sound failure client_id c c' [] w w' h =
        (ground arith, (λ o. inr (ground arith)), (λ u i. (tt, ground arith, ground arith)))
    check_scopes-Sound failure client_id c c' (scope ∷ scopes) w w' h =
        let (d, v, e, k) = bind-next (check_scope server failure client_id c scope) _ w h in
        let one = check_scope-Sound failure client_id c d scope w v e in
        let rest = check_scopes-Sound failure client_id d c' scopes v w' k in
        (
          rest.0 ∙ one.0,
          (λ o. elim (rest.1 o) [
            | inl m ↦ inl (ground (arith, m))
            | inr m ↦ elim (one.1 m) [
              | inl m' ↦ inl (ground (arith, (eq_iff scope_openid scope).1 (sym m')))
              | inr m' ↦ inr m'
            ]
          ]),
          (λ u i.
              let r = rest.2 u i in
              let q = one.2 r.1 r.2 in
              ((q.0, subst (λ t. All (Allowed t client_id) scopes) one.0 r.0), q.1, q.2)),
        )
