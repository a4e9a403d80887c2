-- ===== src/Server/OAuth2/IdToken/Grown.antt =====
-- server/oauth2.go, newIDToken: what the loop over the scopes does to a token.
use dex.Prelude.{
  String, Bool, true, false, Option, some, none, List, [], ◌∷◌, ◌++◌, ◌≡◌, refl, sym, subst, ◌∙◌,
  inl, inr, All, arith, ok, err, Error, Result, Bool-cases, ◌==◌, string_eq,
}
use dex.Storage.{Claims}
use dex.Server.Action.{bind-next, next, continue, or_halt, pure}
use dex.Server.World.{World, Server, IdTokenClaims, FederatedIdClaims}
use dex.Server.OAuth2.{
  parse_cross_client_scope, validate_cross_client_trust, scope_email, scope_groups, scope_profile,
  scope_federated_id,
}
use dex.Server.OAuth2.AuthRequest.Scopes.{QuietClients, Trusts, validate_cross_client_trust-Trusts}
use dex.Server.OAuth2.IdToken.{accept_peer, add_peer, add_scope, add_scopes}

pub All-append :
    {A : Type 0} (P : A → Type 0) (xs ys : List A) → All P xs → All P ys → All P (xs ++ ys)
All-append P [] ys h k = k
All-append P (x ∷ xs) ys h k = (h.0, All-append P xs ys h.1 k)

-- The parts of the token that the scopes leave alone.
pub record SameBase (tok tok' : IdTokenClaims) : Type 0 where
  pub issuer : tok'.issuer ≡ tok.issuer
  pub subject : tok'.subject ≡ tok.subject
  pub expiry : tok'.expiry ≡ tok.expiry
  pub issued_at : tok'.issued_at ≡ tok.issued_at
  pub authorizing_party : tok'.authorizing_party ≡ tok.authorizing_party
  pub nonce : tok'.nonce ≡ tok.nonce
  pub access_token_hash : tok'.access_token_hash ≡ tok.access_token_hash

same :
    (tok : IdTokenClaims) (audience : List String) (email : String) (verified : Option Bool)
    (groups : List String) (name : String) (federated : Option FederatedIdClaims)
    → SameBase tok (record tok {
      audience = audience;
      email = email;
      email_verified = verified;
      groups = groups;
      name = name;
      federated_id_claims = federated;
    })
same tok audience email verified groups name federated = record {
  issuer = refl;
  subject = refl;
  expiry = refl;
  issued_at = refl;
  authorizing_party = refl;
  nonce = refl;
  access_token_hash = refl;
}

SameBase-trans : {a b c : IdTokenClaims} → SameBase a b → SameBase b c → SameBase a c
SameBase-trans h k = record {
  issuer = k.issuer ∙ h.issuer;
  subject = k.subject ∙ h.subject;
  expiry = k.expiry ∙ h.expiry;
  issued_at = k.issued_at ∙ h.issued_at;
  authorizing_party = k.authorizing_party ∙ h.authorizing_party;
  nonce = k.nonce ∙ h.nonce;
  access_token_hash = k.access_token_hash ∙ h.access_token_hash;
}

module _ {S : Type 0} (server : Server S) (quiet : QuietClients server) where
  -- One scope, or several: the storage is left, and the audience grows by peers that trust the
  -- client.
  abbrev pub Grown : World S → String → IdTokenClaims → IdTokenClaims → World S → Type 0
  Grown w client_id tok tok' w' =
      (w'.store ≡ w.store)
      × SameBase tok tok'
      × (All (Trusts server w.store client_id) tok.audience
          → All (Trusts server w.store client_id) tok'.audience)

  trusted-Grown :
      (client_id : String) (tok tok' : IdTokenClaims) (peer_id : String) (w v w' : World S)
      (r : Result Bool)
      → v.store ≡ w.store
      → (r ≡ ok true → Trusts server w.store client_id peer_id)
      → continue (or_halt r (λ e. e) v).0 (accept_peer tok peer_id) (or_halt r (λ e. e) v).1
        ≡ (next tok', w')
      → Grown w client_id tok tok' w'
  unfolding accept_peer
  trusted-Grown client_id tok tok' peer_id w v w' (ok true) store trusts h =
      let e : tok' ≡ record tok { audience = tok.audience ++ peer_id ∷ [] } = ground arith in
      (
        ground arith,
        rw e (same tok _ _ _ _ _ _),
        (λ all. rw e (
            All-append (Trusts server w.store client_id) tok.audience (peer_id ∷ []) all
              (trusts refl, tt))),
      )
  trusted-Grown client_id tok tok' peer_id w v w' (ok false) store trusts h = cc
  trusted-Grown client_id tok tok' peer_id w v w' (err e) store trusts h = cc

  add_peer-Grown :
      (client_id : String) (tok tok' : IdTokenClaims) (peer : Option String) (w w' : World S)
      → add_peer server client_id tok peer w ≡ (next tok', w')
      → Grown w client_id tok tok' w'
  unfolding add_peer
  add_peer-Grown client_id tok tok' none w w' h =
      let e : tok' ≡ tok = ground arith in (ground arith, ground (arith, e), λ a. rw e a)
  add_peer-Grown client_id tok tok' (some peer_id) w w' h =
      let (r, v, e, k) =
        bind-next (validate_cross_client_trust server {E = Error} client_id peer_id) _ w h in
      let (store, trusts) =
        validate_cross_client_trust-Trusts server quiet client_id peer_id w v r e in
      trusted-Grown client_id tok tok' peer_id w v w' r store trusts k

  -- A case of the switch that sets other fields.
  set-Grown :
      (client_id : String) (tok tok' set : IdTokenClaims) (w w' : World S)
      → SameBase tok set
      → set.audience ≡ tok.audience
      → pure {E = Error} set w ≡ (next tok', w')
      → Grown w client_id tok tok' w'
  set-Grown client_id tok tok' set w w' b a h =
      let e : tok' ≡ set = ground arith in (ground arith, rw e b, λ all. rw (e, a) all)

  add_scope-Grown :
      (client_id : String) (claims : Claims) (conn_id : String) (tok tok' : IdTokenClaims)
      (scope : String) (w w' : World S)
      → add_scope server client_id claims conn_id tok scope w ≡ (next tok', w')
      → Grown w client_id tok tok' w'
  unfolding add_scope
  add_scope-Grown client_id claims conn_id tok tok' scope w w' h =
      elim (Bool-cases (scope == scope_email)) [
        | inl e₁ ↦
            set-Grown client_id tok tok'
              (record tok { email = claims.email; email_verified = some claims.email_verified }) w
              w' (same tok _ _ _ _ _ _) refl (rw (e₁, add_scope) at h)
        | inr e₁ ↦ elim (Bool-cases (scope == scope_groups)) [
          | inl e₂ ↦
              set-Grown client_id tok tok' (record tok { groups = claims.groups }) w w'
                (same tok _ _ _ _ _ _) refl (rw (e₁, e₂, add_scope) at h)
          | inr e₂ ↦ elim (Bool-cases (scope == scope_profile)) [
            | inl e₃ ↦
                set-Grown client_id tok tok' (record tok { name = claims.username }) w w'
                  (same tok _ _ _ _ _ _) refl (rw (e₁, e₂, e₃, add_scope) at h)
            | inr e₃ ↦ elim (Bool-cases (scope == scope_federated_id)) [
              | inl e₄ ↦
                  set-Grown client_id tok tok'
                    (record tok {
                      federated_id_claims =
                          some (record { connector_id = conn_id; user_id = claims.user_id });
                    })
                    w w' (same tok _ _ _ _ _ _) refl (rw (e₁, e₂, e₃, e₄, add_scope) at h)
              | inr e₄ ↦
                  add_peer-Grown client_id tok tok' (parse_cross_client_scope scope) w w'
                    (rw (e₁, e₂, e₃, e₄, add_scope) at h)
            ]
          ]
        ]
      ]

  pub add_scopes-Grown :
      (client_id : String) (claims : Claims) (conn_id : String) (tok tok' : IdTokenClaims)
      (scopes : List String) (w w' : World S)
      → add_scopes server client_id claims conn_id tok scopes w ≡ (next tok', w')
      → Grown w client_id tok tok' w'
  unfolding add_scopes
  add_scopes-Grown client_id claims conn_id tok tok' [] w w' h =
      let e : tok' ≡ tok = ground arith in (ground arith, ground (arith, e), λ a. rw e a)
  add_scopes-Grown client_id claims conn_id tok tok' (scope ∷ scopes) w w' h =
      let (t, v, e, k) = bind-next (add_scope server client_id claims conn_id tok scope) _ w h in
      let one = add_scope-Grown client_id claims conn_id tok t scope w v e in
      let rest = add_scopes-Grown client_id claims conn_id t tok' scopes v w' k in
      (
        rest.0 ∙ one.0,
        SameBase-trans one.1 rest.1,
        (λ a.
            subst (λ s. All (Trusts server s client_id) tok'.audience) one.0
              (rest.2
                (subst (λ s. All (Trusts server s client_id) t.audience) (sym one.0) (one.2 a)))),
      )
