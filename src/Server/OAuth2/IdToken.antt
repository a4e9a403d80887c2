-- ===== src/Server/OAuth2/IdToken.antt =====
-- server/oauth2.go: newIDToken, the signature algorithm and the access token's hash.
pub mod Grown
pub mod Audience
pub mod Kept
use Prim.Native.Nat.{◌/◌, ◌-◌}
use Prim.Native.String.{◌++◌ as ◌+++◌}
use dex.Prelude.{
  ℕ, ◌+◌, String, Bool, true, false, Option, some, none, List, [], ◌∷◌, ◌++◌, if◌then◌else◌, ◌==◌,
  string_eq, Error, other, Result, ok, err, contains, wrap,
}
use dex.Storage.{
  Claims, Jwk, Key, rsa_private, rsa_public, unsupported_key, ecdsa_private, Curve, p256, p384,
  p521, other_curve,
}
use dex.Server.Rotation.{second}
use dex.Server.Action.{Action, ◌>>=◌, ◌>>◌, pure, halt, or_halt}
use dex.Server.World.{
  World, Server, SigAlg, rs256, rs384, rs512, es256, es384, es512, other_alg, HashAlg, sha256,
  sha384, sha512, IdTokenClaims, FederatedIdClaims, call, now,
}
use dex.Server.OAuth2.{
  scope_email, scope_groups, scope_profile, scope_federated_id, parse_cross_client_scope,
  validate_cross_client_trust,
}

-- The switch over the kind of the key.
unfoldable pub algorithm_of : Key → Result SigAlg
algorithm_of (rsa_private n) = ok rs256
algorithm_of (ecdsa_private p256 n) = ok es256
algorithm_of (ecdsa_private p384 n) = ok es384
algorithm_of (ecdsa_private p521 n) = ok es512
algorithm_of (ecdsa_private other_curve n) = err (other "unsupported ecdsa curve")
algorithm_of (rsa_public n) = err (other "unsupported signing key type *rsa.PublicKey")
algorithm_of (unsupported_key n) = err (other "unsupported signing key type")

unfoldable pub signature_algorithm : Jwk → Result SigAlg
unfolding algorithm_of
signature_algorithm jwk = elim jwk.key [
  | none ↦ err (other "no signing key")
  | some key ↦ algorithm_of key
]

-- The map hashForSigAlg.
unfoldable pub hash_for_sig_alg : SigAlg → Option HashAlg
hash_for_sig_alg rs256 = some sha256
hash_for_sig_alg rs384 = some sha384
hash_for_sig_alg rs512 = some sha512
hash_for_sig_alg es256 = some sha256
hash_for_sig_alg es384 = some sha384
hash_for_sig_alg es512 = some sha512
hash_for_sig_alg other_alg = none

-- time.Time.Unix: the seconds since 1970, of a time that is counted from the year 1.
abbrev pub unix : ℕ → ℕ
unix t = t / second - 62135596800

-- What the answer about a peer does to the token.
unfoldable pub accept_peer :
    {W : Type 0} → IdTokenClaims → String → Bool → Action W Error IdTokenClaims
accept_peer tok peer_id true = pure (record tok { audience = tok.audience ++ (peer_id ∷ []) })
accept_peer tok peer_id false = halt (other ("peer (" +++ peer_id +++ ") does not trust client"))

module _ {S : Type 0} (server : Server S) where
  unfoldable pub access_token_hash : SigAlg → String → Result String
  unfolding hash_for_sig_alg
  access_token_hash alg access_token = elim (hash_for_sig_alg alg) [
    | none ↦ err (other "unsupported signature algorithm")
    | some hash ↦ ok (server.left_half_hash hash access_token)
  ]

  -- The default case of the switch, for a scope that names a peer.
  unfoldable pub add_peer :
      String → IdTokenClaims → Option String → Action (World S) Error IdTokenClaims
  unfolding accept_peer
  add_peer client_id tok none = pure tok
  add_peer client_id tok (some peer_id) = do
    trust ← validate_cross_client_trust server client_id peer_id
    trusted ← or_halt trust (λ e. e)
    accept_peer tok peer_id trusted

  unfoldable pub add_scope :
      String → Claims → String → IdTokenClaims → String → Action (World S) Error IdTokenClaims
  unfolding add_peer
  add_scope client_id claims conn_id tok scope =
      if scope == scope_email
      then pure (record tok { email = claims.email; email_verified = some claims.email_verified })
      else if scope == scope_groups
      then pure (record tok { groups = claims.groups })
      else if scope == scope_profile
      then pure (record tok { name = claims.username })
      else if scope == scope_federated_id
      then pure (record tok {
        federated_id_claims = some (record { connector_id = conn_id; user_id = claims.user_id });
      })
      else add_peer client_id tok (parse_cross_client_scope scope)

  unfoldable pub add_scopes :
      String → Claims → String → IdTokenClaims → List String → Action (World S) Error IdTokenClaims
  unfolding add_scope
  add_scopes client_id claims conn_id tok [] = pure tok
  add_scopes client_id claims conn_id tok (scope ∷ scopes) = do
    tok' ← add_scope client_id claims conn_id tok scope
    add_scopes client_id claims conn_id tok' scopes

-- The audience, after the scopes.
unfoldable pub set_audience : String → IdTokenClaims → IdTokenClaims
set_audience client_id tok = elim tok.audience [
  | [] ↦ record tok { audience = client_id ∷ [] }
  | peer ∷ peers ↦ record tok {
    audience =
        if contains (peer ∷ peers) client_id
        then peer ∷ peers
        else (peer ∷ peers) ++ (client_id ∷ []);
    authorizing_party = client_id;
  }
]

module _ {S : Type 0} (server : Server S) where
  abbrev pub new_claims : String → String → String → ℕ → ℕ → IdTokenClaims
  new_claims subject nonce at_hash expiry issued_at = record {
    issuer = server.issuer;
    subject = subject;
    audience = [];
    expiry = unix expiry;
    issued_at = unix issued_at;
    authorizing_party = "";
    nonce = nonce;
    access_token_hash = at_hash;
    email = "";
    email_verified = none;
    groups = [];
    name = "";
    federated_id_claims = none;
  }

  -- `if accessToken != "" { … }`
  unfoldable pub at_hash : SigAlg → String → Result String
  at_hash alg access_token =
      if access_token == "" then ok "" else access_token_hash server alg access_token

  -- From the subject to the audience.
  unfoldable pub id_token_claims :
      SigAlg
      → String
      → Claims
      → List String
      → String
      → String
      → String
      → ℕ
      → Action (World S) Error IdTokenClaims
  unfolding at_hash
  id_token_claims alg client_id claims scopes nonce access_token conn_id issued_at = do
    subject ←
        or_halt (server.marshal_subject claims.user_id conn_id)
          (wrap "failed to marshal offline session ID: ")
    hash ← or_halt (at_hash alg access_token) (wrap "error computing at_hash: ")
    tok ←
        add_scopes server client_id claims conn_id
          (new_claims subject nonce hash (issued_at + server.id_tokens_valid_for) issued_at) scopes
    pure (set_audience client_id tok)

  unfoldable pub new_id_token :
      String → Claims → List String → String → String → String → Action (World S) Error (String × ℕ)
  new_id_token client_id claims scopes nonce access_token conn_id = do
    read ← call server.storage.get_keys
    keys ← or_halt read (λ e. e)
    jwk ←
        or_halt
          (elim keys.signing_key [
            | none ↦ err (other "no key to sign payload with")
            | some k ↦ ok k
          ])
          (λ e. e)
    alg ← or_halt (signature_algorithm jwk) (λ e. e)
    issued_at ← now server
    tok ← id_token_claims alg client_id claims scopes nonce access_token conn_id issued_at
    id_token ← or_halt (server.sign jwk alg tok) (wrap "failed to sign payload: ")
    pure (id_token, issued_at + server.id_tokens_valid_for)
