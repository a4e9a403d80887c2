-- ===== src/Server/OAuth2/IdToken/Kept.antt =====
-- server/oauth2.go: newIDToken keeps whatever reading the keys and a client keeps.
use dex.Prelude.{
  ℕ, ◌+◌, String, Bool, true, false, Option, some, none, List, [], ◌∷◌, Result, ok, err, other,
  wrap, ◌==◌, string_eq,
}
use dex.Storage.{Claims, Keys, Jwk}
use dex.Server.Action.{Action}
use dex.Server.World.{World, Server, IdTokenClaims, SigAlg}
use dex.Server.OAuth2.{
  scope_email, scope_groups, scope_profile, scope_federated_id, parse_cross_client_scope,
}
use dex.Server.OAuth2.AuthRequest.Kept.{validate_cross_client_trust-Kept}
use dex.Server.OAuth2.IdToken.{
  accept_peer, add_peer, add_scope, add_scopes, set_audience, new_claims, at_hash, id_token_claims,
  new_id_token, signature_algorithm,
}
use dex.Server.Ensures.{
  Property, Ensures, Any, Calls, Ensures-pure, Ensures-call, Ensures-or_halt, Ensures-now,
  Ensures-bind, Ensures-if,
}

module _ {S : Type 0} (server : Server S) (P : Property S)
    (get_keys : Calls P server.storage.get_keys Any)
    (get_client : (id : String) → Calls P (server.storage.get_client id) Any) where
  abbrev Kept : {E A : Type 0} → Action (World S) E A → Type 0
  Kept m = Ensures P m Any

  accept_peer-Kept :
      (tok : IdTokenClaims) (peer_id : String) (trusted : Bool)
      → Kept (accept_peer tok peer_id trusted)
  unfolding accept_peer
  accept_peer-Kept tok peer_id true = record { at = λ w h. (h, tt) }
  accept_peer-Kept tok peer_id false = record { at = λ w h. h }

  add_peer-Kept :
      (client_id : String) (tok : IdTokenClaims) (peer : Option String)
      → Kept (add_peer server client_id tok peer)
  unfolding add_peer
  add_peer-Kept client_id tok none = Ensures-pure tok tt
  add_peer-Kept client_id tok (some peer_id) =
      Ensures-bind (validate_cross_client_trust-Kept server P get_client client_id peer_id)
        λ trust u.
          Ensures-bind (Ensures-or_halt trust (λ e. e))
            λ trusted e. accept_peer-Kept tok peer_id trusted

  add_scope-Kept :
      (client_id : String) (claims : Claims) (conn_id : String) (tok : IdTokenClaims)
      (scope : String)
      → Kept (add_scope server client_id claims conn_id tok scope)
  unfolding add_scope
  add_scope-Kept client_id claims conn_id tok scope =
      Ensures-if (scope == scope_email)
        (Ensures-pure
          (record tok { email = claims.email; email_verified = some claims.email_verified }) tt)
        (Ensures-if (scope == scope_groups)
          (Ensures-pure (record tok { groups = claims.groups }) tt)
          (Ensures-if (scope == scope_profile)
            (Ensures-pure (record tok { name = claims.username }) tt)
            (Ensures-if (scope == scope_federated_id)
              (Ensures-pure
                (record tok {
                  federated_id_claims =
                      some (record { connector_id = conn_id; user_id = claims.user_id });
                })
                tt)
              (add_peer-Kept client_id tok (parse_cross_client_scope scope)))))

  add_scopes-Kept :
      (client_id : String) (claims : Claims) (conn_id : String) (tok : IdTokenClaims)
      (scopes : List String)
      → Kept (add_scopes server client_id claims conn_id tok scopes)
  unfolding add_scopes
  add_scopes-Kept client_id claims conn_id tok [] = Ensures-pure tok tt
  add_scopes-Kept client_id claims conn_id tok (scope ∷ scopes) =
      Ensures-bind (add_scope-Kept client_id claims conn_id tok scope)
        λ tok' u. add_scopes-Kept client_id claims conn_id tok' scopes

  id_token_claims-Kept :
      (alg : SigAlg) (client_id : String) (claims : Claims) (scopes : List String)
      (nonce access_token conn_id : String) (issued_at : ℕ)
      → Kept
          (id_token_claims server alg client_id claims scopes nonce access_token conn_id issued_at)
  unfolding id_token_claims
  id_token_claims-Kept alg client_id claims scopes nonce access_token conn_id issued_at =
      Ensures-bind
        (Ensures-or_halt (server.marshal_subject claims.user_id conn_id)
          (wrap "failed to marshal offline session ID: "))
        λ subject e.
          Ensures-bind
            (Ensures-or_halt (at_hash server alg access_token) (wrap "error computing at_hash: "))
            λ hash f.
              Ensures-bind
                (add_scopes-Kept client_id claims conn_id
                  (new_claims server subject nonce hash (issued_at + server.id_tokens_valid_for)
                    issued_at)
                  scopes)
                λ tok u. Ensures-pure (set_audience client_id tok) tt

  -- The key to sign with.
  abbrev signing_key : Keys → Result Jwk
  signing_key keys = elim keys.signing_key [
    | none ↦ err (other "no key to sign payload with")
    | some k ↦ ok k
  ]

  pub new_id_token-Kept :
      (client_id : String) (claims : Claims) (scopes : List String)
      (nonce access_token conn_id : String)
      → Kept (new_id_token server client_id claims scopes nonce access_token conn_id)
  unfolding new_id_token
  new_id_token-Kept client_id claims scopes nonce access_token conn_id =
      Ensures-bind (Ensures-call get_keys) λ read u.
        Ensures-bind (Ensures-or_halt read (λ e. e)) λ keys e.
          Ensures-bind (Ensures-or_halt (signing_key keys) (λ e. e)) λ jwk f.
            Ensures-bind (Ensures-or_halt (signature_algorithm jwk) (λ e. e)) λ alg g.
              Ensures-bind (Ensures-now server) λ issued_at u.
                Ensures-bind
                  (id_token_claims-Kept alg client_id claims scopes nonce access_token conn_id
                    issued_at)
                  λ tok u.
                    Ensures-bind
                      (Ensures-or_halt (server.sign jwk alg tok) (wrap "failed to sign payload: "))
                      λ id_token e.
                        Ensures-pure (id_token, issued_at + server.id_tokens_valid_for) tt
