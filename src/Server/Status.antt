-- ===== src/Server/Status.antt =====
-- server/handlers.go: handlePublicKeys and handleHealth.
pub mod Served
use Prim.Native.Nat.{◌-◌, ◌*◌, ◌/◌}
use Prim.Native.String.{◌++◌ as ◌+++◌}
use dex.Prelude.{
  ℕ, ◌+◌, String, Bool, true, false, not, Option, none, some, List, [], ◌∷◌, ◌++◌, map,
  if◌then◌else◌, ltb, ◌==◌, string_eq, Result, ok, err, Error, not_found, wrap,
}
use dex.Storage.{AuthRequest, AuthCode, VerificationKey, Keys, Jwk}
use dex.Server.Rotation.{second}
use dex.Server.Action.{Action, ◌>>=◌, ◌>>◌, pure, halt, or_halt, attempt}
use dex.Server.World.{
  World, Server, Url, Reply, Identity, rendered_error, oob_page, approval_page, query_redirect,
  fragment_redirect, public_keys, health_passed, call, new_id, now, send, refuse, or_refuse,
  refuse_if,
}
use dex.Server.OAuth2.{
  redirect_uri_oob, response_type_code, response_type_token, response_type_id_token,
}
use dex.Server.OAuth2.AuthRequest.{no_claims}
use dex.Server.OAuth2.IdToken.{new_id_token}
use dex.Server.Token.Form.{failed, claims_of}
use dex.Server.Approval.{minute, internal_error}

-- The JSON web keys of handlePublicKeys.
unfoldable pub key_set : Keys → Option (List Jwk)
key_set keys = elim keys.signing_key_pub [
  | none ↦ none
  | some public ↦ some (public ∷ map (λ (v : VerificationKey). v.public_key) keys.verification_keys)
]

-- The maximal age, of two minutes at least, in seconds.
unfoldable pub max_age : Keys → ℕ → ℕ
max_age keys t =
    let age = keys.next_rotation - t in (if ltb age (2 * minute) then 2 * minute else age) / second

module _ {S : Type 0} (server : Server S) where
  abbrev Handler : Type 0 → Type 0
  Handler A = Action (World S) (Unit {0}) A

  abbrev pub send_keys : Keys → Option (List Jwk) → Handler (Unit {0})
  send_keys keys none = refuse internal_error
  send_keys keys (some served) = do t ← now server; send (public_keys served (max_age keys t))

  unfoldable pub handle_public_keys : Handler (Unit {0})
  unfolding key_set max_age
  handle_public_keys = do
    r ← call server.storage.get_keys
    keys ← or_refuse r (λ e. internal_error)
    send_keys keys (key_set keys)

  -- The request that handleHealth creates and deletes.
  abbrev pub health_request : String → String → ℕ → AuthRequest
  health_request id client_id t = record {
    id = id;
    client_id = client_id;
    response_types = [];
    scopes = [];
    redirect_uri = "";
    nonce = "";
    state = "";
    force_approval_prompt = false;
    expiry = t + minute;
    logged_in = false;
    claims = no_claims;
    connector_id = "";
    connector_data = [];
  }

  unfoldable pub health_check : Action (World S) Error (Unit {0})
  health_check = do
    id ← new_id server
    client_id ← new_id server
    t ← now server
    r ← call (server.storage.create_auth_request (health_request id client_id t))
    done ← or_halt r (wrap "create auth request: ")
    r' ← call (server.storage.delete_auth_request id)
    or_halt r' (wrap "delete auth request: ")

  unfoldable pub handle_health : Handler (Unit {0})
  unfolding health_check
  handle_health = do
    started ← now server
    r ← attempt health_check
    t ← now server
    done ← or_refuse r (λ e. rendered_error 500 "Health check failed.")
    send health_passed
