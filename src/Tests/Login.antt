-- ===== src/Tests/Login.antt =====
-- A code is sent for a request, and the keys are served.
use dex.Prelude.{ℕ, ◌≤◌, false, true, some, none, [], ◌∷◌, ok, ◌≡◌, refl, arith, string_eq, inl}
use dex.GoMap.{lookup}
use dex.Storage.{Password, AuthRequest}
use dex.Memory.{memory, get_password, MemStorage, get_keys}
use dex.Server.Action.{next}
use dex.Server.World.{Scopes, World, Server, public_keys}
use dex.Server.Rotation.{public_jwk}
use dex.Server.Rotation.Safety.{published}
use dex.Server.Token.AuthCode.{check_code}
use dex.Server.Approval.{new_code, send_code_response}
use dex.Server.Approval.Code.{on_memory, sent, send_code_response-redeemable}
use dex.Server.Status.{handle_public_keys}
use dex.Server.Status.Served.{handle_public_keys-published}
use dex.Server.Connectors.{check_cost, password_db_login, password_identity}
use dex.Server.Connectors.PasswordDb.{password_db_login-Accepted}
use dex.Tests.Data.{platform, server, world, store, web, jane, signing_keys}

abbrev asked : Scopes
asked = record { offline_access = false; groups = false }

abbrev pub request : AuthRequest
request = record {
  id = "request";
  client_id = "web";
  response_types = "code" ∷ [];
  scopes = "openid" ∷ [];
  redirect_uri = "https://web/callback";
  nonce = "";
  state = "state";
  force_approval_prompt = false;
  expiry = 60;
  logged_in = true;
  claims = jane;
  connector_id = "ldap";
  connector_data = [];
}

abbrev pub pending : World MemStorage
pending = record world { store = record store { auth_reqs = ("request", request) ∷ [] } }

abbrev dex_server : Server MemStorage
dex_server = on_memory (λ s. s) server

known : lookup "request" pending.store.auth_reqs ≡ some request
unfolding lookup
known = refl

new : lookup "random" pending.store.auth_codes ≡ none
unfolding lookup
new = refl

send_code_response-redeemable_example :
    (send_code_response dex_server request pending
      ≡ (next tt, sent (λ s. s) server request pending))
    × (lookup "request" (sent (λ s. s) server request pending).store.auth_reqs ≡ none)
    × ((check_code dex_server "random" "https://web/callback" web
          (send_code_response dex_server request pending).1).0
        ≡ next (new_code request "random" 50))
send_code_response-redeemable_example =
    send_code_response-redeemable (λ s. s) server request pending request
      (record { scheme = "https"; host = "web" }) (omega arith) known refl refl refl new web refl
      (omega arith)

keys_read : (get_keys store).0 ≡ ok signing_keys
unfolding get_keys
keys_read = refl

handle_public_keys-published_example :
    (n : ℕ) × (120 ≤ n)
    × ((handle_public_keys server world).1.replies ≡ public_keys (published signing_keys) n ∷ [])
handle_public_keys-published_example =
    handle_public_keys-published server signing_keys (public_jwk "key" 7) world keys_read (inl refl)

abbrev admin : Password
admin = record { email = "admin"; hash = []; username = "Admin"; user_id = "1" }

abbrev with_admin : MemStorage
with_admin = record store { passwords = ("admin", admin) ∷ [] }

logged_in :
    (password_db_login (memory (λ s. s)) platform asked "admin" "secret" with_admin).0
    ≡ ok (password_identity platform admin, true)
unfolding password_db_login get_password lookup
logged_in = refl

password_db_login-Accepted_example :
    (p : Password) × (((memory (λ s. s)).get_password "admin" with_admin).0 ≡ ok p)
    × (check_cost platform p.hash ≡ ok tt)
    × (platform.bcrypt_matches p.hash "secret" ≡ true)
    × (password_identity platform admin ≡ password_identity platform p)
password_db_login-Accepted_example =
    password_db_login-Accepted (memory (λ s. s)) platform asked "admin" "secret"
      (password_identity platform admin) with_admin logged_in
