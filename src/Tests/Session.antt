-- ===== src/Tests/Session.antt =====
-- A server that starts, and a user who logs in and approves.
use dex.Prelude.{
  arith, false, Bool, List, Option, String, true, some, none, [], ◌∷◌, Result, ok, err, other, ◌≡◌,
  ◌⊎◌, refl, subst, ok_injective, some_injective, string_eq,
}
use dex.GoMap.{lookup}
use dex.Storage.{AuthRequest, AuthCode, Client}
use dex.Memory.{MemStorage, empty, get_client}
use dex.Server.Action.{next, stop}
use dex.Server.World.{World, Server, OpenedConnector, Identity, Scopes, rendered_error}
use dex.Server.OAuth2.{validate_redirect_uri}
use dex.Text.{fields}
use dex.Server.OAuth2.AuthRequest.{
  AuthErr, AuthForm, parse_authorization_request, parse_unescaped, check_client, check_scope_list,
  check_scopes,
}
use dex.Server.OAuth2.AuthRequest.{no_claims}
use dex.Server.Connectors.{current_connector}
use dex.Server.Login.Redeemed.{
  IsAnswered, IsCodeFlow, IsCodeFor, handle_connector_callback-redeemable,
}
use dex.Server.World.{ServerConnector}
use dex.Server.Login.{
  CallbackForm, handle_connector_callback, LoginForm, auth_err_reply, auth_err_status,
  handle_connector_login, handle_authorization,
}
use dex.Server.Login.Switch.{switched, shown, handle_connector_login-switched}
use dex.Server.Login.Errors.{IsErrorRedirect, auth_err_reply-IsSafe}
use dex.Server.Approval.{handle_approval, send_code_response}
use dex.Server.Approval.Code.{on_memory}
use dex.Server.Token.AuthCode.{check_code}
use dex.Server.Ensures.{Returns, Returns-ok, Returns-err}
use dex.Server.Vouched.{Vouches, Answered}
use dex.Server.Vouched.OnMemory.{Names}
use dex.Server.Setup.{Event, authorization, connector_login, approval, collection, serve}
use dex.Server.Setup.Vouched.{started, serve-Names}
use dex.Tests.Data.{platform, server, world, web, ldap, signing_keys, jane}
use dex.Tests.Login.{request, pending}
use dex.Tests.Requests.{form}

abbrev identity : Identity
identity = record {
  user_id = "jane";
  username = "Jane";
  email = "jane@example.org";
  email_verified = true;
  groups = [];
  connector_data = [];
}

-- A connector that lets one user in.
abbrev one_user : OpenedConnector MemStorage
one_user = record {
  login_url = none;
  handle_callback = λ scopes query. err (other "no callback");
  login = some (λ scopes user password s. (ok (identity, true), s));
  prompt = "";
  post_data = none;
  handle_post = λ scopes response id. err (other "no SAML");
  refresh = none;
}

abbrev base : Server MemStorage
base = record server { platform = record platform { open_connector = λ c. ok one_user } }

abbrev Jane : String → Type 0
Jane u = u ≡ "jane"

one_user-Vouches : Vouches (Names Jane) Jane one_user
one_user-Vouches = record {
  login = λ f e scopes user password s h.
      subst
        (λ (g : Scopes → String → String → MemStorage → Result (Identity × Bool) × MemStorage).
          Names Jane (g scopes user password s).1
          × Returns (Answered Jane) (g scopes user password s).0)
        (some_injective e) (h, Returns-ok (identity, true) (λ a. refl));
  callback = λ scopes query. Returns-err (other "no callback");
  post = λ scopes response id. Returns-err (other "no SAML");
  refresh = λ f e. cc;
}

abbrev fresh : World MemStorage
fresh = record world {
  store = record empty {
    clients = ("web", web) ∷ [];
    connectors = ("ldap", ldap) ∷ [];
    keys = signing_keys;
  };
}

abbrev password_form : LoginForm
password_form = record {
  method = "POST";
  url = "";
  connector_id = "ldap";
  req = "random";
  login = "jane";
  password = "secret";
}

abbrev events : List Event
events =
    authorization (some form)
    ∷ connector_login password_form
    ∷ collection
    ∷ approval "POST" "random" "approve"
    ∷ []

fresh-Names : Names Jane fresh.store
unfolding lookup
fresh-Names = (λ k v e. cc, λ k v e. cc, λ k v e. cc, λ k v e. cc)

serve-Names_example :
    Names Jane (serve (on_memory (λ s. s) base) events (started (λ s. s) base [] fresh)).store
serve-Names_example =
    serve-Names (λ s. s) base Jane
      (λ c o e. subst (Vouches (Names Jane) Jane) (ok_injective e) one_user-Vouches) [] events fresh
      refl fresh-Names

abbrev other_page : LoginForm
other_page = record {
  method = "GET";
  url = "";
  connector_id = "github";
  req = "request";
  login = "";
  password = "";
}

abbrev one_user_entry : ServerConnector MemStorage
one_user_entry = record { resource_version = "1"; connector = one_user }

-- Two connectors for passwords, both open.
abbrev two_connectors : World MemStorage
two_connectors = record pending {
  store = record pending.store {
    connectors = ("ldap", ldap) ∷ ("github", record ldap { id = "github" }) ∷ [];
  };
  connectors = ("github", one_user_entry) ∷ ("ldap", one_user_entry) ∷ [];
}

handle_connector_login-switched_example :
    (handle_connector_login (on_memory (λ s. s) server) other_page two_connectors
      ≡ (next tt, shown (λ s. s) server other_page request two_connectors one_user_entry))
    × (handle_approval
          (on_memory (λ s. s) server)
          "POST"
          "request"
          "approve"
          (shown (λ s. s) server other_page request two_connectors one_user_entry)
        ≡ send_code_response
            (on_memory (λ s. s) server)
            (switched (λ s. s) server other_page request two_connectors)
            (shown (λ s. s) server other_page request two_connectors one_user_entry))
    × (jane ≡ jane)
unfolding lookup current_connector
handle_connector_login-switched_example =
    handle_connector_login-switched (λ s. s) server other_page request two_connectors
      (record ldap { id = "github" }) one_user_entry
      (λ scopes user password s. (ok (identity, true), s)) refl refl refl refl refl refl refl refl

abbrev no_openid : AuthForm
no_openid = record form { scope = "email" }

abbrev refused_with : AuthErr
refused_with = record {
  state = "state";
  redirect_uri = "https://web/callback";
  type = "invalid_scope";
  description = "Missing required scope(s) [\"openid\"].";
}

refused : parse_authorization_request server (some no_openid) world ≡ (stop refused_with, world)
unfolding parse_authorization_request parse_unescaped check_client get_client lookup
    validate_redirect_uri check_scope_list check_scopes fields
refused = refl

auth_err_reply-IsSafe_example :
    ((handle_authorization server (some no_openid) world).0 ≡ stop tt)
    × ((handle_authorization server (some no_openid) world).1.replies
        ≡ auth_err_reply server refused_with ∷ [])
    × ((auth_err_reply server refused_with
          ≡ rendered_error (auth_err_status refused_with) refused_with.description)
        ⊎ (IsErrorRedirect server refused_with (auth_err_reply server refused_with)
            × (◌≡◌ {A = Option String} (some "https://web/callback") (some "https://web/callback"))
            × (client : Client) × ((server.storage.get_client "web" world.store).0 ≡ ok client)
            × (validate_redirect_uri server client "https://web/callback" ≡ true)))
auth_err_reply-IsSafe_example =
    auth_err_reply-IsSafe server no_openid world refused_with world refused

abbrev callback_user : OpenedConnector MemStorage
callback_user = record one_user {
  login_url = some (λ scopes callback state. ok "https://idp");
  handle_callback = λ scopes query. ok identity;
}

abbrev callback_entry : ServerConnector MemStorage
callback_entry = record { resource_version = "1"; connector = callback_user }

abbrev waiting : AuthRequest
waiting = record request { logged_in = false; claims = no_claims }

abbrev opened_world : World MemStorage
opened_world = record pending {
  store = record pending.store { auth_reqs = ("request", waiting) ∷ [] };
  connectors = ("ldap", callback_entry) ∷ [];
}

abbrev callback : CallbackForm
callback = record {
  method = "GET";
  connector_id = "ldap";
  state = "request";
  relay_state = "";
  saml_response = "";
  query = ("code", "1") ∷ [];
}

callback-IsAnswered : IsAnswered callback waiting identity opened_world
unfolding lookup current_connector
callback-IsAnswered = record {
  stored = ldap;
  conn = callback_entry;
  url = λ scopes callback state. ok "https://idp";
  method = refl;
  state = refl;
  known = refl;
  same_id = refl;
  path = refl;
  has_connector = refl;
  open_connector = refl;
  by_callback = refl;
  answered = refl;
}

waiting-IsCodeFlow : IsCodeFlow server waiting opened_world
unfolding lookup
waiting-IsCodeFlow = record {
  url = record { scheme = "https"; host = "web" };
  unexpired = omega arith;
  parsed = refl;
  code_flow = refl;
  in_band = refl;
  new = refl;
}

abbrev called_back : World MemStorage
called_back = (handle_connector_callback (on_memory (λ s. s) server) callback opened_world).1

handle_connector_callback-redeemable_example :
    ((handle_connector_callback (on_memory (λ s. s) server) callback opened_world).0 ≡ next tt)
    × ((handle_approval (on_memory (λ s. s) server) "POST" "request" "approve" called_back).0
        ≡ next tt)
    × (a : AuthCode) × ((check_code
          (on_memory (λ s. s) server)
          "random"
          "https://web/callback"
          web
          (handle_approval (on_memory (λ s. s) server) "POST" "request" "approve" called_back).1).0
        ≡ next a)
    × IsCodeFor waiting identity a
handle_connector_callback-redeemable_example =
    handle_connector_callback-redeemable (λ s. s) server callback waiting identity opened_world web
      callback-IsAnswered waiting-IsCodeFlow refl (omega arith)
