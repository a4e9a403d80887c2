-- ===== src/Tests/Requests.antt =====
-- An authorization request, an ID token and scopes.
use Prim.Native.String.{◌++◌ as ◌+++◌}
use dex.Prelude.{some, [], ◌∷◌, ◌≡◌, refl, contains, string_eq}
use dex.GoMap.{lookup}
use dex.Text.{fields}
use dex.Storage.{AuthRequest}
use dex.Memory.{MemStorage, get_client}
use dex.Server.Action.{next}
use dex.Server.World.{World, IdTokenClaims}
use dex.Server.OAuth2.{validate_redirect_uri, parse_scopes, scope_offline_access, scope_groups}
use dex.Server.OAuth2.Laws.{parse_scopes_lem}
use dex.Server.OAuth2.IdToken.{new_claims, set_audience}
use dex.Server.OAuth2.AuthRequest.{
  AuthForm, parse_authorization_request, new_request, parse_unescaped, check_client,
  check_scope_list, check_scopes, check_response_types, check_flow,
}
use dex.Server.OAuth2.AuthRequest.Scopes.{QuietClients}
use dex.Server.OAuth2.AuthRequest.Sound.{IsChecked, parse_authorization_request-IsChecked}
use dex.Tests.Data.{server, world, store, web}

quiet : QuietClients server
unfolding get_client
quiet id s = refl

abbrev pub form : AuthForm
form = record {
  redirect_uri = "https://web/callback";
  client_id = "web";
  state = "state";
  nonce = "";
  scope = "openid email";
  response_type = "code";
  approval_prompt = "";
}

abbrev pub request : AuthRequest
request = new_request form "https://web/callback" web "random"

abbrev drawn : World MemStorage
drawn = record world { drawn = 1 }

accepted : parse_authorization_request server (some form) world ≡ (next request, drawn)
unfolding parse_authorization_request parse_unescaped check_client get_client lookup
    validate_redirect_uri check_scope_list check_scopes fields check_response_types check_flow
accepted = refl

parse_authorization_request-IsChecked_example : IsChecked server store form request
parse_authorization_request-IsChecked_example =
    parse_authorization_request-IsChecked server quiet form request world drawn accepted

abbrev claims : IdTokenClaims
claims = record (set_audience "web" (new_claims server "jane" "nonce" "hash" 150 50)) {
  name = "Jane";
}

parse_scopes_lem_example : parse_scopes ("groups" ∷ "openid" ∷ []) ≡ record {
  offline_access = contains ("groups" ∷ "openid" ∷ []) scope_offline_access;
  groups = contains ("groups" ∷ "openid" ∷ []) scope_groups;
}
parse_scopes_lem_example = parse_scopes_lem ("groups" ∷ "openid" ∷ [])
