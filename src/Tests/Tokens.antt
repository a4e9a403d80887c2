-- ===== src/Tests/Tokens.antt =====
-- Tokens for a code and for a refresh token, and the requests behind them.
use dex.Prelude.{All, In, List, String, [], ok, refl, string_eq, ◌∷◌, ◌≡◌, ◌≤◌}
use dex.GoMap.{lookup}
use dex.Text.{fields}
use dex.Storage.{RefreshToken, AuthCode}
use dex.Memory.{
  MemStorage, get_auth_code, get_client, get_refresh, get_keys, delete_auth_code,
  get_connector as stored_connector, update_refresh_token, update_offline_sessions,
}
use dex.Server.Action.{next, stop}
use dex.Server.World.{World, token_error}
use dex.Server.Connectors.{get_connector}
use dex.Server.Token.{authenticate}
use dex.Server.Token.AuthCode.{handle_auth_code}
use dex.Server.Token.Refresh.{handle_refresh_token, decode_token, refresh_with}
use dex.Server.Token.Checks.{authenticate-next, handle_auth_code-next, handle_refresh_token-next}
use dex.Server.Approval.Code.{on_memory}
use dex.Server.Token.SingleUse.{handle_auth_code-once}
use dex.Server.Token.OnMemory.{memory-CodeLaws}
use dex.Server.OAuth2.{err_invalid_request, parse_cross_client_scope}
use dex.Server.OAuth2.IdToken.{
  new_id_token, signature_algorithm, id_token_claims, access_token_hash, add_scopes,
}
use dex.Server.Token.Form.{write_access_token}
use dex.Tests.Data.{server, world, store, web, refresh}

authenticated : authenticate server "web" "secret" world ≡ (next web, world)
unfolding authenticate get_client lookup
authenticated = refl

authenticate-next_example : (get_client "web" store).0 ≡ ok web × (web.secret ≡ "secret")
unfolding get_client
authenticate-next_example = authenticate-next server "web" "secret" web world world authenticated

code_redeemed :
    handle_auth_code server "code" "https://web/callback" web world
    ≡ (next tt, (handle_auth_code server "code" "https://web/callback" web world).1)
unfolding handle_auth_code get_auth_code lookup new_id_token get_keys signature_algorithm
    id_token_claims access_token_hash add_scopes parse_cross_client_scope delete_auth_code
    get_connector stored_connector write_access_token
code_redeemed = refl

handle_auth_code-next_example :
    (a : AuthCode) × ((get_auth_code "code" store).0 ≡ ok a)
    × (50 ≤ a.expiry)
    × (a.client_id ≡ "web")
    × (a.redirect_uri ≡ "https://web/callback")
unfolding get_auth_code
handle_auth_code-next_example =
    handle_auth_code-next server "code" "https://web/callback" web tt world
      (handle_auth_code server "code" "https://web/callback" web world).1 code_redeemed

token_refreshed :
    handle_refresh_token server "refresh" "openid" web world
    ≡ (next tt, (handle_refresh_token server "refresh" "openid" web world).1)
unfolding handle_refresh_token get_refresh lookup fields get_connector stored_connector new_id_token
    get_keys signature_algorithm id_token_claims access_token_hash add_scopes
    parse_cross_client_scope update_offline_sessions update_refresh_token write_access_token
token_refreshed = refl

handle_refresh_token-next_example :
    (old : RefreshToken) × (scopes : List String) × (v : World MemStorage) × ((get_refresh "refresh"
        store).0
      ≡ ok old)
    × (old.client_id ≡ "web")
    × (old.token ≡ "value")
    × All (λ s. In s old.scopes) scopes
    × (refresh_with server old scopes web v
        ≡ (next tt, (handle_refresh_token server "refresh" "openid" web world).1))
unfolding get_refresh decode_token
handle_refresh_token-next_example =
    handle_refresh_token-next server "refresh" "openid" web tt world
      (handle_refresh_token server "refresh" "openid" web world).1 token_refreshed

abbrev refreshed_world : World MemStorage
refreshed_world = (refresh_with (on_memory (λ s. s) server) refresh ("openid" ∷ []) web world).1

abbrev redeemed : World MemStorage
redeemed = (handle_auth_code server "code" "https://web/callback" web world).1

handle_auth_code-once_example :
    handle_auth_code server "code" "https://other/callback" web redeemed ≡ (
      stop tt,
      record redeemed {
        store = (get_auth_code "code" redeemed.store).1;
        replies =
            token_error err_invalid_request "Invalid or expired code parameter." 400
            ∷ redeemed.replies;
      },
    )
handle_auth_code-once_example =
    handle_auth_code-once server (memory-CodeLaws (λ s. s)) "code" "https://web/callback"
      "https://other/callback" web web tt world redeemed code_redeemed
