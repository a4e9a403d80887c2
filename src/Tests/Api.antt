-- ===== src/Tests/Api.antt =====
-- The API at concrete inputs.
use dex.Prelude.{ℕ, ◌≤◌, String, false, some, none, [], ok, ◌≡◌, refl, ◌==◌, string_eq}
use dex.GoMap.{lookup, delete}
use dex.Storage.{OfflineSessions, RefreshTokenRef, Bytes}
use dex.Memory.{MemStorage, session_id, session_id_eq, update_offline_sessions, delete_refresh}
use dex.Server.Action.{next}
use dex.Server.World.{World}
use dex.Server.Api.{given, ApiPassword, create_password, revoke_refresh}
use dex.Server.Api.Safe.{on_memory, create_password-bounds, revoke_refresh-Revoked}
use dex.Tests.Data.{server, world, store}

abbrev joe : ApiPassword
joe = record { email = "joe@example.org"; hash = some []; username = "joe"; user_id = "2" }

password_created :
    create_password server (some joe) world
    ≡ (next (given tt), (create_password server (some joe) world).1)
unfolding create_password dex.Memory.create_password lookup
password_created = refl

create_password-bounds_example :
    (hash : Bytes) × (n : ℕ) × (joe.hash ≡ some hash)
    × (server.bcrypt_cost hash ≡ ok n)
    × (10 ≤ n)
    × (n ≤ 16)
    × ((joe.user_id == "") ≡ false)
create_password-bounds_example =
    create_password-bounds server joe (given tt) world (create_password server (some joe) world).1
      password_created

abbrev after : World MemStorage
after = (revoke_refresh (on_memory (λ s. s) server) "jane" "web" world).1

revoked : revoke_refresh (on_memory (λ s. s) server) "jane" "web" world ≡ (next (given tt), after)
unfolding revoke_refresh update_offline_sessions lookup delete_refresh
revoked = refl

revoke_refresh-Revoked_example :
    (id : String × String) × (o : OfflineSessions) × (r : RefreshTokenRef)
    × (server.unmarshal_subject "jane" ≡ ok id)
    × (lookup (session_id id.0 id.1) store.offline_sessions ≡ some o)
    × (lookup "web" o.refresh ≡ some r)
    × (lookup (session_id id.0 id.1) after.store.offline_sessions
        ≡ some (record o { refresh = delete "web" o.refresh }))
    × (lookup r.id after.store.refresh_tokens ≡ none)
revoke_refresh-Revoked_example =
    revoke_refresh-Revoked (λ s. s) server "jane" "web" world after revoked
