-- ===== src/Memory/Objects.antt =====
-- storage/memory/memory.go: the methods on clients, codes, refresh tokens, authorization requests
-- and connectors.
use dex.Prelude.{String, List, Result, ok, string_eq}
use dex.GoMap.{values}
use dex.Storage.{Client, AuthRequest, AuthCode, RefreshToken, Password, Connector}
use dex.Memory.State.{MemStorage, session_id_eq}
use dex.Memory.Table

unfoldable pub create_client : Client → MemStorage → Result (Unit {0}) × MemStorage
unfolding Table.create
create_client x s = let (r, m) = Table.create x.id x s.clients in (r, record s { clients = m })

unfoldable pub create_auth_code : AuthCode → MemStorage → Result (Unit {0}) × MemStorage
unfolding Table.create
create_auth_code x s =
    let (r, m) = Table.create x.id x s.auth_codes in (r, record s { auth_codes = m })

unfoldable pub create_refresh : RefreshToken → MemStorage → Result (Unit {0}) × MemStorage
unfolding Table.create
create_refresh x s =
    let (r, m) = Table.create x.id x s.refresh_tokens in (r, record s { refresh_tokens = m })

unfoldable pub create_auth_request : AuthRequest → MemStorage → Result (Unit {0}) × MemStorage
unfolding Table.create
create_auth_request x s =
    let (r, m) = Table.create x.id x s.auth_reqs in (r, record s { auth_reqs = m })

unfoldable pub create_connector : Connector → MemStorage → Result (Unit {0}) × MemStorage
unfolding Table.create
create_connector x s =
    let (r, m) = Table.create x.id x s.connectors in (r, record s { connectors = m })

unfoldable pub get_client : String → MemStorage → Result Client × MemStorage
unfolding Table.get
get_client id s = (Table.get id s.clients, s)

unfoldable pub get_auth_code : String → MemStorage → Result AuthCode × MemStorage
unfolding Table.get
get_auth_code id s = (Table.get id s.auth_codes, s)

unfoldable pub get_refresh : String → MemStorage → Result RefreshToken × MemStorage
unfolding Table.get
get_refresh id s = (Table.get id s.refresh_tokens, s)

unfoldable pub get_auth_request : String → MemStorage → Result AuthRequest × MemStorage
unfolding Table.get
get_auth_request id s = (Table.get id s.auth_reqs, s)

unfoldable pub get_connector : String → MemStorage → Result Connector × MemStorage
unfolding Table.get
get_connector id s = (Table.get id s.connectors, s)

unfoldable pub delete_client : String → MemStorage → Result (Unit {0}) × MemStorage
unfolding Table.remove
delete_client id s = let (r, m) = Table.remove id s.clients in (r, record s { clients = m })

unfoldable pub delete_auth_code : String → MemStorage → Result (Unit {0}) × MemStorage
unfolding Table.remove
delete_auth_code id s =
    let (r, m) = Table.remove id s.auth_codes in (r, record s { auth_codes = m })

unfoldable pub delete_refresh : String → MemStorage → Result (Unit {0}) × MemStorage
unfolding Table.remove
delete_refresh id s =
    let (r, m) = Table.remove id s.refresh_tokens in (r, record s { refresh_tokens = m })

unfoldable pub delete_auth_request : String → MemStorage → Result (Unit {0}) × MemStorage
unfolding Table.remove
delete_auth_request id s =
    let (r, m) = Table.remove id s.auth_reqs in (r, record s { auth_reqs = m })

unfoldable pub delete_connector : String → MemStorage → Result (Unit {0}) × MemStorage
unfolding Table.remove
delete_connector id s =
    let (r, m) = Table.remove id s.connectors in (r, record s { connectors = m })

unfoldable pub update_client :
    String → (Client → Result Client) → MemStorage → Result (Unit {0}) × MemStorage
unfolding Table.update
update_client id updater s =
    let (r, m) = Table.update id updater s.clients in (r, record s { clients = m })

unfoldable pub update_refresh_token :
    String → (RefreshToken → Result RefreshToken) → MemStorage → Result (Unit {0}) × MemStorage
unfolding Table.update
update_refresh_token id updater s =
    let (r, m) = Table.update id updater s.refresh_tokens in (r, record s { refresh_tokens = m })

unfoldable pub update_auth_request :
    String → (AuthRequest → Result AuthRequest) → MemStorage → Result (Unit {0}) × MemStorage
unfolding Table.update
update_auth_request id updater s =
    let (r, m) = Table.update id updater s.auth_reqs in (r, record s { auth_reqs = m })

unfoldable pub update_connector :
    String → (Connector → Result Connector) → MemStorage → Result (Unit {0}) × MemStorage
unfolding Table.update
update_connector id updater s =
    let (r, m) = Table.update id updater s.connectors in (r, record s { connectors = m })

unfoldable pub list_clients : MemStorage → Result (List Client) × MemStorage
unfolding values
list_clients s = (ok (values s.clients), s)

unfoldable pub list_refresh_tokens : MemStorage → Result (List RefreshToken) × MemStorage
unfolding values
list_refresh_tokens s = (ok (values s.refresh_tokens), s)

unfoldable pub list_passwords : MemStorage → Result (List Password) × MemStorage
unfolding values
list_passwords s = (ok (values s.passwords), s)

unfoldable pub list_connectors : MemStorage → Result (List Connector) × MemStorage
unfolding values
list_connectors s = (ok (values s.connectors), s)
