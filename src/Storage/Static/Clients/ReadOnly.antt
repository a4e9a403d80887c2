-- ===== src/Storage/Static/Clients/ReadOnly.antt =====
-- storage/static.go: the read-only clients, as the methods of the wrapped storage show them.
use dex.Prelude.{String, Result, ok, err, other, some, List, ◌≡◌, ◌∙◌, string_eq, arith, Option}
use dex.Storage.Types.{Client}
use dex.Storage.Interface.{Storage}
use dex.Storage.Index.{find_last, lookup-index}
use dex.Storage.Static.Clients.{with_static_clients}

module _ {S : Type 0} (st : Storage S) (static_clients : List Client) where
  abbrev pub static_client : String → Option Client
  static_client id = find_last (λ (c : Client). c.id) id static_clients

  abbrev pub wrapped_clients : Storage S
  wrapped_clients = with_static_clients st static_clients

  -- For the ID of a static client, reading gives the last static client with that ID; deleting it,
  -- updating it and creating a client with it are refused, and nothing touches the storage behind.
  pub static_clients_read_only :
      (id : String) (s : S) (c d : Client) (updater : Client → Result Client)
      → static_client id ≡ some c
      → d.id ≡ id
      → (wrapped_clients.get_client id s ≡ (ok c, s))
        × (wrapped_clients.create_client d s
            ≡ (err (other "static clients: read-only cannot create client"), s))
        × (wrapped_clients.delete_client id s
            ≡ (err (other "static clients: read-only cannot delete client"), s))
        × (wrapped_clients.update_client id updater s
            ≡ (err (other "static clients: read-only cannot update client"), s))
  unfolding with_static_clients
  static_clients_read_only id s c d updater h k =
      let found = lookup-index (λ (c : Client). c.id) id static_clients ∙ h in
      (ground (arith, found), ground (arith, found), ground (arith, found), ground (arith, found))
