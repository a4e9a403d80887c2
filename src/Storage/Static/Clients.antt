-- ===== src/Storage/Static/Clients.antt =====
-- storage/static.go: the storage with static clients.
pub mod ReadOnly
use dex.Prelude.{
  String, Bool, true, false, not, Result, ok, err, other, Error, some, none, List, [], ◌∷◌, ◌++◌,
  ◌≡◌, ◌∙◌, select, string_eq, refl, arith, ap, Option, In, In-select_inv, In-select,
  In-append_left, In-append_right, In-append_cases, ◌↔◌, ◌⊎◌, inl, inr, Result-cases, Option-cases,
}
use dex.GoMap.{Map, lookup, has}
use dex.Storage.Types.{Client}
use dex.Storage.Interface.{Storage}
use dex.Storage.Index.{index_from, find_last, lookup-index}

module _ {S : Type 0} (st : Storage S) (static_clients : List Client) where
  -- The constructor's loop.
  abbrev clients_by_id : Map String Client
  clients_by_id = index_from (λ (c : Client). c.id) [] static_clients

  is_static : String → Bool
  is_static id = has (id) clients_by_id

  get_client : String → S → Result Client × S
  get_client id s = elim (lookup (id) clients_by_id) [
    | some client ↦ (ok client, s)
    | none ↦ st.get_client (id) s
  ]

  -- The loop moves what is not static to the front of the slice, and the static clients follow.
  list_clients : S → Result (List Client) × S
  list_clients s =
      let (r, t) = st.list_clients s in
      (
        elim r [
          | ok clients ↦ ok (select (λ c. not (is_static c.id)) clients ++ static_clients)
          | err e ↦ err e
        ],
        t,
      )

  create_client : Client → S → Result (Unit {0}) × S
  create_client c s = elim (is_static c.id) [
    | true ↦ (err (other "static clients: read-only cannot create client"), s)
    | false ↦ st.create_client c s
  ]

  delete_client : String → S → Result (Unit {0}) × S
  delete_client id s = elim (is_static id) [
    | true ↦ (err (other "static clients: read-only cannot delete client"), s)
    | false ↦ st.delete_client id s
  ]

  update_client : String → (Client → Result Client) → S → Result (Unit {0}) × S
  update_client id updater s = elim (is_static id) [
    | true ↦ (err (other "static clients: read-only cannot update client"), s)
    | false ↦ st.update_client id updater s
  ]

  unfoldable pub with_static_clients : Storage S
  unfolding get_client list_clients create_client delete_client update_client is_static index_from
      has
  with_static_clients = record st {
    get_client = get_client;
    list_clients = list_clients;
    create_client = create_client;
    delete_client = delete_client;
    update_client = update_client;
  }
