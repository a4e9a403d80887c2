-- ===== src/Storage/Static/Connectors.antt =====
-- storage/static.go: the storage with static connectors.
pub mod ReadOnly
use dex.Prelude.{
  String, Bool, true, false, not, Result, ok, err, other, Error, some, none, List, [], ◌∷◌, ◌++◌,
  ◌≡◌, ◌∙◌, select, string_eq, refl, arith, ap, Option, In, In-select_inv, In-select,
  In-append_left, In-append_right, In-append_cases, ◌↔◌, ◌⊎◌, inl, inr, Result-cases, Option-cases,
}
use dex.GoMap.{Map, lookup, has}
use dex.Storage.Types.{Connector}
use dex.Storage.Interface.{Storage}
use dex.Storage.Index.{index_from, find_last, lookup-index}

module _ {S : Type 0} (st : Storage S) (static_connectors : List Connector) where
  -- The constructor's loop.
  abbrev connectors_by_id : Map String Connector
  connectors_by_id = index_from (λ (c : Connector). c.id) [] static_connectors

  is_static : String → Bool
  is_static id = has (id) connectors_by_id

  get_connector : String → S → Result Connector × S
  get_connector id s = elim (lookup (id) connectors_by_id) [
    | some connector ↦ (ok connector, s)
    | none ↦ st.get_connector (id) s
  ]

  -- The loop moves what is not static to the front of the slice, and the static connectors follow.
  list_connectors : S → Result (List Connector) × S
  list_connectors s =
      let (r, t) = st.list_connectors s in
      (
        elim r [
          | ok connectors ↦ ok (select (λ c. not (is_static c.id)) connectors ++ static_connectors)
          | err e ↦ err e
        ],
        t,
      )

  create_connector : Connector → S → Result (Unit {0}) × S
  create_connector c s = elim (is_static c.id) [
    | true ↦ (err (other "static connectors: read-only cannot create connector"), s)
    | false ↦ st.create_connector c s
  ]

  delete_connector : String → S → Result (Unit {0}) × S
  delete_connector id s = elim (is_static id) [
    | true ↦ (err (other "static connectors: read-only cannot delete connector"), s)
    | false ↦ st.delete_connector id s
  ]

  update_connector : String → (Connector → Result Connector) → S → Result (Unit {0}) × S
  update_connector id updater s = elim (is_static id) [
    | true ↦ (err (other "static connectors: read-only cannot update connector"), s)
    | false ↦ st.update_connector id updater s
  ]

  unfoldable pub with_static_connectors : Storage S
  unfolding get_connector list_connectors create_connector delete_connector update_connector
      is_static index_from has
  with_static_connectors = record st {
    get_connector = get_connector;
    list_connectors = list_connectors;
    create_connector = create_connector;
    delete_connector = delete_connector;
    update_connector = update_connector;
  }
