-- ===== src/Storage/Static/Connectors/ReadOnly.antt =====
-- storage/static.go: the read-only connectors, as the methods of the wrapped storage show them.
use dex.Prelude.{
  String, true, not, Result, ok, err, other, some, none, List, ◌++◌, ◌≡◌, ◌∙◌, select, string_eq,
  refl, arith, Option, In, ◌↔◌, ◌⊎◌, inl, inr,
}
use dex.GoMap.{has}
use dex.Storage.Types.{Connector}
use dex.Storage.Interface.{Storage}
use dex.Storage.Index.{find_last, lookup-index, In-merge}
use dex.Storage.Static.Connectors.{with_static_connectors, is_static}

module _ {S : Type 0} (st : Storage S) (static_connectors : List Connector) where
  abbrev pub static_connector : String → Option Connector
  static_connector id = find_last (λ (c : Connector). c.id) id static_connectors

  abbrev pub wrapped_connectors : Storage S
  wrapped_connectors = with_static_connectors st static_connectors

  is_static_iff :
      (id : String)
      → (not (is_static st static_connectors id) ≡ true) ↔ (static_connector id ≡ none)
  unfolding is_static has
  is_static_iff id = ground (arith, lookup-index (λ (c : Connector). c.id) id static_connectors)

  -- For the ID of a static connector, reading gives the last static connector with that ID; deleting it,
  -- updating it and creating a connector with it are refused, and nothing touches the storage behind.
  pub static_connectors_read_only :
      (id : String) (s : S) (c d : Connector) (updater : Connector → Result Connector)
      → static_connector id ≡ some c
      → d.id ≡ id
      → (wrapped_connectors.get_connector id s ≡ (ok c, s))
        × (wrapped_connectors.create_connector d s
            ≡ (err (other "static connectors: read-only cannot create connector"), s))
        × (wrapped_connectors.delete_connector id s
            ≡ (err (other "static connectors: read-only cannot delete connector"), s))
        × (wrapped_connectors.update_connector id updater s
            ≡ (err (other "static connectors: read-only cannot update connector"), s))
  unfolding with_static_connectors
  static_connectors_read_only id s c d updater h k =
      let found = lookup-index (λ (c : Connector). c.id) id static_connectors ∙ h in
      (ground (arith, found), ground (arith, found), ground (arith, found), ground (arith, found))

  -- For an ID of no static connector all four methods are those of the storage behind.
  pub static_connectors_pass_through :
      (id : String) (s : S) (d : Connector) (updater : Connector → Result Connector)
      → static_connector id ≡ none
      → d.id ≡ id
      → (wrapped_connectors.get_connector id s ≡ st.get_connector id s)
        × (wrapped_connectors.create_connector d s ≡ st.create_connector d s)
        × (wrapped_connectors.delete_connector id s ≡ st.delete_connector id s)
        × (wrapped_connectors.update_connector id updater s ≡ st.update_connector id updater s)
  unfolding with_static_connectors
  static_connectors_pass_through id s d updater h k =
      let found = lookup-index (λ (c : Connector). c.id) id static_connectors ∙ h in
      (ground (arith, found), ground (arith, found), ground (arith, found), ground (arith, found))

  -- When the storage behind lists its connectors, the list holds a connector exactly if it is static, or is
  -- in the storage's list and no static connector has its key.
  pub list-static_connectors :
      (s : S) (stored : List Connector) (c : Connector)
      → (st.list_connectors s).0 ≡ ok stored
      → (all : List Connector) × ((wrapped_connectors.list_connectors s).0 ≡ ok all)
        × (In c all ↔ (In c static_connectors ⊎ (In c stored × (static_connector c.id ≡ none))))
  unfolding with_static_connectors
  list-static_connectors s stored c h = (
    select (λ x. not (is_static st static_connectors x.id)) stored ++ static_connectors,
    rw h refl,
    (
      (λ k.
          elim ((In-merge (λ x. not (is_static st static_connectors x.id)) stored static_connectors
              c).0
            k) [ inl a ↦ inl a | inr a ↦ inr (a.0, (is_static_iff c.id).0 a.1) ]),
      (λ k.
          (In-merge (λ x. not (is_static st static_connectors x.id)) stored static_connectors c).1
            (elim k [ inl a ↦ inl a | inr a ↦ inr (a.0, (is_static_iff c.id).1 a.1) ])),
    ),
  )
