-- ===== src/Storage/Static/Passwords.antt =====
-- storage/static.go: the storage with static passwords.
pub mod ReadOnly
use dex.Prelude.{
  String, Bool, true, false, not, Result, ok, err, other, Error, some, none, List, [], ◌∷◌, ◌++◌,
  ◌≡◌, ◌∙◌, select, string_eq, refl, arith, ap, Option, In, In-select_inv, In-select,
  In-append_left, In-append_right, In-append_cases, ◌↔◌, ◌⊎◌, inl, inr, Result-cases, Option-cases,
}
use dex.GoMap.{Map, lookup, has}
use dex.Storage.Types.{Password}
use dex.Storage.Interface.{Storage}
use dex.Storage.Index.{index_from, find_last, lookup-index}

module _ (to_lower : String → String) {S : Type 0} (st : Storage S)
    (static_passwords : List Password) where
  -- The constructor's loop.
  abbrev passwords_by_email : Map String Password
  passwords_by_email = index_from (λ (p : Password). to_lower p.email) [] static_passwords

  is_static : String → Bool
  is_static email = has (to_lower email) passwords_by_email

  get_password : String → S → Result Password × S
  get_password email s = elim (lookup (to_lower email) passwords_by_email) [
    | some password ↦ (ok password, s)
    | none ↦ st.get_password (to_lower email) s
  ]

  -- The loop moves what is not static to the front of the slice, and the static passwords follow.
  list_passwords : S → Result (List Password) × S
  list_passwords s =
      let (r, t) = st.list_passwords s in
      (
        elim r [
          | ok passwords ↦ ok (select (λ c. not (is_static c.email)) passwords ++ static_passwords)
          | err e ↦ err e
        ],
        t,
      )

  create_password : Password → S → Result (Unit {0}) × S
  create_password c s = elim (is_static c.email) [
    | true ↦ (err (other "static passwords: read-only cannot create password"), s)
    | false ↦ st.create_password c s
  ]

  delete_password : String → S → Result (Unit {0}) × S
  delete_password email s = elim (is_static email) [
    | true ↦ (err (other "static passwords: read-only cannot delete password"), s)
    | false ↦ st.delete_password email s
  ]

  update_password : String → (Password → Result Password) → S → Result (Unit {0}) × S
  update_password email updater s = elim (is_static email) [
    | true ↦ (err (other "static passwords: read-only cannot update password"), s)
    | false ↦ st.update_password email updater s
  ]

  unfoldable pub with_static_passwords : Storage S
  unfolding get_password list_passwords create_password delete_password update_password is_static
      index_from has
  with_static_passwords = record st {
    get_password = get_password;
    list_passwords = list_passwords;
    create_password = create_password;
    delete_password = delete_password;
    update_password = update_password;
  }
