-- ===== src/Storage/Static/Passwords/ReadOnly.antt =====
-- storage/static.go: the read-only passwords, as the methods of the wrapped storage show them.
use dex.Prelude.{
  String, true, not, Result, ok, err, other, some, none, List, ◌++◌, ◌≡◌, ◌∙◌, select, string_eq,
  refl, arith, Option, In, ◌↔◌, ◌⊎◌, inl, inr,
}
use dex.GoMap.{has}
use dex.Storage.Types.{Password}
use dex.Storage.Interface.{Storage}
use dex.Storage.Index.{find_last, lookup-index, In-merge}
use dex.Storage.Static.Passwords.{with_static_passwords, is_static}

module _ (to_lower : String → String) {S : Type 0} (st : Storage S)
    (static_passwords : List Password) where
  abbrev pub static_password : String → Option Password
  static_password email =
      find_last (λ (p : Password). to_lower p.email) (to_lower email) static_passwords

  abbrev pub wrapped_passwords : Storage S
  wrapped_passwords = with_static_passwords to_lower st static_passwords

  is_static_iff :
      (email : String)
      → (not (is_static to_lower st static_passwords email) ≡ true) ↔ (static_password email ≡ none)
  unfolding is_static has
  is_static_iff email =
      ground
        (arith, lookup-index (λ (p : Password). to_lower p.email) (to_lower email) static_passwords)

  -- For the lower-case address of a static password, reading gives the last static password with that lower-case address; deleting it,
  -- updating it and creating a password with it are refused, and nothing touches the storage behind.
  pub static_passwords_read_only :
      (email : String) (s : S) (c d : Password) (updater : Password → Result Password)
      → static_password email ≡ some c
      → to_lower d.email ≡ to_lower email
      → (wrapped_passwords.get_password email s ≡ (ok c, s))
        × (wrapped_passwords.create_password d s
            ≡ (err (other "static passwords: read-only cannot create password"), s))
        × (wrapped_passwords.delete_password email s
            ≡ (err (other "static passwords: read-only cannot delete password"), s))
        × (wrapped_passwords.update_password email updater s
            ≡ (err (other "static passwords: read-only cannot update password"), s))
  unfolding with_static_passwords
  static_passwords_read_only email s c d updater h k =
      let found =
        lookup-index (λ (p : Password). to_lower p.email) (to_lower email) static_passwords ∙ h in
      (ground (arith, found), ground (arith, found), ground (arith, found), ground (arith, found))

  -- For a lower-case address of no static password all four methods are those of the storage behind, reading at the lower-case address.
  pub static_passwords_pass_through :
      (email : String) (s : S) (d : Password) (updater : Password → Result Password)
      → static_password email ≡ none
      → to_lower d.email ≡ to_lower email
      → (wrapped_passwords.get_password email s ≡ st.get_password (to_lower email) s)
        × (wrapped_passwords.create_password d s ≡ st.create_password d s)
        × (wrapped_passwords.delete_password email s ≡ st.delete_password email s)
        × (wrapped_passwords.update_password email updater s ≡ st.update_password email updater s)
  unfolding with_static_passwords
  static_passwords_pass_through email s d updater h k =
      let found =
        lookup-index (λ (p : Password). to_lower p.email) (to_lower email) static_passwords ∙ h in
      (ground (arith, found), ground (arith, found), ground (arith, found), ground (arith, found))

  -- When the storage behind lists its passwords, the list holds a password exactly if it is static, or is
  -- in the storage's list and no static password has its key.
  pub list-static_passwords :
      (s : S) (stored : List Password) (c : Password)
      → (st.list_passwords s).0 ≡ ok stored
      → (all : List Password) × ((wrapped_passwords.list_passwords s).0 ≡ ok all)
        × (In c all ↔ (In c static_passwords ⊎ (In c stored × (static_password c.email ≡ none))))
  unfolding with_static_passwords
  list-static_passwords s stored c h = (
    select (λ x. not (is_static to_lower st static_passwords x.email)) stored ++ static_passwords,
    rw h refl,
    (
      (λ k.
          elim ((In-merge (λ x. not (is_static to_lower st static_passwords x.email)) stored
              static_passwords c).0
            k) [ inl a ↦ inl a | inr a ↦ inr (a.0, (is_static_iff c.email).0 a.1) ]),
      (λ k.
          (In-merge (λ x. not (is_static to_lower st static_passwords x.email)) stored
              static_passwords c).1
            (elim k [ inl a ↦ inl a | inr a ↦ inr (a.0, (is_static_iff c.email).1 a.1) ])),
    ),
  )
