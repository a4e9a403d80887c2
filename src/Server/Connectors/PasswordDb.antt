-- ===== src/Server/Connectors/PasswordDb.antt =====
-- server/server.go: whom the password database lets in.
use dex.Prelude.{
  String, true, Result, ok, err, not_found, already_exists, panicked, other, ◌≡◌, refl, arith,
  Bool-cases, Result-cases, inl, inr,
}
use dex.Storage.{Storage, Password}
use dex.Server.World.{Platform, Scopes, Identity}
use dex.Server.Connectors.{check_cost, check_password, password_db_login, password_identity}

module _ {S : Type 0} (st : Storage S) (platform : Platform S) where
  checked :
      (r : Result Password) (password : String) (identity : Identity)
      → check_password platform r password ≡ ok (identity, true)
      → (p : Password) × (r ≡ ok p)
        × (check_cost platform p.hash ≡ ok tt)
        × (platform.bcrypt_matches p.hash password ≡ true)
        × (identity ≡ password_identity platform p)
  unfolding check_password
  checked (ok p) password identity h = elim (Result-cases (check_cost platform p.hash)) [
    | inr (x, e) ↦ ground (arith, e)
    | inl (u, e) ↦ elim (Bool-cases (platform.bcrypt_matches p.hash password)) [
      | inr m ↦ ground (arith, e, m)
      | inl m ↦ (p, refl, e, m, ground (arith, e, m))
    ]
  ]
  checked (err not_found) password identity h = ground arith
  checked (err already_exists) password identity h = ground arith
  checked (err panicked) password identity h = ground arith
  checked (err (other m)) password identity h = ground arith

  -- When the password database accepts a login, the storage has a password for the address, its hash
  -- has an allowed cost and matches what was typed, and the identity is that of the stored password.
  pub password_db_login-Accepted :
      (scopes : Scopes) (email password : String) (identity : Identity) (s : S)
      → (password_db_login st platform scopes email password s).0 ≡ ok (identity, true)
      → (p : Password) × ((st.get_password email s).0 ≡ ok p)
        × (check_cost platform p.hash ≡ ok tt)
        × (platform.bcrypt_matches p.hash password ≡ true)
        × (identity ≡ password_identity platform p)
  unfolding password_db_login
  password_db_login-Accepted scopes email password identity s h =
      checked (st.get_password email s).0 password identity h
