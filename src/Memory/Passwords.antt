-- ===== src/Memory/Passwords.antt =====
-- storage/memory/memory.go: the methods on passwords.
use dex.Prelude.{String, Result, string_eq}
use dex.Storage.{Password}
use dex.Memory.State.{MemStorage, session_id_eq}
use dex.Memory.Table

-- Passwords are kept under the lower-case form of their e-mail address; `strings.ToLower` is a
-- parameter.
module _ (to_lower : String → String) where
  unfoldable pub create_password : Password → MemStorage → Result (Unit {0}) × MemStorage
  unfolding Table.create
  create_password p s =
      let (r, m) = Table.create (to_lower p.email) p s.passwords in (r, record s { passwords = m })

  unfoldable pub get_password : String → MemStorage → Result Password × MemStorage
  unfolding Table.get
  get_password email s = (Table.get (to_lower email) s.passwords, s)

  unfoldable pub delete_password : String → MemStorage → Result (Unit {0}) × MemStorage
  unfolding Table.remove
  delete_password email s =
      let (r, m) = Table.remove (to_lower email) s.passwords in (r, record s { passwords = m })

  unfoldable pub update_password :
      String → (Password → Result Password) → MemStorage → Result (Unit {0}) × MemStorage
  unfolding Table.update
  update_password email updater s =
      let (r, m) = Table.update (to_lower email) updater s.passwords in
      (r, record s { passwords = m })
