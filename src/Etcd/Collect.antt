-- ===== src/Etcd/Collect.antt =====
-- storage/etcd/etcd.go: GarbageCollect.
use dex.Prelude.{
  ℕ, ◌+◌, String, Option, some, none, List, [], ◌∷◌, Result, ok, err, Error, wrap, ltb,
  if◌then◌else◌,
}
use dex.Storage.{GcResult}
use dex.Etcd.Types
use dex.Etcd.Db
use dex.Etcd.Db.{key_id, delete_key, list_keys}
use dex.Etcd.Env.{Environment, auth_code_prefix, auth_request_prefix}

module _ {D A : Type 0} (db : Db.Client D) (prefix failure : String) (id : A → String)
    (expiry : A → ℕ) (now : ℕ) where
  -- The error of the last deletion that failed.
  abbrev later_error : Option Error → Result (Unit {0}) → Option Error
  later_error e (ok u) = e
  later_error e (err x) = some (wrap failure x)

  -- The loop over the objects of one kind: delete the expired ones and count them.
  unfoldable pub collect : List A → Option Error → ℕ → D → (Option Error × ℕ) × D
  unfolding delete_key key_id
  collect [] e n d = ((e, n), d)
  collect (a ∷ rest) e n d =
      let (r, d') = delete_key db (key_id prefix (id a)) d in
      let expired = ltb (expiry a) now in
      collect rest (if expired then later_error e r else e) (if expired then n + 1 else n)
        (if expired then d' else d)

module _ {D : Type 0} (env : Environment D) where
  -- The second half, once no deletion of a request has failed.
  unfoldable pub collect_codes : ℕ → ℕ → D → Result GcResult × D
  unfolding collect list_keys
  collect_codes now requests d =
      let (listed, d') = list_keys env.db env.auth_code_json auth_code_prefix d in
      elim listed [
        | err e ↦ (err e, d')
        | ok codes ↦
            let ((e, n), d'') =
              collect env.db auth_code_prefix "failed to delete auth code: "
                (λ (a : Types.AuthCode). a.id) (λ (a : Types.AuthCode). a.expiry) now codes none 0
                d' in
            elim e [
              | some x ↦ (err x, d'')
              | none ↦ (ok (record { auth_requests = requests; auth_codes = n }), d'')
            ]
      ]

  unfoldable pub garbage_collect : ℕ → D → Result GcResult × D
  unfolding collect list_keys collect_codes
  garbage_collect now d =
      let (listed, d') = list_keys env.db env.auth_request_json auth_request_prefix d in
      elim listed [
        | err e ↦ (err e, d')
        | ok requests ↦
            let ((e, n), d'') =
              collect env.db auth_request_prefix "failed to delete auth request: "
                (λ (a : Types.AuthRequest). a.id) (λ (a : Types.AuthRequest). a.expiry) now requests
                none 0 d' in
            elim e [ some x ↦ (err x, d'') | none ↦ collect_codes now n d'' ]
      ]
