-- ===== src/Etcd/Shared.antt =====
-- storage/etcd/etcd.go: what the methods make of their keys: a created refresh token is found again,
-- an update of a password that is not stored creates one, and sessions that share a key.
use Prim.Native.String.{◌++◌ as ◌+++◌}
use text.Mathlib.TextLemmas.{append_assoc}
use dex.Prelude.{
  not_found, String, Option, none, [], Result, ok, err, ◌≡◌, refl, sym, ◌∙◌, ap, subst, inl, inr,
  Result-cases, ok_injective, string_eq, nat_eq,
}
use dex.Storage.{Bytes, RefreshToken, OfflineSessions, Password}
use dex.Etcd.Types.{
  from_storage_refresh_token, to_storage_refresh_token, to_storage_claims, from_storage_claims,
  zero_password,
}
use dex.Etcd.Db.{
  current_value, KeyValue, Codec, key_id, key_email, key_session, get_key, txn_update, updated,
  plain, prepare,
}
use dex.Etcd.Env.{Environment, offline_session_prefix, refresh_token_prefix, password_prefix}
use dex.Etcd.Objects.{converted, create_refresh, get_refresh}
use dex.Etcd.Configured.{update_password}
use dex.Etcd.Sessions.{get_offline_sessions, delete_offline_sessions, update_offline_sessions}
use dex.Etcd.Laws.{Laws, ReadsBack}
use dex.GoMap.{lookup}
use dex.Memory
use dex.Memory.{MemStorage}
use dex.Memory.Table
use dex.Etcd.Update.{Holds, txn_update_amid-Applied, txn_create-get_key}

converted-ok :
    {A B D : Type 0} (f : A → B) (x : Result A × D) (a : A)
    → x.0 ≡ ok a
    → (converted f x).0 ≡ ok (f a)
converted-ok f (ok b, d) a h = ap (λ z. ok (f z)) (ok_injective h)
converted-ok f (err e, d) a h = cc

-- An update where there is no value.
updated-zero :
    {A : Type 0} (codec : Codec A) (zero : A) (f : A → Result A) (b : Bytes)
    → updated codec zero (λ a. a) (λ a. a) (plain f) [] ≡ ok (b, tt)
    → (p : A) × (f zero ≡ ok p) × (codec.marshal p ≡ ok b)
unfolding updated
updated-zero codec zero f b h = elim (Result-cases (f zero)) [
  | inr (x, e) ↦ cc (rw (e, updated) at h)
  | inl (p, e) ↦ elim (Result-cases (codec.marshal p)) [
    | inr (x, m) ↦ cc (rw (e, m, updated) at h)
    | inl (v, m) ↦
        (p, e, m ∙ ap (λ (t : Bytes × Unit {0}). ok t.0) (ok_injective (rw (e, m, updated) at h)))
  ]
]

refresh_token-converted :
    (r : RefreshToken) → to_storage_refresh_token (from_storage_refresh_token r) ≡ r
unfolding to_storage_refresh_token from_storage_refresh_token to_storage_claims from_storage_claims
refresh_token-converted r = refl

module _ {D : Type 0} (env : Environment D) where
  -- If JSON reads back what it writes of the etcd form of a refresh token, and the database obeys the
  -- laws of etcd's guarded puts: a refresh token that CreateRefresh has stored is, with every field,
  -- the one that GetRefresh returns next, unless the read of the database fails.
  pub create_refresh-get_refresh :
      (laws : Laws env.db) (r : RefreshToken) (d : D) (found : Option KeyValue)
      → ReadsBack env.refresh_token_json (from_storage_refresh_token r)
      → (create_refresh env r d).0 ≡ ok tt
      → (env.db.get (key_id refresh_token_prefix r.id) (create_refresh env r d).1).0 ≡ ok found
      → (get_refresh env r.id (create_refresh env r d).1).0 ≡ ok r
  unfolding create_refresh get_refresh
  create_refresh-get_refresh laws r d found json h g =
      converted-ok to_storage_refresh_token
        (get_key env.db env.refresh_token_json (key_id refresh_token_prefix r.id)
          (create_refresh env r d).1)
        (from_storage_refresh_token r)
        (txn_create-get_key env.db laws env.refresh_token_json (key_id refresh_token_prefix r.id)
          (from_storage_refresh_token r) d found json h g)
      ∙ ap ok (refresh_token-converted r)

  -- On a database that obeys the laws of etcd's guarded puts: when UpdatePassword succeeds for an
  -- address that has no password, it has stored what the updater makes of the zero password. The
  -- in-memory storage, when it has no password for the address, returns the error for a missing
  -- object and stays as it is, whatever the updater.
  pub update_password-missing :
      (laws : Laws env.db) (email : String) (f : Password → Result Password) (d : D)
      (m : MemStorage)
      → laws.view d (key_email env.to_lower password_prefix email) ≡ none
      → (update_password env email f d).0 ≡ ok tt
      → lookup (env.to_lower email) m.passwords ≡ none
      → ((p : Password) × (f zero_password ≡ ok p)
          × (b : Bytes) × (env.password_json.marshal p ≡ ok b)
          × Holds env.db laws
              (update_password env email f d).1
              (key_email env.to_lower password_prefix email)
              b)
        × (Memory.update_password env.to_lower email f m ≡ (err not_found, m))
  unfolding update_password txn_update prepare Memory.update_password Table.update
  update_password-missing laws email f d m missing h unknown =
      let key = key_email env.to_lower password_prefix email in
      let update = updated env.password_json zero_password (λ a. a) (λ a. a) (plain f) in
      let (b, done, held, kept) =
        txn_update_amid-Applied env.db laws env.quote key update (λ d'. d') d tt
          (λ r. sym (laws.get_view d key key)) h in
      let (p, changed, written) = updated-zero env.password_json zero_password f b (
        subst (λ o. update (current_value env.db o) ≡ ok (b, tt))
          (laws.get_view d key key ∙ missing) done) in
      ((p, changed, b, written, held), rw (unknown, Memory.update_password, Table.update) refl)

  key_session-shift :
      (prefix a b c : String)
      → key_session env.to_lower prefix (a +++ "|" +++ b) c
        ≡ key_session env.to_lower prefix a (b +++ "|" +++ c)
  unfolding key_session
  key_session-shift prefix a b c = ap (λ s. prefix +++ env.to_lower s) (simp append_assoc)

  -- The sessions of a user "a|b" with a connector "c" and those of a user "a" with a connector "b|c"
  -- are one object: GetOfflineSessions, DeleteOfflineSessions and UpdateOfflineSessions do the same
  -- for both pairs, on any database.
  pub get_offline_sessions-shift :
      (a b c : String) (f : OfflineSessions → Result (OfflineSessions × String)) (d : D)
      → (get_offline_sessions env (a +++ "|" +++ b) c d
          ≡ get_offline_sessions env a (b +++ "|" +++ c) d)
        × (delete_offline_sessions env (a +++ "|" +++ b) c d
            ≡ delete_offline_sessions env a (b +++ "|" +++ c) d)
        × (update_offline_sessions env (a +++ "|" +++ b) c f d
            ≡ update_offline_sessions env a (b +++ "|" +++ c) f d)
  unfolding get_offline_sessions delete_offline_sessions update_offline_sessions
  get_offline_sessions-shift a b c f d = (
    rw (key_session-shift offline_session_prefix a b c) refl,
    rw (key_session-shift offline_session_prefix a b c) refl,
    rw (key_session-shift offline_session_prefix a b c) refl,
  )
