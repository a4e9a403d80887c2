-- ===== src/Tests/Etcd.antt =====
-- A small database in the place of etcd, and the etcd storage on it.
use dex.Prelude.{
  ℕ, ◌+◌, String, Bool, true, false, Option, some, none, [], ◌∷◌, Result, ok, err, other, not_found,
  ◌≡◌, refl, sym, ok_injective, ◌==◌, string_eq, nat_eq, eq_refl, eq_iff, arith,
}
use dex.GoMap.{Map, lookup, insert, delete}
use dex.GoMap.Laws.{lookup-insert}
use dex.Storage.{Bytes, Password}
use dex.Etcd.Types.{zero_password, from_storage_refresh_token}
use dex.Etcd.Db.{
  KeyValue, Compare, create_revision, mod_revision, Client, Codec, current_revision,
  txn_update_amid, txn_update, updated, commit, txn_create, current_value, prepare, key_email,
  key_id,
}
use dex.Etcd.Env.{Environment, password_prefix, refresh_token_prefix}
use dex.Memory
use dex.Etcd.Objects.{create_refresh, get_refresh}
use dex.Etcd.Configured.{update_password}
use dex.Etcd.Sessions.{get_offline_sessions, delete_offline_sessions, update_offline_sessions}
use dex.Etcd.Laws.{Laws, ReadsBack}
use dex.Etcd.Update.{Holds, txn_update_amid-Applied}
use dex.Etcd.Shared.{
  create_refresh-get_refresh, update_password-missing, get_offline_sessions-shift,
}
use dex.Tests.Data.{refresh}

record Etcd : Type 0 where
  pub revision : ℕ
  pub entries : Map String KeyValue

abbrev revision_of : Option KeyValue → ℕ
revision_of none = 0
revision_of (some kv) = kv.mod_revision

abbrev holds : Compare → Etcd → Bool
holds (create_revision k n) d = elim (lookup k d.entries) [ none ↦ true | some kv ↦ false ]
holds (mod_revision k r) d = revision_of (lookup k d.entries) == r

abbrev put : String → Bytes → Etcd → Etcd
put k v d = record {
  revision = d.revision + 1;
  entries = insert k (record { value = v; mod_revision = d.revision + 1 }) d.entries;
}

abbrev guarded : Bool → String → Bytes → Etcd → Result Bool × Etcd
guarded true k v d = (ok true, put k v d)
guarded false k v d = (ok false, d)

abbrev fake : Client Etcd
fake = record {
  get = λ k d. (ok (lookup k d.entries), d);
  get_prefix = λ p d. (ok [], d);
  delete = λ k d. (
    ok (elim (lookup k d.entries) [ none ↦ 0 | some kv ↦ 1 ]),
    record d { entries = delete k d.entries },
  );
  txn = λ c k v d. guarded (holds c d) k v d;
}

guarded-true :
    (b : Bool) (k : String) (v : Bytes) (d : Etcd) → (guarded b k v d).0 ≡ ok true → b ≡ true
guarded-true true k v d h = refl
guarded-true false k v d h = cc

guarded-put :
    (b : Bool) (k : String) (v : Bytes) (d : Etcd)
    → (guarded b k v d).0 ≡ ok true
    → (kv : KeyValue) × (lookup k (guarded b k v d).1.entries ≡ some kv) × (kv.value ≡ v)
guarded-put true k v d h = (
  record { value = v; mod_revision = d.revision + 1 },
  rw (lookup-insert k k (record { value = v; mod_revision = d.revision + 1 }) d.entries, eq_refl k)
      refl,
  refl,
)
guarded-put false k v d h = cc

guarded-others :
    (b : Bool) (k j : String) (v : Bytes) (d : Etcd)
    → (k == j) ≡ false
    → lookup j (guarded b k v d).1.entries ≡ lookup j d.entries
guarded-others true k j v d h =
    rw (lookup-insert k j (record { value = v; mod_revision = d.revision + 1 }) d.entries, h) refl
guarded-others false k j v d h = refl

guarded-refused :
    (b : Bool) (k j : String) (v : Bytes) (d : Etcd)
    → (guarded b k v d).0 ≡ ok false
    → lookup j (guarded b k v d).1.entries ≡ lookup j d.entries
guarded-refused true k j v d h = cc
guarded-refused false k j v d h = refl

absent : (o : Option KeyValue) → elim o [ none ↦ true | some kv ↦ false ] ≡ true → o ≡ none
absent none h = refl
absent (some kv) h = cc

current : (o : Option KeyValue) (r : ℕ) → (revision_of o == r) ≡ true → current_revision fake o ≡ r
current none r h = ground (arith, eq_iff 0 r)
current (some kv) r h = ground (arith, eq_iff kv.mod_revision r)

abbrev fake_laws : Laws fake
fake_laws = record {
  view = λ d k. lookup k d.entries;
  get = λ d k o h. sym (ok_injective h);
  get_view = λ d k j. refl;
  absent =
      λ d k v h. absent (lookup k d.entries) (guarded-true (holds (create_revision k 0) d) k v d h);
  guard = λ d k r v h.
      current (lookup k d.entries) r (guarded-true (holds (mod_revision k r) d) k v d h);
  put = λ d c k v h. guarded-put (holds c d) k v d h;
  others = λ d c k j v n. guarded-others (holds c d) k j v d n;
  refused = λ d c k j v h. guarded-refused (holds c d) k j v d h;
}

abbrev no_json : {A : Type 0} → Codec A
no_json = record { marshal = λ a. err (other "json"); unmarshal = λ b. err (other "json") }

-- JSON of one object only.
abbrev json_of : {A : Type 0} → A → Codec A
json_of a = record { marshal = λ b. ok (1 ∷ []); unmarshal = λ b. ok a }

abbrev environment : Environment Etcd
environment = record {
  db = fake;
  to_lower = λ s. s;
  quote = λ s. s;
  client_json = no_json;
  auth_code_json = no_json;
  stored_code_json = no_json;
  auth_request_json = no_json;
  refresh_token_json = json_of (from_storage_refresh_token refresh);
  password_json = json_of zero_password;
  offline_sessions_json = no_json;
  connector_json = no_json;
  keys_json = no_json;
}

abbrev empty_etcd : Etcd
empty_etcd = record { revision = 0; entries = [] }

abbrev one_key : Etcd
one_key = put "key" (7 ∷ []) empty_etcd

abbrev push : Bytes → Result (Bytes × Unit {0})
push v = ok (8 ∷ v, tt)

abbrev other_write : Etcd → Etcd
other_write d = put "other" (9 ∷ []) d

txn_update_amid-Applied_example :
    (b : Bytes) × (push (
        current_value fake
          (lookup "key" (other_write (prepare fake (λ s. s) "key" push one_key).1).entries))
      ≡ ok (b, tt))
    × Holds fake fake_laws (txn_update_amid fake (λ s. s) "key" push other_write one_key).1 "key" b
    × ((j : String)
        → ("key" == j) ≡ false
        → lookup j (txn_update_amid fake (λ s. s) "key" push other_write one_key).1.entries
          ≡ lookup j (other_write (prepare fake (λ s. s) "key" push one_key).1).entries)
unfolding txn_update_amid prepare commit lookup insert
txn_update_amid-Applied_example =
    txn_update_amid-Applied fake fake_laws (λ s. s) "key" push other_write one_key tt (λ r. refl)
      refl

refresh_round : ReadsBack environment.refresh_token_json (from_storage_refresh_token refresh)
refresh_round = record { back = λ b h. refl }

create_refresh-get_refresh_example :
    (get_refresh environment "refresh" (create_refresh environment refresh empty_etcd).1).0
    ≡ ok refresh
unfolding create_refresh txn_create lookup
create_refresh-get_refresh_example =
    create_refresh-get_refresh environment fake_laws refresh empty_etcd
      (lookup (key_id refresh_token_prefix "refresh")
        (create_refresh environment refresh empty_etcd).1.entries)
      refresh_round refl refl

update_password-missing_example :
    ((p : Password) × (◌≡◌ {A = Result Password} (ok zero_password) (ok p))
      × (b : Bytes) × (environment.password_json.marshal p ≡ ok b)
      × Holds fake fake_laws
          (update_password environment "jane" ok empty_etcd).1
          (key_email (λ s. s) password_prefix "jane")
          b)
    × (Memory.update_password (λ s. s) "jane" ok Memory.empty ≡ (err not_found, Memory.empty))
unfolding update_password txn_update txn_update_amid prepare commit updated lookup
update_password-missing_example =
    update_password-missing environment fake_laws "jane" ok empty_etcd Memory.empty refl refl refl

get_offline_sessions-shift_example :
    (get_offline_sessions environment "a|b" "c" empty_etcd
      ≡ get_offline_sessions environment "a" "b|c" empty_etcd)
    × (delete_offline_sessions environment "a|b" "c" empty_etcd
        ≡ delete_offline_sessions environment "a" "b|c" empty_etcd)
    × (update_offline_sessions environment "a|b" "c" (λ o. ok (o, "")) empty_etcd
        ≡ update_offline_sessions environment "a" "b|c" (λ o. ok (o, "")) empty_etcd)
get_offline_sessions-shift_example =
    get_offline_sessions-shift environment "a" "b" "c" (λ o. ok (o, "")) empty_etcd
