-- ===== src/Etcd/Db.antt =====
-- storage/etcd/etcd.go: the helpers at the end of the file, over the client of etcd.
use Prim.Native.String.{◌++◌ as ◌+++◌}
use dex.Prelude.{
  ℕ, String, Bool, true, false, Option, some, none, List, [], ◌∷◌, if◌then◌else◌, ◌==◌, nat_eq,
  length, not_found, already_exists, other, Result, ok, err,
}
use dex.Storage.{Bytes}

-- A key's value, with the revision of its last modification.
pub record KeyValue : Type 0 where
  pub value : Bytes
  pub mod_revision : ℕ

-- The comparisons of clientv3 that guard a transaction; an absent key has the revisions 0.
pub data Compare : Type 0 where
  create_revision mod_revision : String → ℕ → Compare

-- The calls of clientv3.Client over a database `D`: Get of one key and of a prefix, Delete with the
-- number of deleted keys, and a Txn that puts one value if a comparison holds, with its success.
pub record Client (D : Type 0) : Type 0 where
  pub get : String → D → Result (Option KeyValue) × D
  pub get_prefix : String → D → Result (List KeyValue) × D
  pub delete : String → D → Result ℕ × D
  pub txn : Compare → String → Bytes → D → Result Bool × D

-- encoding/json, for one type.
pub record Codec (A : Type 0) : Type 0 where
  pub marshal : A → Result Bytes
  pub unmarshal : Bytes → Result A

unfoldable pub key_id : String → String → String
key_id prefix id = prefix +++ id

-- `strings.ToLower` is a parameter.
module _ (to_lower : String → String) where
  unfoldable pub key_email : String → String → String
  key_email prefix email = prefix +++ to_lower email

  unfoldable pub key_session : String → String → String → String
  key_session prefix user_id conn_id = prefix +++ to_lower (user_id +++ "|" +++ conn_id)

-- json.Unmarshal of each value, until one fails.
unfoldable pub decode_all : {A : Type 0} → Codec A → List KeyValue → Result (List A)
decode_all codec [] = ok []
decode_all codec (kv ∷ kvs) =
    let rest = decode_all codec kvs in
    elim (codec.unmarshal kv.value) [
      | err e ↦ err e
      | ok a ↦ elim rest [ err e ↦ err e | ok decoded ↦ ok (a ∷ decoded) ]
    ]

module _ {D : Type 0} (db : Client D) where
  unfoldable pub delete_key : String → D → Result (Unit {0}) × D
  delete_key key d =
      let (r, d') = db.delete key d in
      (elim r [ err e ↦ err e | ok deleted ↦ if deleted == 0 then err not_found else ok tt ], d')

  -- What getKey decodes.
  unfoldable pub decoded : {A : Type 0} → Codec A → Result (Option KeyValue) → Result A
  decoded codec (err e) = err e
  decoded codec (ok none) = err not_found
  decoded codec (ok (some kv)) = codec.unmarshal kv.value

  unfoldable pub get_key : {A : Type 0} → Codec A → String → D → Result A × D
  unfolding decoded
  get_key codec key d = let (r, d') = db.get key d in (decoded codec r, d')

  -- Get with a prefix, and the loop over the values.
  unfoldable pub list_keys : {A : Type 0} → Codec A → String → D → Result (List A) × D
  unfolding decode_all
  list_keys codec prefix d =
      let (r, d') = db.get_prefix prefix d in
      (elim r [ err e ↦ err e | ok kvs ↦ decode_all codec kvs ], d')

  abbrev pub created : Result Bool → Result (Unit {0})
  created (err e) = err e
  created (ok true) = ok tt
  created (ok false) = err already_exists

  unfoldable pub txn_create : {A : Type 0} → Codec A → String → A → D → Result (Unit {0}) × D
  txn_create codec key value d = elim (codec.marshal value) [
    | err e ↦ (err e, d)
    | ok b ↦ let (r, d') = db.txn (create_revision key 0) key b d in (created r, d')
  ]

  -- `currentValue` and `modRev`, from the result of Get.
  abbrev pub current_value : Option KeyValue → Bytes
  current_value none = []
  current_value (some kv) = kv.value

  abbrev pub current_revision : Option KeyValue → ℕ
  current_revision none = 0
  current_revision (some kv) = kv.mod_revision

  -- `fmt` with %q is a parameter. The updater also gives the value of a captured variable.
  module _ (quote : String → String) {C : Type 0} (key : String)
      (update : Bytes → Result (Bytes × C)) where
    -- The first half of txnUpdate: Get, and the update of the value that was found.
    unfoldable pub prepare : D → Result (Bytes × C × ℕ) × D
    prepare d =
        let (r, d') = db.get key d in
        (
          elim r [
            | err e ↦ err e
            | ok found ↦ elim (update (current_value found)) [
              | err e ↦ err e
              | ok (b, c) ↦ ok (b, c, current_revision found)
            ]
          ],
          d',
        )

    abbrev pub committed : C → Result Bool → Result C
    committed c (err e) = err e
    committed c (ok true) = ok c
    committed c (ok false) = err (
        other
          ("failed to update key=" +++ quote key +++ ": concurrent conflicting update happened"))

    -- The second half: the transaction, guarded by the revision that was read.
    unfoldable pub commit : Result (Bytes × C × ℕ) → D → Result C × D
    commit (err e) d = (err e, d)
    commit (ok (b, c, revision)) d =
        let (r, d') = db.txn (mod_revision key revision) key b d in (committed c r, d')

    -- txnUpdate, with what others do to the database between the halves.
    unfoldable pub txn_update_amid : (D → D) → D → Result C × D
    unfolding prepare commit
    txn_update_amid others d = let (p, d') = prepare d in commit p (others d')

    unfoldable pub txn_update : D → Result C × D
    unfolding txn_update_amid
    txn_update d = txn_update_amid (λ d'. d') d

-- The closure that an Update method hands to txnUpdate: decode the value, or take the zero value if
-- there is none, convert it, update it, and encode the result.
unfoldable pub updated :
    {A B C : Type 0}
    → Codec B
    → B
    → (B → A)
    → (A → B)
    → (A → Result (A × C))
    → Bytes
    → Result (Bytes × C)
updated codec zero to from f current =
    let old = if length current == 0 then ok zero else codec.unmarshal current in
    elim old [
      | err e ↦ err e
      | ok b ↦ elim (f (to b)) [
        | err e ↦ err e
        | ok (a, c) ↦ elim (codec.marshal (from a)) [ err e ↦ err e | ok bytes ↦ ok (bytes, c) ]
      ]
    ]

-- An updater that captures nothing.
abbrev pub plain : {A : Type 0} → (A → Result A) → A → Result (A × Unit {0})
plain f a = elim (f a) [ err e ↦ err e | ok b ↦ ok (b, tt) ]
