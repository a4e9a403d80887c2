-- ===== src/Etcd/Laws.antt =====
-- storage/etcd/etcd.go: what the code relies on of etcd: what Get finds, and when a guarded put takes
-- place.
use dex.Prelude.{String, ℕ, true, false, Option, some, none, ok, ◌≡◌, ◌==◌, string_eq}
use dex.Storage.{Bytes}
use dex.Etcd.Db.{KeyValue, Compare, create_revision, mod_revision, Client, Codec, current_revision}

module _ {D : Type 0} (db : Client D) where
  pub record Laws : Type 0 where
    -- what the database holds under a key
    pub view : D → String → Option KeyValue
    pub get : (d : D) (k : String) (o : Option KeyValue) → (db.get k d).0 ≡ ok o → o ≡ view d k
    pub get_view : (d : D) (k j : String) → view (db.get k d).1 j ≡ view d j
    -- a put under the guard of the creation
    pub absent :
        (d : D) (k : String) (v : Bytes)
        → (db.txn (create_revision k 0) k v d).0 ≡ ok true
        → view d k ≡ none
    -- a put under the guard of the modification
    pub guard :
        (d : D) (k : String) (r : ℕ) (v : Bytes)
        → (db.txn (mod_revision k r) k v d).0 ≡ ok true
        → current_revision db (view d k) ≡ r
    pub put :
        (d : D) (c : Compare) (k : String) (v : Bytes)
        → (db.txn c k v d).0 ≡ ok true
        → (kv : KeyValue) × (view (db.txn c k v d).1 k ≡ some kv) × (kv.value ≡ v)
    pub others :
        (d : D) (c : Compare) (k j : String) (v : Bytes)
        → (k == j) ≡ false
        → view (db.txn c k v d).1 j ≡ view d j
    pub refused :
        (d : D) (c : Compare) (k j : String) (v : Bytes)
        → (db.txn c k v d).0 ≡ ok false
        → view (db.txn c k v d).1 j ≡ view d j

-- What the codec writes of an object it reads back.
pub record ReadsBack {B : Type 0} (codec : Codec B) (object : B) : Type 0 where
  pub back : (b : Bytes) → codec.marshal object ≡ ok b → codec.unmarshal b ≡ ok object
