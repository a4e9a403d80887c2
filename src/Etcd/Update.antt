-- ===== src/Etcd/Update.antt =====
-- storage/etcd/etcd.go: txnUpdate among other writers, and a key that is created and read.
use dex.Prelude.{
  ℕ, String, Bool, true, false, Option, some, Result, ok, err, ◌≡◌, refl, sym, ◌∙◌, ap, subst, inl,
  inr, Result-cases, ◌==◌, string_eq, ok_injective,
}
use dex.Storage.{Bytes}
use dex.Etcd.Db.{
  KeyValue, Client, Codec, create_revision, mod_revision, current_value, current_revision, created,
  committed, prepare, commit, txn_update_amid, txn_create, get_key, decoded,
}
use dex.Etcd.Laws.{Laws, ReadsBack}

module _ {D : Type 0} (db : Client D) (laws : Laws db) where
  -- A key holds a value.
  abbrev pub Holds : D → String → Bytes → Type 0
  Holds d k v = (kv : KeyValue) × (laws.view d k ≡ some kv) × (kv.value ≡ v)

  module _ (quote : String → String) {C : Type 0} (key : String)
      (update : Bytes → Result (Bytes × C)) where
    prepare-ok :
        (d : D) (b : Bytes) (c : C) (r : ℕ)
        → (prepare db quote key update d).0 ≡ ok (b, c, r)
        → (update (current_value db (laws.view d key)) ≡ ok (b, c))
          × (current_revision db (laws.view d key) ≡ r)
    unfolding prepare
    prepare-ok d b c r h = elim (Result-cases (db.get key d).0) [
      | inr (x, e) ↦ cc (rw (e, prepare) at h)
      | inl (found, e) ↦
          let same = laws.get d key found e in
          elim (Result-cases (update (current_value db found))) [
            | inr (x, u) ↦ cc (rw (e, u, prepare) at h)
            | inl (p, u) ↦
                let triple = ok_injective (rw (e, u, prepare) at h) in
                (
                  subst (λ o. update (current_value db o) ≡ ok (b, c)) same
                      (u ∙ ap (λ (t : Bytes × C × ℕ). ok (t.0, t.1)) triple),
                  subst (λ o. current_revision db o ≡ r) same
                      (ap (λ (t : Bytes × C × ℕ). t.2) triple),
                )
          ]
    ]

    committed-ok :
        (c c' : C) (r : Result Bool)
        → committed db quote key update c r ≡ ok c'
        → (r ≡ ok true) × (c ≡ c')
    committed-ok c c' (ok true) h = (refl, ok_injective h)
    committed-ok c c' (ok false) h = cc
    committed-ok c c' (err x) h = cc

    applied :
        (p : Result (Bytes × C × ℕ)) (d e : D) (c : C)
        → (prepare db quote key update d).0 ≡ p
        → (current_revision db (laws.view d key) ≡ current_revision db (laws.view e key)
            → laws.view d key ≡ laws.view e key)
        → (commit db quote key update p e).0 ≡ ok c
        → (b : Bytes) × (update (current_value db (laws.view e key)) ≡ ok (b, c))
          × Holds (commit db quote key update p e).1 key b
          × ((j : String)
              → (key == j) ≡ false
              → laws.view (commit db quote key update p e).1 j ≡ laws.view e j)
    unfolding commit
    applied (err x) d e c q unmodified h = cc
    applied (ok (b, c', r)) d e c q unmodified h =
        let (put, same) = committed-ok c' c (db.txn (mod_revision key r) key b e).0 h in
        let (done, read) = prepare-ok d b c' r q in
        let unchanged = unmodified (read ∙ sym (laws.guard e key r b put)) in
        (
          b,
          subst (λ o. update (current_value db o) ≡ ok (b, c)) unchanged
              (done ∙ ap (λ x. ok (b, x)) same),
          laws.put e (mod_revision key r) key b put,
          (λ j n. laws.others e (mod_revision key r) key j b n),
        )

    -- On a database that obeys the laws of etcd's guarded puts, whatever others do between the two
    -- halves of txnUpdate, if the key's value changes with its revision, and if txnUpdate succeeds:
    -- the update was made on the value that the key has when the put takes place, the key then holds
    -- the updated value, and no other key is changed by the put.
    pub txn_update_amid-Applied :
        (others : D → D) (d : D) (c : C)
        → (current_revision db (laws.view d key)
              ≡ current_revision db (laws.view (others (prepare db quote key update d).1) key)
            → laws.view d key ≡ laws.view (others (prepare db quote key update d).1) key)
        → (txn_update_amid db quote key update others d).0 ≡ ok c
        → (b : Bytes) × (update
              (current_value db (laws.view (others (prepare db quote key update d).1) key))
            ≡ ok (b, c))
          × Holds (txn_update_amid db quote key update others d).1 key b
          × ((j : String)
              → (key == j) ≡ false
              → laws.view (txn_update_amid db quote key update others d).1 j
                ≡ laws.view (others (prepare db quote key update d).1) j)
    unfolding txn_update_amid
    txn_update_amid-Applied others d c =
        applied (prepare db quote key update d).0 d (others (prepare db quote key update d).1) c
          refl

  created-ok : (r : Result Bool) → created db r ≡ ok tt → r ≡ ok true
  created-ok (ok true) h = refl
  created-ok (ok false) h = cc
  created-ok (err x) h = cc

  -- A value that was created is what Get then finds, if it finds the key at all.
  pub txn_create-get_key :
      {B : Type 0} (codec : Codec B) (key : String) (object : B) (d : D) (found : Option KeyValue)
      → ReadsBack codec object
      → (txn_create db codec key object d).0 ≡ ok tt
      → (db.get key (txn_create db codec key object d).1).0 ≡ ok found
      → (get_key db codec key (txn_create db codec key object d).1).0 ≡ ok object
  unfolding txn_create get_key decoded
  txn_create-get_key codec key object d found json h g =
      elim (Result-cases (codec.marshal object)) [
        | inr (x, e) ↦ cc (rw (e, txn_create) at h)
        | inl (v, e) ↦
            let put =
              created-ok (db.txn (create_revision key 0) key v d).0 (rw (e, txn_create) at h) in
            let (kv, held, value) = laws.put d (create_revision key 0) key v put in
            let got : (db.get key (db.txn (create_revision key 0) key v d).1).0 ≡ ok found =
              rw (e, txn_create) at g in
            let same = laws.get (db.txn (create_revision key 0) key v d).1 key found got ∙ held in
            rw (e, got, same, txn_create, get_key, decoded)
              (ap codec.unmarshal value ∙ json.back v e)
      ]
