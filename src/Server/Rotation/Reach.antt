-- ===== src/Server/Rotation/Reach.antt =====
-- server/rotation.go and the key cacher of server/server.go: the histories of a server on the
-- in-memory storage, with other servers that rotate the keys of the same storage.
use dex.Prelude.{
  ℕ, ◌+◌, ◌≤◌, ◌<◌, String, Option, some, none, ok, List, [], ◌∷◌, ◌≡◌, refl, Option-cases, arith,
  ltb, ◌⊎◌, inl, inr, Bool-cases, not_ltb→le, Result-cases, ap, ◌∙◌,
}
use dex.Storage.{Keys, Storage}
use dex.Memory.{MemStorage, memory, get_keys, update_keys}
use dex.Server.KeyCacher.{Cacher, key_cacher, fresh}
use dex.Server.Rotation.{RotationStrategy, RotationInput, rotate, rotated, private_jwk, read_keys}
use dex.Server.Rotation.Safety.{Issued, Paired, after}

pub record Cluster : Type 0 where
  pub server : Cacher MemStorage
  pub issued : List Issued

abbrev pub at_time : ℕ → Cacher MemStorage → Cacher MemStorage
at_time t c = record c { clock = t }

fresh-some :
    (o : Option Keys) (now : ℕ) (k : Keys)
    → fresh o now ≡ some k
    → (o ≡ some k) × (now < k.next_rotation)
unfolding fresh
fresh-some none now k h = ground arith
fresh-some (some j) now k h = ground arith

-- A rotation reads the keys, and may then update them.
rotate_shape :
    {S : Type 0} (st : Storage S) (strategy : RotationStrategy) (input : RotationInput) (s : S)
    → ((rotate st strategy input s).1 ≡ (st.get_keys s).1)
      ⊎ ((n : ℕ) × ((rotate st strategy input s).1
            ≡ (st.update_keys (rotated strategy input n) (st.get_keys s).1).1))
unfolding rotate
rotate_shape st strategy input s = elim (Result-cases (read_keys (st.get_keys s).0)) [
  | inr (e, p) ↦ inl (ground (arith, p))
  | inl (keys, p) ↦ elim (Bool-cases (ltb input.first_now keys.next_rotation)) [
    | inl f ↦ inl (ground (arith, p))
    | inr f ↦ elim (Result-cases input.generated) [
      | inr (e, q) ↦ inl (ground (arith, p))
      | inl (n, q) ↦ inr (n, rw (p, f, q, rotate) refl)
    ]
  ]
]

module _ (to_lower : String → String) (strategy : RotationStrategy) where
  abbrev pub cached_storage : Storage (Cacher MemStorage)
  cached_storage = key_cacher (memory to_lower)

  -- Time passes; the server rotates, or another one does; the server reads the keys, to publish
  -- them or to sign an ID token.
  pub data Step : Cluster → Cluster → Type 0 where
    waits :
        (c : Cluster) (later : ℕ)
        → c.server.clock ≤ later
        → Step c (record c { server = at_time later c.server })
    rotates :
        (c : Cluster) (input : RotationInput)
        → c.server.clock ≤ input.update_now
        → input.update_now ≤ input.last_now
        → Step c (record c {
          server = at_time input.last_now (rotate cached_storage strategy input c.server).1;
        })
    rotates_elsewhere :
        (c : Cluster) (input : RotationInput)
        → c.server.clock ≤ input.update_now
        → input.update_now ≤ input.last_now
        → Step c (record c {
          server = record {
            store = (rotate (memory to_lower) strategy input c.server.store).1;
            cached = c.server.cached;
            clock = input.last_now;
          };
        })
    publishes : (c : Cluster) → Step c (record c { server = (cached_storage.get_keys c.server).1 })
    issues :
        (c : Cluster) (keys : Keys) (id : String) (n t : ℕ)
        → (cached_storage.get_keys c.server).0 ≡ ok keys
        → keys.signing_key ≡ some (private_jwk id n)
        → c.server.clock ≤ t
        → Step c (record {
          server = at_time t (cached_storage.get_keys c.server).1;
          issued =
              record { key_id = id; pair = n; expiry = t + strategy.id_token_valid_for } ∷ c.issued;
        })

  pub data Reach : Cluster → Type 0 where
    start :
        (s : MemStorage) (now : ℕ)
        → Paired s.keys.signing_key s.keys.signing_key_pub
        → Reach (record { server = record { store = s; cached = none; clock = now }; issued = [] })
    next : {c d : Cluster} → Reach c → Step c d → Reach d

  -- What the update of a rotation does to the memory storage.
  update_cases :
      (input : RotationInput) (n : ℕ) (s : MemStorage)
      → ((update_keys (rotated strategy input n) s).1 ≡ s)
        ⊎ ((s.keys.next_rotation ≤ input.update_now)
            × ((update_keys (rotated strategy input n) s).1
                ≡ record s { keys = after strategy input n s.keys }))
  unfolding rotated update_keys
  update_cases input n s = elim (Bool-cases (ltb input.update_now s.keys.next_rotation)) [
    | inl g ↦ inl (ground arith)
    | inr g ↦ inr (not_ltb→le _ _ g, ground arith)
  ]

  pub rotate_cases :
      (input : RotationInput) (s : MemStorage)
      → ((rotate (memory to_lower) strategy input s).1 ≡ s)
        ⊎ ((n : ℕ) × (s.keys.next_rotation ≤ input.update_now)
            × ((rotate (memory to_lower) strategy input s).1
                ≡ record s { keys = after strategy input n s.keys }))
  unfolding get_keys
  rotate_cases input s = elim (rotate_shape (memory to_lower) strategy input s) [
    | inl p ↦ inl p
    | inr (n, p) ↦ elim (update_cases input n s) [
      | inl q ↦ inl (p ∙ q)
      | inr (g, q) ↦ inr (n, g, p ∙ q)
    ]
  ]

  -- What reading the keys does to the cacher.
  abbrev pub Loaded : Cacher MemStorage → Cacher MemStorage → Type 0
  Loaded c d = (d ≡ c) ⊎ (d ≡ record c { cached = some c.store.keys })

  pub get_keys_cases :
      (c : Cacher MemStorage)
      → Loaded c (cached_storage.get_keys c).1
        × (((cached_storage.get_keys c).0 ≡ ok c.store.keys)
            ⊎ ((k : Keys) × (c.cached ≡ some k)
                × (c.clock < k.next_rotation)
                × ((cached_storage.get_keys c).0 ≡ ok k)))
  unfolding key_cacher get_keys
  get_keys_cases c = elim (Option-cases (fresh c.cached c.clock)) [
    | inl p ↦ elim (Bool-cases (ltb c.clock c.store.keys.next_rotation)) [
      | inl q ↦ (inr (ground (arith, p)), inl (ground (arith, p)))
      | inr q ↦ (inl (ground (arith, p)), inl (ground (arith, p)))
    ]
    | inr (k, p) ↦
        let (e, h) = fresh-some c.cached c.clock k p in
        (inl (ground (arith, p)), inr (k, e, h, ground (arith, p)))
  ]

  -- A rotation by this server changes its cache only by reading, and the keys behind as a rotation
  -- does.
  pub rotate_cached_cases :
      (input : RotationInput) (c : Cacher MemStorage)
      → ((rotate cached_storage strategy input c).1 ≡ (cached_storage.get_keys c).1)
        ⊎ ((n : ℕ) × (d : Cacher MemStorage) × (d ≡ (cached_storage.get_keys c).1)
            × (d.store.keys.next_rotation ≤ input.update_now)
            × ((rotate cached_storage strategy input c).1 ≡ record d {
              store = record d.store { keys = after strategy input n d.store.keys };
            }))
  unfolding key_cacher
  rotate_cached_cases input c = elim (rotate_shape cached_storage strategy input c) [
    | inl p ↦ inl p
    | inr (n, p) ↦
        let d = (cached_storage.get_keys c).1 in
        elim (update_cases input n d.store) [
          | inl q ↦ inl (p ∙ ap (λ (s : MemStorage). record d { store = s }) q)
          | inr (g, q) ↦ inr (n, d, refl, g, p ∙ ap (λ (s : MemStorage). record d { store = s }) q)
        ]
  ]
