-- ===== src/Server/Rotation/Invariant.antt =====
-- server/rotation.go and the key cacher of server/server.go: what holds in every history of the
-- signing keys.
use dex.Prelude.{
  ℕ, ◌≤◌, ◌<◌, String, Option, some, Result, ok, ◌≡◌, sym, arith, In, inl, inr, ap, ◌∙◌,
}
use dex.Storage.{Keys, Jwk}
use dex.Memory.{MemStorage}
use dex.Server.KeyCacher.{Cacher}
use dex.Server.Rotation.{RotationStrategy, RotationInput, private_jwk, public_jwk}
use dex.Server.Rotation.Safety.{
  Issued, verifier, published, Paired, no_pair, pair, Covered, Covered-later, Covered-published,
  after, Covered-rotated,
}
use dex.Server.Rotation.Reach.{
  Cluster, at_time, cached_storage, Step, waits, rotates, rotates_elsewhere, publishes, issues,
  Reach, start, next, rotate_cases, rotate_cached_cases, get_keys_cases, Loaded,
}

Paired-public :
    {a b : Option Jwk} {id : String} {n : ℕ}
    → Paired a b
    → a ≡ some (private_jwk id n)
    → b ≡ some (public_jwk id n)
Paired-public no_pair p = cc
Paired-public (pair id n) p = cc

ok_inj : {a b : Keys} → ok a ≡ ok b → a ≡ b
ok_inj p = cc

module _ (to_lower : String → String) (strategy : RotationStrategy) where
  -- The invariant of every history.
  pub record Safe (c : Cluster) : Type 0 where
    pub paired : Paired c.server.store.keys.signing_key c.server.store.keys.signing_key_pub
    pub coherent :
        (k : Keys)
        → c.server.cached ≡ some k
        → c.server.clock < k.next_rotation
        → k ≡ c.server.store.keys
    pub covered :
        (t : Issued)
        → In t c.issued
        → Covered strategy.id_token_valid_for c.server.store.keys c.server.clock t

  abbrev cached : Cluster → Result Keys × Cacher MemStorage
  cached c = (cached_storage to_lower strategy).get_keys c.server

  Loaded-Safe :
      (c : Cluster) (d : Cacher MemStorage)
      → Loaded to_lower strategy c.server d
      → Safe c
      → Safe (record c { server = d })
  Loaded-Safe c d (inl e) h = rw e h
  Loaded-Safe c d (inr e) h =
      rw e (record { paired = h.paired; coherent = λ k p q. cc; covered = h.covered })

  later-Safe :
      (c : Cluster) (later : ℕ)
      → c.server.clock ≤ later
      → Safe c
      → Safe (record c { server = at_time later c.server })
  later-Safe c later le h = record {
    paired = h.paired;
    coherent = λ k p q. h.coherent k p (omega arith);
    covered = λ t i.
        Covered-later strategy.id_token_valid_for c.server.store.keys _ later t le (h.covered t i);
  }

  -- The keys of the storage rotate, whoever does it.
  after-Safe :
      (c : Cluster) (input : RotationInput) (n : ℕ)
      → c.server.clock ≤ input.update_now
      → input.update_now ≤ input.last_now
      → c.server.store.keys.next_rotation ≤ input.update_now
      → Safe c
      → Safe (record c {
        server = record {
          store = record c.server.store { keys = after strategy input n c.server.store.keys };
          cached = c.server.cached;
          clock = input.last_now;
        };
      })
  after-Safe c input n le le' due h = record {
    paired = pair input.key_id n;
    coherent = λ k p q.
        let e = h.coherent k p (omega arith) in
        let e' : k.next_rotation ≡ c.server.store.keys.next_rotation =
          ap (λ (x : Keys). x.next_rotation) e in
        absurd (omega arith);
    covered = λ t i.
        Covered-rotated strategy input n c.server.store.keys c.server.clock t le le'
          (h.covered t i);
  }

  publish-Safe : (c : Cluster) → Safe c → Safe (record c { server = (cached c).1 })
  publish-Safe c h = Loaded-Safe c (cached c).1 (get_keys_cases to_lower strategy c.server).0 h

  -- Whatever the server reads, from its copy or from the storage, is what the storage holds.
  read_keys_current :
      (c : Cluster) (keys : Keys) → Safe c → (cached c).0 ≡ ok keys → keys ≡ c.server.store.keys
  read_keys_current c keys h p = elim (get_keys_cases to_lower strategy c.server).1 [
    | inl q ↦ ground (arith, p, q)
    | inr (k, e, lt, q) ↦ ok_inj (sym p ∙ q) ∙ h.coherent k e lt
  ]

  clock-cached : (c : Cluster) → (cached c).1.clock ≡ c.server.clock
  clock-cached c = elim (get_keys_cases to_lower strategy c.server).0 [
    | inl e ↦ rw e
    | inr e ↦ rw e
  ]

  store-cached : (c : Cluster) → (cached c).1.store ≡ c.server.store
  store-cached c = elim (get_keys_cases to_lower strategy c.server).0 [
    | inl e ↦ rw e
    | inr e ↦ rw e
  ]

  Step-Safe : {c d : Cluster} → Step to_lower strategy c d → Safe c → Safe d
  Step-Safe (waits c later le) h = later-Safe c later le h
  Step-Safe (publishes c) h = publish-Safe c h
  Step-Safe (rotates_elsewhere c input le le') h =
      elim (rotate_cases to_lower strategy input c.server.store) [
        | inl p ↦ rw p (later-Safe c input.last_now (omega arith) h)
        | inr (n, due, p) ↦ rw p (after-Safe c input n le le' due h)
      ]
  Step-Safe (rotates c input le le') h =
      elim (rotate_cached_cases to_lower strategy input c.server) [
        | inl p ↦ rw p (
            later-Safe (record c { server = (cached c).1 }) input.last_now
              (rw (clock-cached c) (omega arith)) (publish-Safe c h))
        | inr (n, d, e, due, p) ↦ rw p (
            after-Safe (record c { server = d }) input n (rw (e, clock-cached c) le) le' due
              (rw e (publish-Safe c h)))
      ]
  Step-Safe (issues c keys id n t p q le) h =
      let g =
        later-Safe (record c { server = (cached c).1 }) t (rw (clock-cached c) le)
          (publish-Safe c h) in
      record {
        paired = g.paired;
        coherent = g.coherent;
        covered = λ u i. elim i [
          | inl e ↦ rw e (
              inl (
                Paired-public g.paired
                    (rw (store-cached c) (rw (← read_keys_current c keys h p) q)),
                omega arith,
              ))
          | inr j ↦ g.covered u j
        ];
      }

  served : (c : Cluster) → Safe c → (cached c).0 ≡ ok c.server.store.keys
  served c h = elim (get_keys_cases to_lower strategy c.server).1 [
    | inl q ↦ q
    | inr (k, e, lt, q) ↦ q ∙ ap ok (h.coherent k e lt)
  ]

  Reach-Safe : {c : Cluster} → Reach to_lower strategy c → Safe c
  Reach-Safe (start s now h) = record {
    paired = h;
    coherent = λ k p q. cc;
    covered = λ t i. elim i [ ];
  }
  Reach-Safe (next r st) = Step-Safe st (Reach-Safe r)

  -- In every history that starts with a signing key and its public part or with neither, and in
  -- which this server, through its key cache, and others on the same in-memory storage rotate the
  -- keys, reading the keys gives keys among which is the one that verifies each issued ID token
  -- that has not expired.
  pub unexpired_token_verifies :
      (c : Cluster) (t : Issued)
      → Reach to_lower strategy c
      → In t c.issued
      → c.server.clock ≤ t.expiry
      → (keys : Keys) × (((cached_storage to_lower strategy).get_keys c.server).0 ≡ ok keys)
        × In (verifier t) (published keys)
  unexpired_token_verifies c t r i le =
      let h = Reach-Safe r in
      (
        c.server.store.keys,
        served c h,
        Covered-published strategy.id_token_valid_for c.server.clock c.server.store.keys t le
            (h.covered t i),
      )

  -- In every history that starts with a signing key and its public part or with neither,
  -- the key cache returns the keys that the storage holds at that moment.
  pub cached_keys_current :
      (c : Cluster)
      → Reach to_lower strategy c
      → ((cached_storage to_lower strategy).get_keys c.server).0 ≡ ok c.server.store.keys
  cached_keys_current c r = served c (Reach-Safe r)
