-- ===== src/Server/Rotation/Safety.antt =====
-- server/rotation.go with the key cacher of server/server.go: the keys that ID tokens are signed
-- with, over any history of rotations, by this server or others on the same storage.
--
-- Issuing a token is one step: no rotation comes between reading the keys and reading the clock.
use dex.Prelude.{
  ℕ, ◌+◌, ◌≤◌, ◌<◌, String, Option, some, none, List, [], ◌∷◌, ◌++◌, ◌≡◌, refl, arith, In,
  In-append_left, In-append_right, In-select, In-map_eq, ltb, select, ◌⊎◌, inl, inr, map,
  Bool-cases, ltb→lt,
}
use dex.Storage.{Keys, VerificationKey, Jwk}
use dex.Server.Rotation.{
  RotationStrategy, RotationInput, demoted, unexpired, private_jwk, public_jwk,
}

-- An ID token: the key that signed it and when it expires.
pub record Issued : Type 0 where
  pub key_id : String
  pub pair : ℕ
  pub expiry : ℕ

-- The key that verifies a token.
abbrev pub verifier : Issued → Jwk
verifier t = public_jwk t.key_id t.pair

-- The keys that handlePublicKeys serves.
abbrev pub published : Keys → List Jwk
published keys = elim keys.signing_key_pub [
  | none ↦ []
  | some public ↦ public ∷ map (λ (v : VerificationKey). v.public_key) keys.verification_keys
]

-- The signing key and its public part are two halves of one pair, or both are missing.
pub data Paired : Option Jwk → Option Jwk → Type 0 where
  no_pair : Paired none none
  pair : (id : String) (n : ℕ) → Paired (some (private_jwk id n)) (some (public_jwk id n))

-- A token is covered at a time if the current key signed it, or a verification key that stays as
-- long did, or the token has expired.
abbrev pub Covered : ℕ → Keys → ℕ → Issued → Type 0
Covered valid keys now t =
    ((keys.signing_key_pub ≡ some (verifier t)) × (t.expiry ≤ now + valid))
    ⊎ (((v : VerificationKey) × In v keys.verification_keys
          × (v.public_key ≡ verifier t)
          × (t.expiry ≤ v.expiry)
          × ((k : Jwk) × (keys.signing_key_pub ≡ some k)))
        ⊎ (t.expiry < now))

module _ (valid : ℕ) where
  pub Covered-later :
      (keys : Keys) (now later : ℕ) (t : Issued)
      → now ≤ later
      → Covered valid keys now t
      → Covered valid keys later t
  Covered-later keys now later t le (inl (e, h)) = inl (e, omega arith)
  Covered-later keys now later t le (inr (inl c)) = inr (inl c)
  Covered-later keys now later t le (inr (inr h)) = inr (inr (omega arith))

module _ (strategy : RotationStrategy) (input : RotationInput) (n : ℕ) where
  -- The keys after a rotation.
  abbrev pub after : Keys → Keys
  after keys = record {
    signing_key = some (private_jwk input.key_id n);
    signing_key_pub = some (public_jwk input.key_id n);
    verification_keys =
        select (unexpired input.update_now) keys.verification_keys
        ++ demoted strategy input.update_now keys.signing_key_pub;
    next_rotation = input.last_now + strategy.rotation_frequency;
  }

  -- Rotating keeps every token covered: a key that is dropped has outlived its tokens, and the
  -- demoted key outlives those that it signed.
  pub Covered-rotated :
      (keys : Keys) (now : ℕ) (t : Issued)
      → now ≤ input.update_now
      → input.update_now ≤ input.last_now
      → Covered strategy.id_token_valid_for keys now t
      → Covered strategy.id_token_valid_for (after keys) input.last_now t
  unfolding demoted unexpired
  Covered-rotated keys now t le le' (inl (e, h)) = inr (
      inl (
        record { public_key = verifier t; expiry = input.update_now + strategy.id_token_valid_for },
        In-append_right _ (select (unexpired input.update_now) keys.verification_keys) _
            (rw e (inl refl)),
        refl,
        omega arith,
        (public_jwk input.key_id n, refl),
      ))
  Covered-rotated keys now t le le' (inr (inl (v, i, e, h, k))) =
      elim (Bool-cases (ltb v.expiry input.update_now)) [
        | inl gone ↦ inr (inr (omega (arith, ltb→lt v.expiry input.update_now gone)))
        | inr kept ↦ inr (
            inl (
              v,
              In-append_left v (select (unexpired input.update_now) keys.verification_keys) _ (
                  In-select (unexpired input.update_now) v keys.verification_keys (rw kept refl) i),
              e,
              h,
              (public_jwk input.key_id n, refl),
            ))
      ]
  Covered-rotated keys now t le le' (inr (inr h)) = inr (inr (omega arith))

-- A covered token that has not expired is verified by a published key.
pub Covered-published :
    (valid now : ℕ) (keys : Keys) (t : Issued)
    → now ≤ t.expiry
    → Covered valid keys now t
    → In (verifier t) (published keys)
Covered-published valid now keys t le (inl (e, h)) = rw (e, published) (inl refl)
Covered-published valid now keys t le (inr (inl (v, i, e, h, (k, p)))) =
    rw (p, published)
      (inr (In-map_eq (λ (v : VerificationKey). v.public_key) v keys.verification_keys e i))
Covered-published valid now keys t le (inr (inr h)) = absurd (omega arith)
