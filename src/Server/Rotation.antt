-- ===== src/Server/Rotation.antt =====
-- server/rotation.go: the rotation of the signing keys. What the environment supplies to a call of
-- `rotate` is an argument: the readings of the clock, the generated key and the random key ID.
pub mod Safety
pub mod Reach
pub mod Invariant
use Prim.Native.Nat.{◌*◌}
use dex.Prelude.{
  ℕ, ◌+◌, String, Bool, true, false, not, Option, some, none, Result, ok, err, Error, not_found,
  other, List, [], ◌∷◌, ◌++◌, if◌then◌else◌, ltb, select, wrap,
}
use dex.Storage.{Storage, Keys, VerificationKey, Jwk, Key, rsa_private, rsa_public, no_keys}

-- `time.Hour` and `time.Second`, in nanoseconds.
abbrev pub second : ℕ
second = 1000000000

abbrev pub hour : ℕ
hour = 3600 * second

pub record RotationStrategy : Type 0 where
  pub rotation_frequency : ℕ
  pub id_token_valid_for : ℕ

abbrev pub static_rotation_strategy : RotationStrategy
static_rotation_strategy = record {
  rotation_frequency = hour * 8760 * 100;
  id_token_valid_for = hour * 8760 * 100;
}

abbrev pub default_rotation_strategy : ℕ → ℕ → RotationStrategy
default_rotation_strategy rotation_frequency id_token_valid_for = record {
  rotation_frequency = rotation_frequency;
  id_token_valid_for = id_token_valid_for;
}

-- What one call of `rotate` gets from outside: the three readings of the clock, in the order in
-- which they are made, the result of `strategy.key()` (an RSA key pair) and the key ID.
pub record RotationInput : Type 0 where
  pub first_now : ℕ
  pub update_now : ℕ
  pub last_now : ℕ
  pub generated : Result ℕ
  pub key_id : String

abbrev pub private_jwk : String → ℕ → Jwk
private_jwk key_id pair = record {
  key = some (rsa_private pair);
  key_id = key_id;
  algorithm = "RS256";
  use_for = "sig";
}

abbrev pub public_jwk : String → ℕ → Jwk
public_jwk key_id pair = record {
  key = some (rsa_public pair);
  key_id = key_id;
  algorithm = "RS256";
  use_for = "sig";
}

abbrev pub already_rotated : Error
already_rotated = other "keys already rotated by another server instance"

-- The signing key that is demoted at `now` stays for the validity of an ID token.
unfoldable pub demoted : RotationStrategy → ℕ → Option Jwk → List VerificationKey
demoted strategy now none = []
demoted strategy now (some public) =
    record { public_key = public; expiry = now + strategy.id_token_valid_for } ∷ []

-- `expired` of the updater, negated.
unfoldable pub unexpired : ℕ → VerificationKey → Bool
unexpired now key = not (ltb key.expiry now)

-- The closure that `rotate` hands to UpdateKeys.
unfoldable pub rotated : RotationStrategy → RotationInput → ℕ → Keys → Result Keys
unfolding demoted unexpired
rotated strategy input pair keys =
    if ltb input.update_now keys.next_rotation
    then err already_rotated
    else ok (record {
      signing_key = some (private_jwk input.key_id pair);
      signing_key_pub = some (public_jwk input.key_id pair);
      verification_keys =
          select (unexpired input.update_now) keys.verification_keys
          ++ demoted strategy input.update_now keys.signing_key_pub;
      next_rotation = input.last_now + strategy.rotation_frequency;
    })

-- The keys that the first read of `rotate` goes on with: none are stored yet if none are found.
unfoldable pub read_keys : Result Keys → Result Keys
read_keys (ok keys) = ok keys
read_keys (err not_found) = ok no_keys
read_keys (err e) = err (wrap "get keys: " e)

module _ {S : Type 0} (st : Storage S) (strategy : RotationStrategy) where
  unfoldable pub rotate : RotationInput → S → Result (Unit {0}) × S
  unfolding rotated read_keys
  rotate input s =
      let (r, t) = st.get_keys s in
      elim (read_keys r) [
        | err e ↦ (err e, t)
        | ok keys ↦
            if ltb input.first_now keys.next_rotation then (ok tt, t) else elim input.generated [
              | err e ↦ (err (wrap "generate key: " e), t)
              | ok pair ↦ st.update_keys (rotated strategy input pair) t
            ]
      ]
