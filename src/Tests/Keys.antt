-- ===== src/Tests/Keys.antt =====
-- A history of the signing keys: a first rotation, and a token that is signed afterwards.
use dex.Prelude.{String, none, [], ◌∷◌, ok, ◌≡◌, refl, ◌≤◌, arith, In, inl}
use dex.Storage.{Keys}
use dex.Memory.{empty, get_keys, update_keys}
use dex.Server.KeyCacher.{key_cacher}
use dex.Server.Rotation.{RotationStrategy, RotationInput, rotate, default_rotation_strategy}
use dex.Server.Rotation.Safety.{Issued, verifier, published, no_pair}
use dex.Server.Rotation.Reach.{
  Cluster, at_time, cached_storage, Reach, start, rotates, issues, next as then,
}
use dex.Server.Rotation.Invariant.{unexpired_token_verifies, cached_keys_current}

abbrev strategy : RotationStrategy
strategy = default_rotation_strategy 100 10

abbrev lower : String → String
lower s = s

abbrev input : RotationInput
input = record { first_now = 5; update_now = 6; last_now = 7; generated = ok 1; key_id = "first" }

abbrev begun : Cluster
begun = record { server = record { store = empty; cached = none; clock = 5 }; issued = [] }

abbrev rotated_once : Cluster
rotated_once = record begun {
  server = at_time 7 (rotate (cached_storage lower strategy) strategy input begun.server).1;
}

abbrev keys : Keys
keys = rotated_once.server.store.keys

abbrev token : Issued
token = record { key_id = "first"; pair = 1; expiry = 18 }

abbrev signed : Cluster
signed = record {
  server = at_time 8 ((cached_storage lower strategy).get_keys rotated_once.server).1;
  issued = token ∷ [];
}

signed-Reach : Reach lower strategy signed
unfolding rotate key_cacher get_keys update_keys
signed-Reach =
    then (then (start empty 5 no_pair) (rotates begun input (omega arith) (omega arith)))
      (issues rotated_once keys "first" 1 8 refl refl (omega arith))

unexpired_token_verifies_example :
    (served : Keys) × (((cached_storage lower strategy).get_keys signed.server).0 ≡ ok served)
    × In (verifier token) (published served)
unexpired_token_verifies_example =
    unexpired_token_verifies lower strategy signed token signed-Reach (inl refl) late
  where
    late : signed.server.clock ≤ token.expiry
    late = omega arith

cached_keys_current_example :
    ((cached_storage lower strategy).get_keys signed.server).0 ≡ ok signed.server.store.keys
cached_keys_current_example = cached_keys_current lower strategy signed signed-Reach
