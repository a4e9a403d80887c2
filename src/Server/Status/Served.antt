-- ===== src/Server/Status/Served.antt =====
-- server/handlers.go: what handlePublicKeys sends.
use Prim.Native.Nat.{◌*◌, ◌-◌}
use dex.Prelude.{
  ℕ, ◌≤◌, ◌∷◌, ◌≡◌, refl, ok, arith, In, Bool-cases, Option-cases, inl, inr, ltb, not_ltb→le,
}
use dex.Storage.{Keys, Jwk}
use dex.Server.Rotation.Safety.{published}
use dex.Server.World.{World, Server, public_keys}
use dex.Server.Approval.{minute}
use dex.Server.Status.{key_set, max_age, handle_public_keys}

max_age-bound : (keys : Keys) (t : ℕ) → 120 ≤ max_age keys t
unfolding max_age
max_age-bound keys t = elim (Bool-cases (ltb (keys.next_rotation - t) (2 * minute))) [
  | inl e ↦ rw (e, max_age) (omega arith)
  | inr e ↦
      rw (e, max_age) (let le = not_ltb→le (keys.next_rotation - t) (2 * minute) e in omega arith)
]

module _ {S : Type 0} (server : Server S) where
  -- When the storage gives keys that verify anything, handlePublicKeys sends all of them, the
  -- current one first, to be kept for at least two minutes.
  pub handle_public_keys-published :
      (keys : Keys) (key : Jwk) (w : World S)
      → (server.storage.get_keys w.store).0 ≡ ok keys
      → In key (published keys)
      → (n : ℕ) × (120 ≤ n)
        × ((handle_public_keys server w).1.replies ≡ public_keys (published keys) n ∷ w.replies)
  unfolding handle_public_keys key_set
  handle_public_keys-published keys key w read i = elim (Option-cases keys.signing_key_pub) [
    | inl e ↦ absurd (ground (arith, e, i))
    | inr (public, e) ↦ (
      max_age keys (server.clock w.ticks),
      max_age-bound keys (server.clock w.ticks),
      rw (read, e, handle_public_keys, key_set) refl,
    )
  ]
