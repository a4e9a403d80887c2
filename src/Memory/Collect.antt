-- ===== src/Memory/Collect.antt =====
-- storage/memory/memory.go: GarbageCollect.
use dex.Prelude.{ℕ, ◌+◌, String, [], ◌∷◌, Result, ok, if◌then◌else◌, ltb, string_eq}
use dex.GoMap.{Map, delete}
use dex.Storage.{AuthRequest, AuthCode, GcResult}
use dex.Memory.State.{MemStorage, session_id_eq}

-- The loop of GarbageCollect over one map: visit the entries, delete the expired ones, count them.
module _ {V : Type 0} (expiry : V → ℕ) (now : ℕ) where
  unfoldable pub sweep : Map String V → Map String V → ℕ → Map String V × ℕ
  sweep [] m n = (m, n)
  sweep ((id, a) ∷ rest) m n =
      let expired = ltb (expiry a) now in
      sweep rest (if expired then delete id m else m) (if expired then n + 1 else n)

unfoldable pub garbage_collect : ℕ → MemStorage → Result GcResult × MemStorage
garbage_collect now s =
    let (codes, n) = sweep (λ (a : AuthCode). a.expiry) now s.auth_codes s.auth_codes 0 in
    let (reqs, k) = sweep (λ (a : AuthRequest). a.expiry) now s.auth_reqs s.auth_reqs 0 in
    (
      ok (record { auth_requests = k; auth_codes = n }),
      record s { auth_codes = codes; auth_reqs = reqs },
    )
