-- ===== src/Server/OAuth2/AuthRequest/Responses.antt =====
-- server/oauth2.go, parseAuthorizationRequest: the loop over the response types.
use dex.Prelude.{
  String, true, false, ◌||◌, some, List, [], ◌∷◌, ◌≡◌, ◌≢◌, refl, sym, subst, ◌⊎◌, inl, inr, All,
  arith, Bool-cases, Option-cases, contains, string_eq, eq_iff, nat_eq,
}
use dex.Server.Action.{next}
use dex.Server.World.{World, Server}
use dex.Server.OAuth2.{response_type_code, response_type_token, response_type_id_token}
use dex.Server.OAuth2.AuthRequest.{AuthForm, ResponseTypes, add_response_type, check_response_types}

-- The flags say which response types were seen.
abbrev pub Flags : ResponseTypes → List String → ResponseTypes → Type 0
Flags rt types rt' =
    (rt'.code ≡ (rt.code || contains types response_type_code))
    × (rt'.id_token ≡ (rt.id_token || contains types response_type_id_token))
    × (rt'.token ≡ (rt.token || contains types response_type_token))

abbrev pub Known : String → Type 0
Known t = (t ≡ response_type_code) ⊎ ((t ≡ response_type_id_token) ⊎ (t ≡ response_type_token))

add_response_type-Known :
    (rt rt' : ResponseTypes) (t : String) → add_response_type rt t ≡ some rt' → Known t
unfolding add_response_type
add_response_type-Known rt rt' t h = ground (
  arith,
  eq_iff t response_type_code,
  eq_iff t response_type_id_token,
  eq_iff t response_type_token,
)

Flags-Known :
    (rt rt' : ResponseTypes) (t : String)
    → Known t
    → add_response_type rt t ≡ some rt'
    → Flags rt (t ∷ []) rt'
unfolding add_response_type contains
Flags-Known rt rt' t (inl e) =
    subst (λ s. add_response_type rt s ≡ some rt' → Flags rt (s ∷ []) rt') (sym e)
      (λ h. ground arith)
Flags-Known rt rt' t (inr (inl e)) =
    subst (λ s. add_response_type rt s ≡ some rt' → Flags rt (s ∷ []) rt') (sym e)
      (λ h. ground arith)
Flags-Known rt rt' t (inr (inr e)) =
    subst (λ s. add_response_type rt s ≡ some rt' → Flags rt (s ∷ []) rt') (sym e)
      (λ h. ground arith)

add_response_type-Flags :
    (rt rt' : ResponseTypes) (t : String)
    → add_response_type rt t ≡ some rt'
    → Flags rt (t ∷ []) rt' × Known t
add_response_type-Flags rt rt' t h =
    let known = add_response_type-Known rt rt' t h in (Flags-Known rt rt' t known h, known)

abbrev pub no_types : ResponseTypes
no_types = record { code = false; id_token = false; token = false }

-- A list of known response types that is not empty has one of the three.
pub some-Known :
    (P : String → Type 0) (types : List String)
    → types ≢ []
    → All (λ t. P t × Known t) types
    → (contains types response_type_code ≡ true)
      ⊎ ((contains types response_type_id_token ≡ true)
          ⊎ (contains types response_type_token ≡ true))
unfolding contains
some-Known P [] ne h = absurd (ne refl)
some-Known P (t ∷ types) ne ((p, inl e), h) = inl (rw (e, contains))
some-Known P (t ∷ types) ne ((p, inr (inl e)), h) = inr (inl (rw (e, contains)))
some-Known P (t ∷ types) ne ((p, inr (inr e)), h) = inr (inr (rw (e, contains)))

module _ {S : Type 0} (server : Server S) where
  pub check_response_types-Flags :
      (q : AuthForm) (uri : String) (rt rt' : ResponseTypes) (types : List String) (w w' : World S)
      → check_response_types server q uri rt types w ≡ (next rt', w')
      → (w' ≡ w)
        × Flags rt types rt'
        × All (λ t. (contains server.supported_response_types t ≡ true) × Known t) types
  unfolding check_response_types contains
  check_response_types-Flags q uri rt rt' [] w w' h =
      (ground arith, (ground arith, ground arith, ground arith), tt)
  check_response_types-Flags q uri rt rt' (t ∷ types) w w' h =
      elim (Option-cases (add_response_type rt t)) [
        | inl e ↦ cc (rw (e, check_response_types) at h)
        | inr (rt₁, e) ↦ elim (Bool-cases (contains server.supported_response_types t)) [
          | inl k ↦
              let (same, flags, all) =
                check_response_types-Flags q uri rt₁ rt' types w w'
                  (rw (e, k, check_response_types) at h) in
              let (one, known) = add_response_type-Flags rt rt₁ t e in
              (same, (ground arith, ground arith, ground arith), ((k, known), all))
          | inr k ↦ cc (rw (e, k, check_response_types) at h)
        ]
      ]
