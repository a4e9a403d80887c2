-- ===== src/Saml/Accepted.antt =====
-- connector/saml/saml.go: what a response that HandlePOST accepts has been checked for.
use dex.Prelude.{
  ℕ, String, true, false, not, ◌&&◌, some, List, [], ◌∷◌, ◌++◌, Error, ok, ◌≡◌, ◌≢◌, refl, ◌⊎◌, inl,
  inr, All, In, arith, ◌==◌, string_eq, eq_iff, contains, nat_eq, Bool-cases, Result-cases,
  Option-cases,
}
use dex.Saml.Types.{SubjectConfirmationData, SubjectConfirmation, Conditions, Assertion}
use dex.Saml.{
  Library, Provider, check_window, check_data, check_confirmation, confirm, expected_audience,
  check_audiences, validate_conditions, subject_confirmation_method_bearer,
}
use dex.Saml.Post.{conditions_hold}
use dex.Saml.Results.{InWindow, guard-ok, and_then-ok, check_window-ok}

pub not_equal : (a b : String) → not (a == b) ≡ false → a ≡ b
not_equal a b h = ground (arith, eq_iff a b)

pub unequal : (a b : String) → (a == b) ≡ false → a ≢ b
unequal a b h e = ground (arith, eq_iff a b)

pub optional : (a b : String) → (not (a == "") && not (a == b)) ≡ false → (a ≡ "") ⊎ (a ≡ b)
optional a b h = ground (arith, eq_iff a "", eq_iff a b)

module _ {Doc El : Type 0} (lib : Library Doc El) (p : Provider El) (id : String) where
  -- A confirmation that answers the request, in time at a reading of the clock.
  pub record IsConfirmation (c : SubjectConfirmation) : Type 0 where
    pub info : SubjectConfirmationData
    pub tick : ℕ
    pub bearer : c.method ≡ subject_confirmation_method_bearer
    pub has_info : c.confirmation_data ≡ some info
    pub answers : info.in_response_to ≡ id
    pub in_time : InWindow (p.clock tick) info.not_before info.not_on_or_after
    pub recipient : (info.recipient ≡ "") ⊎ (info.recipient ≡ p.redirect_uri)

  check_confirmation-ok :
      (c : SubjectConfirmation) (ticks : ℕ) (u : Unit {0})
      → (check_confirmation lib p id c ticks).0 ≡ ok u
      → IsConfirmation c
  unfolding check_confirmation check_data
  check_confirmation-ok c ticks u h =
      elim (Bool-cases (c.method == subject_confirmation_method_bearer)) [
        | inr m ↦ cc (rw (m, check_confirmation) at h)
        | inl m ↦ elim (Option-cases c.confirmation_data) [
          | inl d ↦ cc (rw (m, d, check_confirmation) at h)
          | inr (info, d) ↦ elim (Bool-cases (info.in_response_to == id)) [
            | inr r ↦ cc (rw (m, d, r, check_confirmation) at h)
            | inl r ↦
                let (window, rest) =
                  and_then-ok lib p
                    (check_window lib p (p.clock ticks) info.not_before info.not_on_or_after) _ u
                    (rw (m, d, r, check_confirmation, check_data) at h) in
                let (recipient, done) =
                  guard-ok lib p
                    (not (info.recipient == "") && not (info.recipient == p.redirect_uri)) _ _ u
                    rest in
                record {
                  info = info;
                  tick = ticks;
                  bearer = (eq_iff c.method subject_confirmation_method_bearer).0 m;
                  has_info = d;
                  answers = (eq_iff info.in_response_to id).0 r;
                  in_time = check_window-ok lib p (p.clock ticks) _ _ tt window;
                  recipient = optional info.recipient p.redirect_uri recipient;
                }
          ]
        ]
      ]

  pub confirm-ok :
      (cs : List SubjectConfirmation) (errs : List Error) (ticks later : ℕ)
      → confirm lib p id cs errs ticks ≡ ok later
      → (c : SubjectConfirmation) × In c cs × IsConfirmation c
  unfolding confirm
  confirm-ok [] errs ticks later h = cc
  confirm-ok (c ∷ cs) errs ticks later h =
      elim (Result-cases (check_confirmation lib p id c ticks).0) [
        | inl (u, e) ↦ (c, inl refl, check_confirmation-ok c ticks u e)
        | inr (x, e) ↦
            let (d, member, confirmed) =
              confirm-ok cs (errs ++ (x ∷ [])) _ later (rw (e, confirm) at h) in
            (d, inr member, confirmed)
      ]

  check_audiences-ok :
      (restrictions : List (List String)) (u : Unit {0})
      → check_audiences lib p restrictions ≡ ok u
      → All (λ audiences. contains audiences (expected_audience lib p) ≡ true) restrictions
  unfolding check_audiences
  check_audiences-ok [] u h = tt
  check_audiences-ok (audiences ∷ rest) u h =
      let (named, later) =
        guard-ok lib p (not (contains audiences (expected_audience lib p))) _ _ u h in
      (ground (arith, named), check_audiences-ok rest u later)

  -- Conditions that hold at a reading of the clock.
  pub record IsMet (k : Conditions) : Type 0 where
    pub tick : ℕ
    pub in_time : InWindow (p.clock tick) k.not_before k.not_on_or_after
    pub audience :
        All
          (λ audiences. contains audiences (expected_audience lib p) ≡ true)
          k.audience_restrictions

  pub conditions_hold-ok :
      (a : Assertion) (ticks : ℕ) (u : Unit {0})
      → conditions_hold lib p a ticks ≡ ok u
      → (k : Conditions) → a.conditions ≡ some k
      → IsMet k
  unfolding validate_conditions
  conditions_hold-ok a ticks u h k e =
      let (window, audiences) =
        and_then-ok lib p (check_window lib p (p.clock ticks) k.not_before k.not_on_or_after) _ u
          (rw e at h) in
      record {
        tick = ticks;
        in_time = check_window-ok lib p (p.clock ticks) _ _ tt window;
        audience = check_audiences-ok k.audience_restrictions u audiences;
      }
