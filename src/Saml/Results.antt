-- ===== src/Saml/Results.antt =====
-- connector/saml/saml.go: what a result without an error tells, step by step.
use dex.Prelude.{
  ℕ, ◌+◌, ◌≤◌, String, Bool, true, false, Option, some, none, Result, ok, err, ◌≡◌, refl, not, ◌&&◌,
  ◌⊎◌, inl, inr, arith, ◌==◌, eq_iff, nat_eq, ltb,
}
use dex.Saml.{Library, Provider, guard, and_then, check_window, allowed_clock_drift, before, after}
use dex.Saml.Post.{◌>>=◌, refuse_if, present, or_wrap, or_text}

module _ {A B : Type 0} where
  pub bind-ok :
      (r : Result A) (f : A → Result B) (b : B)
      → (r >>= f) ≡ ok b
      → (a : A) × (r ≡ ok a) × (f a ≡ ok b)
  unfolding ◌>>=◌
  bind-ok (ok a) f b h = (a, refl, h)
  bind-ok (err e) f b h = cc

pub refuse_if-ok : (b : Bool) (text : String) (u : Unit {0}) → refuse_if b text ≡ ok u → b ≡ false
refuse_if-ok true text u h = cc
refuse_if-ok false text u h = refl

module _ {A : Type 0} where
  pub present-ok : (o : Option A) (text : String) (a : A) → present o text ≡ ok a → o ≡ some a
  present-ok none text a h = cc
  present-ok (some b) text a h = cc

  pub or_wrap-ok : (r : Result A) (text : String) (a : A) → or_wrap r text ≡ ok a → r ≡ ok a
  or_wrap-ok (ok b) text a h = h
  or_wrap-ok (err e) text a h = cc

  pub or_text-ok : (r : Result A) (text : String) (a : A) → or_text r text ≡ ok a → r ≡ ok a
  or_text-ok (ok b) text a h = h
  or_text-ok (err e) text a h = cc

-- The window of a response, with the allowed drift; 0 is a missing bound.
abbrev pub InWindow : ℕ → ℕ → ℕ → Type 0
InWindow now not_before not_on_or_after =
    ((not_before ≡ 0) ⊎ (not_before ≤ now + allowed_clock_drift))
    × ((not_on_or_after ≡ 0) ⊎ (now ≤ not_on_or_after + allowed_clock_drift))

module _ {Doc El : Type 0} (lib : Library Doc El) (p : Provider El) where
  pub guard-ok :
      {A : Type 0} (b : Bool) (text : String) (rest : Result A) (a : A)
      → guard lib p b text rest ≡ ok a
      → (b ≡ false) × (rest ≡ ok a)
  guard-ok true text rest a h = cc
  guard-ok false text rest a h = (refl, h)

  pub and_then-ok :
      (r rest : Result (Unit {0})) (u : Unit {0})
      → and_then lib p r rest ≡ ok u
      → (r ≡ ok tt) × (rest ≡ ok u)
  and_then-ok (ok v) rest u h = (refl, h)
  and_then-ok (err e) rest u h = cc

  not_below : (n m : ℕ) (b : Bool) → (not b && ltb n m) ≡ false → (b ≡ true) ⊎ (m ≤ n)
  not_below n m true h = inl refl
  not_below n m false h = inr (ground arith)

  pub check_window-ok :
      (now not_before not_on_or_after : ℕ) (u : Unit {0})
      → check_window lib p now not_before not_on_or_after ≡ ok u
      → InWindow now not_before not_on_or_after
  unfolding check_window before after
  check_window-ok now nb na u h =
      let (first, rest) = guard-ok (not (nb == 0) && before now nb) _ _ u h in
      let (second, done) = guard-ok (not (na == 0) && after now na) _ _ u rest in
      (
        elim (not_below (now + allowed_clock_drift) nb (nb == 0) first) [
          | inl z ↦ inl ((eq_iff nb 0).0 z)
          | inr l ↦ inr l
        ],
        elim (not_below (na + allowed_clock_drift) now (na == 0) second) [
          | inl z ↦ inl ((eq_iff na 0).0 z)
          | inr l ↦ inr l
        ],
      )
