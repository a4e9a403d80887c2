-- ===== src/Server/Action.antt =====
-- server/: the code of the server as actions. An action runs on the server's mutable world; it goes
-- on with a value, or stops early with another (Go's early `return`).
use dex.Prelude.{Result, ok, err, Error, Bool, true, false, ◌≡◌, refl}

pub data Flow (E A : Type 0) : Type 0 where
  next : A → Flow E A
  stop : E → Flow E A

abbrev pub Action : Type 0 → Type 0 → Type 0 → Type 0
Action W E A = W → Flow E A × W

module _ {W E A : Type 0} where
  abbrev pub pure : A → Action W E A
  pure a w = (next a, w)

  abbrev pub halt : E → Action W E A
  halt e w = (stop e, w)

  -- if err != nil { return …, e }
  abbrev pub or_halt : Result A → (Error → E) → Action W E A
  or_halt (ok a) f w = (next a, w)
  or_halt (err x) f w = (stop (f x), w)

  abbrev pub gets : (W → A) → Action W E A
  gets f w = (next (f w), w)

module _ {W E A B : Type 0} where
  -- What follows an action.
  abbrev pub continue : Flow E A → (A → Action W E B) → Action W E B
  continue (next a) f w = f a w
  continue (stop e) f w = (stop e, w)

  infixl 5 ◌>>=◌
  abbrev pub ◌>>=◌ : Action W E A → (A → Action W E B) → Action W E B
  ◌>>=◌ m f w = let (r, w') = m w in continue r f w'

module _ {W E B : Type 0} where
  infixl 5 ◌>>◌
  abbrev pub ◌>>◌ : Action W E (Unit {0}) → Action W E B → Action W E B
  m >> n = m >>= λ _. n

module _ {W E : Type 0} where
  abbrev pub modify : (W → W) → Action W E (Unit {0})
  modify f w = (next tt, f w)

  -- if b { return …, e }
  abbrev pub halt_if : Bool → E → Action W E (Unit {0})
  halt_if true e w = (stop e, w)
  halt_if false e w = (next tt, w)

-- What a composed action that went on has done, step by step.
module _ {W E A B : Type 0} where
  pub bind-next :
      (m : Action W E A) (f : A → Action W E B) (w : W) {b : B} {w'' : W}
      → (m >>= f) w ≡ (next b, w'')
      → (a : A) × (w' : W) × (m w ≡ (next a, w')) × (f a w' ≡ (next b, w''))
  bind-next m f w h = bound (m w) refl h
    where
      bound :
          (p : Flow E A × W) {b : B} {w'' : W}
          → m w ≡ p
          → continue p.0 f p.1 ≡ (next b, w'')
          → (a : A) × (w' : W) × (m w ≡ (next a, w')) × (f a w' ≡ (next b, w''))
      bound (next a, w') e h = (a, w', e, h)
      bound (stop x, w') e h = cc

module _ {W E : Type 0} where
  pub halt_if-next :
      (b : Bool) (e : E) (w : W) {u : Unit {0}} {w' : W}
      → halt_if b e w ≡ (next u, w')
      → (b ≡ false) × (w' ≡ w)
  halt_if-next true e w h = cc
  halt_if-next false e w h = (refl, cc)

module _ {W E A : Type 0} where
  pub or_halt-next :
      (r : Result A) (f : Error → E) (w : W) {a : A} {w' : W}
      → or_halt r f w ≡ (next a, w')
      → (r ≡ ok a) × (w' ≡ w)
  or_halt-next (ok b) f w h = cc_pair h
    where
      cc_pair :
          {b a : A} {w w' : W}
          → ◌≡◌ {A = Flow E A × W} (next b, w) (next a, w')
          → (ok b ≡ ok a) × (w' ≡ w)
      cc_pair h = (cc, cc)
  or_halt-next (err x) f w h = cc

module _ {E A : Type 0} where
  abbrev pub attempted : Flow Error A → Flow E (Result A)
  attempted (next a) = next (ok a)
  attempted (stop e) = next (err e)

module _ {W E A : Type 0} where
  -- a, err := m
  abbrev pub attempt : Action W Error A → Action W E (Result A)
  attempt m w = let (r, w') = m w in (attempted r, w')

module _ {W E F A : Type 0} where
  -- What follows a failure.
  abbrev pub recover : Flow E A → (E → Action W F A) → Action W F A
  recover (next a) f w = (next a, w)
  recover (stop e) f w = f e w

  -- a, err := m; if err != nil { f err }
  abbrev pub catch : Action W E A → (E → Action W F A) → Action W F A
  catch m f w = let (r, w') = m w in recover r f w'
