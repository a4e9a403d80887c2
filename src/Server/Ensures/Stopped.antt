-- ===== src/Server/Ensures/Stopped.antt =====
-- server/: actions that stop, and the steps of one that runs to its end.
use dex.Prelude.{◌≡◌, refl, string_eq}
use dex.Server.Action.{◌>>=◌, Action, Flow, next, stop, bind-next}
use dex.Server.World.{World}
use dex.Server.Ensures.{Property, Outcome, Ensures}

-- An action that has stopped ensures anything of a value.
pub stopped-Outcome :
    {S E A : Type 0} (P : Property S) (Q : A → Type 0) (e : E) (p : Flow E A × World S)
    → p.0 ≡ stop e
    → P p.1.store p.1.connectors
    → Outcome P Q p
stopped-Outcome P Q e (next a, w) h k = cc
stopped-Outcome P Q e (stop x, w) h k = k

pub never-stop :
    {S A : Type 0} (P : Property S) (p : Flow (Unit {0}) A × World S)
    → Outcome P (λ a. ⊥) p
    → p.0 ≡ stop tt
never-stop P (next a, w) h = absurd h.1
never-stop P (stop tt, w) h = refl

pub never-Ensures :
    {S A : Type 0} {P : Property S} {Q : A → Type 0} (m : Action (World S) (Unit {0}) A)
    → ⊥
    → Ensures P m Q
never-Ensures m q = absurd q

-- What follows of a run to the end, from its first step and the rest.
pub bind_then :
    {S A B R : Type 0} (m : Action (World S) (Unit {0}) A) (f : A → Action (World S) (Unit {0}) B)
    (w : World S) {b : B} {w'' : World S}
    → (m >>= f) w ≡ (next b, w'')
    → ((a : A) (w' : World S) → m w ≡ (next a, w') → f a w' ≡ (next b, w'') → R)
    → R
bind_then m f w h k = let (a, w', e, rest) = bind-next m f w h in k a w' e rest
