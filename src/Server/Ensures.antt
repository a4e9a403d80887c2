-- ===== src/Server/Ensures.antt =====
-- server/: what an action ensures. It keeps a property of the storage and of the open connectors,
-- whether it goes on or stops, and where it goes on, its value has a property too. There is one rule
-- for each way to build an action.
pub mod Stopped
use dex.Prelude.{
  ok_injective, if◌then◌else◌, subst, String, Bool, true, false, Option, some, none, Result, ok,
  err, Error, ◌≡◌, refl,
}
use dex.GoMap.{Map}
use dex.Server.Action.{
  Action, Flow, next, stop, pure, halt, gets, or_halt, halt_if, attempt, attempted, catch, recover,
  ◌>>=◌, continue,
}
use dex.Server.World.{
  World, Server, ServerConnector, Reply, call, new_id, now, send, refuse, or_refuse, refuse_if,
}

-- A property of the storage's state and of the open connectors.
abbrev pub Property : Type 0 → Type 1
Property S = S → Map String (ServerConnector S) → Type 0

module _ {S E A : Type 0} where
  abbrev pub Outcome : Property S → (A → Type 0) → Flow E A × World S → Type 0
  Outcome P Q (next a, w) = P w.store w.connectors × Q a
  Outcome P Q (stop e, w) = P w.store w.connectors

  pub record Ensures (P : Property S) (m : Action (World S) E A) (Q : A → Type 0) : Type 0 where
    pub at : (w : World S) → P w.store w.connectors → Outcome P Q (m w)

  -- Whether the action has gone on or has stopped.
  pub outcome_property :
      (P : Property S) (Q : A → Type 0) (p : Flow E A × World S)
      → Outcome P Q p
      → P p.1.store p.1.connectors
  outcome_property P Q (next a, w) h = h.0
  outcome_property P Q (stop e, w) h = h

-- Nothing is said of the value.
abbrev pub Any : {A : Type 0} → A → Type 0
Any a = Unit {0}

-- A call of the storage that keeps a property, and what its result is then.
pub record Calls {S A : Type 0} (P : Property S) (op : S → Result A × S) (Q : Result A → Type 0)
    : Type 0 where
  pub at : (s : S) (c : Map String (ServerConnector S)) → P s c → P (op s).1 c × Q (op s).0

-- What a result that is no error satisfies.
pub record Returns {A : Type 0} (Q : A → Type 0) (r : Result A) : Type 0 where
  pub at : (a : A) → r ≡ ok a → Q a

module _ {A : Type 0} {Q : A → Type 0} where
  pub Returns-ok : (a : A) → Q a → Returns Q (ok a)
  Returns-ok a q = record { at = λ b h. subst Q (ok_injective h) q }

  pub Returns-err : (e : Error) → Returns Q (err e)
  Returns-err e = record { at = λ b h. cc }

or_halt-Ensures :
    {S E A : Type 0} (P : Property S) (r : Result A) (f : Error → E) (w : World S)
    → P w.store w.connectors
    → Outcome P (λ a. r ≡ ok a) (or_halt r f w)
or_halt-Ensures P (ok a) f w h = (h, refl)
or_halt-Ensures P (err e) f w h = h

or_refuse-Ensures :
    {S A : Type 0} (P : Property S) (r : Result A) (f : Error → Reply) (w : World S)
    → P w.store w.connectors
    → Outcome P (λ a. r ≡ ok a) (or_refuse r f w)
or_refuse-Ensures P (ok a) f w h = (h, refl)
or_refuse-Ensures P (err e) f w h = h

halt_if-Ensures :
    {S E : Type 0} (P : Property S) (b : Bool) (e : E) (w : World S)
    → P w.store w.connectors
    → Outcome P (λ u. b ≡ false) (halt_if b e w)
halt_if-Ensures P true e w h = h
halt_if-Ensures P false e w h = (h, refl)

refuse_if-Ensures :
    {S : Type 0} (P : Property S) (b : Bool) (r : Reply) (w : World S)
    → P w.store w.connectors
    → Outcome P (λ u. b ≡ false) (refuse_if b r w)
refuse_if-Ensures P true r w h = h
refuse_if-Ensures P false r w h = (h, refl)

module _ {S E A : Type 0} {P : Property S} where
  pub Ensures-pure : {Q : A → Type 0} (a : A) → Q a → Ensures {E = E} P (pure a) Q
  Ensures-pure a q = record { at = λ w h. (h, q) }

  pub Ensures-halt : {Q : A → Type 0} (e : E) → Ensures P (halt e) Q
  Ensures-halt e = record { at = λ w h. h }

  pub Ensures-gets :
      {Q : A → Type 0} (f : World S → A)
      → ((w : World S) → P w.store w.connectors → Q (f w))
      → Ensures {E = E} P (gets f) Q
  Ensures-gets f q = record { at = λ w h. (h, q w h) }

  pub Ensures-call :
      {Q : Result A → Type 0} {op : S → Result A × S} → Calls P op Q → Ensures {E = E} P (call op) Q
  Ensures-call k = record { at = λ w h. k.at w.store w.connectors h }

  pub Ensures-or_halt : (r : Result A) (f : Error → E) → Ensures P (or_halt r f) (λ a. r ≡ ok a)
  Ensures-or_halt r f = record { at = or_halt-Ensures P r f }

module _ {S E : Type 0} {P : Property S} where
  pub Ensures-send : (r : Reply) → Ensures {E = E} P (send r) Any
  Ensures-send r = record { at = λ w h. (h, tt) }

  pub Ensures-new_id : (server : Server S) → Ensures {E = E} P (new_id server) Any
  Ensures-new_id server = record { at = λ w h. (h, tt) }

  pub Ensures-now : (server : Server S) → Ensures {E = E} P (now server) Any
  Ensures-now server = record { at = λ w h. (h, tt) }

  pub Ensures-halt_if : (b : Bool) (e : E) → Ensures P (halt_if b e) (λ u. b ≡ false)
  Ensures-halt_if b e = record { at = halt_if-Ensures P b e }

module _ {S : Type 0} {P : Property S} where
  pub Ensures-refuse_if : (b : Bool) (r : Reply) → Ensures P (refuse_if b r) (λ u. b ≡ false)
  Ensures-refuse_if b r = record { at = refuse_if-Ensures P b r }

module _ {S A : Type 0} {P : Property S} where
  pub Ensures-refuse : {Q : A → Type 0} (r : Reply) → Ensures P (refuse r) Q
  Ensures-refuse r = record { at = λ w h. h }

  pub Ensures-or_refuse :
      (r : Result A) (f : Error → Reply) → Ensures P (or_refuse r f) (λ a. r ≡ ok a)
  Ensures-or_refuse r f = record { at = or_refuse-Ensures P r f }

-- What follows an action, a failure, or a case.
module _ {S E A B : Type 0} {P : Property S} where
  continue-Ensures :
      {Q : A → Type 0} {R : B → Type 0} (f : A → Action (World S) E B)
      → ((a : A) → Q a → Ensures P (f a) R)
      → (p : Flow E A × World S) → Outcome P Q p
      → Outcome P R (continue p.0 f p.1)
  continue-Ensures f k (next a, w) h = (k a h.1).at w h.0
  continue-Ensures f k (stop e, w) h = h

  pub Ensures-bind :
      {Q : A → Type 0} {R : B → Type 0} {m : Action (World S) E A} {f : A → Action (World S) E B}
      → Ensures P m Q
      → ((a : A) → Q a → Ensures P (f a) R)
      → Ensures P (m >>= f) R
  Ensures-bind {m} {f} j k = record { at = λ w h. continue-Ensures f k (m w) (j.at w h) }

  pub Ensures-result :
      {R : B → Type 0} (r : Result A) {g : A → Action (World S) E B}
      {f : Error → Action (World S) E B}
      → ((a : A) → r ≡ ok a → Ensures P (g a) R)
      → ((e : Error) → Ensures P (f e) R)
      → Ensures P (elim r [ ok a ↦ g a | err e ↦ f e ]) R
  Ensures-result (ok a) k l = k a refl
  Ensures-result (err e) k l = l e

  pub Ensures-option :
      {R : B → Type 0} (o : Option A) {g : A → Action (World S) E B} {m : Action (World S) E B}
      → ((a : A) → o ≡ some a → Ensures P (g a) R)
      → Ensures P m R
      → Ensures P (elim o [ some a ↦ g a | none ↦ m ]) R
  Ensures-option (some a) k l = k a refl
  Ensures-option none k l = l

weaken-Ensures :
    {S E A : Type 0} (P : Property S) {Q R : A → Type 0}
    → ((a : A) → Q a → R a)
    → (p : Flow E A × World S) → Outcome P Q p
    → Outcome P R p
weaken-Ensures P k (next a, w) h = (h.0, k a h.1)
weaken-Ensures P k (stop e, w) h = h

attempted-Ensures :
    {S A : Type 0} (P : Property S) (E : Type 0) (Q : A → Type 0) (p : Flow Error A × World S)
    → Outcome P Q p
    → Outcome {E = E} P Any (attempted p.0, p.1)
attempted-Ensures P E Q (next a, w) h = (h.0, tt)
attempted-Ensures P E Q (stop e, w) h = (h, tt)

module _ {S E A : Type 0} {P : Property S} where
  pub Ensures-if :
      {Q : A → Type 0} (b : Bool) {m n : Action (World S) E A}
      → Ensures P m Q
      → Ensures P n Q
      → Ensures P (if b then m else n) Q
  Ensures-if true j k = j
  Ensures-if false j k = k

  -- A weaker statement of the value.
  pub Ensures-weaken :
      {Q R : A → Type 0} {m : Action (World S) E A}
      → ((a : A) → Q a → R a)
      → Ensures P m Q
      → Ensures P m R
  Ensures-weaken {m} k j = record { at = λ w h. weaken-Ensures P k (m w) (j.at w h) }

module _ {S E A : Type 0} {P : Property S} where
  pub Ensures-attempt :
      {Q : A → Type 0} {m : Action (World S) Error A}
      → Ensures P m Q
      → Ensures {E = E} P (attempt m) Any
  Ensures-attempt {Q = Q} {m} j = record { at = λ w h. attempted-Ensures P E Q (m w) (j.at w h) }

module _ {S E F A : Type 0} {P : Property S} where
  recover-Ensures :
      {Q : A → Type 0} (f : E → Action (World S) F A)
      → ((e : E) → Ensures P (f e) Q)
      → (p : Flow E A × World S) → Outcome P Q p
      → Outcome P Q (recover p.0 f p.1)
  recover-Ensures f k (next a, w) h = h
  recover-Ensures f k (stop e, w) h = (k e).at w h

  pub Ensures-catch :
      {Q : A → Type 0} {m : Action (World S) E A} {f : E → Action (World S) F A}
      → Ensures P m Q
      → ((e : E) → Ensures P (f e) Q)
      → Ensures P (catch m f) Q
  Ensures-catch {m} {f} j k = record { at = λ w h. recover-Ensures f k (m w) (j.at w h) }

pub ruleset ensures_rules = (
  Ensures-pure, Ensures-halt, Ensures-or_halt, Ensures-halt_if, Ensures-send, Ensures-new_id,
  Ensures-now, Ensures-refuse, Ensures-refuse_if, Ensures-or_refuse, Ensures-if,
)
