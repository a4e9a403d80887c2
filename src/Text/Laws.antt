-- ===== src/Text/Laws.antt =====
-- What Fields and the prefix test find.
use Prim.Native.Char.{Char, code}
use Prim.Native.String.{String, ◌++◌ as ◌+++◌}
use text.Mathlib.TextEquality.{Char-path}
use text.Mathlib.TextLemmas.{nil-append, cons-append}
use dex.Prelude.{
  Bool, true, false, some, List, [], ◌∷◌, if◌then◌else◌, ◌≡◌, refl, sym, ap, ◌∙◌, All, ◌==◌, nat_eq,
  eq_iff, eq_refl, Bool-cases, inl, inr, ◌≢◌,
}
use dex.Text.{is_space, push, split_words, fields, strip_prefix}

-- Stripping a prefix that was put in front gives the rest back.
pub strip_prefix-append : (p s : String) → strip_prefix p (p +++ s) ≡ some s
unfolding strip_prefix
strip_prefix-append String.[] s = rw nil-append
strip_prefix-append (String.◌∷◌ c p) s =
    rw (cons-append c p s) (rw (eq_refl (code c)) (strip_prefix-append p s))

-- What is stripped was in front.
pub append-strip_prefix : (p s r : String) → strip_prefix p s ≡ some r → s ≡ p +++ r
unfolding strip_prefix
append-strip_prefix String.[] s r h = let e : s ≡ r = cc in e ∙ sym (nil-append r)
append-strip_prefix (String.◌∷◌ c p) String.[] r h = cc
append-strip_prefix (String.◌∷◌ c p) (String.◌∷◌ d s) r h = elim (Bool-cases (code c == code d)) [
  | inl e ↦
      rw (cons-append c p r)
        (cc (Char-path c d ((eq_iff (code c) (code d)).0 e), append-strip_prefix p s r (rw e at h)))
  | inr e ↦ cc (rw e at h)
]

-- A text with no white space, a word, and the text of a list of words.
abbrev pub NoSpace : String → Type 0
NoSpace String.[] = Unit {0}
NoSpace (String.◌∷◌ c s) = (is_space (code c) ≡ false) × NoSpace s

abbrev pub IsWord : String → Type 0
IsWord w = (w ≢ String.[]) × NoSpace w

abbrev pub concat : List String → String
concat [] = String.[]
concat (w ∷ ws) = w +++ concat ws

abbrev pub without_spaces : String → String
without_spaces String.[] = String.[]
without_spaces (String.◌∷◌ c s) =
    if is_space (code c) then without_spaces s else String.◌∷◌ c (without_spaces s)

push-IsWord : (w : String) (ws : List String) → NoSpace w → All IsWord ws → All IsWord (push w ws)
push-IsWord String.[] ws h k = k
push-IsWord (String.◌∷◌ c s) ws h k = (((λ e. cc), h), k)

concat-push : (w : String) (ws : List String) → concat (push w ws) ≡ w +++ concat ws
concat-push String.[] ws = sym (nil-append (concat ws))
concat-push (String.◌∷◌ c s) ws = refl

-- One character in front of the words of a text.
abbrev step_words : Bool → Char → String × List String → String × List String
step_words b c p = if b then (String.[], push p.0 p.1) else (String.◌∷◌ c p.0, p.1)

step_words-IsWord :
    (b : Bool) (c : Char) (p : String × List String)
    → is_space (code c) ≡ b
    → NoSpace p.0 × All IsWord p.1
    → NoSpace (step_words b c p).0 × All IsWord (step_words b c p).1
step_words-IsWord true c p e h = (tt, push-IsWord p.0 p.1 h.0 h.1)
step_words-IsWord false c p e h = ((e, h.0), h.1)

split_words-IsWord : (s : String) → NoSpace (split_words s).0 × All IsWord (split_words s).1
unfolding split_words
split_words-IsWord String.[] = (tt, tt)
split_words-IsWord (String.◌∷◌ c s) =
    step_words-IsWord (is_space (code c)) c (split_words s) refl (split_words-IsWord s)

concat-step_words :
    (b : Bool) (c : Char) (p : String × List String)
    → (step_words b c p).0 +++ concat (step_words b c p).1
      ≡ (if b then p.0 +++ concat p.1 else String.◌∷◌ c (p.0 +++ concat p.1))
concat-step_words true c p = nil-append (concat (push p.0 p.1)) ∙ concat-push p.0 p.1
concat-step_words false c p = cons-append c p.0 (concat p.1)

concat-split_words :
    (s : String) → (split_words s).0 +++ concat (split_words s).1 ≡ without_spaces s
unfolding split_words
concat-split_words String.[] = nil-append String.[]
concat-split_words (String.◌∷◌ c s) =
    concat-step_words (is_space (code c)) c (split_words s)
    ∙ ap (λ t. if is_space (code c) then t else String.◌∷◌ c t) (concat-split_words s)

-- Fields gives non-empty words without white space, and together they are the text less its white
-- space.
pub fields_words : (s : String) → All IsWord (fields s) × (concat (fields s) ≡ without_spaces s)
unfolding fields
fields_words s =
    let h = split_words-IsWord s in
    (
      push-IsWord (split_words s).0 (split_words s).1 h.0 h.1,
      concat-push (split_words s).0 (split_words s).1 ∙ concat-split_words s,
    )
