-- ===== src/Text.antt =====
-- What the server uses of Go's package `strings`: Fields, and the test for a prefix with the slice
-- behind it.
pub mod Laws
use Prim.Native.Char.{Char, code}
use Prim.Native.String.{String}
use dex.Prelude.{
  ℕ, Bool, true, false, ◌||◌, ◌&&◌, Option, some, none, List, [], ◌∷◌, if◌then◌else◌, leb, ◌==◌,
  nat_eq, string_eq,
}

-- unicode.IsSpace
unfoldable pub is_space : ℕ → Bool
is_space c =
    (leb 9 c && leb c 13)
    || (c == 0x20)
    || (c == 0x85)
    || (c == 0xa0)
    || (c == 0x1680)
    || (leb 0x2000 c && leb c 0x200a)
    || (c == 0x2028)
    || (c == 0x2029)
    || (c == 0x202f)
    || (c == 0x205f)
    || (c == 0x3000)

-- A word goes on the list unless it is empty.
abbrev pub push : String → List String → List String
push String.[] words = words
push (String.◌∷◌ c s) words = String.◌∷◌ c s ∷ words

-- The word that a text begins with, and the words behind it.
unfoldable pub split_words : String → String × List String
unfolding is_space
split_words String.[] = (String.[], [])
split_words (String.◌∷◌ c s) =
    let (word, words) = split_words s in
    if is_space (code c) then (String.[], push word words) else (String.◌∷◌ c word, words)

-- strings.Fields
unfoldable pub fields : String → List String
unfolding split_words
fields s = let (word, words) = split_words s in push word words

-- strings.HasPrefix(s, prefix), and s[len(prefix):]
unfoldable pub strip_prefix : String → String → Option String
strip_prefix String.[] s = some s
strip_prefix (String.◌∷◌ p ps) String.[] = none
strip_prefix (String.◌∷◌ p ps) (String.◌∷◌ c cs) =
    if code p == code c then strip_prefix ps cs else none

-- strings.Contains(s, c), for a text of one character
unfoldable pub has_char : ℕ → String → Bool
has_char c String.[] = false
has_char c (String.◌∷◌ d s) = code d == c || has_char c s
