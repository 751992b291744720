-- ===== src/Frontend/Text.antt =====
-- JavaScript strings as lists of code units, and what the page calls of them.
pub mod Split
pub mod Same
use Prim.Native.Char.{code}
use Prim.Native.String.{String}
use fapra_osm_routing.Prelude.{
  ℕ, List, [], ◌∷◌, ◌≢◌, Bool, true, false, ◌&&◌, ◌==◌, Option, none, some, All, if◌then◌else◌,
}

abbrev pub Text : Type 0
Text = List ℕ

-- The code units of a literal of ASCII.
abbrev pub codes : String → Text
codes String.[] = []
codes (String.◌∷◌ c s) = code c ∷ codes s

abbrev pub Lacks : ℕ → Text → Type 0
Lacks sep = All (λ c. c ≢ sep)

-- The character belongs to the first part.
abbrev pub onto_first : ℕ → List Text → List Text
onto_first c [] = (c ∷ []) ∷ []
onto_first c (p ∷ ps) = (c ∷ p) ∷ ps

-- String.prototype.split, by a separator of one character.
unfoldable pub split : ℕ → Text → List Text
split sep [] = [] ∷ []
split sep (c ∷ s) = let rest = split sep s in if c == sep then [] ∷ rest else onto_first c rest

-- `===` on strings, and on strings that may be null.
unfoldable pub same_text : Text → Text → Bool
same_text [] [] = true
same_text (c ∷ s) (d ∷ t) = c == d && same_text s t
same_text _ _ = false

unfoldable pub same_value : Option Text → Option Text → Bool
unfolding same_text
same_value none none = true
same_value (some s) (some t) = same_text s t
same_value _ _ = false
