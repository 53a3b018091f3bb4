-- ===== src/Base/Text.antt =====
-- Go's `strings.Split` and `strings.Join` at a separator of one character.
use Prim.Native.Nat.{ℕ}
use Prim.Native.Char.{Char, code}
use Prim.Native.String.{String}
use Prim.Native.String
use mathlib.Core.Path.{◌≡◌, refl}
use mathlib.Core.Logic.{◌≢◌}
use mathlib.Core.Bool.{Bool, true, false}
use mathlib.Core.List.{List, [], ◌∷◌}
use native.Mathlib.Omega.{arith}
use text.Mathlib.TextLemmas.{nil-append, cons-append}
use kava_proxy_service.Base.Tests.{◌==◌, if◌then◌else◌}
use kava_proxy_service.Base.Lists.{All}

infixr 65 ◌+++◌
abbrev pub ◌+++◌ : String → String → String
s +++ t = String.◌++◌ s t

-- Puts a character in front of the first part.
abbrev pub onto_first : Char → List String → List String
onto_first c [] = String.◌∷◌ c String.[] ∷ []
onto_first c (p ∷ ps) = String.◌∷◌ c p ∷ ps

abbrev pub split_step : Bool → Char → List String → List String
split_step true c parts = String.[] ∷ parts
split_step false c parts = onto_first c parts

-- strings.Split(s, sep): always one part at least.
unfoldable pub split : ℕ → String → List String
split sep String.[] = String.[] ∷ []
split sep (String.◌∷◌ c s) = split_step (code c == sep) c (split sep s)

-- strings.Join(parts, sep), with the separator a text.
unfoldable pub join : String → List String → String
join sep [] = String.[]
join sep (p ∷ []) = p
join sep (p ∷ q ∷ ps) = p +++ (sep +++ join sep (q ∷ ps))

-- No character of the text is `sep`.
abbrev pub Lacks : ℕ → String → Type 0
Lacks sep String.[] = Unit
Lacks sep (String.◌∷◌ c s) = (code c ≢ sep) × Lacks sep s

-- strings.Contains(s, sep)
unfoldable pub has_char : ℕ → String → Bool
has_char sep String.[] = false
has_char sep (String.◌∷◌ c s) = if code c == sep then true else has_char sep s

pub has_char-Lacks : (sep : ℕ) (s : String) → has_char sep s ≡ false → Lacks sep s
unfolding has_char
has_char-Lacks sep String.[] h = tt
has_char-Lacks sep (String.◌∷◌ c s) h = ground (arith, has_char-Lacks sep s)

-- One part without the separator, alone or before a separator.
pub split_of_Lacks : (sep : ℕ) (p : String) → Lacks sep p → split sep p ≡ p ∷ []
unfolding split
split_of_Lacks sep String.[] h = refl
split_of_Lacks sep (String.◌∷◌ c p) h = ground (arith, split_of_Lacks sep p h.1)

pub split_before_sep :
    (sep : Char) (p rest : String)
    → Lacks (code sep) p
    → split (code sep) (p +++ String.◌∷◌ sep rest) ≡ p ∷ split (code sep) rest
unfolding split
split_before_sep sep String.[] rest h = rw nil-append (ground arith)
split_before_sep sep (String.◌∷◌ c p) rest h =
    rw cons-append (ground (arith, split_before_sep sep p rest h.1))

-- Splitting a join gives the parts back, if there is a part and none holds the separator.
pub split-join :
    (sep : Char) (p : String) (ps : List String)
    → All (Lacks (code sep)) (p ∷ ps)
    → split (code sep) (join (String.◌∷◌ sep String.[]) (p ∷ ps)) ≡ p ∷ ps
unfolding join
split-join sep p [] h = split_of_Lacks (code sep) p h.0
split-join sep p (q ∷ ps) h = rw (
  cons-append sep String.[] (join (String.◌∷◌ sep String.[]) (q ∷ ps)),
  nil-append (join (String.◌∷◌ sep String.[]) (q ∷ ps)),
  split_before_sep sep p _ h.0,
  split-join sep q ps h.1,
)
