-- ===== src/Prelude/Texts.antt =====
-- Equality of texts as a test.
use Prim.Native.Nat.{ℕ, zero, suc, Ordering}
use Prim.Native.String
use Prim.Native.String.{String}
use mathlib.Core.Path.{◌≡◌}
use mathlib.Core.Logic.{◌≢◌}
use mathlib.Core.Bool.{Bool, true, false}
use mathlib.Core.List.{List, [], ◌∷◌}
use web_search_api.Prelude.Tests.{if◌then◌else◌}
use mathlib.Core.Option.{none, some}
use native.Mathlib.Omega.{arith}
use text.Mathlib.Text.{◌==◌ as str_eq, find?}
use text.Mathlib.TextEquality.{eq_iff}

pub str_eq_of_ne : (a b : String) → a ≢ b → str_eq a b ≡ false
str_eq_of_ne a b h = ground (arith, eq_iff a b)

pub ne_of_str_eq : (a b : String) → str_eq a b ≡ false → a ≢ b
ne_of_str_eq a b h = λ p. ground (arith, eq_iff a b)

-- An f-string: its pieces in order.
unfoldable pub format : List String → String
format [] = ""
format (s ∷ ss) = String.◌++◌ s (format ss)

-- `text[:n]`
unfoldable pub first_chars : ℕ → String → String
first_chars zero s = ""
first_chars (suc n) String.[] = ""
first_chars (suc n) (String.◌∷◌ c s) = String.◌∷◌ c (first_chars n s)

-- `a <= b`, by code points.
abbrev pub text_le : String → String → Bool
text_le a b = elim (String.compare a b) [ Ordering.gt ↦ false | _ ↦ true ]

-- `part in text`
abbrev pub contains : String → String → Bool
contains text part = elim (find? text part) [ none ↦ false | some _ ↦ true ]

-- `sep.join(parts)`
unfoldable pub join : String → List String → String
join sep [] = ""
join sep (s ∷ []) = s
join sep (s ∷ t ∷ ss) = String.◌++◌ s (String.◌++◌ sep (join sep (t ∷ ss)))

-- `text.endswith(part)`
unfoldable pub ends_with : String → String → Bool
ends_with String.[] part = str_eq "" part
ends_with (String.◌∷◌ c s) part =
    let rest = ends_with s part in if str_eq (String.◌∷◌ c s) part then true else rest
