-- ===== src/Prelude/Parts.antt =====
-- One text inside another.
use Prim.Native.String
use Prim.Native.String.{String}
use mathlib.Core.Path.{◌≡◌, sym, ap, ◌∙◌}
use mathlib.Core.Logic.{inl, inr}
use mathlib.Core.List.{List, [], ◌∷◌, map}
use text.Mathlib.TextLemmas.{append_assoc, append-nil, nil-append}
use web_search_api.Prelude.Lists.{Has}
use web_search_api.Prelude.Texts.{join}

-- The second text stands somewhere in the first.
abbrev pub Contains : String → String → Type 0
Contains s t = (a b : String) × (s ≡ String.◌++◌ a (String.◌++◌ t b))

pub Contains-refl : (s : String) → Contains s s
Contains-refl s = ("", "", sym (append-nil s) ∙ sym (nil-append (String.◌++◌ s "")))

pub Contains-behind : (x s t : String) → Contains s t → Contains (String.◌++◌ x s) t
Contains-behind x s t (a, b, e) =
    (String.◌++◌ x a, b, ap (λ y. String.◌++◌ x y) e ∙ sym (append_assoc x a (String.◌++◌ t b)))

pub Contains-before : (s x t : String) → Contains s t → Contains (String.◌++◌ s x) t
Contains-before s x t (a, b, e) = (
  a,
  String.◌++◌ b x,
  ap (λ y. String.◌++◌ y x) e
      ∙ append_assoc a (String.◌++◌ t b) x
      ∙ ap (λ y. String.◌++◌ a y) (append_assoc t b x),
)

-- Joined texts hold what one of them holds.
pub Contains-join :
    {A : Type 0} (sep t : String) (f : A → String) (x : A) (xs : List A)
    → Has x xs
    → Contains (f x) t
    → Contains (join sep (map f xs)) t
unfolding join
Contains-join sep t f x [] h c = elim h [ ]
Contains-join sep t f x (y ∷ []) (inl q) c = rw q c
Contains-join sep t f x (y ∷ []) (inr h) c = elim h [ ]
Contains-join sep t f x (y ∷ z ∷ xs) (inl q) c =
    Contains-before (f y) (String.◌++◌ sep (join sep (f z ∷ map f xs))) t (rw q c)
Contains-join sep t f x (y ∷ z ∷ xs) (inr h) c =
    Contains-behind (f y) _ t
      (Contains-behind sep (join sep (f z ∷ map f xs)) t (Contains-join sep t f x (z ∷ xs) h c))
