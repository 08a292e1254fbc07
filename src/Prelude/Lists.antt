-- ===== src/Prelude/Lists.antt =====
-- Lists measured by native numbers, searched and filtered by Boolean tests.
use Prim.Native.Nat.{ℕ, zero, suc, ◌+◌, ◌≤◌}
use mathlib.Core.Path.{◌≡◌, refl, ap}
use mathlib.Core.Bool.{Bool, true, false, ◌&&◌, ◌||◌}
use mathlib.Core.List.{List, [], ◌∷◌, ◌++◌, map}
use mathlib.Core.Logic.{◌⊎◌, inl, inr}
use native.Mathlib.Omega.{arith}
use web_search_api.Prelude.Tests.{if◌then◌else◌, Bool-cases}

-- The empty type at any level.
pub data Lift {ℓ} : Type ℓ where

module _ {ℓ} {A : Type ℓ} where
  abbrev pub length : List A → ℕ
  length [] = 0
  length (x ∷ xs) = suc (length xs)

  abbrev pub take : ℕ → List A → List A
  take zero xs = []
  take (suc n) [] = []
  take (suc n) (x ∷ xs) = x ∷ take n xs

  head_or : A → List A → A
  head_or c [] = c
  head_or c (x ∷ xs) = x

  tail : List A → List A
  tail [] = []
  tail (x ∷ xs) = xs

  -- `[x for x in xs if p(x)]`
  abbrev pub filter : (A → Bool) → List A → List A
  filter p [] = []
  filter p (x ∷ xs) = let rest = filter p xs in if p x then x ∷ rest else rest

  abbrev pub any : (A → Bool) → List A → Bool
  any p [] = false
  any p (x ∷ xs) = p x || any p xs

  abbrev pub all : (A → Bool) → List A → Bool
  all p [] = true
  all p (x ∷ xs) = p x && all p xs

  -- Membership, with the position kept.
  abbrev pub Has : A → List A → Type ℓ
  Has a [] = Lift
  Has a (x ∷ xs) = (x ≡ a) ⊎ Has a xs

  abbrev pub All {κ} : (A → Type κ) → List A → Type κ
  All P [] = Unit
  All P (x ∷ xs) = P x × All P xs

  pub length-append : (xs ys : List A) → length (xs ++ ys) ≡ length xs + length ys
  length-append [] ys = omega arith
  length-append (x ∷ xs) ys = omega (arith, length-append xs ys)

  pub length-take-le : (n : ℕ) (xs : List A) → length (take n xs) ≤ n
  length-take-le zero xs = omega arith
  length-take-le (suc n) [] = omega arith
  length-take-le (suc n) (x ∷ xs) = omega (arith, length-take-le n xs)

  pub length-filter-le : (p : A → Bool) (xs : List A) → length (filter p xs) ≤ length xs
  length-filter-le p [] = omega arith
  length-filter-le p (x ∷ xs) = ground (arith, length-filter-le p xs)

  pub Has-filter :
      (p : A → Bool) (a : A) (xs : List A) → Has a xs → p a ≡ true → Has a (filter p xs)
  Has-filter p a [] h e = elim h [ ]
  Has-filter p a (x ∷ xs) (inl q) e = rw (q, e) (inl refl)
  Has-filter p a (x ∷ xs) (inr h) e = elim (Bool-cases (p x)) [
    | inl t ↦ rw t (inr (Has-filter p a xs h e))
    | inr f ↦ rw f (Has-filter p a xs h e)
  ]

  pub filter-Has :
      (p : A → Bool) (a : A) (xs : List A) → Has a (filter p xs) → Has a xs × (p a ≡ true)
  filter-Has p a [] h = elim h [ ]
  filter-Has p a (x ∷ xs) h = elim (Bool-cases (p x)) [
    | inl t ↦ elim (rw t at h) [
      | inl q ↦ (inl q, rw (← q) t)
      | inr k ↦ let (m, e) = filter-Has p a xs k in (inr m, e)
    ]
    | inr f ↦ let (m, e) = filter-Has p a xs (rw f at h) in (inr m, e)
  ]

  pub All-Has {κ} : (P : A → Type κ) (xs : List A) {a : A} → All P xs → Has a xs → P a
  All-Has P [] h m = elim m [ ]
  All-Has P (x ∷ xs) h (inl q) = rw (← q) h.0
  All-Has P (x ∷ xs) h (inr m) = All-Has P xs h.1 m

  pub All-each {κ} : (P : A → Type κ) (xs : List A) → ((a : A) → Has a xs → P a) → All P xs
  All-each P [] f = tt
  All-each P (x ∷ xs) f = (f x (inl refl), All-each P xs (λ a h. f a (inr h)))

  pub All-append {κ} : (P : A → Type κ) (xs ys : List A) → All P xs → All P ys → All P (xs ++ ys)
  All-append P [] ys h k = k
  All-append P (x ∷ xs) ys h k = (h.0, All-append P xs ys h.1 k)

  pub All-filter {κ} :
      (P : A → Type κ) (p : A → Bool) (xs : List A) → All P xs → All P (filter p xs)
  All-filter P p [] h = tt
  All-filter P p (x ∷ xs) h = elim (Bool-cases (p x)) [
    | inl t ↦ rw t (h.0, All-filter P p xs h.1)
    | inr f ↦ rw f (All-filter P p xs h.1)
  ]

  pub Has-append : (a : A) (xs ys : List A) → Has a xs ⊎ Has a ys → Has a (xs ++ ys)
  Has-append a [] ys (inl h) = elim h [ ]
  Has-append a [] ys (inr h) = h
  Has-append a (x ∷ xs) ys (inl (inl q)) = inl q
  Has-append a (x ∷ xs) ys (inl (inr m)) = inr (Has-append a xs ys (inl m))
  Has-append a (x ∷ xs) ys (inr h) = inr (Has-append a xs ys (inr h))

  pub append-Has : (a : A) (xs ys : List A) → Has a (xs ++ ys) → Has a xs ⊎ Has a ys
  append-Has a [] ys h = inr h
  append-Has a (x ∷ xs) ys (inl q) = inl (inl q)
  append-Has a (x ∷ xs) ys (inr h) = elim (append-Has a xs ys h) [
    | inl m ↦ inl (inr m)
    | inr m ↦ inr m
  ]

module _ {ℓ κ} {A : Type ℓ} {B : Type κ} where
  pub Has-map : (f : A → B) (a : A) (xs : List A) → Has a xs → Has (f a) (map f xs)
  Has-map f a [] h = elim h [ ]
  Has-map f a (x ∷ xs) (inl q) = inl (ap f q)
  Has-map f a (x ∷ xs) (inr m) = inr (Has-map f a xs m)

  pub map-Has :
      (f : A → B) (b : B) (xs : List A) → Has b (map f xs) → (a : A) × Has a xs × (f a ≡ b)
  map-Has f b [] h = elim h [ ]
  map-Has f b (x ∷ xs) (inl q) = (x, inl refl, q)
  map-Has f b (x ∷ xs) (inr m) = let (a, h, q) = map-Has f b xs m in (a, inr h, q)

  -- The lists are equally long, and the items at each place are related.
  abbrev pub Each {μ} : (A → B → Type μ) → List A → List B → Type μ
  Each R [] [] = Unit
  Each R [] (y ∷ ys) = Lift
  Each R (x ∷ xs) [] = Lift
  Each R (x ∷ xs) (y ∷ ys) = R x y × Each R xs ys

module _ {ℓ κ μ} {A : Type ℓ} {B : Type κ} {C : Type μ} where
  -- Lists with the same image are related item by item, where two items with the same image are.
  pub map-Each {ν} :
      (f : A → C) (g : B → C) (R : A → B → Type ν)
      → ((a : A) (b : B) → g b ≡ f a → R a b)
      → (xs : List A) (ys : List B) → map g ys ≡ map f xs
      → Each R xs ys
  unfolding head_or tail
  map-Each f g R k [] [] e = tt
  map-Each f g R k [] (y ∷ ys) e = absurd (cc)
  map-Each f g R k (x ∷ xs) [] e = absurd (cc)
  map-Each f g R k (x ∷ xs) (y ∷ ys) e =
      (k x y (ap (head_or (f x)) e), map-Each f g R k xs ys (ap tail e))
