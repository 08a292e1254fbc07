-- ===== src/Search/Router/Order.antt =====
-- The order in which `SearchRouter` asks its backends.
use web_search_api.Prelude.{
  suc, ◌≢◌, All, str_eq_of_ne, ◌+◌, String, ◌≡◌, refl, sym, ap, ◌∙◌, ◌↔◌, ◌⊎◌, inl, inr, Bool, not,
  Option, none, some, List, [], ◌∷◌, ◌++◌, map, arith, length, filter, Has, Has-filter, Has-append,
  append-Has, filter-Has, Bool-cases, Option-cases, length-append, str_eq, eq_iff, false≢true,
}
use web_search_api.Search.Router.{Backend, SearchRouter, ordered}

module _ {ℓ} {A : Type ℓ} where
  length_split :
      (p : A → Bool) (xs : List A) → length (filter p xs ++ filter (λ x. not (p x)) xs) ≡ length xs
  length_split p xs = length-append (filter p xs) (filter (λ x. not (p x)) xs) ∙ sum xs
    where
      sum : (xs : List A) → length (filter p xs) + length (filter (λ x. not (p x)) xs) ≡ length xs
      sum [] = omega arith
      sum (x ∷ xs) = ground (arith, sum xs)

  split_Has :
      (p : A → Bool) (a : A) (xs : List A)
      → Has a (filter p xs ++ filter (λ x. not (p x)) xs) ↔ Has a xs
  split_Has p a xs = (
    λ h. elim (append-Has a (filter p xs) _ h) [
      | inl m ↦ (filter-Has p a xs m).0
      | inr m ↦ (filter-Has (λ x. not (p x)) a xs m).0
    ],
    λ h. Has-append a (filter p xs) _ (elim (Bool-cases (p a)) [
      | inl t ↦ inl (Has-filter p a xs h t)
      | inr f ↦ inr (Has-filter (λ x. not (p x)) a xs h (rw f))
    ]),
  )

pub length-map {ℓ κ} :
    {A : Type ℓ} {B : Type κ} (f : A → B) (xs : List A) → length (map f xs) ≡ length xs
length-map f [] = refl
length-map f (x ∷ xs) = ap suc (length-map f xs)

abbrev pub head? {ℓ} : {A : Type ℓ} → List A → Option A
head? [] = none
head? (x ∷ xs) = some x

module _ {Caller : Type 0} (router : SearchRouter Caller) where
  -- The backend that is meant to come first: the one named for the call, or the deployment's.
  abbrev pub wanted_name : Option String → Option String
  wanted_name (some name) = some name
  wanted_name none = router.preferred

  abbrev named_first : String → List Backend
  named_first name =
      filter (λ b. str_eq b.name name) router.backends
      ++ filter (λ b. not (str_eq b.name name)) router.backends

  -- The two shapes that `_ordered` returns.
  ordered-cases :
      (name : Option String)
      → (ordered router name ≡ router.backends)
        ⊎ ((n : String) × (wanted_name name ≡ some n) × (ordered router name ≡ named_first n))
  unfolding ordered
  ordered-cases (some n) = elim (Bool-cases (str_eq n "")) [
    | inl t ↦ inl (rw t)
    | inr f ↦ inr (n, refl, rw f)
  ]
  ordered-cases none = elim (Option-cases router.preferred) [
    | inl e ↦ inl (ground arith)
    | inr (n, q) ↦ elim (Bool-cases (str_eq n "")) [
      | inl t ↦ inl (ground arith)
      | inr f ↦ inr (n, q, ground arith)
    ]
  ]

  ordered_named :
      (name : Option String) (n : String)
      → wanted_name name ≡ some n
      → n ≢ ""
      → ordered router name ≡ named_first n
  unfolding ordered
  ordered_named (some m) n q ne = let e : m ≡ n = cc in rw (e, str_eq_of_ne n "" ne)
  ordered_named none n q ne = let f = str_eq_of_ne n "" ne in ground arith

  pub length-ordered :
      (name : Option String) → length (ordered router name) ≡ length router.backends
  length-ordered name = elim (ordered-cases name) [
    | inl e ↦ ap length e
    | inr (n, _, e) ↦ ap length e ∙ length_split (λ (b : Backend). str_eq b.name n) router.backends
  ]

  head-named :
      (n : String) (b : Backend) (bs rest : List Backend)
      → Has b bs
      → b.name ≡ n
      → (c : Backend) × (head? (filter (λ b. str_eq b.name n) bs ++ rest) ≡ some c) × (c.name ≡ n)
  head-named n b [] rest h e = elim h [ ]
  head-named n b (x ∷ bs) rest h e = elim (Bool-cases (str_eq x.name n)) [
    | inl t ↦ (x, rw t, (eq_iff x.name n).0 t)
    | inr f ↦
        let m : Has b bs = elim h [
          | inl q ↦
              absurd (
                false≢true
                  (sym f ∙ ap (λ (y : Backend). str_eq y.name n) q ∙ (eq_iff b.name n).1 e))
          | inr m ↦ m
        ] in
        rw f (head-named n b bs rest m e)
  ]

  unnamed_same :
      (n : String) (bs : List Backend)
      → All (λ b. b.name ≢ n) bs
      → filter (λ b. str_eq b.name n) bs ++ filter (λ b. not (str_eq b.name n)) bs ≡ bs
  unnamed_same n [] h = refl
  unnamed_same n (b ∷ bs) h =
      let f = str_eq_of_ne b.name n h.0 in
      rw f (shift b _ _ _ (unnamed n bs h.1) (unnamed_same n bs h.1))
    where
      unnamed :
          (n : String) (bs : List Backend)
          → All (λ b. b.name ≢ n) bs
          → filter (λ b. str_eq b.name n) bs ≡ []
      unnamed n [] h = refl
      unnamed n (b ∷ bs) h = let f = str_eq_of_ne b.name n h.0 in rw f (unnamed n bs h.1)

      shift :
          (b : Backend) (xs ys zs : List Backend) → xs ≡ [] → xs ++ ys ≡ zs → xs ++ b ∷ ys ≡ b ∷ zs
      shift b xs ys zs e h = rw e (ap (◌∷◌ b) (rw e at h))

  -- The preferred backend is tried first if the deployment knows it. The others follow, none is added,
  -- lost or repeated, and a name that nothing has changes no order.
  pub ordered_lem :
      (name : Option String)
      → (length (ordered router name) ≡ length router.backends)
        × ((b : Backend) → Has b (ordered router name) ↔ Has b router.backends)
        × ((n : String) (b : Backend)
            → wanted_name name ≡ some n
            → n ≢ ""
            → Has b router.backends
            → b.name ≡ n
            → (c : Backend) × (head? (ordered router name) ≡ some c) × (c.name ≡ n))
        × ((n : String)
            → wanted_name name ≡ some n
            → All (λ b. b.name ≢ n) router.backends
            → ordered router name ≡ router.backends)
  ordered_lem name = (
    length-ordered name,
    λ b. elim (ordered-cases name) [
      | inl e ↦ rw e (λ h. h, λ h. h)
      | inr (n, _, e) ↦ rw e (split_Has (λ (b : Backend). str_eq b.name n) b router.backends)
    ],
    λ n b q ne h e. rw (ordered_named name n q ne) (head-named n b router.backends _ h e),
    λ n q h. elim (ordered-cases name) [
      | inl e ↦ e
      | inr (m, q', e) ↦
          let same : m ≡ n = cc in e ∙ ap named_first same ∙ unnamed_same n router.backends h
    ],
  )
