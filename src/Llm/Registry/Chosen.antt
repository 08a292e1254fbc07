-- ===== src/Llm/Registry/Chosen.antt =====
-- Which model `resolve` returns.
use web_search_api.Prelude.{
  String, ◌≡◌, refl, ◌≢◌, Bool, true, false, Option, none, some, List, [], ◌∷◌, str_eq, All,
  All-Has, Has, if◌then◌else◌, ◌⊎◌, inl, inr, arith, eq_iff, Bool-cases, Option-cases, ne_of_str_eq,
}
use web_search_api.Core.Errors.{DomainError}
use web_search_api.Core.Result.{Result, ok, err, >>=-eq-ok}
use web_search_api.Keyring.Caller.{Caller}
use web_search_api.Llm.Models.{ModelInfo, split_model_id}
use web_search_api.Llm.Registry.{ModelRegistry, find}
use web_search_api.Llm.Registry.Completion.{needs_profile, found_or_first, pick_of}

find-some :
    (id : String) (ms : List ModelInfo) (m : ModelInfo)
    → find id ms ≡ some m
    → Has m ms × (m.id ≡ id)
unfolding find
find-some id [] m h = cc
find-some id (n ∷ ns) m h = elim (Bool-cases (str_eq n.id id)) [
  | inl t ↦
      let q : n.id ≡ id = ground (arith, eq_iff n.id id) in
      let e : some n ≡ some m = rw t at h in let f : n ≡ m = cc in (inl f, rw (← f) q)
  | inr f ↦ let (k, q) = find-some id ns m (rw f at h) in (inr k, q)
]

find-none : (id : String) (ms : List ModelInfo) → find id ms ≡ none → All (λ m. m.id ≢ id) ms
unfolding find
find-none id [] h = tt
find-none id (n ∷ ns) h = elim (Bool-cases (str_eq n.id id)) [
  | inl t ↦ absurd (let e : some n ≡ none = rw t at h in cc)
  | inr f ↦ (ne_of_str_eq n.id id f, find-none id ns (rw f at h))
]

-- What `resolve` may return: the model whose id was requested, or, where the caller named none, another
-- one, as no model has the id of the default.
abbrev pub IsChosen : Option String → String → List ModelInfo → ModelInfo → Type 0
IsChosen model_id id ms m = Has m ms × ((m.id ≡ id) ⊎ ((model_id ≡ none) × All (λ n. n.id ≢ id) ms))

found_or_first-IsChosen :
    (model_id : Option String) (id : String) (ms : List ModelInfo) (first m : ModelInfo)
    → Has first ms
    → (found : Option ModelInfo) → find id ms ≡ found
    → found_or_first model_id ms first found ≡ ok m
    → IsChosen model_id id ms m
unfolding found_or_first
found_or_first-IsChosen model_id id ms first m f (some k) e h =
    let q : k ≡ m = cc in let (found, same) = find-some id ms m (rw (← q) e) in (found, inl same)
found_or_first-IsChosen none id ms first m f none e h =
    let q : first ≡ m = cc in (rw (← q) f, inr (refl, find-none id ms e))
found_or_first-IsChosen (some i) id ms first m f none e h = cc

if_ok :
    {A : Type 0} (b : Bool) (e : DomainError) (x : Result A) {a : A}
    → (if b then err e else x) ≡ ok a
    → (b ≡ false) × (x ≡ ok a)
if_ok true e x h = cc
if_ok false e x h = (refl, h)

module _ (r : ModelRegistry) where
  pub pick_of-IsChosen :
      (model_id : Option String) (id : String) (caller : Option Caller) (ms : List ModelInfo)
      (m : ModelInfo)
      → pick_of r model_id id caller ms ≡ ok m
      → IsChosen model_id id ms m
  unfolding pick_of
  pick_of-IsChosen model_id id caller [] m h = cc
  pick_of-IsChosen model_id id caller (first ∷ rest) m h =
      let (parts, s, g) = >>=-eq-ok (split_model_id id) _ h in
      let (_, k) = if_ok (needs_profile parts.0 caller r.providers) _ _ g in
      found_or_first-IsChosen model_id id (first ∷ rest) first m (inl refl) (find id (first ∷ rest))
        refl k

  -- A model with the requested id is returned where its id is well formed and the profile is known.
  pub pick_of_listed :
      (model_id : Option String) (id : String) (caller : Option Caller) (ms : List ModelInfo)
      (m : ModelInfo) (parts : String × String)
      → Has m ms
      → m.id ≡ id
      → split_model_id id ≡ ok parts
      → needs_profile parts.0 caller r.providers ≡ false
      → (n : ModelInfo) × (pick_of r model_id id caller ms ≡ ok n) × Has n ms × (n.id ≡ id)
  unfolding pick_of found_or_first
  pick_of_listed model_id id caller [] m parts h q s k = elim h [ ]
  pick_of_listed model_id id caller (first ∷ rest) m parts h q s k =
      elim (Option-cases (find id (first ∷ rest))) [
        | inl none_has ↦
            absurd
              (All-Has (λ n. n.id ≢ id) (first ∷ rest) (find-none id (first ∷ rest) none_has) h q)
        | inr (n, e) ↦
            let (found, same) = find-some id (first ∷ rest) n e in
            (n, rw (s, k, e) refl, found, same)
      ]
