-- ===== src/Llm/Models/Ids.antt =====
-- Model ids, split and built.
use Prim.Native.Char.{Char, code as code_point}
use Prim.Native.String
use text.Mathlib.TextLemmas.{cons-append, nil-append}
use text.Mathlib.TextEquality.{Char-path}
use web_search_api.Prelude.{
  ℕ, String, ◌≡◌, ◌≢◌, refl, ap, ◌∙◌, ◌↔◌, false, Option, some, ◌==◌, arith, Bool-cases,
  Option-cases, inl, inr, eq_iff, str_eq_of_ne,
}
use web_search_api.Core.Result.{ok}
use web_search_api.Llm.Models.{model_id_of, partition, partition_step, split_model_id, build}

-- No character of the text is a colon.
abbrev pub LacksColon : String → Type 0
LacksColon String.[] = Unit
LacksColon (String.◌∷◌ c s) = (code_point c ≢ b':') × LacksColon s

model_id_of-nil : (m : String) → model_id_of "" m ≡ String.◌∷◌ ":" m
unfolding model_id_of
model_id_of-nil m = rw (nil-append, cons-append, nil-append) refl

model_id_of-cons :
    (c : Char) (s m : String) → model_id_of (String.◌∷◌ c s) m ≡ String.◌∷◌ c (model_id_of s m)
unfolding model_id_of
model_id_of-cons c s m = cons-append c s (String.◌++◌ ":" m)

partition-model_id_of : (p m : String) → LacksColon p → partition (model_id_of p m) ≡ some (p, m)
unfolding partition partition_step
partition-model_id_of String.[] m h = rw (model_id_of-nil m) refl
partition-model_id_of (String.◌∷◌ c s) m h =
    let other : (code_point c == b':') ≡ false = (let n = h.0 in ground arith) in
    rw (model_id_of-cons c s m, other, partition-model_id_of s m h.1) refl

model_id_of-partition :
    (s p m : String) → partition s ≡ some (p, m) → (s ≡ model_id_of p m) × LacksColon p
unfolding partition partition_step
model_id_of-partition String.[] p m h = cc
model_id_of-partition (String.◌∷◌ c s) p m h = elim (Bool-cases (code_point c == b':')) [
  | inl t ↦
      let found : ◌≡◌ {A = Option (String × String)} (some ("", s)) (some (p, m)) = rw t at h in
      let first : "" ≡ p = cc in
      let colon : c ≡ ":" = Char-path c ":" (ground arith) in
      rw (← first) (rw (model_id_of-nil m) (cc), tt)
  | inr f ↦ elim (Option-cases (partition s)) [
    | inl n ↦ absurd (ground arith)
    | inr ((q, r), e) ↦
        let (split, lacks) = model_id_of-partition s q r e in
        let found : ◌≡◌ {A = Option (String × String)} (some (String.◌∷◌ c q, r)) (some (p, m)) =
          rw e at (rw f at h) in
        let first : String.◌∷◌ c q ≡ p = cc in
        let last : r ≡ m = cc in
        rw (← first, ← last)
          (rw (model_id_of-cons c q r) (ap (String.◌∷◌ c) split), ((λ z. ground arith), lacks))
  ]
]

split_model_id_parts :
    (id p m : String)
    → split_model_id id ≡ ok (p, m)
    → (partition id ≡ some (p, m)) × (p ≢ "") × (m ≢ "")
unfolding split_model_id
split_model_id_parts id p m h = elim (Option-cases (partition id)) [
  | inl n ↦ absurd (ground arith)
  | inr ((q, r), e) ↦
      let front : q ≡ p = ground (arith, eq_iff q "", eq_iff r "") in
      let back : r ≡ m = ground (arith, eq_iff q "", eq_iff r "") in
      (
        rw (← front, ← back) e,
        λ z. (let z' : q ≡ "" = front ∙ z in ground (arith, eq_iff q "", eq_iff r "")),
        λ z. (let z' : r ≡ "" = back ∙ z in ground (arith, eq_iff q "", eq_iff r "")),
      )
]

split_model_id_found :
    (id p m : String) → partition id ≡ some (p, m) → p ≢ "" → m ≢ "" → split_model_id id ≡ ok (p, m)
unfolding split_model_id
split_model_id_found id p m e named given =
    let first = str_eq_of_ne p "" named in let last = str_eq_of_ne m "" given in ground arith

-- Model ids round trip: an id splits into two names exactly where it is the one built of them, the
-- first, a provider's, has no colon, and neither is empty.
pub split_model_id-build :
    (p m id : String) (name : Option String) (window output : Option ℕ)
    → (split_model_id id ≡ ok (p, m))
      ↔ ((id ≡ (build p m name window output).id) × LacksColon p × (p ≢ "") × (m ≢ ""))
unfolding build
split_model_id-build p m id name window output = (
  λ h.
      let (e, named, given) = split_model_id_parts id p m h in
      let (built, lacks) = model_id_of-partition id p m e in (built, lacks, named, given),
  λ (e, lacks, named, given).
      rw e
        (split_model_id_found (model_id_of p m) p m (partition-model_id_of p m lacks) named given),
)
