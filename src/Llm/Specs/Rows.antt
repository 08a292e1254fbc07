-- ===== src/Llm/Specs/Rows.antt =====
-- What the rows of the table of providers have in common.
use Prim.Native.Char.{code as code_point}
use web_search_api.Prelude.{
  String, ◌≡◌, refl, Bool, true, false, not, ◌&&◌, ◌||◌, List, [], ◌∷◌, map, all, str_eq, ◌==◌,
}
use web_search_api.Fetch.UrlSafety.{is_member}
use web_search_api.Llm.Specs.{ProviderKind, local, requires_key, openai_compatible_specs}

abbrev are_distinct : List String → Bool
are_distinct [] = true
are_distinct (k ∷ ks) = not (is_member k ks) && are_distinct ks

abbrev has_colon : String → Bool
has_colon String.[] = false
has_colon (String.◌∷◌ c s) = (code_point c == b':') || has_colon s

abbrev is_local : ProviderKind → Bool
is_local k = elim k [ local ↦ true | _ ↦ false ]

abbrev same : Bool → Bool → Bool
same a b = (a && b) || not (a || b)

-- No two rows have one key, so a dictionary by key keeps every row.
specs-distinct : are_distinct (map (λ s. s.key) openai_compatible_specs) ≡ true
unfolding is_member
specs-distinct = refl

-- No key is empty or has a colon, so the id of a model splits into the provider's key and the model.
specs-keys :
    all (λ s. not (str_eq s.key "") && not (has_colon s.key)) openai_compatible_specs ≡ true
specs-keys = refl

-- Exactly the rows of local runtimes need no credential.
specs-requires_key :
    all (λ s. same (requires_key s) (not (is_local s.kind))) openai_compatible_specs ≡ true
specs-requires_key = refl
