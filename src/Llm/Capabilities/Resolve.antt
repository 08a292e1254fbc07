-- ===== src/Llm/Capabilities/Resolve.antt =====
-- Which rule decides what a model accepts, and what the provider's own figures override.
use web_search_api.Prelude.{
  ℕ, String, ◌≡◌, refl, ap, Bool, true, false, Option, none, some, List, [], ◌∷◌, ◌++◌, arith, All,
  Bool-cases, inl, inr,
}
use web_search_api.Llm.Capabilities.{
  ModelCapabilities, CapabilityRule, unknown_model_capabilities, match_rules, resolve_capabilities,
}

abbrev pub without_limits : ModelCapabilities → ModelCapabilities
without_limits c = record c { context_window = none; max_output_tokens = none }

module _ (search : String → String → Bool) where
  abbrev pub Misses : String → CapabilityRule → Type 0
  Misses model r = search r.pattern model ≡ false

  -- The capabilities come from the first rule whose pattern is found, or no pattern is found and they
  -- are the conservative ones.
  pub data Decided (rules : List CapabilityRule) (model : String) (c : ModelCapabilities)
      : Type 0 where
    by_rule :
        (before : List CapabilityRule) (r : CapabilityRule) (after : List CapabilityRule)
        → rules ≡ before ++ r ∷ after
        → All (Misses model) before
        → search r.pattern model ≡ true
        → c ≡ r.capabilities
        → Decided rules model c
    by_default : All (Misses model) rules → c ≡ unknown_model_capabilities → Decided rules model c

  match_rules-Decided :
      (rules : List CapabilityRule) (model : String)
      → Decided rules model (match_rules search rules model)
  unfolding match_rules
  match_rules-Decided [] model = by_default tt refl
  match_rules-Decided (r ∷ rs) model = elim (Bool-cases (search r.pattern model)) [
    | inl t ↦ rw t (by_rule [] r rs refl tt t refl)
    | inr f ↦ rw f (behind f (match_rules-Decided rs model))
  ]
    where
      behind :
          {c : ModelCapabilities}
          → search r.pattern model ≡ false
          → Decided rs model c
          → Decided (r ∷ rs) model c
      behind f (by_rule before r' after e m s q) =
          by_rule (r ∷ before) r' after (ap (◌∷◌ r) e) (f, m) s q
      behind f (by_default m q) = by_default (f, m) q

  -- The first matching rule decides, or the conservative defaults where none matches; a context window
  -- or output cap that the provider reports replaces the rule's, one that it does not report keeps it,
  -- and nothing else changes.
  pub resolve_capabilities_lem :
      (rules : List CapabilityRule) (model : String) (window output : Option ℕ)
      → (base : ModelCapabilities) × Decided rules model base
        × (without_limits (resolve_capabilities search rules model window output)
            ≡ without_limits base)
        × ((w : ℕ)
            → window ≡ some w
            → (resolve_capabilities search rules model window output).context_window ≡ some w)
        × (window ≡ none
            → (resolve_capabilities search rules model window output).context_window
              ≡ base.context_window)
        × ((t : ℕ)
            → output ≡ some t
            → (resolve_capabilities search rules model window output).max_output_tokens ≡ some t)
        × (output ≡ none
            → (resolve_capabilities search rules model window output).max_output_tokens
              ≡ base.max_output_tokens)
  unfolding resolve_capabilities
  resolve_capabilities_lem rules model window output = (
    match_rules search rules model,
    match_rules-Decided rules model,
    refl,
    λ w e. ground arith,
    λ e. ground arith,
    λ t e. ground arith,
    λ e. ground arith,
  )
