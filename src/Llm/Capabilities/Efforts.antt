-- ===== src/Llm/Capabilities/Efforts.antt =====
-- Which requests ask a model for reasoning, and how.
use web_search_api.Prelude.{
  ℕ, String, ◌≡◌, refl, ap, ◌∙◌, true, false, Option, none, some, List, [], ◌∷◌, All, All-each, Has,
  arith, str_eq, Bool-cases, ◌⊎◌, inl, inr,
}
use web_search_api.Llm.Capabilities.{
  ModelCapabilities, MaxTokensParam, max_tokens, max_completion_tokens, param_name, ReasoningStyle,
  no_reasoning, effort, adaptive_thinking, budget_tokens, enable_thinking, thinking_type, Intent,
  ShapedRequest, Field, text, count, flag, turns, object, leaf_text, leaf_count, lookup, put,
  thinking_budget, openai_effort, is_openai_effort, openai_efforts, clamp_output_tokens,
  apply_style, apply_reasoning, payload, base_request, add_temperature, add_json_mode,
  shape_openai_body,
}
use web_search_api.Llm.Capabilities.Keys.{lookup-put, lookup-add_temperature, lookup-add_json_mode}

-- The keys under which the dialects ask for reasoning.
abbrev pub reasoning_keys : List String
reasoning_keys = "reasoning_effort" ∷ "output_config" ∷ "thinking" ∷ "enable_thinking" ∷ []

module _ (str : ℕ → String) where
  abbrev pub before_reasoning : Intent → ModelCapabilities → ShapedRequest
  before_reasoning i c =
      add_json_mode i.json_mode c (add_temperature i.temperature c (base_request str i c))

  openai_effort-known : (e : String) → is_openai_effort (openai_effort e) openai_efforts ≡ true
  unfolding openai_effort is_openai_effort
  openai_effort-known e = elim (Bool-cases (is_openai_effort e openai_efforts)) [
    | inl t ↦ rw (t, is_openai_effort) t
    | inr f ↦ rw f refl
  ]

  pub lookup-base :
      (k : String) (i : Intent) (c : ModelCapabilities)
      → lookup k (base_request str i c).body
        ≡ lookup k (
            ("model", text i.model)
            ∷ ("messages", turns (payload str i c).0)
            ∷ (
              param_name c.max_tokens_param,
              count (clamp_output_tokens str i.max_output_tokens c).0,
            )
            ∷ [])
  unfolding base_request
  lookup-base k i c = refl

  pub absent_before :
      (k : String) (i : Intent) (c : ModelCapabilities)
      → str_eq "model" k ≡ false
      → str_eq "messages" k ≡ false
      → str_eq (param_name c.max_tokens_param) k ≡ false
      → lookup k (base_request str i c).body ≡ none
  absent_before k i c m s p = lookup-base k i c ∙ rw (m, s, p)

  effort_style :
      (s : ReasoningStyle) (e : String) (n : ℕ) (r : ShapedRequest) (level : Field)
      → lookup "reasoning_effort" r.body ≡ none
      → lookup "reasoning_effort" (apply_style str s e n r).body ≡ some level
      → (s ≡ effort) × (level ≡ text (openai_effort e))
  unfolding apply_style
  effort_style no_reasoning e n r level h q = absurd (cc)
  effort_style effort e n r level h q = (
    refl,
    ground
        (arith, lookup-put "reasoning_effort" "reasoning_effort" (text (openai_effort e)) r.body),
  )
  effort_style adaptive_thinking e n r level h q =
      let first : Field = object (("type", leaf_text "adaptive") ∷ []) in
      let l = lookup-put "thinking" "reasoning_effort" first r.body in
      let m =
        lookup-put "output_config" "reasoning_effort" (object (("effort", leaf_text e) ∷ []))
          (put "thinking" first r.body) in
      let gone : lookup "reasoning_effort" (
            put "output_config" (object (("effort", leaf_text e) ∷ []))
              (put "thinking" first r.body))
          ≡ none =
        m ∙ l ∙ h in
      absurd (cc)
  effort_style budget_tokens e n r level h q =
      let l =
        lookup-put "thinking" "reasoning_effort"
          (object (
            ("type", leaf_text "enabled") ∷ ("budget_tokens", leaf_count (thinking_budget n)) ∷ []))
          r.body in
      absurd (ground arith)
  effort_style enable_thinking e n r level h q =
      let l = lookup-put "enable_thinking" "reasoning_effort" (flag true) r.body in
      let gone : lookup "reasoning_effort" (put "enable_thinking" (flag true) r.body) ≡ none =
        l ∙ h in
      absurd (cc)
  effort_style thinking_type e n r level h q =
      let l =
        lookup-put "thinking" "reasoning_effort" (object (("type", leaf_text "enabled") ∷ []))
          r.body in
      let gone : lookup "reasoning_effort"
            (put "thinking" (object (("type", leaf_text "enabled") ∷ [])) r.body)
          ≡ none =
        l ∙ h in
      absurd (cc)

  param_not :
      (k : String)
      → str_eq "max_tokens" k ≡ false
      → str_eq "max_completion_tokens" k ≡ false
      → (p : MaxTokensParam) → str_eq (param_name p) k ≡ false
  param_not k m n max_tokens = m
  param_not k m n max_completion_tokens = n

  -- No key is there before the step that may write it.
  pub absent_optional :
      (k : String) (i : Intent) (c : ModelCapabilities)
      → str_eq "model" k ≡ false
      → str_eq "messages" k ≡ false
      → str_eq "max_tokens" k ≡ false
      → str_eq "max_completion_tokens" k ≡ false
      → lookup k (base_request str i c).body ≡ none
  absent_optional k i c m s t u = absent_before k i c m s (param_not k t u c.max_tokens_param)

  reasoning_sent :
      (o : Option String) (c : ModelCapabilities) (n : ℕ) (r : ShapedRequest) (level : Field)
      → lookup "reasoning_effort" r.body ≡ none
      → lookup "reasoning_effort" (apply_reasoning str o c n r).body ≡ some level
      → (c.reasoning ≡ effort)
        × ((e : String) × (o ≡ some e)
            × (level ≡ text (openai_effort e))
            × (is_openai_effort (openai_effort e) openai_efforts ≡ true))
  unfolding apply_reasoning
  reasoning_sent none c n r level h q = absurd (cc)
  reasoning_sent (some e) c n r level h q =
      let (s, l) = effort_style c.reasoning e n r level h q in
      (s, (e, refl, l, openai_effort-known e))

  pub effort_sent :
      (i : Intent) (c : ModelCapabilities) (level : Field)
      → lookup "reasoning_effort" (shape_openai_body str i c).body ≡ some level
      → (c.reasoning ≡ effort)
        × ((e : String) × (i.effort ≡ some e)
            × (level ≡ text (openai_effort e))
            × (is_openai_effort (openai_effort e) openai_efforts ≡ true))
  unfolding shape_openai_body
  effort_sent i c level h =
      let none_before : lookup "reasoning_effort" (before_reasoning i c).body ≡ none =
        lookup-add_json_mode "reasoning_effort" i.json_mode c _ refl
        ∙ lookup-add_temperature "reasoning_effort" i.temperature c _ refl
        ∙ absent_optional "reasoning_effort" i c refl refl refl refl in
      reasoning_sent i.effort c _ (before_reasoning i c) level none_before h

  apply_reasoning_quiet :
      (o : Option String) (c : ModelCapabilities) (n : ℕ) (r : ShapedRequest)
      → (c.reasoning ≡ no_reasoning) ⊎ (o ≡ none)
      → (apply_reasoning str o c n r).body ≡ r.body
  unfolding apply_reasoning apply_style
  apply_reasoning_quiet none c n r q = refl
  apply_reasoning_quiet (some e) c n r (inl q) = rw q refl
  apply_reasoning_quiet (some e) c n r (inr q) = absurd (cc)

  quiet_key :
      (k : String) (i : Intent) (c : ModelCapabilities)
      → (c.reasoning ≡ no_reasoning) ⊎ (i.effort ≡ none)
      → lookup k (before_reasoning i c).body ≡ none
      → lookup k (shape_openai_body str i c).body ≡ none
  unfolding shape_openai_body
  quiet_key k i c q h =
      ap (λ b. lookup k b) (apply_reasoning_quiet i.effort c _ (before_reasoning i c) q) ∙ h

  absent_reasoning :
      (k : String) (i : Intent) (c : ModelCapabilities)
      → str_eq "response_format" k ≡ false
      → str_eq "temperature" k ≡ false
      → lookup k (base_request str i c).body ≡ none
      → lookup k (before_reasoning i c).body ≡ none
  absent_reasoning k i c f t h =
      lookup-add_json_mode k i.json_mode c _ f ∙ lookup-add_temperature k i.temperature c _ t ∙ h

  absent_key :
      (k : String) (i : Intent) (c : ModelCapabilities)
      → Has k reasoning_keys
      → lookup k (before_reasoning i c).body ≡ none
  absent_key k i c (inl q) = rw (← q) (
      absent_reasoning "reasoning_effort" i c refl refl
        (absent_optional "reasoning_effort" i c refl refl refl refl))
  absent_key k i c (inr (inl q)) = rw (← q) (
      absent_reasoning "output_config" i c refl refl
        (absent_optional "output_config" i c refl refl refl refl))
  absent_key k i c (inr (inr (inl q))) = rw (← q) (
      absent_reasoning "thinking" i c refl refl
        (absent_optional "thinking" i c refl refl refl refl))
  absent_key k i c (inr (inr (inr (inl q)))) = rw (← q) (
      absent_reasoning "enable_thinking" i c refl refl
        (absent_optional "enable_thinking" i c refl refl refl refl))
  absent_key k i c (inr (inr (inr (inr m)))) = elim m [ ]

  pub quiet_keys :
      (i : Intent) (c : ModelCapabilities)
      → (c.reasoning ≡ no_reasoning) ⊎ (i.effort ≡ none)
      → All (λ k. lookup k (shape_openai_body str i c).body ≡ none) reasoning_keys
  quiet_keys i c q =
      All-each (λ k. lookup k (shape_openai_body str i c).body ≡ none) reasoning_keys
        (λ k m. quiet_key k i c q (absent_key k i c m))
