-- ===== src/Llm/Capabilities/Thinking.antt =====
-- The thinking budget of a request.
use web_search_api.Prelude.{
  ℕ, ◌≤◌, ◌<◌, String, ◌≡◌, refl, ◌∙◌, Option, none, some, [], ◌∷◌, arith, Bool-cases, leb, ◌⊎◌,
  inl, inr,
}
use web_search_api.Llm.Capabilities.{
  ModelCapabilities, budget_tokens, Intent, ShapedRequest, Field, object, leaf_text, leaf_count,
  lookup, thinking_budget, min_budget_tokens, clamp_output_tokens, apply_style, apply_reasoning,
  shape_openai_body,
}
use web_search_api.Llm.Capabilities.Keys.{lookup-put, lookup-add_temperature, lookup-add_json_mode}
use web_search_api.Llm.Capabilities.Efforts.{before_reasoning, absent_optional}

module _ (str : ℕ → String) where
  thinking_style :
      (e : String) (n : ℕ) (r : ShapedRequest)
      → lookup "thinking" r.body ≡ none
      → ((n ≤ min_budget_tokens)
          × (lookup "thinking" (apply_style str budget_tokens e n r).body ≡ none))
        ⊎ ((b : ℕ) × (min_budget_tokens ≤ b)
            × (b < n)
            × (lookup "thinking" (apply_style str budget_tokens e n r).body
                ≡ some (
                    object (("type", leaf_text "enabled") ∷ ("budget_tokens", leaf_count b) ∷ []))))
  unfolding apply_style
  thinking_style e n r h = elim (Bool-cases (leb n (thinking_budget n))) [
    | inl t ↦ inl (unfold thinking_budget in ground arith, ground arith)
    | inr f ↦
        let v : Field = object (
          ("type", leaf_text "enabled") ∷ ("budget_tokens", leaf_count (thinking_budget n)) ∷ []) in
        let l = lookup-put "thinking" "thinking" v r.body in
        inr (thinking_budget n, unfold thinking_budget in ground arith, ground arith, ground arith)
  ]

  -- On a model that takes a thinking budget, an effort becomes a budget of at least 1024 tokens and
  -- strictly below the cap that is sent; where the cap leaves no such room, thinking is not asked for.
  pub shape_thinking_budget :
      (i : Intent) (c : ModelCapabilities) (e : String)
      → c.reasoning ≡ budget_tokens
      → i.effort ≡ some e
      → (((clamp_output_tokens str i.max_output_tokens c).0 ≤ min_budget_tokens)
          × (lookup "thinking" (shape_openai_body str i c).body ≡ none))
        ⊎ ((b : ℕ) × (min_budget_tokens ≤ b)
            × (b < (clamp_output_tokens str i.max_output_tokens c).0)
            × (lookup "thinking" (shape_openai_body str i c).body
                ≡ some (
                    object (("type", leaf_text "enabled") ∷ ("budget_tokens", leaf_count b) ∷ []))))
  unfolding shape_openai_body apply_reasoning
  shape_thinking_budget i c e s q =
      let before : lookup "thinking" (before_reasoning str i c).body ≡ none =
        lookup-add_json_mode "thinking" i.json_mode c _ refl
        ∙ lookup-add_temperature "thinking" i.temperature c _ refl
        ∙ absent_optional str "thinking" i c refl refl refl refl in
      let told : apply_reasoning str i.effort c (clamp_output_tokens str i.max_output_tokens c).0
            (before_reasoning str i c)
          ≡ apply_style str budget_tokens e (clamp_output_tokens str i.max_output_tokens c).0
              (before_reasoning str i c) =
        reasoning_eq i.effort c e _ (before_reasoning str i c) q s in
      rw told (
        thinking_style e (clamp_output_tokens str i.max_output_tokens c).0
          (before_reasoning str i c) before)
    where
      reasoning_eq :
          (o : Option String) (c : ModelCapabilities) (e : String) (n : ℕ) (r : ShapedRequest)
          → o ≡ some e
          → c.reasoning ≡ budget_tokens
          → apply_reasoning str o c n r ≡ apply_style str budget_tokens e n r
      reasoning_eq o c e n r q s = cc
