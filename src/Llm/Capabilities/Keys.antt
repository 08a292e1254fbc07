-- ===== src/Llm/Capabilities/Keys.antt =====
-- Which step of `shape_openai_body` writes which key of the body.
use web_search_api.Prelude.{
  ℕ, ◌≤◌, String, ◌≡◌, refl, ◌∙◌, Bool, true, false, Option, none, some, [], ◌∷◌, arith, str_eq,
  eq_iff, if◌then◌else◌,
}
use web_search_api.Llm.Capabilities.{
  ModelCapabilities, ReasoningStyle, no_reasoning, effort, adaptive_thinking, budget_tokens,
  enable_thinking, thinking_type, Intent, ShapedRequest, Field, Body, text, thousandths, flag,
  object, leaf_text, leaf_count, lookup, put, thinking_budget, openai_effort, clamp_output_tokens,
  apply_style, apply_reasoning, base_request, add_temperature, add_json_mode, shape_openai_body,
}

pub lookup-put :
    (k j : String) (v : Field) (b : Body)
    → lookup j (put k v b) ≡ (if str_eq k j then some v else lookup j b)
lookup-put k j v [] = refl
lookup-put k j v ((i, w) ∷ b) =
    ground (arith, lookup-put k j v b, eq_iff i k, eq_iff i j, eq_iff k j)

-- A key that reasoning does not write.
pub record IsOther (k : String) : Type 0 where
  pub not_effort : str_eq "reasoning_effort" k ≡ false
  pub not_config : str_eq "output_config" k ≡ false
  pub not_thinking : str_eq "thinking" k ≡ false
  pub not_enable : str_eq "enable_thinking" k ≡ false

abbrev pub temperature_of : Option ℕ → ModelCapabilities → Option Field
temperature_of none c = none
temperature_of (some t) c = if c.supports_temperature then some (thousandths t) else none

abbrev pub format_of : Bool → ModelCapabilities → Option Field
format_of false c = none
format_of true c =
    if c.supports_json_mode then some (object (("type", leaf_text "json_object") ∷ [])) else none

pub lookup-add_temperature :
    (k : String) (t : Option ℕ) (c : ModelCapabilities) (r : ShapedRequest)
    → str_eq "temperature" k ≡ false
    → lookup k (add_temperature t c r).body ≡ lookup k r.body
unfolding add_temperature
lookup-add_temperature k none c r f = refl
lookup-add_temperature k (some t) c r f =
    ground (arith, lookup-put "temperature" k (thousandths t) r.body)

pub lookup-add_json_mode :
    (k : String) (j : Bool) (c : ModelCapabilities) (r : ShapedRequest)
    → str_eq "response_format" k ≡ false
    → lookup k (add_json_mode j c r).body ≡ lookup k r.body
unfolding add_json_mode
lookup-add_json_mode k false c r f = refl
lookup-add_json_mode k true c r f =
    ground (
      arith,
      lookup-put "response_format" k (object (("type", leaf_text "json_object") ∷ [])) r.body,
    )

module _ (str : ℕ → String) where
  pub clamp_bounded :
      (n cap : ℕ) (c : ModelCapabilities)
      → c.max_output_tokens ≡ some cap
      → ((clamp_output_tokens str n c).0 ≤ cap) × ((clamp_output_tokens str n c).0 ≤ n)
  unfolding clamp_output_tokens
  clamp_bounded n cap c q = ground arith

  pub lookup-apply_style :
      (k e : String) (s : ReasoningStyle) (n : ℕ) (r : ShapedRequest)
      → IsOther k
      → lookup k (apply_style str s e n r).body ≡ lookup k r.body
  unfolding apply_style
  lookup-apply_style k e no_reasoning n r o = refl
  lookup-apply_style k e effort n r o =
      ground (arith, lookup-put "reasoning_effort" k (text (openai_effort e)) r.body, o.not_effort)
  lookup-apply_style k e adaptive_thinking n r o =
      let inner : Body = put "thinking" (object (("type", leaf_text "adaptive") ∷ [])) r.body in
      lookup-put "output_config" k (object (("effort", leaf_text e) ∷ [])) inner
      ∙ rw o.not_config (
          lookup-put "thinking" k (object (("type", leaf_text "adaptive") ∷ [])) r.body
          ∙ rw o.not_thinking)
  lookup-apply_style k e budget_tokens n r o = ground (
    arith,
    lookup-put "thinking" k
        (object
          (("type", leaf_text "enabled") ∷ ("budget_tokens", leaf_count (thinking_budget n)) ∷ []))
        r.body,
    o.not_thinking,
  )
  lookup-apply_style k e enable_thinking n r o =
      lookup-put "enable_thinking" k (flag true) r.body ∙ rw o.not_enable
  lookup-apply_style k e thinking_type n r o =
      lookup-put "thinking" k (object (("type", leaf_text "enabled") ∷ [])) r.body
      ∙ rw o.not_thinking

  pub lookup-apply_reasoning :
      (k : String) (e : Option String) (c : ModelCapabilities) (n : ℕ) (r : ShapedRequest)
      → IsOther k
      → lookup k (apply_reasoning str e c n r).body ≡ lookup k r.body
  unfolding apply_reasoning
  lookup-apply_reasoning k none c n r o = refl
  lookup-apply_reasoning k (some e) c n r o = lookup-apply_style k e c.reasoning n r o

  -- A key that only the fixed part of the body may hold.
  pub fixed_key :
      (k : String) (i : Intent) (c : ModelCapabilities)
      → IsOther k
      → str_eq "temperature" k ≡ false
      → str_eq "response_format" k ≡ false
      → lookup k (shape_openai_body str i c).body ≡ lookup k (base_request str i c).body
  unfolding shape_openai_body
  fixed_key k i c o t f =
      lookup-apply_reasoning k i.effort c _ _ o
      ∙ lookup-add_json_mode k i.json_mode c _ f
      ∙ lookup-add_temperature k i.temperature c _ t
