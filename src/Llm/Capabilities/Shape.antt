-- ===== src/Llm/Capabilities/Shape.antt =====
-- What `shape_openai_body` sends, key by key, for every set of capabilities.
use web_search_api.Prelude.{
  ℕ, ◌≤◌, String, ◌≡◌, ◌≢◌, refl, ap, ◌∙◌, Bool, true, false, Option, none, some, List, [], ◌∷◌,
  ◌++◌, All, if◌then◌else◌, arith, str_eq, Bool-cases, eq_refl, ◌⊎◌, inl, inr,
}
use web_search_api.Llm.Capabilities.{
  ModelCapabilities, MaxTokensParam, max_tokens, max_completion_tokens, param_name, no_reasoning,
  effort, Intent, Turn, ShapedRequest, Field, Body, text, count, thousandths, turns, object,
  leaf_text, lookup, openai_effort, is_openai_effort, openai_efforts, clamp_output_tokens, payload,
  with_system, add_temperature, add_json_mode, shape_openai_body,
}
use web_search_api.Llm.Capabilities.Keys.{
  lookup-put, IsOther, temperature_of, format_of, lookup-add_temperature, lookup-add_json_mode,
  clamp_bounded, lookup-apply_reasoning, fixed_key,
}
use web_search_api.Llm.Capabilities.Efforts.{
  reasoning_keys, lookup-base, absent_before, absent_optional, effort_sent, quiet_keys,
}

-- The turn that holds the system prompt: under the model's role for it, or the user's where the model
-- takes no system prompt.
abbrev pub lead_of : Option String → ModelCapabilities → List Turn
lead_of none c = []
lead_of (some s) c =
    if str_eq s ""
    then []
    else record { role = if c.supports_system_prompt then c.system_role else "user"; content = s }
      ∷ []

module _ (str : ℕ → String) where
  -- What a request body says, key by key.
  pub record IsShaped (i : Intent) (c : ModelCapabilities) (body : Body) : Type 0 where
    pub model_key : lookup "model" body ≡ some (text i.model)
    -- The conversation, behind the system prompt where there is one.
    pub messages_key : lookup "messages" body ≡ some (turns (lead_of i.system c ++ i.messages))
    -- The cap goes under the model's name for it, and under no other.
    pub cap_key :
        lookup (param_name c.max_tokens_param) body
        ≡ some (count (clamp_output_tokens str i.max_output_tokens c).0)
    pub one_cap : (p : MaxTokensParam) → p ≢ c.max_tokens_param → lookup (param_name p) body ≡ none
    pub capped :
        (cap : ℕ)
        → c.max_output_tokens ≡ some cap
        → (clamp_output_tokens str i.max_output_tokens c).0 ≤ cap
    pub temperature_key : lookup "temperature" body ≡ temperature_of i.temperature c
    pub format_key : lookup "response_format" body ≡ format_of i.json_mode c
    -- Where the model has no reasoning, or no effort is asked for, none is sent in any dialect.
    pub quiet :
        (c.reasoning ≡ no_reasoning) ⊎ (i.effort ≡ none)
        → All (λ k. lookup k body ≡ none) reasoning_keys
    -- A reasoning effort is sent to models with that dialect alone, at a level that they know.
    pub effort_key :
        (level : Field)
        → lookup "reasoning_effort" body ≡ some level
        → (c.reasoning ≡ effort)
          × ((e : String) × (i.effort ≡ some e)
              × (level ≡ text (openai_effort e))
              × (is_openai_effort (openai_effort e) openai_efforts ≡ true))

  temperature_last :
      (t : Option ℕ) (c : ModelCapabilities) (r : ShapedRequest)
      → lookup "temperature" r.body ≡ none
      → lookup "temperature" (add_temperature t c r).body ≡ temperature_of t c
  unfolding add_temperature
  temperature_last none c r h = h
  temperature_last (some t) c r h =
      ground (arith, lookup-put "temperature" "temperature" (thousandths t) r.body)

  format_last :
      (j : Bool) (c : ModelCapabilities) (r : ShapedRequest)
      → lookup "response_format" r.body ≡ none
      → lookup "response_format" (add_json_mode j c r).body ≡ format_of j c
  unfolding add_json_mode
  format_last false c r h = h
  format_last true c r h = ground (
    arith,
    lookup-put "response_format" "response_format" (object (("type", leaf_text "json_object") ∷ []))
        r.body,
  )

  payload-turns :
      (i : Intent) (c : ModelCapabilities) → (payload str i c).0 ≡ lead_of i.system c ++ i.messages
  unfolding payload with_system
  payload-turns i c = turns_of i.system
    where
      turns_of :
          (o : Option String)
          → (payload str (record i { system = o }) c).0 ≡ lead_of o c ++ i.messages
      turns_of none = refl
      turns_of (some s) = elim (Bool-cases (str_eq s "")) [
        | inl e ↦ rw e refl
        | inr n ↦ elim (Bool-cases c.supports_system_prompt) [
          | inl t ↦ rw (n, t) refl
          | inr f ↦ rw (n, f) refl
        ]
      ]

  other_param : (p q : MaxTokensParam) → p ≢ q → str_eq (param_name q) (param_name p) ≡ false
  other_param max_tokens max_tokens n = absurd (n refl)
  other_param max_tokens max_completion_tokens n = refl
  other_param max_completion_tokens max_tokens n = refl
  other_param max_completion_tokens max_completion_tokens n = absurd (n refl)

  param_IsOther : (p : MaxTokensParam) → IsOther (param_name p)
  param_IsOther max_tokens = record {
    not_effort = refl;
    not_config = refl;
    not_thinking = refl;
    not_enable = refl;
  }
  param_IsOther max_completion_tokens = record {
    not_effort = refl;
    not_config = refl;
    not_thinking = refl;
    not_enable = refl;
  }

  abbrev Plain : (k : String) → Type 0
  Plain k =
      (str_eq "model" k ≡ false)
      × (str_eq "messages" k ≡ false)
      × (str_eq "temperature" k ≡ false)
      × (str_eq "response_format" k ≡ false)

  param-Plain : (p : MaxTokensParam) → Plain (param_name p)
  param-Plain max_tokens = (refl, refl, refl, refl)
  param-Plain max_completion_tokens = (refl, refl, refl, refl)

  -- Whatever a model accepts, its request names it and carries all messages in order, behind the system
  -- prompt where there is one, caps the answer under the one name that the model knows and within what it
  -- allows, and holds a temperature or a JSON format only where the model takes one. Where the model has
  -- no reasoning, or none is asked for, the request asks for it in no dialect.
  pub shape_openai_body-IsShaped :
      (i : Intent) (c : ModelCapabilities) → IsShaped i c (shape_openai_body str i c).body
  shape_openai_body-IsShaped i c = record {
    model_key = fixed_key str "model" i c others.0 refl refl ∙ lookup-base str "model" i c;
    messages_key =
        fixed_key str "messages" i c others.1 refl refl
        ∙ lookup-base str "messages" i c
        ∙ ap (λ m. some (turns m)) (payload-turns i c);
    cap_key =
        let (m, s, t, f) = param-Plain c.max_tokens_param in
        fixed_key str (param_name c.max_tokens_param) i c (param_IsOther c.max_tokens_param) t f
        ∙ lookup-base str (param_name c.max_tokens_param) i c
        ∙ rw (m, s, eq_refl);
    one_cap = λ p n.
        let (m, s, t, f) = param-Plain p in
        fixed_key str (param_name p) i c (param_IsOther p) t f
        ∙ absent_before str (param_name p) i c m s (other_param p c.max_tokens_param n);
    capped = λ cap q. (clamp_bounded str i.max_output_tokens cap c q).0;
    temperature_key =
        unfold shape_openai_body in
        (lookup-apply_reasoning str "temperature" i.effort c _ _ others.2
          ∙ lookup-add_json_mode "temperature" i.json_mode c _ refl
          ∙ temperature_last i.temperature c _
              (absent_optional str "temperature" i c refl refl refl refl));
    format_key =
        unfold shape_openai_body in
        (lookup-apply_reasoning str "response_format" i.effort c _ _ others.3
          ∙ format_last i.json_mode c _ (
              lookup-add_temperature "response_format" i.temperature c _ refl
              ∙ absent_optional str "response_format" i c refl refl refl refl));
    quiet = λ q. quiet_keys str i c q;
    effort_key = λ level h. effort_sent str i c level h;
  }
    where
      others :
          IsOther "model" × IsOther "messages" × IsOther "temperature" × IsOther "response_format"
      others = (
        record { not_effort = refl; not_config = refl; not_thinking = refl; not_enable = refl },
        record { not_effort = refl; not_config = refl; not_thinking = refl; not_enable = refl },
        record { not_effort = refl; not_config = refl; not_thinking = refl; not_enable = refl },
        record { not_effort = refl; not_config = refl; not_thinking = refl; not_enable = refl },
      )
