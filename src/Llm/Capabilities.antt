-- ===== src/Llm/Capabilities.antt =====
-- app/services/llm/capabilities.py. A request body is a dictionary in insertion order; `search p m`
-- is `re.search` of the pattern `p`, `str` is `str` of a number, and a temperature is in thousandths.
pub mod Rules
pub mod Resolve
pub mod Keys
pub mod Efforts
pub mod Shape
pub mod Thinking
use web_search_api.Prelude.{
  ℕ, ◌/◌, ◌<◌, max, String, Bool, true, false, not, ◌&&◌, ◌||◌, Option, none, some, List, [], ◌∷◌,
  ◌++◌, ltb, leb, if◌then◌else◌, str_eq, format, or_else,
}

pub data MaxTokensParam : Type 0 where
  max_tokens max_completion_tokens : MaxTokensParam

-- `MaxTokensParam.value`
abbrev pub param_name : MaxTokensParam → String
param_name max_tokens = "max_tokens"
param_name max_completion_tokens = "max_completion_tokens"

pub data ReasoningStyle : Type 0 where
  no_reasoning effort adaptive_thinking budget_tokens enable_thinking thinking_type : ReasoningStyle

pub record ModelCapabilities : Type 0 where
  pub supports_temperature : Bool
  pub supports_streaming : Bool
  pub supports_json_mode : Bool
  pub supports_system_prompt : Bool
  pub system_role : String
  pub max_tokens_param : MaxTokensParam
  pub reasoning : ReasoningStyle
  pub context_window : Option ℕ
  pub max_output_tokens : Option ℕ
  pub notes : List String

abbrev pub default_capabilities : ModelCapabilities
default_capabilities = record {
  supports_temperature = true;
  supports_streaming = true;
  supports_json_mode = true;
  supports_system_prompt = true;
  system_role = "system";
  max_tokens_param = max_tokens;
  reasoning = no_reasoning;
  context_window = none;
  max_output_tokens = none;
  notes = [];
}

abbrev pub unknown_model_capabilities : ModelCapabilities
unknown_model_capabilities = record default_capabilities {
  supports_temperature = true;
  supports_json_mode = false;
  reasoning = no_reasoning;
  notes = "unknown model: using conservative defaults" ∷ [];
}

-- A pattern, its description and what it implies; a pattern is its source text.
pub record CapabilityRule : Type 0 where
  pub pattern : String
  pub description : String
  pub capabilities : ModelCapabilities

module _ (search : String → String → Bool) where
  -- The loop over the rules, up to its `break`.
  unfoldable pub match_rules : List CapabilityRule → String → ModelCapabilities
  match_rules [] model = unknown_model_capabilities
  match_rules (r ∷ rs) model =
      if search r.pattern model then r.capabilities else match_rules rs model

  unfoldable pub resolve_capabilities :
      List CapabilityRule → String → Option ℕ → Option ℕ → ModelCapabilities
  resolve_capabilities rules model live_window live_output =
      let resolved = match_rules rules model in
      record resolved {
        context_window = elim live_window [ none ↦ resolved.context_window | some w ↦ some w ];
        max_output_tokens = elim live_output [
          | none ↦ resolved.max_output_tokens
          | some t ↦ some t
        ];
      }

pub record Turn : Type 0 where
  pub role : String
  pub content : String

pub data Leaf : Type 0 where
  leaf_text : String → Leaf
  leaf_count : ℕ → Leaf

pub data Field : Type 0 where
  text : String → Field
  count : ℕ → Field
  thousandths : ℕ → Field
  flag : Bool → Field
  turns : List Turn → Field
  object : List (String × Leaf) → Field

abbrev pub Body : Type 0
Body = List (String × Field)

-- `body[key] = value`
abbrev pub put : String → Field → Body → Body
put k v [] = (k, v) ∷ []
put k v ((j, w) ∷ b) = if str_eq j k then (k, v) ∷ b else (j, w) ∷ put k v b

-- `body.get(key)`
abbrev pub lookup : String → Body → Option Field
lookup k [] = none
lookup k ((j, w) ∷ b) = if str_eq j k then some w else lookup k b

-- The arguments of `shape_openai_body`, but for the capabilities.
pub record Intent : Type 0 where
  pub model : String
  pub messages : List Turn
  pub system : Option String
  pub max_output_tokens : ℕ
  pub temperature : Option ℕ
  pub effort : Option String
  pub json_mode : Bool

pub record ShapedRequest : Type 0 where
  pub body : Body
  pub adjustments : List String

abbrev pub openai_efforts : List String
openai_efforts = "minimal" ∷ "low" ∷ "medium" ∷ "high" ∷ []

abbrev pub min_budget_tokens : ℕ
min_budget_tokens = 1_024

abbrev pub note : String → ShapedRequest → ShapedRequest
note n r = record r { adjustments = r.adjustments ++ n ∷ [] }

abbrev pub assign : String → Field → ShapedRequest → ShapedRequest
assign k v r = record r { body = put k v r.body }

unfoldable pub is_openai_effort : String → List String → Bool
is_openai_effort e [] = false
is_openai_effort e (x ∷ xs) = str_eq e x || is_openai_effort e xs

unfoldable pub openai_effort : String → String
openai_effort e = if is_openai_effort e openai_efforts then e else "medium"

-- `int(max_output_tokens * 0.5)` is the half, rounded down.
unfoldable pub thinking_budget : ℕ → ℕ
thinking_budget tokens = max (tokens / 2) min_budget_tokens

unfoldable pub add_temperature : Option ℕ → ModelCapabilities → ShapedRequest → ShapedRequest
add_temperature none c r = r
add_temperature (some t) c r =
    if c.supports_temperature
    then assign "temperature" (thousandths t) r
    else note "temperature dropped: rejected by this model" r

unfoldable pub add_json_mode : Bool → ModelCapabilities → ShapedRequest → ShapedRequest
add_json_mode false c r = r
add_json_mode true c r =
    if c.supports_json_mode
    then assign "response_format" (object (("type", leaf_text "json_object") ∷ [])) r
    else note "JSON mode dropped: unsupported by this model" r

module _ (str : ℕ → String) where
  -- What is sent, and the note, if the cap is passed.
  unfoldable pub clamp_output_tokens : ℕ → ModelCapabilities → ℕ × Option String
  clamp_output_tokens requested c = elim c.max_output_tokens [
    | none ↦ (requested, none)
    | some cap ↦
        if ltb cap requested
        then (
          cap,
          some (
              format (
                "max output tokens reduced from "
                ∷ str requested
                ∷ " to the model's cap of "
                ∷ str cap
                ∷ [])),
        )
        else (requested, none)
  ]

  -- `apply_reasoning` for a given effort, by the style.
  unfoldable pub apply_style : ReasoningStyle → String → ℕ → ShapedRequest → ShapedRequest
  apply_style no_reasoning e tokens r =
      note "effort dropped: this model has no reasoning controls" r
  apply_style effort e tokens r =
      let level = openai_effort e in
      assign "reasoning_effort" (text level) (
        if str_eq level e
        then r
        else note (format ("effort '" ∷ e ∷ "' mapped to '" ∷ level ∷ "' for this model" ∷ [])) r)
  apply_style adaptive_thinking e tokens r =
      assign "output_config" (object (("effort", leaf_text e) ∷ []))
        (assign "thinking" (object (("type", leaf_text "adaptive") ∷ [])) r)
  apply_style budget_tokens e tokens r =
      let budget = thinking_budget tokens in
      if leb tokens budget
      then note "thinking disabled: output budget too small for a thinking budget" r
      else note (format ("effort '" ∷ e ∷ "' translated to budget_tokens=" ∷ str budget ∷ [])) (
          assign "thinking"
            (object (("type", leaf_text "enabled") ∷ ("budget_tokens", leaf_count budget) ∷ [])) r)
  apply_style enable_thinking e tokens r =
      note (format ("effort '" ∷ e ∷ "' translated to enable_thinking=true" ∷ []))
        (assign "enable_thinking" (flag true) r)
  apply_style thinking_type e tokens r =
      note (format ("effort '" ∷ e ∷ "' translated to thinking.type=enabled" ∷ []))
        (assign "thinking" (object (("type", leaf_text "enabled") ∷ [])) r)

  unfoldable pub apply_reasoning :
      Option String → ModelCapabilities → ℕ → ShapedRequest → ShapedRequest
  apply_reasoning none c tokens r = r
  apply_reasoning (some e) c tokens r = apply_style c.reasoning e tokens r

  -- The messages with the system prompt in front, and the notes on it. `if system` skips an empty one.
  unfoldable pub with_system : String → ModelCapabilities → List Turn → List Turn × List String
  with_system system c messages =
      if str_eq system ""
      then (messages, [])
      else if not c.supports_system_prompt
      then (
        record { role = "user"; content = system } ∷ messages,
        "system prompt folded into the first user message" ∷ [],
      )
      else (
        record { role = c.system_role; content = system } ∷ messages,
        if str_eq c.system_role "system"
            then []
            else format ("system prompt sent with role '" ∷ c.system_role ∷ "'" ∷ []) ∷ [],
      )

  unfoldable pub payload : Intent → ModelCapabilities → List Turn × List String
  payload i c = elim i.system [ none ↦ (i.messages, []) | some s ↦ with_system s c i.messages ]

  abbrev noted : Option String → List String
  noted none = []
  noted (some n) = n ∷ []

  -- The body with its three fixed keys.
  unfoldable pub base_request : Intent → ModelCapabilities → ShapedRequest
  base_request i c =
      let (messages, first) = payload i c in
      let (tokens, clamped) = clamp_output_tokens i.max_output_tokens c in
      record {
        body =
            ("model", text i.model)
            ∷ ("messages", turns messages)
            ∷ (param_name c.max_tokens_param, count tokens)
            ∷ [];
        adjustments =
            first
            ++ (noted clamped ++ (elim c.max_tokens_param [
              | max_tokens ↦ []
              | max_completion_tokens ↦
                  "max_tokens renamed to max_completion_tokens for this model" ∷ []
            ]));
      }

  unfoldable pub shape_openai_body : Intent → ModelCapabilities → ShapedRequest
  shape_openai_body i c =
      apply_reasoning i.effort c (clamp_output_tokens i.max_output_tokens c).0
        (add_json_mode i.json_mode c (add_temperature i.temperature c (base_request i c)))
