-- ===== src/Llm/Summarizer.antt =====
-- app/services/llm/summarizer.py. Content is its code points, as for `truncate`, and `as_text` the same
-- text as a string. The pattern of a fence (its group 1), the pattern of an object and `json.loads` are
-- parameters, and a payload is what the code reads of it.
pub mod Calls
pub mod Sent
use web_search_api.Prelude.{
  ℕ, String, Bool, true, false, not, ◌&&◌, Option, none, some, List, [], ◌∷◌, ◌++◌, length, all,
  or_else, if◌then◌else◌, str_eq,
}
use web_search_api.Core.Errors.{DomainError}
use web_search_api.Core.Result.{Result, ok, err}
use web_search_api.Keyring.Caller.{Caller}
use web_search_api.Keyring.Client.{ResolvedAuth}
use web_search_api.Llm.Capabilities.{
  Intent, Turn, CapabilityRule, ModelCapabilities, resolve_capabilities,
}
use web_search_api.Llm.Chat.{ChatResponse}
use web_search_api.Llm.Models.{ModelInfo}
use web_search_api.Llm.Prompts.{PromptTools, PromptParts, build_summary_prompt}
use web_search_api.Llm.Registry.{Caches, Clock, Contact, ModelRegistry, RegistryTools}
use web_search_api.Llm.Registry.Catalog.{Call}
use web_search_api.Llm.Registry.Completion.{resolve, complete}
use web_search_api.Pipelines.{SummaryOut}
use web_search_api.Preferences.{Preferences, SummaryLength, standard, require_disabled_providers}
use web_search_api.Text.Truncate.{Truncation, truncate, chars_submitted, char_budget_for_context}

-- A field of a JSON object: falsy, a text that is not empty, or anything else.
pub data Field : Type 0 where
  falsy other : Field
  text : String → Field

-- `key_points`: a list, by `str` of each of its items, or anything else.
pub data Points : Type 0 where
  no_list : Points
  items : List String → Points

pub record Payload : Type 0 where
  pub executive_summary : Field
  pub summary : Field
  pub key_points : Points

-- `json.loads`: it raises, gives no object, or gives one.
pub data Loaded : Type 0 where
  malformed no_object : Loaded
  object : Payload → Loaded

pub record AnswerTools : Type 0 where
  pub strip : String → String
  pub fence : String → Option String
  pub first_object : String → String
  pub loads : String → Loaded

abbrev first_field : Field → Field → Field
first_field falsy b = b
first_field other b = other
first_field (text s) b = text s

module _ (tools : AnswerTools) where
  open tools use {strip, fence, first_object, loads}

  -- The points that are not blank.
  unfoldable pub clean_points : List String → List String
  clean_points [] = []
  clean_points (s ∷ ss) =
      let rest = clean_points ss in if str_eq (strip s) "" then rest else strip s ∷ rest

  abbrev points_of : Points → List String
  points_of no_list = []
  points_of (items ss) = clean_points ss

  -- A summary that is a text and not blank.
  abbrev summary_text : Field → Option String
  summary_text falsy = none
  summary_text other = none
  summary_text (text s) = if str_eq (strip s) "" then none else some (strip s)

  abbrev with_points : Points → Option String → Option (String × List String)
  with_points points none = none
  with_points points (some s) = some (s, points_of points)

  abbrev read_loaded : Loaded → Option (String × List String)
  read_loaded malformed = none
  read_loaded no_object = none
  read_loaded (object p) =
      with_points p.key_points (summary_text (first_field p.executive_summary p.summary))

  abbrev try_text : String → Option (String × List String)
  try_text s = if str_eq s "" then none else read_loaded (loads s)

  abbrev first_of :
      Option (String × List String) → Option (String × List String) → Option (String × List String)
  first_of (some x) y = some x
  first_of none y = y

  -- `_try_parse_object`
  unfoldable pub try_parse_object : String → Option (String × List String)
  try_parse_object source = first_of (try_text source) (try_text (first_object source))

  abbrev candidate_of : String → Option String → String
  candidate_of stripped none = stripped
  candidate_of stripped (some inner) = strip inner

  unfoldable pub parse_summary_payload : String → String × List String
  parse_summary_payload raw =
      let stripped = strip raw in
      let parsed =
        first_of (try_parse_object (candidate_of stripped (fence stripped)))
          (try_parse_object stripped) in
      if str_eq stripped "" then ("", []) else or_else parsed (stripped, [])

-- The default of `ChatRequest`, 0.2 in thousandths.
abbrev pub default_temperature : ℕ
default_temperature = 200

-- The summariser, and what it works with; `registry` is what the providers answer in one request, and
-- `resolve_clock` and `complete_clock` are the readings of its two calls of the registry.
pub record Summarizer : Type 0 where
  pub registry : ModelRegistry
  pub max_content_chars : ℕ
  pub max_output_tokens : ℕ
  pub rules : List CapabilityRule
  pub resolve_clock : Clock
  pub complete_clock : Clock

-- `search` is `re.search` as a test.
pub record SummarizerTools : Type 0 where
  pub registry_tools : RegistryTools
  pub prompt_tools : PromptTools
  pub answer_tools : AnswerTools
  pub search : String → String → Bool
  pub is_space : ℕ → Bool
  pub as_text : List ℕ → String

-- The arguments of `summarize`.
pub record SummaryCall : Type 0 where
  pub content : List ℕ
  pub model_id : Option String
  pub topic : Option String
  pub additional_notes : Option String
  pub sources : Option (List String)
  pub caller : Option Caller
  pub auth : Option ResolvedAuth
  pub preferences : Option Preferences
