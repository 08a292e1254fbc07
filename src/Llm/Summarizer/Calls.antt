-- ===== src/Llm/Summarizer/Calls.antt =====
-- app/services/llm/summarizer.py: `Summarizer.summarize`, with `Summary.as_out`.
use web_search_api.Prelude.{
  ℕ, String, true, Option, none, some, List, [], ◌∷◌, ◌++◌, all, if◌then◌else◌,
}
use web_search_api.Core.Result.{Result, ok, err, ◌>>=◌}
use web_search_api.Llm.Capabilities.{Intent, resolve_capabilities}
use web_search_api.Llm.Chat.{ChatResponse}
use web_search_api.Llm.Models.{ModelInfo}
use web_search_api.Llm.Prompts.{PromptParts, build_summary_prompt}
use web_search_api.Llm.Registry.{Caches}
use web_search_api.Llm.Registry.Catalog.{Call}
use web_search_api.Llm.Registry.Completion.{resolve, complete}
use web_search_api.Llm.Summarizer.{
  Summarizer, SummarizerTools, SummaryCall, default_temperature, parse_summary_payload,
}
use web_search_api.Pipelines.{SummaryOut}
use web_search_api.Pipelines.Searching.{setting}
use web_search_api.Preferences.{Preferences, standard, require_disabled_providers}
use web_search_api.Text.Truncate.{Truncation, truncate, chars_submitted, char_budget_for_context}

-- The providers that are disabled, where that is known.
abbrev pub disabled_for : Option Preferences → Result (List String)
disabled_for none = ok []
disabled_for (some p) = require_disabled_providers p

module _ (tools : SummarizerTools) (s : Summarizer) (call : SummaryCall) where
  abbrev pub hard_limit : ℕ
  hard_limit = setting (λ p. p.max_content_chars) s.max_content_chars call.preferences

  abbrev pub chosen_default : Option String
  chosen_default = setting (λ p. some p.default_model) none call.preferences

  unfoldable pub bounded_for : ModelInfo → Truncation
  bounded_for m = truncate tools.is_space call.content (
      char_budget_for_context
        (resolve_capabilities tools.search s.rules m.model m.context_window
          m.max_output_tokens).context_window
        hard_limit)

  unfoldable pub prompt_for : List ℕ → PromptParts
  prompt_for text =
      build_summary_prompt tools.prompt_tools (tools.as_text text) call.topic call.additional_notes
        call.sources (setting (λ p. p.research_notes) none call.preferences)
        (setting (λ p. p.summary_length) standard call.preferences)

  -- `messages` and `system` are those of the prompt.
  unfoldable pub request_for : ModelInfo → PromptParts → Intent
  request_for m prompt = record {
    model = m.model;
    messages = record { role = "user"; content = prompt.user } ∷ [];
    system = some prompt.system;
    max_output_tokens = s.max_output_tokens;
    temperature = some default_temperature;
    effort = none;
    json_mode = true;
  }

  unfoldable pub blank_summary : ModelInfo → SummaryOut
  blank_summary m = record {
    executive_summary = "";
    key_points = [];
    model = m.id;
    provider = m.provider;
    usage = record { input_tokens = none; output_tokens = none };
    truncated = (bounded_for m).truncated;
    chars_submitted = 0;
    original_chars = (bounded_for m).original_chars;
    notes_applied = (prompt_for (bounded_for m).text).notes_applied;
    param_adjustments = [];
  }

  unfoldable pub summary_for : ModelInfo → ChatResponse → SummaryOut
  summary_for m response =
      let (summary, points) = parse_summary_payload tools.answer_tools response.text in
      record {
        executive_summary = summary;
        key_points = points;
        model = m.id;
        provider = m.provider;
        usage = record {
          input_tokens = response.input_tokens;
          output_tokens = response.output_tokens;
        };
        truncated = (bounded_for m).truncated;
        chars_submitted = chars_submitted (bounded_for m);
        original_chars = (bounded_for m).original_chars;
        notes_applied = (prompt_for (bounded_for m).text).notes_applied;
        param_adjustments = response.param_adjustments;
      }

  -- From the resolved model on.
  abbrev pub summarize_model : List String → Caches → Result ModelInfo → Call (Result SummaryOut)
  summarize_model disabled caches (err e) = (caches, [], err e)
  summarize_model disabled caches (ok m) =
      let (caches', contacts, answer) =
        complete tools.registry_tools s.registry s.complete_clock
          (request_for m (prompt_for (bounded_for m).text)) (some m.id) call.caller call.auth
          disabled chosen_default caches in
      if all tools.is_space (bounded_for m).text
      then (caches, [], ok (blank_summary m))
      else (caches', contacts, answer >>= (λ response. ok (summary_for m response)))

  abbrev pub summarize_allowed : Caches → Result (List String) → Call (Result SummaryOut)
  summarize_allowed caches (err e) = (caches, [], err e)
  summarize_allowed caches (ok disabled) =
      let (caches', contacts, model) =
        resolve tools.registry_tools s.registry s.resolve_clock call.model_id call.caller disabled
          chosen_default caches in
      let (caches'', more, answer) = summarize_model disabled caches' model in
      (caches'', contacts ++ more, answer)

  unfoldable pub summarize : Caches → Call (Result SummaryOut)
  summarize caches = summarize_allowed caches (disabled_for call.preferences)
