-- ===== src/Tests/Llm.antt =====
-- A model with a thinking budget, its temperature dropped and its answer capped.
use web_search_api.Prelude.{
  ℕ, String, ◌≡◌, ◌⊎◌, Bool, true, false, Option, none, some, [], ◌∷◌, str_eq, ◌==◌, if◌then◌else◌,
}
use web_search_api.Core.Errors.{DomainError}
use web_search_api.Core.Result.{err}
use web_search_api.Llm.Chat.{
  PatternLibrary, Payload, Answer, refused, answered, choice, chat, read_answer,
}
use web_search_api.Llm.Chat.Named.{Names, IsUpstream}
use web_search_api.Llm.Chat.Retry.{IsRetry, shaped, chat-IsRetry}
use web_search_api.Llm.Capabilities.{
  Body, ModelCapabilities, default_capabilities, budget_tokens, Intent, resolve_capabilities,
  lookup, shape_openai_body,
}
use web_search_api.Llm.Capabilities.Rules.{capability_rules}
use web_search_api.Llm.Capabilities.Shape.{IsShaped, shape_openai_body-IsShaped}

abbrev str : ℕ → String
str n = "n"

abbrev model : ModelCapabilities
model = record default_capabilities {
  supports_temperature = false;
  reasoning = budget_tokens;
  max_output_tokens = some 8_192;
}

abbrev intent : Intent
intent = record {
  model = "claude-haiku-4-5";
  messages = record { role = "user"; content = "hello" } ∷ [];
  system = some "be brief";
  max_output_tokens = 10_000;
  temperature = some 700;
  effort = some "high";
  json_mode = true;
}

shape_openai_body-IsShaped_example :
    IsShaped str intent model (shape_openai_body str intent model).body
shape_openai_body-IsShaped_example = shape_openai_body-IsShaped str intent model

-- A search that knows one pattern of the table.
abbrev search : String → String → Bool
search p m = str_eq p "^glm"

abbrev window : Option ℕ
window = some 100

abbrev unset : Option ℕ
unset = none

abbrev resolved : ModelCapabilities
resolved = resolve_capabilities search capability_rules "glm-4.5" window unset

-- A provider that rejects the first body by naming its temperature, and answers the second.
abbrev patterns : PatternLibrary
patterns = record {
  search = λ p m. false;
  group_one = λ p m. if str_eq m "temperature is not supported" then some "temperature" else none;
  before_dot = λ s. s;
  str = str;
  strip = λ s. s;
}

abbrev completion : Payload
completion = record {
  choices = some (choice (some "hi") none ∷ []);
  prompt_tokens = some 3;
  completion_tokens = some 1;
}

abbrev send : ℕ → Body → Answer
send n body = if n == 0 then refused 400 "temperature is not supported" else answered completion

chat-IsRetry_example :
    (((chat patterns "groq" send intent).0 ≡ (shaped patterns "groq" send intent).body ∷ [])
      × ((e : DomainError)
          → read_answer patterns "groq" (send 0 (shaped patterns "groq" send intent).body) ≡ err e
          → ((chat patterns "groq" send intent).1 ≡ err e)
            × (IsUpstream e.kind
                → (k : String) → Names patterns e.detail k
                → lookup k (shaped patterns "groq" send intent).body ≡ none)))
    ⊎ ((e : DomainError) × (second : Body) × (read_answer patterns "groq"
            (send 0 (shaped patterns "groq" send intent).body)
          ≡ err e)
        × ((chat patterns "groq" send intent).0
            ≡ (shaped patterns "groq" send intent).body ∷ second ∷ [])
        × IsRetry patterns e (shaped patterns "groq" send intent).body second)
chat-IsRetry_example = chat-IsRetry patterns "groq" send intent
