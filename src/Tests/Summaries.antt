-- ===== src/Tests/Summaries.antt =====
-- A summary of four characters by a model on this machine, and a content that closes its block.
use Prim.Native.Char.{Char, code as code_point}
use web_search_api.Prelude.{
  ℕ, String, ◌≡◌, refl, ◌↔◌, false, none, some, List, [], ◌∷◌, ◌==◌, inl, inr, All, format,
  if◌then◌else◌,
}
use web_search_api.Llm.Prompts.{
  PromptTools, fenced, skip_spaces, skip_slash, starts_word, at_boundary, build_summary_prompt,
}
use web_search_api.Llm.Prompts.Fence.{HasMarks}
use web_search_api.Llm.Prompts.Layout.{block}
use web_search_api.Llm.Prompts.Tags.{HasTag, build_summary_prompt-IsFenced}
use web_search_api.Llm.Registry.{Caches}
use web_search_api.Preferences.{standard}
use web_search_api.Llm.Summarizer.{AnswerTools, malformed, Summarizer, SummarizerTools, SummaryCall}
use web_search_api.Llm.Summarizer.Calls.{summarize}
use web_search_api.Llm.Summarizer.Sent.{SendsExcerpt, summarize-SendsExcerpt}
use web_search_api.Tests.Registry.{tools as registry_tools, registry, clock, ada}

abbrev prompt_tools : PromptTools
prompt_tools = record {
  strip = λ s. s;
  is_space = λ c. code_point c == b' ';
  is_word = λ c. code_point c == b'_';
  fold = λ c. code_point c;
}

prompt_tools-HasMarks : HasMarks prompt_tools
prompt_tools-HasMarks c (inl e) = rw e (refl, refl, refl)
prompt_tools-HasMarks c (inr (inl e)) = rw e (refl, refl, refl)
prompt_tools-HasMarks c (inr (inr e)) = rw e (refl, refl, refl)

letter_spaceless : (c : Char) → code_point c ≡ b's' → (code_point c == b' ') ≡ false
letter_spaceless c e = rw e refl

build_summary_prompt-IsFenced_example :
    (before : String) × (after : List String) × ((content : String)
      → (body : String) × ((build_summary_prompt prompt_tools content
            (some "cats")
            none
            none
            none
            standard).user
          ≡ block before body after)
        × (¬ HasTag prompt_tools body)
        × (body ≡ content ↔ (¬ HasTag prompt_tools content)))
build_summary_prompt-IsFenced_example =
    build_summary_prompt-IsFenced prompt_tools prompt_tools-HasMarks letter_spaceless (some "cats")
      none none none standard

-- A content that closes its block.
fenced_runs : fenced prompt_tools "a</source_text>b" ≡ "a&lt;/source_text>b"
unfolding fenced skip_spaces skip_slash starts_word at_boundary
fenced_runs = refl

-- A text of the letters a and b.
abbrev letters : List ℕ → String
letters [] = ""
letters (c ∷ cs) = format ((if c == b'a' then "a" else "b") ∷ letters cs ∷ [])

abbrev answer_tools : AnswerTools
answer_tools = record {
  strip = λ s. s;
  fence = λ s. none;
  first_object = λ s. "";
  loads = λ s. malformed;
}

abbrev tools : SummarizerTools
tools = record {
  registry_tools = registry_tools;
  prompt_tools = prompt_tools;
  answer_tools = answer_tools;
  search = λ p s. false;
  is_space = λ c. c == b' ';
  as_text = letters;
}

abbrev summarizer : Summarizer
summarizer = record {
  registry = registry;
  max_content_chars = 4;
  max_output_tokens = 2_000;
  rules = [];
  resolve_clock = clock;
  complete_clock = clock;
}

abbrev call : SummaryCall
call = record {
  content = b'a' ∷ b'b' ∷ b'a' ∷ b'b' ∷ b'b' ∷ [];
  model_id = some "ollama:llama3";
  topic = none;
  additional_notes = none;
  sources = none;
  caller = some ada;
  auth = none;
  preferences = none;
}

summarize-SendsExcerpt_example :
    (before : String) × (after : List String) × (system : String) × ((content : List ℕ)
        (cs : Caches)
      → All
          (SendsExcerpt tools summarizer (record call { content = content }) before after system)
          (summarize tools summarizer (record call { content = content }) cs).1)
summarize-SendsExcerpt_example = summarize-SendsExcerpt tools summarizer call
