-- ===== src/Llm/Summarizer/Sent.antt =====
-- What a summary sends to a model.
use web_search_api.Prelude.{
  ℕ, ◌≤◌, String, ◌≡◌, refl, ap, false, Option, none, some, List, [], ◌∷◌, ◌++◌, length, all, All,
  All-append, Bool-cases, inl, inr, arith,
}
use web_search_api.Core.Result.{Result, ok, err}
use web_search_api.Llm.Capabilities.{resolve_capabilities}
use web_search_api.Llm.Models.{ModelInfo}
use web_search_api.Llm.Prompts.{fenced, system_prompt, build_summary_prompt}
use web_search_api.Llm.Prompts.Layout.{block, user-block}
use web_search_api.Pipelines.Searching.{setting}
use web_search_api.Preferences.{standard}
use web_search_api.Llm.Registry.{Caches, Contact, listed, chatted}
use web_search_api.Llm.Registry.Completion.{resolve}
use web_search_api.Llm.Registry.Contacts.{visit-All}
use web_search_api.Llm.Registry.Completed.{complete-All}
use web_search_api.Llm.Registry.Isolation.{Visit, visit}
use web_search_api.Llm.Summarizer.{Summarizer, SummarizerTools, SummaryCall}
use web_search_api.Llm.Summarizer.Calls.{
  disabled_for, hard_limit, chosen_default, bounded_for, prompt_for, request_for, summarize_model,
  summarize_allowed, summarize,
}
use web_search_api.Text.Truncate.{char_budget_for_context}
use web_search_api.Text.Truncate.Bounds.{truncate-IsCut, budget_fits}

budget_le : (window : Option ℕ) (limit : ℕ) → char_budget_for_context window limit ≤ limit
unfolding char_budget_for_context
budget_le none limit = omega arith
budget_le (some w) limit = (budget_fits w w limit (omega arith)).0

module _ (tools : SummarizerTools) (s : Summarizer) (call : SummaryCall) where
  -- A beginning of the content that is not blank and within the limit.
  abbrev pub IsExcerpt : List ℕ → Type 0
  IsExcerpt text =
      ((rest : List ℕ) × (call.content ≡ text ++ rest))
      × (length text ≤ hard_limit tools s call)
      × (all tools.is_space text ≡ false)

  -- A contact asks for models, or sends an excerpt in its block, between two texts and beside a system
  -- prompt.
  abbrev pub SendsExcerpt : String → List String → String → Contact → Type 0
  SendsExcerpt before after system (listed name) = Unit
  SendsExcerpt before after system (chatted name i auth) =
      (text : List ℕ) × IsExcerpt text
      × (i.messages
          ≡ record {
            role = "user";
            content = block before (fenced tools.prompt_tools (tools.as_text text)) after;
          }
            ∷ [])
      × (i.system ≡ some system)

  -- The prompts of this call hold what they are given between the two texts.
  abbrev IsLaidOut : String → List String → Type 0
  IsLaidOut before after =
      (text : List ℕ)
      → (prompt_for tools s call text).user
        ≡ block before (fenced tools.prompt_tools (tools.as_text text)) after

  abbrev system_of : String
  system_of = system_prompt (setting (λ p. p.summary_length) standard call.preferences)

  prompt_for-system : (text : List ℕ) → (prompt_for tools s call text).system ≡ system_of
  unfolding prompt_for build_summary_prompt
  prompt_for-system text = refl

  bounded_for-begins :
      (m : ModelInfo)
      → ((rest : List ℕ) × (call.content ≡ (bounded_for tools s call m).text ++ rest))
        × (length (bounded_for tools s call m).text ≤ hard_limit tools s call)
  unfolding bounded_for
  bounded_for-begins m =
      let window =
        (resolve_capabilities tools.search s.rules m.model m.context_window
          m.max_output_tokens).context_window in
      let cut =
        truncate-IsCut tools.is_space call.content
          (char_budget_for_context window (hard_limit tools s call)) in
      (cut.begins, omega (arith, cut.within, budget_le window (hard_limit tools s call)))

  module _ (before : String) (after : List String) (laid : IsLaidOut before after) where
    model_sent :
        (disabled : List String) (cs : Caches) (r : Result ModelInfo)
        → All (SendsExcerpt before after system_of) (summarize_model tools s call disabled cs r).1
    unfolding request_for
    model_sent disabled cs (err e) = tt
    model_sent disabled cs (ok m) =
        elim (Bool-cases (all tools.is_space (bounded_for tools s call m).text)) [
          | inl t ↦ rw t tt
          | inr f ↦ rw f (
              complete-All tools.registry_tools s.registry s.complete_clock
                (request_for tools s call m
                  (prompt_for tools s call (bounded_for tools s call m).text))
                (some m.id) call.caller call.auth disabled (chosen_default tools s call)
                (SendsExcerpt before after system_of) (λ name. tt)
                (λ name model a.
                  let (b, l) = bounded_for-begins m in
                  (
                    (bounded_for tools s call m).text,
                    (b, l, f),
                    ap (λ u. record { role = "user"; content = u } ∷ [])
                        (laid (bounded_for tools s call m).text),
                    ap some (prompt_for-system (bounded_for tools s call m).text),
                  ))
                cs)
        ]

    allowed_sent :
        (cs : Caches) (d : Result (List String))
        → All (SendsExcerpt before after system_of) (summarize_allowed tools s call cs d).1
    unfolding resolve
    allowed_sent cs (err e) = tt
    allowed_sent cs (ok disabled) =
        let v : Visit tools.registry_tools = record {
          registry = s.registry;
          clock = s.resolve_clock;
          refresh = false;
          caller = call.caller;
          disabled = disabled;
        } in
        All-append (SendsExcerpt before after system_of) (visit tools.registry_tools v cs).1 _
          (visit-All tools.registry_tools (SendsExcerpt before after system_of) (λ name. tt) v cs)
          (model_sent disabled (visit tools.registry_tools v cs).0 _)

    call_sent :
        (cs : Caches) → All (SendsExcerpt before after system_of) (summarize tools s call cs).1
    unfolding summarize
    call_sent cs = allowed_sent cs (disabled_for call.preferences)

-- All that a summary sends to a model is one message: a text, an opening tag, the escaped form of one
-- beginning of the content, a closing tag and another text, beside a system prompt. The two texts and the
-- system prompt are the same whatever the content, so no more of it is sent. The beginning is not blank
-- and has at most as many characters as the person's ceiling, or the summariser's where there is no
-- person: of a blank content, or one whose beginning is blank, nothing is sent.
pub summarize-SendsExcerpt :
    (tools : SummarizerTools) (s : Summarizer) (call : SummaryCall)
    → (before : String) × (after : List String) × (system : String) × ((content : List ℕ)
          (cs : Caches)
        → All
            (SendsExcerpt tools s (record call { content = content }) before after system)
            (summarize tools s (record call { content = content }) cs).1)
unfolding prompt_for
summarize-SendsExcerpt tools s call =
    let (before, after, same) =
      user-block tools.prompt_tools call.topic call.additional_notes call.sources
        (setting (λ p. p.research_notes) none call.preferences)
        (setting (λ p. p.summary_length) standard call.preferences) in
    (
      before,
      after,
      system_of tools s call,
      λ content cs.
          call_sent tools s (record call { content = content }) before after
            (λ text. same (tools.as_text text)) cs,
    )
