-- ===== src/Pipelines/Summaries.antt =====
-- Which results of a search have a summary, and of what.
use web_search_api.Prelude.{
  ℕ, String, ◌≡◌, ◌≢◌, refl, sym, ap, ◌∙◌, subst, ◌↔◌, Bool, true, false, false≢true, not, ◌&&◌,
  ◌⊎◌, inl, inr, Option, none, some, List, [], ◌∷◌, map, ◌==◌, str_eq, eq_iff, ne_of_str_eq, arith,
  Bool-cases, Has, map-Has, All, All-each, Contains, Contains-refl, Contains-behind, Contains-join,
  format, join, or_else,
}
use web_search_api.Core.Errors.{DomainError, to_error_payload}
use web_search_api.Core.Result.{Result, ok, err, Result-cases}
use web_search_api.Fetch.Page.{PageFetcher}
use web_search_api.Pipelines.{
  ItemStatus, succeeded, failed, is_succeeded, SummaryOut, SummaryOptions, Summarizer, Summarised,
  summarised, SearchRequest, SearchQueryIn, SearchResultOut, SearchQueryResult,
}
use web_search_api.Pipelines.Searching.{
  PipelineTools, first_text, is_nil, item_section, attach_pages, attach_summary,
  search_summary_options, summary_step, is_summarisable, query_result, run_query, run_search,
  pages_step, pages_to_read,
}
use web_search_api.Preferences.{Preferences}
use web_search_api.Search.Base.{SearchResponse}
use web_search_api.Search.Router.{SearchRouter}

-- What a result says of its summary.
abbrev pub outcome : SearchQueryResult → Summarised
outcome r = (r.summary, r.summary_error)

module _ (tools : PipelineTools) where
  -- The text of an item: its page's, or its snippet where the page has none.
  abbrev IsTextOf : Option String → String → String → Type 0
  IsTextOf content snippet t =
      ((content ≡ some t) × (t ≢ "")) ⊎ (((content ≡ none) ⊎ (content ≡ some "")) × (t ≡ snippet))

  -- A content shows the title of an item, its URL and its text, each on a line of its own.
  abbrev Shows : String → SearchResultOut → Type 0
  Shows content item =
      (t : String) × IsTextOf item.content item.snippet t
      × Contains content (format (item.title ∷ "\n" ∷ item.url ∷ "\n" ∷ t ∷ []))

  -- What the summariser is asked: on the topic of the query, by the model of the request, of all items.
  pub record IsAsked (request : SearchRequest) (r : SearchQueryResult) (o : SummaryOptions)
      : Type 0 where
    pub by_model : o.model_id ≡ request.model
    pub on_topic : o.topic ≡ some r.query
    pub of_items : All (λ item. Shows o.content item) r.results

  -- A summary is wanted, and there is something to summarise.
  abbrev pub IsWanted : SearchRequest → SearchQueryResult → Type 0
  IsWanted request r = (request.summarize ≡ true) × (r.status ≡ succeeded) × (r.results ≢ [])

  -- What the summariser answers is the result's summary, or its error.
  abbrev IsAnswered : Result SummaryOut → SearchQueryResult → Type 0
  IsAnswered answer r =
      ((summary : SummaryOut) × (answer ≡ ok summary)
        × (r.summary ≡ some summary)
        × (r.summary_error ≡ none))
      ⊎ ((e : DomainError) × (answer ≡ err e)
          × (r.summary ≡ none)
          × (r.summary_error ≡ some (to_error_payload e)))

  abbrev pub IsSummarised : SearchRequest → Summarizer → SearchQueryResult → Type 0
  IsSummarised request summarizer r =
      (IsWanted request r
        × (o : SummaryOptions) × IsAsked request r o
        × IsAnswered (summarizer o) r)
      ⊎ ((¬ IsWanted request r) × (outcome r ≡ (none, none)))

  first_text-IsTextOf :
      (o : Option String) (snippet : String)
      → IsTextOf o snippet (or_else (first_text o none) snippet)
  first_text-IsTextOf none snippet = inr (inl refl, refl)
  first_text-IsTextOf (some t) snippet = elim (Bool-cases (str_eq t "")) [
    | inl e ↦ rw e (inr (inr (ap some ((eq_iff t "").0 e)), refl))
    | inr f ↦ rw f (inl (refl, ne_of_str_eq t "" f))
  ]

  item_section-Shows :
      (item : SearchResultOut)
      → Contains (item_section tools item) (
          format (
            item.title
            ∷ "\n"
            ∷ item.url
            ∷ "\n"
            ∷ or_else (first_text item.content none) item.snippet
            ∷ []))
  unfolding item_section format
  item_section-Shows item =
      Contains-behind "## [" _ _
        (Contains-behind (tools.str item.rank) _ _ (Contains-behind "] " _ _ (Contains-refl _)))

  search_summary_options-IsAsked :
      (request : SearchRequest) (summarizer : Summarizer) (r : SearchQueryResult)
      → IsAsked request
          (attach_summary tools request summarizer r)
          (search_summary_options tools request r)
  unfolding search_summary_options attach_summary
  search_summary_options-IsAsked request summarizer r = record {
    by_model = refl;
    on_topic = refl;
    of_items =
        All-each (λ item. Shows (join "\n\n" (map (λ x. item_section tools x) r.results)) item)
          r.results
          (λ item h. (
            or_else (first_text item.content none) item.snippet,
            first_text-IsTextOf item.content item.snippet,
            Contains-join "\n\n" _ (λ x. item_section tools x) item r.results h
                (item_section-Shows item),
          ));
  }

  summarised-IsAnswered :
      (summarizer : Summarizer) (o : SummaryOptions) (r : SearchQueryResult)
      → outcome r ≡ summarised summarizer o
      → IsAnswered (summarizer o) r
  unfolding summarised
  summarised-IsAnswered summarizer o r h = elim (Result-cases (summarizer o)) [
    | inl (e, q) ↦ inr (e, q, ground (arith, ap (λ x. x.0) h), ground (arith, ap (λ x. x.1) h))
    | inr (s, q) ↦ inl (s, q, ground (arith, ap (λ x. x.0) h), ground (arith, ap (λ x. x.1) h))
  ]

  wanted_iff :
      (b : Bool) (status : ItemStatus) (items : List SearchResultOut)
      → (b && (is_succeeded status && not (is_nil items)) ≡ true)
        ↔ ((b ≡ true) × (status ≡ succeeded) × (items ≢ []))
  wanted_iff false status items = (λ h. absurd (false≢true h), λ w. absurd (false≢true w.0))
  wanted_iff true failed items = (λ h. absurd (false≢true h), λ w. absurd (let q = w.1 in cc))
  wanted_iff true succeeded [] = (λ h. absurd (false≢true h), λ w. absurd (w.2 refl))
  wanted_iff true succeeded (x ∷ items) = (λ h. (refl, refl, λ e. cc), λ w. refl)

  query_result-outcome :
      (q : SearchQueryIn) (ds : List String) (o : Result SearchResponse)
      → outcome (query_result tools q ds o) ≡ (none, none)
  unfolding query_result
  query_result-outcome q ds (err e) = refl
  query_result-outcome q ds (ok response) = refl

  pages_step-outcome :
      (fetcher : PageFetcher) (n : ℕ) (r : SearchQueryResult)
      → outcome (pages_step tools fetcher n r) ≡ outcome r
  unfolding attach_pages
  pages_step-outcome fetcher n r = elim (Bool-cases (n == 0)) [
    | inl t ↦ rw t refl
    | inr f ↦ rw f (elim (Bool-cases (is_succeeded r.status)) [
      | inl t ↦ rw (attach_pages, t) refl
      | inr g ↦ rw (attach_pages, g) refl
    ])
  ]

  summary_step-IsSummarised :
      (request : SearchRequest) (summarizer : Summarizer) (r : SearchQueryResult)
      → outcome r ≡ (none, none)
      → IsSummarised request summarizer (summary_step tools request summarizer r)
  unfolding attach_summary search_summary_options
  summary_step-IsSummarised request summarizer r h =
      let iff = wanted_iff request.summarize r.status r.results in
      elim (Bool-cases (request.summarize && is_summarisable r)) [
        | inl t ↦ rw t (
            inl (
              iff.0 t,
              search_summary_options tools request r,
              search_summary_options-IsAsked request summarizer r,
              summarised-IsAnswered summarizer (search_summary_options tools request r)
                  (attach_summary tools request summarizer r) (unfold attach_summary in refl),
            ))
        | inr f ↦ rw f (inr ((λ w. false≢true (sym f ∙ iff.1 w)), h))
      ]

  -- In a search, where a summary is wanted, a query succeeded and there is a result to show, the summariser
  -- is asked on that query with a content that shows the title, the URL and the text of each of its items,
  -- a page's text before a snippet, and its answer is the result's summary, or its error the summary's
  -- error; there is neither in every other case.
  pub run_search-IsSummarised :
      {Caller : Type 0} (router : SearchRouter Caller) (fetcher : PageFetcher)
      (summarizer : Summarizer) (request : SearchRequest) (caller : Option Caller)
      (preferences : Option Preferences) (r : SearchQueryResult)
      → Has r (run_search tools router fetcher summarizer request caller preferences)
      → IsSummarised request summarizer r
  unfolding run_search run_query
  run_search-IsSummarised router fetcher summarizer request caller preferences r h =
      let runs = run_query tools router request caller preferences in
      let n = pages_to_read request preferences in
      let results = map runs request.queries in
      let (x, k, e) =
        map-Has (summary_step tools request summarizer) r (map (pages_step tools fetcher n) results)
          h in
      let (y, l, f) = map-Has (pages_step tools fetcher n) x results k in
      let (q, _, g) = map-Has runs y request.queries l in
      let fresh : outcome x ≡ (none, none) =
        sym (ap outcome f)
        ∙ pages_step-outcome fetcher n y
        ∙ sym (ap outcome g)
        ∙ query_result-outcome q _ _ in
      subst (λ z. IsSummarised request summarizer z) e
        (summary_step-IsSummarised request summarizer x fresh)
