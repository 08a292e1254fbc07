-- ===== src/Pipelines/Searching.antt =====
-- app/services/pipelines.py: `run_search`. The pages of a batch are read through the page fetcher of
-- Fetch/Page; a page's text is also `as_text` of its code points.
use web_search_api.Prelude.{
  ℕ, zero, suc, String, Bool, true, false, not, ◌&&◌, ◌||◌, Option, none, some, List, [], ◌∷◌, map,
  filter, ◌==◌, if◌then◌else◌, str_eq, format, join, ends_with, or_else,
}
use web_search_api.Core.Errors.{to_error_payload}
use web_search_api.Core.Result.{Result, ok, err}
use web_search_api.Fetch.Page.{PageFetcher, auto, fetch}
use web_search_api.Pipelines.{
  succeeded, failed, is_succeeded, SummaryOptions, Summarizer, summarised, SearchQueryIn,
  SearchRequest, SearchResultOut, SearchQueryResult,
}
use web_search_api.Preferences.{Preferences}
use web_search_api.Search.Base.{SearchQuery, SearchResponse, SearchResult, for_request}
use web_search_api.Search.Router.{SearchRouter, search}

-- `str.strip`, `str.lower`, `str` of a number, `urlsplit(url).hostname` (`none` also where it raises),
-- and the text of code points.
pub record PipelineTools : Type 0 where
  pub strip : String → String
  pub lower : String → String
  pub str : ℕ → String
  pub hostname : String → Option String
  pub as_text : List ℕ → String

abbrev pub default_pages_per_query : ℕ
default_pages_per_query = 3

-- `a or b` of texts that may be missing: an empty one is passed over.
abbrev pub first_text : Option String → Option String → Option String
first_text none b = b
first_text (some s) b = if str_eq s "" then b else some s

-- `a or b or ...` of numbers: 0 is passed over.
abbrev pub positive_or : ℕ → ℕ → ℕ
positive_or n m = if n == 0 then m else n

abbrev pub is_nil : {A : Type 0} → List A → Bool
is_nil [] = true
is_nil (x ∷ xs) = false

-- `_within_any`
unfoldable pub within_any : String → List String → Bool
within_any host [] = false
within_any host (d ∷ ds) =
    (str_eq host d || ends_with host (format ("." ∷ d ∷ []))) || within_any host ds

abbrev pub setting : {A : Type 0} → (Preferences → A) → A → Option Preferences → A
setting field fallback none = fallback
setting field fallback (some p) = field p

-- `_pages_to_read`
unfoldable pub pages_to_read : SearchRequest → Option Preferences → ℕ
pages_to_read request preferences =
    let chosen = setting (λ p. p.read_top_pages) 0 preferences in
    let wanted =
      positive_or (or_else request.max_pages 0) (positive_or chosen default_pages_per_query) in
    elim request.fetch_pages [
      | none ↦ if request.summarize && not (chosen == 0) then wanted else 0
      | some false ↦ 0
      | some true ↦ wanted
    ]

-- `next((q for q in request.queries if q.query == result.query), None)`
unfoldable pub query_of : String → List SearchQueryIn → Option SearchQueryIn
query_of text [] = none
query_of text (q ∷ qs) = if str_eq q.query text then some q else query_of text qs

-- `zip(targets, pages)`, where an item without a text keeps its snippet only.
unfoldable pub with_content : SearchResultOut → Option String → SearchResultOut
with_content item none = item
with_content item (some text) = if str_eq text "" then item else record item { content = some text }

unfoldable pub search_query : SearchRequest → Option Preferences → SearchQueryIn → SearchQuery
search_query request preferences query = record {
  query = query.query;
  max_results = query.max_results;
  site = query.site;
  language =
      or_else
        (first_text (first_text request.language (setting (λ p. p.language) none preferences)) none)
        "en";
  region =
      or_else
        (first_text (first_text request.region (setting (λ p. p.region) none preferences)) none)
        "us";
  safe_search = for_request request.safe_search (setting (λ p. p.safe_search) none preferences);
  recency_days = elim request.recency_days [
    | some n ↦ some n
    | none ↦ setting (λ p. p.recency_days) none preferences
  ];
}

abbrev pub result_out : SearchResult → SearchResultOut
result_out item = record {
  title = item.title;
  url = item.url;
  snippet = item.snippet;
  rank = item.rank;
  content = none;
}

abbrev pub is_summarisable : SearchQueryResult → Bool
is_summarisable result = is_succeeded result.status && not (is_nil result.results)

module _ (tools : PipelineTools) where
  open tools use {strip, lower, str, hostname, as_text}

  -- The domains that do not cover a site.
  abbrev pub not_asked_for : Option String → List String → List String
  not_asked_for none blocked = blocked
  not_asked_for (some site) blocked =
      filter (λ d. not (within_any (lower (strip site)) (d ∷ []))) blocked

  -- `_blocked_for`
  unfoldable pub blocked_for : SearchQueryIn → Option Preferences → List String
  blocked_for query preferences =
      not_asked_for (first_text query.site none) (setting (λ p. p.blocked_domains) [] preferences)

  -- `_host`
  unfoldable pub host : String → String
  host url = or_else (hostname url) ""

  abbrev pub is_blocked : List String → String → Bool
  is_blocked [] url = false
  is_blocked (d ∷ ds) url = within_any (host url) (d ∷ ds)

  unfoldable pub query_result :
      SearchQueryIn → List String → Result SearchResponse → SearchQueryResult
  query_result query blocked (err e) = record {
    query = query.query;
    status = failed;
    backend = none;
    results = [];
    summary = none;
    error = some (to_error_payload e);
    summary_error = none;
  }
  query_result query blocked (ok response) = record {
    query = query.query;
    status = succeeded;
    backend = some response.backend;
    results = map result_out (filter (λ item. not (is_blocked blocked item.url)) response.results);
    summary = none;
    error = none;
    summary_error = none;
  }

  -- `_make_page_fetch`: the text of a page, or none.
  unfoldable pub page_text : PageFetcher → String → Option String
  page_text fetcher url = elim (fetch fetcher url auto) [
    | err e ↦ none
    | ok page ↦ some (as_text page.content.text)
  ]

  -- The first results of a query, with their pages' texts.
  unfoldable pub read_items : PageFetcher → ℕ → List SearchResultOut → List SearchResultOut
  read_items fetcher n [] = []
  read_items fetcher zero items = items
  read_items fetcher (suc n) (item ∷ items) =
      with_content item (page_text fetcher item.url) ∷ read_items fetcher n items

  unfoldable pub attach_pages : PageFetcher → ℕ → SearchQueryResult → SearchQueryResult
  attach_pages fetcher per_query result =
      if is_succeeded result.status
      then record result { results = read_items fetcher per_query result.results }
      else result

  unfoldable pub item_section : SearchResultOut → String
  item_section item = format (
      "## ["
      ∷ str item.rank
      ∷ "] "
      ∷ item.title
      ∷ "\n"
      ∷ item.url
      ∷ "\n"
      ∷ or_else (first_text item.content none) item.snippet
      ∷ [])

  -- The options of one query's summary.
  unfoldable pub search_summary_options : SearchRequest → SearchQueryResult → SummaryOptions
  search_summary_options request result = record {
    content = join "\n\n" (map item_section result.results);
    model_id = request.model;
    topic = some result.query;
    additional_notes =
        first_text
          (elim (query_of result.query request.queries) [
            | none ↦ none
            | some q ↦ q.additional_notes
          ])
          request.additional_notes;
    sources = none;
  }

  -- `_attach_summary`
  unfoldable pub attach_summary : SearchRequest → Summarizer → SearchQueryResult → SearchQueryResult
  attach_summary request summarizer result =
      let (summary, failure) = summarised summarizer (search_summary_options request result) in
      record result { summary = summary; summary_error = failure }

  abbrev pub summary_step : SearchRequest → Summarizer → SearchQueryResult → SearchQueryResult
  summary_step request summarizer result =
      if request.summarize && is_summarisable result
      then attach_summary request summarizer result
      else result

  abbrev pub pages_step : PageFetcher → ℕ → SearchQueryResult → SearchQueryResult
  pages_step fetcher per_query result =
      if per_query == 0 then result else attach_pages fetcher per_query result

  module _ {Caller : Type 0} (router : SearchRouter Caller) where
    -- `_make_query_runner`
    unfoldable pub run_query :
        SearchRequest → Option Caller → Option Preferences → SearchQueryIn → SearchQueryResult
    run_query request caller preferences query =
        query_result query (blocked_for query preferences)
          (search router (search_query request preferences query) caller
            (setting (λ p. some p.search_backend) none preferences)).1

    unfoldable pub run_search :
        PageFetcher
        → Summarizer
        → SearchRequest
        → Option Caller
        → Option Preferences
        → List SearchQueryResult
    run_search fetcher summarizer request caller preferences =
        let results = map (run_query request caller preferences) request.queries in
        let read = map (pages_step fetcher (pages_to_read request preferences)) results in
        map (summary_step request summarizer) read
