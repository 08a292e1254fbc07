-- ===== src/Tests/Pipelines.antt =====
-- A batch of one search whose second result is on a blocked site, and a scrape of one page.
use web_search_api.Prelude.{
  ℕ, ◌≡◌, refl, ◌⊎◌, inl, true, false, none, some, [], ◌∷◌, map, Each, ends_with, format, join,
}
use web_search_api.Core.Errors.{make_error, timeout_problem, to_error_payload}
use web_search_api.Core.Result.{ok, err}
use web_search_api.Fetch.Page.{PageFetcher, never, fetch, check_robots, fetch_by, plain_page}
use web_search_api.Pipelines.{
  succeeded, Summarizer, summarised, SearchQueryIn, SearchRequest, SearchQueryResult,
}
use web_search_api.Pipelines.Searching.{
  PipelineTools, run_query, run_search, pages_to_read, attach_pages, query_result, read_items,
  blocked_for, within_any, host, attach_summary, item_section, page_text, query_of, search_query,
  search_summary_options, with_content,
}
use web_search_api.Pipelines.Scraping.{ScrapeRequest, scrape_result, run_scrape}
use web_search_api.Pipelines.Outcomes.{bare, unsummarised, run_search-bare, run_scrape-unsummarised}
use web_search_api.Pipelines.Shown.{IsAskedFor, IsHidden, run_search-IsHidden}
use web_search_api.Pipelines.Summaries.{IsSummarised, run_search-IsSummarised}
use web_search_api.Preferences.{Preferences, standard}
use web_search_api.Search.Base.{SearchResponse, moderate, is_empty, for_request, asked_for}
use web_search_api.Search.Router.{
  Backend, SearchRouter, search, search_loop, ordered, try_backend, judge,
}

abbrev tools : PipelineTools
tools = record {
  strip = λ s. s;
  lower = λ s. s;
  str = λ n. "1";
  hostname = λ url. some url;
  as_text = λ t. "text";
}

abbrev found : SearchResponse
found = record {
  query = "antt";
  backend = "one";
  results =
      record { title = "A"; url = "a.example"; snippet = "s"; rank = 1 }
      ∷ record { title = "B"; url = "www.b.example"; snippet = "s"; rank = 2 }
      ∷ [];
}

abbrev backend : Backend
backend = record { name = "one"; is_configured = ok true; search = λ q. ok found }

abbrev router : SearchRouter ℕ
router = record { backends = backend ∷ []; preferred = none; bind = λ c b. b }

abbrev fetcher : PageFetcher
fetcher = record {
  validate = λ url. ok url;
  http_fetch = λ url. err (make_error timeout_problem "t" none none);
  browser = none;
  robots = none;
  respect_robots = false;
  extract = λ html url. record {
    title = none;
    author = none;
    published = none;
    text = [];
    word_count = 0;
  };
}

abbrev silent : Summarizer
silent options = err (make_error timeout_problem "t" none none)

abbrev query : SearchQueryIn
query = record { query = "antt"; max_results = 10; site = none; additional_notes = none }

abbrev request : SearchRequest
request = record {
  queries = query ∷ [];
  fetch_pages = some true;
  max_pages = some 2;
  summarize = true;
  model = none;
  additional_notes = none;
  language = none;
  region = none;
  safe_search = none;
  recency_days = none;
}

abbrev preferences : Preferences
preferences = record {
  default_model = "ollama:llama3";
  max_content_chars = 1000;
  search_backend = "one";
  disabled_providers = some [];
  job_retention_seconds = 60;
  default_profile = none;
  safe_search = some moderate;
  recency_days = none;
  language = none;
  region = none;
  blocked_domains = "b.example" ∷ [];
  read_top_pages = 0;
  summary_length = standard;
  research_notes = none;
}

abbrev only : SearchQueryResult
only = record {
  query = "antt";
  status = succeeded;
  backend = some "one";
  results = record { title = "A"; url = "a.example"; snippet = "s"; rank = 1; content = none } ∷ [];
  summary = none;
  error = none;
  summary_error = some (to_error_payload (make_error timeout_problem "t" none none));
}

only_result : run_search tools router fetcher silent request none (some preferences) ≡ only ∷ []
unfolding run_search pages_to_read attach_pages run_query query_result search search_loop ordered
    try_backend judge is_empty read_items blocked_for within_any host ends_with format
    attach_summary make_error to_error_payload check_robots fetch fetch_by plain_page item_section
    page_text query_of search_query search_summary_options with_content summarised join for_request
    asked_for
only_result = refl

run_search-bare_example :
    map bare (run_search tools router fetcher silent request none (some preferences))
    ≡ run_query tools router request none (some preferences) query ∷ []
run_search-bare_example =
    run_search-bare tools router fetcher silent request none (some preferences)

run_search-IsHidden_example :
    Each
      (λ q r. (r.query ≡ q.query) × (IsAskedFor tools q "b.example" ⊎ IsHidden tools "b.example" r))
      request.queries
      (run_search tools router fetcher silent request none (some preferences))
run_search-IsHidden_example =
    run_search-IsHidden tools router fetcher silent request none preferences "b.example" (inl refl)

run_search-IsSummarised_example : IsSummarised tools request silent only
run_search-IsSummarised_example =
    run_search-IsSummarised tools router fetcher silent request none (some preferences) only
      (rw only_result (inl refl))

abbrev scrape : ScrapeRequest
scrape = record {
  urls = "a.example" ∷ "b.example" ∷ [];
  render_js = never;
  summarize = true;
  model = none;
  additional_notes = none;
  summarize_together = false;
}

run_scrape-unsummarised_example :
    map unsummarised (run_scrape tools scrape fetcher silent).results
    ≡ scrape_result tools "a.example" (fetch fetcher "a.example" never)
      ∷ scrape_result tools "b.example" (fetch fetcher "b.example" never)
      ∷ []
run_scrape-unsummarised_example = run_scrape-unsummarised tools scrape fetcher silent
