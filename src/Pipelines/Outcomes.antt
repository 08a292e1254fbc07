-- ===== src/Pipelines/Outcomes.antt =====
-- One item never changes another: what pages and summaries add to a batch.
use web_search_api.Prelude.{
  ℕ, zero, suc, String, ◌≡◌, refl, ap, ◌∙◌, Bool, true, false, ◌&&◌, Option, none, some, List, [],
  ◌∷◌, map, filter, not, if◌then◌else◌, str_eq, ◌==◌, Bool-cases, inl, inr,
}
use web_search_api.Core.Result.{Result, ok, err}
use web_search_api.Fetch.Page.{PageFetcher, FetchedPage, fetch}
use web_search_api.Pipelines.{
  is_succeeded, Summarizer, SearchRequest, SearchQueryIn, SearchResultOut, SearchQueryResult,
}
use web_search_api.Pipelines.Searching.{
  PipelineTools, with_content, read_items, attach_pages, attach_summary, pages_step, summary_step,
  is_summarisable, query_result, result_out, is_blocked, run_query, run_search, pages_to_read,
  page_text,
}
use web_search_api.Pipelines.Scraping.{
  ScrapeRequest, ScrapeResult, ScrapeResponse, scrape_result, ExtractedPage, summarise_page,
  summarise_result, run_scrape,
}
use web_search_api.Preferences.{Preferences}
use web_search_api.Search.Base.{SearchResult, SearchResponse}
use web_search_api.Search.Router.{SearchRouter}

map-map :
    {A B C : Type 0} (f : B → C) (g : A → B) (h : A → C) (xs : List A)
    → ((x : A) → f (g x) ≡ h x)
    → map f (map g xs) ≡ map h xs
map-map f g h [] e = refl
map-map f g h (x ∷ xs) e = rw (e x, map-map f g h xs e) refl

-- A result without the texts of pages.
abbrev pub bare_item : SearchResultOut → SearchResultOut
bare_item item = record item { content = none }

-- A query's result without what pages and summaries add.
abbrev pub bare : SearchQueryResult → SearchQueryResult
bare r = record r { results = map bare_item r.results; summary = none; summary_error = none }

with_content-bare_item :
    (item : SearchResultOut) (o : Option String) → bare_item (with_content item o) ≡ bare_item item
unfolding with_content
with_content-bare_item item none = refl
with_content-bare_item item (some text) = elim (Bool-cases (str_eq text "")) [
  | inl t ↦ rw t refl
  | inr f ↦ rw f refl
]

-- A result of a scrape without its summary.
abbrev pub unsummarised : ScrapeResult → ScrapeResult
unsummarised r = record r { summary = none; summary_error = none }

module _ (tools : PipelineTools) where
  read_items-bare :
      (fetcher : PageFetcher) (n : ℕ) (items : List SearchResultOut)
      → map bare_item (read_items tools fetcher n items) ≡ map bare_item items
  unfolding read_items
  read_items-bare fetcher n [] = refl
  read_items-bare fetcher zero (item ∷ items) = refl
  read_items-bare fetcher (suc n) (item ∷ items) =
      rw
        (
          with_content-bare_item item (page_text tools fetcher item.url),
          read_items-bare fetcher n items,
        )
        refl

  attach_pages-bare :
      (fetcher : PageFetcher) (n : ℕ) (r : SearchQueryResult)
      → bare (attach_pages tools fetcher n r) ≡ bare r
  unfolding attach_pages
  attach_pages-bare fetcher n r = elim (Bool-cases (is_succeeded r.status)) [
    | inl t ↦ rw (attach_pages, t) (rw (read_items-bare fetcher n r.results) refl)
    | inr f ↦ rw (attach_pages, f) refl
  ]

  pages_step-bare :
      (fetcher : PageFetcher) (n : ℕ) (r : SearchQueryResult)
      → bare (pages_step tools fetcher n r) ≡ bare r
  pages_step-bare fetcher n r = elim (Bool-cases (n == 0)) [
    | inl t ↦ rw t refl
    | inr f ↦ rw f (attach_pages-bare fetcher n r)
  ]

  summary_step-bare :
      (request : SearchRequest) (summarizer : Summarizer) (r : SearchQueryResult)
      → bare (summary_step tools request summarizer r) ≡ bare r
  unfolding attach_summary
  summary_step-bare request summarizer r =
      elim (Bool-cases (request.summarize && is_summarisable r)) [
        | inl t ↦ rw t refl
        | inr f ↦ rw f refl
      ]

  result_out-bare :
      (items : List SearchResult) → map bare_item (map result_out items) ≡ map result_out items
  result_out-bare [] = refl
  result_out-bare (item ∷ items) = ap (λ x. result_out item ∷ x) (result_out-bare items)

  query_result-bare :
      (q : SearchQueryIn) (blocked : List String) (o : Result SearchResponse)
      → bare (query_result tools q blocked o) ≡ query_result tools q blocked o
  unfolding query_result
  query_result-bare q blocked (err e) = refl
  query_result-bare q blocked (ok response) =
      rw
        (result_out-bare
          (filter (λ item. not (is_blocked tools blocked item.url)) response.results))
        refl

  -- Whatever pages and summaries add or fail to add, a search has one result for each query, in order,
  -- and its status, its backend, its error and its items are those of that query alone.
  pub run_search-bare :
      {Caller : Type 0} (router : SearchRouter Caller) (fetcher : PageFetcher)
      (summarizer : Summarizer) (request : SearchRequest) (caller : Option Caller)
      (preferences : Option Preferences)
      → map bare (run_search tools router fetcher summarizer request caller preferences)
        ≡ map (run_query tools router request caller preferences) request.queries
  unfolding run_search run_query
  run_search-bare router fetcher summarizer request caller preferences =
      let f = summary_step tools request summarizer in
      let n = pages_to_read request preferences in
      let runs = run_query tools router request caller preferences in
      map-map bare f bare (map (pages_step tools fetcher n) (map runs request.queries))
        (summary_step-bare request summarizer)
      ∙ map-map bare (pages_step tools fetcher n) bare (map runs request.queries)
          (pages_step-bare fetcher n)
      ∙ map-map bare runs runs request.queries (λ q. query_result-bare q _ _)

  summarise_page-unsummarised :
      (request : ScrapeRequest) (summarizer : Summarizer) (r : ScrapeResult)
      (p : Option ExtractedPage)
      → unsummarised (summarise_page tools request summarizer r p) ≡ unsummarised r
  unfolding summarise_page
  summarise_page-unsummarised request summarizer r none = refl
  summarise_page-unsummarised request summarizer r (some p) = refl

  summarise_result-unsummarised :
      (request : ScrapeRequest) (summarizer : Summarizer) (r : ScrapeResult)
      → unsummarised (summarise_result tools request summarizer r) ≡ unsummarised r
  summarise_result-unsummarised request summarizer r = elim (Bool-cases (is_succeeded r.status)) [
    | inl t ↦ rw t (summarise_page-unsummarised request summarizer r r.page)
    | inr f ↦ rw f refl
  ]

  scrape_result-unsummarised :
      (url : String) (o : Result FetchedPage)
      → unsummarised (scrape_result tools url o) ≡ scrape_result tools url o
  unfolding scrape_result
  scrape_result-unsummarised url (err e) = refl
  scrape_result-unsummarised url (ok p) = refl

  either_results :
      (b c : Bool) (x y z : ScrapeResponse) (rs : List ScrapeResult)
      → map unsummarised x.results ≡ rs
      → map unsummarised y.results ≡ rs
      → map unsummarised z.results ≡ rs
      → map unsummarised (if b then if c then x else y else z).results ≡ rs
  either_results true true x y z rs h k l = h
  either_results true false x y z rs h k l = k
  either_results false c x y z rs h k l = l

  -- Whatever summaries add or fail to add, a scrape has one result for each URL, in order, and its
  -- status, its page and its error are those of the fetch of that URL alone.
  pub run_scrape-unsummarised :
      (request : ScrapeRequest) (fetcher : PageFetcher) (summarizer : Summarizer)
      → map unsummarised (run_scrape tools request fetcher summarizer).results
        ≡ map (λ url. scrape_result tools url (fetch fetcher url request.render_js)) request.urls
  unfolding run_scrape
  run_scrape-unsummarised request fetcher summarizer =
      let scraped =
        λ (url : String). scrape_result tools url (fetch fetcher url request.render_js) in
      let kept : map unsummarised (map scraped request.urls) ≡ map scraped request.urls =
        map-map unsummarised scraped scraped request.urls
          (λ url. scrape_result-unsummarised url _) in
      either_results request.summarize request.summarize_together _ _ _ (map scraped request.urls)
        kept
        (map-map unsummarised (summarise_result tools request summarizer) unsummarised
            (map scraped request.urls) (summarise_result-unsummarised request summarizer)
          ∙ kept)
        kept
