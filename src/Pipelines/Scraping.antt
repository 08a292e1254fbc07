-- ===== src/Pipelines/Scraping.antt =====
-- app/services/pipelines.py: `run_scrape` and `run_summarize`.
use web_search_api.Prelude.{
  ℕ, ◌+◌, String, Bool, Option, none, some, List, [], ◌∷◌, map, or_else, if◌then◌else◌, format,
  join,
}
use web_search_api.Core.Errors.{ErrorPayload, to_error_payload}
use web_search_api.Core.Result.{Result, ok, err}
use web_search_api.Fetch.Page.{PageFetcher, FetchedPage, Render, fetch}
use web_search_api.Pipelines.{
  ItemStatus, succeeded, failed, is_succeeded, SummaryOut, SummaryOptions, Summarizer, summarised,
}
use web_search_api.Pipelines.Searching.{PipelineTools, first_text}

pub record ScrapeRequest : Type 0 where
  pub urls : List String
  pub render_js : Render
  pub summarize : Bool
  pub model : Option String
  pub additional_notes : Option String
  pub summarize_together : Bool

pub record ExtractedPage : Type 0 where
  pub url : String
  pub final_url : String
  pub title : Option String
  pub author : Option String
  pub published : Option String
  pub text : String
  pub word_count : ℕ
  pub rendered : Bool

pub record ScrapeResult : Type 0 where
  pub url : String
  pub status : ItemStatus
  pub page : Option ExtractedPage
  pub summary : Option SummaryOut
  pub error : Option ErrorPayload
  pub summary_error : Option ErrorPayload

pub record ScrapeResponse : Type 0 where
  pub results : List ScrapeResult
  pub summary : Option SummaryOut
  pub summary_error : Option ErrorPayload

pub record SummarizeRequest : Type 0 where
  pub text : String
  pub model : Option String
  pub additional_notes : Option String
  pub topic : Option String
  pub sources : List String

module _ (tools : PipelineTools) where
  open tools use {str, as_text}

  unfoldable pub extracted_page : String → FetchedPage → ExtractedPage
  extracted_page url p = record {
    url = url;
    final_url = p.final_url;
    title = p.content.title;
    author = p.content.author;
    published = p.content.published;
    text = as_text p.content.text;
    word_count = p.content.word_count;
    rendered = p.rendered;
  }

  unfoldable pub scrape_result : String → Result FetchedPage → ScrapeResult
  scrape_result url (err e) = record {
    url = url;
    status = failed;
    page = none;
    summary = none;
    error = some (to_error_payload e);
    summary_error = none;
  }
  scrape_result url (ok p) = record {
    url = url;
    status = succeeded;
    page = some (extracted_page url p);
    summary = none;
    error = none;
    summary_error = none;
  }

  abbrev with_page :
      String → Option ExtractedPage → List (String × ExtractedPage) → List (String × ExtractedPage)
  with_page url none rest = rest
  with_page url (some p) rest = (url, p) ∷ rest

  -- The URLs and the pages of the results that have one.
  unfoldable pub read_pages : List ScrapeResult → List (String × ExtractedPage)
  read_pages [] = []
  read_pages (r ∷ rs) =
      let rest = read_pages rs in
      if is_succeeded r.status then with_page r.url r.page rest else rest

  unfoldable pub page_section : ℕ → ExtractedPage → String
  page_section number p =
      format
        ("# [" ∷ str number ∷ "] " ∷ or_else (first_text p.title none) p.url ∷ "\n" ∷ p.text ∷ [])

  -- `enumerate(read, start=number)`
  unfoldable pub page_sections : ℕ → List (String × ExtractedPage) → List String
  page_sections number [] = []
  page_sections number ((_, p) ∷ ps) = page_section number p ∷ page_sections (number + 1) ps

  unfoldable pub together_options : ScrapeRequest → List ScrapeResult → SummaryOptions
  together_options request results = record {
    content = join "\n\n" (page_sections 1 (read_pages results));
    model_id = request.model;
    topic = none;
    additional_notes = request.additional_notes;
    sources = some (map (λ x. x.0) (read_pages results));
  }

  unfoldable pub page_options : ScrapeRequest → String → ExtractedPage → SummaryOptions
  page_options request url p = record {
    content = p.text;
    model_id = request.model;
    topic = p.title;
    additional_notes = request.additional_notes;
    sources = some (url ∷ []);
  }

  unfoldable pub summarise_page :
      ScrapeRequest → Summarizer → ScrapeResult → Option ExtractedPage → ScrapeResult
  summarise_page request summarizer r none = r
  summarise_page request summarizer r (some p) =
      let (summary, failure) = summarised summarizer (page_options request r.url p) in
      record r { summary = summary; summary_error = failure }

  -- One round of the loop over the successful results.
  abbrev pub summarise_result : ScrapeRequest → Summarizer → ScrapeResult → ScrapeResult
  summarise_result request summarizer r =
      if is_succeeded r.status then summarise_page request summarizer r r.page else r

  unfoldable pub run_scrape : ScrapeRequest → PageFetcher → Summarizer → ScrapeResponse
  run_scrape request fetcher summarizer =
      let results =
        map (λ url. scrape_result url (fetch fetcher url request.render_js)) request.urls in
      let (together, failure) = summarised summarizer (together_options request results) in
      if request.summarize
      then if request.summarize_together
        then record { results = results; summary = together; summary_error = failure }
        else record {
          results = map (summarise_result request summarizer) results;
          summary = none;
          summary_error = none;
        }
      else record { results = results; summary = none; summary_error = none }

unfoldable pub run_summarize : SummarizeRequest → Summarizer → Result SummaryOut
run_summarize request summarizer = summarizer (record {
  content = request.text;
  model_id = request.model;
  topic = request.topic;
  additional_notes = request.additional_notes;
  sources = elim request.sources [ [] ↦ none | u ∷ us ↦ some (u ∷ us) ];
})
