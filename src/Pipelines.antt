-- ===== src/Pipelines.antt =====
-- app/services/pipelines.py and the schemas of app/schemas/search.py, scrape.py and summary.py that it
-- reads and fills. The bounds of the schemas' fields are left out. The summariser is given by what its
-- `summarize` returns or raises; a batch is the list of what its tasks return, in order, as
-- Core/Concurrency shows of `bounded_gather`.
pub mod Searching
pub mod Scraping
pub mod Outcomes
pub mod Shown
pub mod Summaries
use web_search_api.Prelude.{ℕ, String, Bool, true, false, Option, none, some, List}
use web_search_api.Core.Errors.{ErrorPayload, to_error_payload}
use web_search_api.Core.Result.{Result, ok, err}

pub data ItemStatus : Type 0 where
  succeeded failed : ItemStatus

-- `status is ItemStatus.OK`
abbrev pub is_succeeded : ItemStatus → Bool
is_succeeded succeeded = true
is_succeeded failed = false

pub record Usage : Type 0 where
  pub input_tokens : Option ℕ
  pub output_tokens : Option ℕ

pub record SummaryOut : Type 0 where
  pub executive_summary : String
  pub key_points : List String
  pub model : String
  pub provider : String
  pub usage : Usage
  pub truncated : Bool
  pub chars_submitted : ℕ
  pub original_chars : ℕ
  pub notes_applied : Bool
  pub param_adjustments : List String

pub record SearchQueryIn : Type 0 where
  pub query : String
  pub max_results : ℕ
  pub site : Option String
  pub additional_notes : Option String

pub record SearchRequest : Type 0 where
  pub queries : List SearchQueryIn
  pub fetch_pages : Option Bool
  pub max_pages : Option ℕ
  pub summarize : Bool
  pub model : Option String
  pub additional_notes : Option String
  pub language : Option String
  pub region : Option String
  pub safe_search : Option Bool
  pub recency_days : Option ℕ

pub record SearchResultOut : Type 0 where
  pub title : String
  pub url : String
  pub snippet : String
  pub rank : ℕ
  pub content : Option String

pub record SearchQueryResult : Type 0 where
  pub query : String
  pub status : ItemStatus
  pub backend : Option String
  pub results : List SearchResultOut
  pub summary : Option SummaryOut
  pub error : Option ErrorPayload
  pub summary_error : Option ErrorPayload

-- The arguments of `summarize` that differ inside one request.
pub record SummaryOptions : Type 0 where
  pub content : String
  pub model_id : Option String
  pub topic : Option String
  pub additional_notes : Option String
  pub sources : Option (List String)

abbrev pub Summarizer : Type 0
Summarizer = SummaryOptions → Result SummaryOut

-- `_summarised`: a summary, or the error that there is instead.
abbrev pub Summarised : Type 0
Summarised = Option SummaryOut × Option ErrorPayload

unfoldable pub summarised : Summarizer → SummaryOptions → Summarised
summarised summarize options = elim (summarize options) [
  | ok summary ↦ (some summary, none)
  | err e ↦ (none, some (to_error_payload e))
]
