-- ===== src/Preferences.antt =====
-- app/services/preferences.py: what a person has chosen, and `SummaryLength` of
-- app/services/llm/prompts.py. A set of names is a list.
pub mod Reading
pub mod Source
pub mod Ceilings
pub mod Operator
use web_search_api.Prelude.{ℕ, String, Option, none, some, List}
use web_search_api.Core.Errors.{make_error, preferences_unavailable_error}
use web_search_api.Core.Result.{Result, ok, err}
use web_search_api.Search.Base.{SafeSearch}

pub data SummaryLength : Type 0 where
  brief standard detailed : SummaryLength

pub record Preferences : Type 0 where
  pub default_model : String
  pub max_content_chars : ℕ
  pub search_backend : String
  pub disabled_providers : Option (List String)
  pub job_retention_seconds : ℕ
  pub default_profile : Option String
  pub safe_search : Option SafeSearch
  pub recency_days : Option ℕ
  pub language : Option String
  pub region : Option String
  pub blocked_domains : List String
  pub read_top_pages : ℕ
  pub summary_length : SummaryLength
  pub research_notes : Option String

abbrev pub profile_unknown : String
profile_unknown =
    "your default profile could not be read from settings-api; name a profile in the request, or try again shortly"

abbrev pub providers_unknown : String
providers_unknown =
    "which model providers you have disabled could not be read from settings-api and must not be guessed"

-- `Preferences.profile`
unfoldable pub profile : Preferences → Option String → Result String
profile p (some requested) = ok requested
profile p none = elim p.default_profile [
  | none ↦ err (make_error preferences_unavailable_error profile_unknown none none)
  | some name ↦ ok name
]

unfoldable pub require_disabled_providers : Preferences → Result (List String)
require_disabled_providers p = elim p.disabled_providers [
  | none ↦ err (make_error preferences_unavailable_error providers_unknown none none)
  | some names ↦ ok names
]
