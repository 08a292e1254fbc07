-- ===== src/Tests/Search.antt =====
-- Three backends: one without credentials, one that is blocked and one that finds a page.
use web_search_api.Prelude.{ℕ, String, ◌≡◌, refl, Bool, true, false, none, List, [], ◌∷◌}
use web_search_api.Core.Errors.{DomainError, search_blocked_error, timeout_problem}
use web_search_api.Core.Result.{Result, ok, err}
use web_search_api.Search.Base.{moderate, SearchQuery, SearchResponse, is_empty}
use web_search_api.Search.Router.{Backend, SearchRouter, ordered, search}
use web_search_api.Search.Router.Failover.{
  unconfigured, failed, found_nothing, at_head, IsUnavailable, search_fails_over, search_aborts,
  search-IsUnavailable,
}

abbrev query : SearchQuery
query = record {
  query = "lighthouse";
  max_results = 5;
  site = none;
  language = "en";
  region = "us";
  safe_search = moderate;
  recency_days = none;
}

abbrev page : SearchResponse
page = record {
  query = "lighthouse";
  backend = "serper";
  results = record { title = "t"; url = "u"; snippet = "s"; rank = 1 } ∷ [];
}

abbrev nothing : SearchResponse
nothing = record page { results = [] }

abbrev failure : DomainError
failure = record {
  kind = search_blocked_error;
  title = "Blocked";
  detail = "captcha";
  instance_uri = none;
}

abbrev timeout : DomainError
timeout = record failure { kind = timeout_problem }

abbrev backend : String → Result Bool → Result SearchResponse → Backend
backend name configured answer = record {
  name = name;
  is_configured = configured;
  search = λ q. answer;
}

abbrev searxng : Backend
searxng = backend "searxng" (ok false) (ok nothing)

abbrev google : Backend
google = backend "google" (ok true) (err failure)

abbrev serper : Backend
serper = backend "serper" (ok true) (ok page)

abbrev slow : Backend
slow = backend "slow" (ok true) (err timeout)

abbrev empty : Backend
empty = backend "empty" (ok true) (ok nothing)

abbrev router : List Backend → SearchRouter ℕ
router bs = record { backends = bs; preferred = none; bind = λ caller b. b }

search_fails_over_example :
    (search (router (searxng ∷ google ∷ serper ∷ [])) query none none).1 ≡ ok page
unfolding ordered is_empty
search_fails_over_example =
    search_fails_over (router (searxng ∷ google ∷ serper ∷ [])) query none none
      (searxng ∷ google ∷ []) serper [] page refl
      (unconfigured refl, (failed failure refl refl refl, tt)) refl refl refl

search_aborts_example :
    (search (router (searxng ∷ slow ∷ serper ∷ [])) query none none).1 ≡ err timeout
unfolding ordered is_empty
search_aborts_example =
    search_aborts (router (searxng ∷ slow ∷ serper ∷ [])) query none none (searxng ∷ []) slow
      (serper ∷ []) timeout refl (unconfigured refl, tt) refl refl refl

-- the only configured backend finds nothing, and the search is "unavailable"
search-IsUnavailable_example :
    IsUnavailable
      (router (searxng ∷ empty ∷ []))
      query
      (search (router (searxng ∷ empty ∷ [])) query none none).1
unfolding ordered is_empty
search-IsUnavailable_example =
    search-IsUnavailable (router (searxng ∷ empty ∷ [])) query none none
      (unconfigured refl, (found_nothing nothing refl refl refl, tt)) (at_head refl)
