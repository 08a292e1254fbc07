-- ===== src/Fetch/Page.antt =====
-- app/services/fetch/page.py: `PageFetcher`. The URL guard, the HTTP fetch, robots.txt, the browser
-- and the extractor are its collaborators, given by what they return or raise in one call.
pub mod Modes
use web_search_api.Prelude.{
  ℕ, ◌≤◌, ◌<◌, String, Bool, true, false, not, ◌&&◌, ◌||◌, Option, none, some, List, [], ◌∷◌, ltb,
  if◌then◌else◌, format, length,
}
use web_search_api.Core.Errors.{
  DomainError, ErrorKind, make_error, is_upstream, forbidden_url_error, upstream_error,
}
use web_search_api.Core.Result.{Result, ok, err, ◌>>=◌, ◌>>◌}
use web_search_api.Fetch.Http.{FetchResult}

-- `ExtractedContent`; the text is its code points.
pub record Content : Type 0 where
  pub title : Option String
  pub author : Option String
  pub published : Option String
  pub text : List ℕ
  pub word_count : ℕ

pub record FetchedPage : Type 0 where
  pub content : Content
  pub final_url : String
  pub rendered : Bool

pub data Render : Type 0 where
  auto always never : Render

-- `browser` and `robots` are `none` where the deployment has none.
pub record PageFetcher : Type 0 where
  pub validate : String → Result String
  pub http_fetch : String → Result FetchResult
  pub browser : Option (String → Result String)
  pub robots : Option (String → Bool)
  pub respect_robots : Bool
  pub extract : String → String → Content

abbrev pub render_fallback_threshold : ℕ
render_fallback_threshold = 500

-- `except (UpstreamError, ForbiddenUrlError)`, with their subclasses.
abbrev pub is_tolerated : ErrorKind → Bool
is_tolerated forbidden_url_error = true
is_tolerated k = is_upstream k

module _ (f : PageFetcher) where
  -- `_render`
  unfoldable pub render_page : String → Result FetchedPage
  render_page url = elim f.browser [
    | none ↦ err (
        make_error upstream_error "Rendering unavailable"
          (some "No headless browser is configured on this deployment.") none)
    | some render ↦ do
      html ← render url
      ok (record { content = f.extract html url; final_url = url; rendered = true })
  ]

  -- `_try_render`; a failure that it does not catch is raised.
  unfoldable pub try_render : String → Result (Option FetchedPage)
  try_render url = elim f.browser [
    | none ↦ ok none
    | some _ ↦ elim (render_page url) [
      | ok page ↦ ok (some page)
      | err e ↦ if is_tolerated e.kind then ok none else err e
    ]
  ]

  unfoldable pub check_robots : String → Result (Unit {0})
  check_robots url = elim f.robots [
    | none ↦ ok tt
    | some can_fetch ↦
        if f.respect_robots && not (can_fetch url)
        then err (
            make_error forbidden_url_error "Blocked by robots.txt"
              (some (format (url ∷ " disallows automated fetching." ∷ []))) none)
        else ok tt
  ]

  -- The page of the plain fetch, or the rendered one where that has more text.
  unfoldable pub choose : FetchedPage → Option FetchedPage → FetchedPage
  choose plain none = plain
  choose plain (some page) =
      if ltb (length plain.content.text) (length page.content.text) then page else plain

  unfoldable pub escalate : Render → String → FetchedPage → Result FetchedPage
  escalate auto url plain =
      if ltb (length plain.content.text) render_fallback_threshold
      then (do page ← try_render url; ok (choose plain page))
      else ok plain
  escalate always url plain = ok plain
  escalate never url plain = ok plain

  unfoldable pub plain_page : String → Result FetchedPage
  plain_page url = do
    result ← f.http_fetch url
    ok (record {
      content = f.extract result.body result.final_url;
      final_url = result.final_url;
      rendered = false;
    })

  unfoldable pub fetch_by : Render → String → Result FetchedPage
  fetch_by always url = render_page url
  fetch_by render url = do plain ← plain_page url; escalate render url plain

  unfoldable pub fetch : String → Render → Result FetchedPage
  fetch url render = do safe_url ← f.validate url; check_robots safe_url; fetch_by render safe_url
