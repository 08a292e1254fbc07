-- ===== src/Fetch/Http.antt =====
-- app/services/fetch/http.py: `HttpFetcher`. What the origin answers to the request of hop `i` is
-- `send i url`, and the URL library (with its resolver) at that time is `lib i`. A fetch returns the
-- URLs that it requested, in order, beside its result.
pub mod Hops
pub mod Body
use text.Mathlib.Text.{starts_with}
use web_search_api.Prelude.{
  ℕ, zero, suc, ◌+◌, String, Bool, true, false, not, ◌&&◌, ◌||◌, Option, none, some, List, [], ◌∷◌,
  ◌++◌, leb, ltb, if◌then◌else◌, str_eq, format, length, take, or_else,
}
use web_search_api.Core.Errors.{
  DomainError, make_error, forbidden_url_error, timeout_problem, upstream_error,
}
use web_search_api.Core.Result.{Result, ok, err, ◌>>=◌, ◌>>◌}
use web_search_api.Fetch.UrlSafety.{UrlLibrary, validate_url}

-- What `aiter_bytes` yields next, or how it fails.
pub data Chunk : Type 0 where
  bytes : List ℕ → Chunk
  stalled : Chunk
  broken : String → Chunk

pub record Response : Type 0 where
  pub status_code : ℕ
  pub is_redirect : Bool
  pub location : Option String
  pub content_type : Option String
  pub encoding : Option String
  pub chunks : List Chunk

-- How a request ends. A URL that httpx itself refuses with `InvalidURL` is left out.
pub data Exchange : Type 0 where
  timed_out : Exchange
  transport_failed : String → Exchange
  responded : Response → Exchange

-- Text processing by Python's and httpx's libraries: `urljoin`, `x.split(";")[0].strip().lower()`,
-- `bytes.decode(encoding, errors="replace")`, and `str` of a number.
pub record TextLibrary : Type 0 where
  pub urljoin : String → String → String
  pub media_type : String → String
  pub decode : String → List ℕ → String
  pub str : ℕ → String

pub record FetchResult : Type 0 where
  pub url : String
  pub final_url : String
  pub status_code : ℕ
  pub content_type : String
  pub body : String

pub record HttpFetcher : Type 0 where
  pub timeout : String
  pub max_redirects : ℕ
  pub max_bytes : ℕ
  pub allow_private : Bool

abbrev pub textual_prefixes : List String
textual_prefixes = "text/" ∷ "application/xhtml" ∷ "application/xml" ∷ "application/json" ∷ []

-- `content_type.startswith(_TEXTUAL_PREFIXES)`
unfoldable pub is_textual : String → List String → Bool
is_textual t [] = false
is_textual t (p ∷ ps) = starts_with t p || is_textual t ps

module _ (f : HttpFetcher) where
  -- `_request` translates the failures of httpx, also those met while the body is read.
  unfoldable pub timeout_error : String → DomainError
  timeout_error url =
      make_error timeout_problem "Fetch timed out"
        (some (format (url ∷ " did not respond within " ∷ f.timeout ∷ "s." ∷ []))) none

  unfoldable pub transport_error : String → String → DomainError
  transport_error url m =
      make_error upstream_error "Fetch failed" (some (format (url ∷ ": " ∷ m ∷ []))) none

  -- The loop of `_read_capped`.
  unfoldable pub read_chunks : String → List ℕ → List Chunk → Result (List ℕ)
  read_chunks url buffer [] = ok buffer
  read_chunks url buffer (stalled ∷ cs) = err (timeout_error url)
  read_chunks url buffer (broken m ∷ cs) = err (transport_error url m)
  read_chunks url buffer (bytes b ∷ cs) =
      let rest = read_chunks url (buffer ++ b) cs in
      if ltb f.max_bytes (length (buffer ++ b)) then ok (buffer ++ b) else rest

  unfoldable pub read_capped : String → List Chunk → Result (List ℕ)
  read_capped url cs = do buffer ← read_chunks url [] cs; ok (take f.max_bytes buffer)

  module _ (tools : TextLibrary) where
    open tools use {urljoin, media_type, decode, str}

    unfoldable pub to_result : String → String → Response → Result FetchResult
    to_result original final r =
        let content_type = media_type (or_else r.content_type "") in
        if leb 400 r.status_code
        then err (
            make_error upstream_error "Origin returned an error"
              (some (format (final ∷ " responded " ∷ str r.status_code ∷ "." ∷ []))) none)
        else if not (str_eq content_type "") && not (is_textual content_type textual_prefixes)
        then err (
            make_error upstream_error "Unsupported content type"
              (some (
                format (
                  final ∷ " returned " ∷ content_type ∷ ", which is not a readable document."
                  ∷ [])))
              none)
        else do
          body ← read_capped final r.chunks
          ok (record {
            url = original;
            final_url = final;
            status_code = r.status_code;
            content_type = content_type;
            body = decode (or_else r.encoding "utf-8") body;
          })

    -- `if not location`: absent, or empty.
    unfoldable pub location_of : Response → Option String
    location_of r = elim r.location [ none ↦ none | some l ↦ if str_eq l "" then none else some l ]

    module _ (lib : ℕ → UrlLibrary) (send : ℕ → String → Exchange) where
      abbrev pub Trace : Type 0
      Trace = List String × Result FetchResult

      -- What one response asks for: the URL of the next hop, or an end.
      pub data Next : Type 0 where
        follow : String → Next
        finish : Result FetchResult → Next

      unfoldable pub after_response : ℕ → String → String → Response → Next
      after_response hop original current r =
          if r.is_redirect
          then elim (location_of r) [
            | none ↦ finish (
                err (
                  make_error upstream_error "Malformed redirect"
                    (some (
                      format
                        (current ∷ " returned " ∷ str r.status_code ∷ " with no Location." ∷ [])))
                    none))
            | some l ↦ elim (validate_url (lib (hop + 1)) f.allow_private (urljoin current l)) [
              | ok next ↦ follow next
              | err e ↦ finish (err e)
            ]
          ]
          else finish (to_result original current r)

      unfoldable pub request : ℕ → String → String → Next
      request hop original current = elim (send hop current) [
        | timed_out ↦ finish (err (timeout_error current))
        | transport_failed m ↦ finish (err (transport_error current m))
        | responded r ↦ after_response hop original current r
      ]

      -- The loop of `fetch`, by the rounds that are left.
      unfoldable pub fetch_from : ℕ → ℕ → String → String → Trace
      fetch_from zero hop original current = (
        [],
        err (
            make_error forbidden_url_error "Too many redirects"
              (some (
                format (
                  original ∷ " exceeded the limit of " ∷ str f.max_redirects ∷ " redirects." ∷ [])))
              none),
      )
      fetch_from (suc rounds) hop original current = elim (request hop original current) [
        | finish result ↦ (current ∷ [], result)
        | follow next ↦
            let (urls, result) = fetch_from rounds (hop + 1) original next in
            (current ∷ urls, result)
      ]

      unfoldable pub fetch : String → Trace
      fetch url = elim (validate_url (lib 0) f.allow_private url) [
        | ok original ↦ fetch_from (f.max_redirects + 1) 0 original original
        | err e ↦ ([], err e)
      ]
