-- ===== src/Tests/Fetch.antt =====
-- One public host that redirects once, and a guard that knows its address.
use web_search_api.Prelude.{
  ℕ, ◌+◌, ◌≤◌, String, ◌≡◌, refl, ap, inl, ◌↔◌, ◌⊎◌, Bool, true, false, none, some, List, [], ◌∷◌,
  ◌++◌, arith, length, take, str_eq, format, if◌then◌else◌, map, ◌==◌,
}
use web_search_api.Core.Errors.{DomainError, timeout_problem}
use web_search_api.Core.Result.{Result, ok, err}
use web_search_api.Fetch.UrlSafety.{
  SplitUrl, parsed, IpAddress, UrlLibrary, is_member, validate_url, check_parts, host_of,
  check_host, check_address, check_resolved, assert_all_public, assert_public_ip, normalise_parts,
}
use web_search_api.Fetch.UrlSafety.Policy.{IsAllowed, validate_url_iff}
use web_search_api.Fetch.Http.{
  HttpFetcher, TextLibrary, bytes, stalled, Response, Exchange, responded, FetchResult, fetch,
  fetch_from, request, after_response, location_of, to_result, read_capped, read_chunks, is_textual,
}
use web_search_api.Fetch.Http.Hops.{AreGuarded, fetch-AreGuarded}
use web_search_api.Fetch.Http.Body.{join, read_capped-take, IsDocument, last_or, fetch-IsDocument}
use web_search_api.Fetch.Robots.{Held, RobotsPolicy, RobotsLibrary}
use web_search_api.Fetch.Page.{
  Content, FetchedPage, auto, PageFetcher, plain_page, render_page, fetch_by, fetch as fetch_page,
  escalate, try_render, choose, check_robots,
}
use web_search_api.Fetch.Page.Modes.{IsCleared, fetch-IsCleared, IsLost, fetch_auto_fails}

abbrev site : SplitUrl
site = record {
  scheme = "http";
  netloc = "a.example";
  path = "";
  query = "";
  fragment = "";
  hostname = some "a.example";
}

abbrev public_ip : IpAddress
public_ip = record { text = "93.184.216.34"; is_global = true; is_multicast = false }

-- Every URL is one of the site, and every name has its address.
abbrev library : UrlLibrary
library = record {
  strip = λ s. s;
  strip_brackets = λ s. s;
  lower = λ s. s;
  urlsplit = λ u. parsed site;
  urlunsplit = λ s n p q f. format (s ∷ "://" ∷ n ∷ p ∷ []);
  ip_address = λ a. if str_eq a "93.184.216.34" then some public_ip else none;
  resolve = λ h. some ("93.184.216.34" ∷ []);
}

abbrev tools : TextLibrary
tools = record {
  urljoin = λ base l. l;
  media_type = λ t. t;
  decode = λ e b. "text";
  str = λ n. "n";
}

abbrev fetcher : HttpFetcher
fetcher = record { timeout = "5"; max_redirects = 3; max_bytes = 4; allow_private = false }

abbrev moved : Response
moved = record {
  status_code = 302;
  is_redirect = true;
  location = some "/next";
  content_type = none;
  encoding = none;
  chunks = [];
}

abbrev found : Response
found = record {
  status_code = 200;
  is_redirect = false;
  location = none;
  content_type = some "text/html";
  encoding = none;
  chunks = bytes (1 ∷ 2 ∷ []) ∷ [];
}

abbrev send : ℕ → String → Exchange
send hop url = if hop == 0 then responded moved else responded found

abbrev url : String
url = "http://a.example"

abbrev normal : String
normal = "http://a.example/"

abbrev document : FetchResult
document = record {
  url = normal;
  final_url = normal;
  status_code = 200;
  content_type = "text/html";
  body = "text";
}

validate_runs : validate_url library false url ≡ ok normal
unfolding validate_url is_member format check_parts host_of check_host check_address check_resolved
    assert_all_public assert_public_ip normalise_parts
validate_runs = refl

fetch_runs : fetch fetcher tools (λ _. library) send url ≡ (normal ∷ normal ∷ [], ok document)
unfolding validate_url is_member format check_parts host_of check_host check_address check_resolved
    assert_all_public assert_public_ip normalise_parts fetch fetch_from request after_response
    location_of to_result read_capped read_chunks is_textual
fetch_runs = refl

validate_url_iff_example :
    (validate_url library false url ≡ ok normal) ↔ IsAllowed library false url normal
validate_url_iff_example = validate_url_iff library false url normal

fetch-AreGuarded_example :
    AreGuarded fetcher tools (λ _. library) send url (fetch fetcher tools (λ _. library) send url).0
    × (length (fetch fetcher tools (λ _. library) send url).0 ≤ 3 + 1)
fetch-AreGuarded_example = fetch-AreGuarded fetcher tools (λ _. library) send url

read_capped-take_example :
    read_capped fetcher url (map bytes ((1 ∷ 2 ∷ 3 ∷ []) ∷ (4 ∷ 5 ∷ []) ∷ []) ++ stalled ∷ [])
    ≡ ok (take 4 (join ((1 ∷ 2 ∷ 3 ∷ []) ∷ (4 ∷ 5 ∷ []) ∷ [])))
read_capped-take_example =
    read_capped-take fetcher url ((1 ∷ 2 ∷ 3 ∷ []) ∷ (4 ∷ 5 ∷ []) ∷ []) (stalled ∷ [])
      (inl (omega arith))

fetch-IsDocument_example :
    (original : String) × (validate_url library false url ≡ ok original)
    × IsDocument fetcher tools original document
    × (document.final_url
        ≡ last_or fetcher tools
            (λ _. library)
            send
            original
            (fetch fetcher tools (λ _. library) send url).0)
fetch-IsDocument_example =
    fetch-IsDocument fetcher tools (λ _. library) send url document (ap (λ t. t.1) fetch_runs)

-- robots.txt: the rules are a flag.
abbrev rules : RobotsLibrary Bool
rules = record { parse = λ body. str_eq body "allow"; allows = λ r u. r }

abbrev copy : Held Bool
copy = record { rules = some true; fetched_at = 10 }

abbrev policy : RobotsPolicy Bool
policy = record { ticks_per_second = 1; parsers = ("http://a.example", copy) ∷ [] }

-- A page with one character, and a browser that fails or gives three.
abbrev content : List ℕ → Content
content t = record { title = none; author = none; published = none; text = t; word_count = 1 }

abbrev timeout : DomainError
timeout = record {
  kind = timeout_problem;
  title = "Navigation failed";
  detail = "Could not load";
  instance_uri = none;
}

abbrev pages : (String → Result String) → PageFetcher
pages render = record {
  validate = λ u. ok u;
  http_fetch = λ u. ok document;
  browser = some render;
  robots = none;
  respect_robots = true;
  extract = λ html u. if str_eq html "rendered" then content (1 ∷ 2 ∷ 3 ∷ []) else content (1 ∷ []);
}

abbrev full : FetchedPage
full = record { content = content (1 ∷ 2 ∷ 3 ∷ []); final_url = url; rendered = true }

abbrev working : PageFetcher
working = pages (λ _. ok "rendered")

abbrev timing_out : PageFetcher
timing_out = pages (λ _. err timeout)

auto_runs : fetch_by working auto url ≡ ok full
unfolding fetch_by plain_page escalate try_render render_page choose
auto_runs = refl

fetch-IsCleared_example :
    (safe : String) × IsCleared working url safe × (fetch_by working auto safe ≡ ok full)
unfolding fetch_page check_robots fetch_by
fetch-IsCleared_example = fetch-IsCleared working url auto full auto_runs

fetch_auto_fails_example : fetch_page timing_out url auto ≡ err timeout ↔ (
    (timing_out.validate url ≡ err timeout)
    ⊎ ((safe : String) × (timing_out.validate url ≡ ok safe)
        × ((check_robots timing_out safe ≡ err timeout)
            ⊎ ((check_robots timing_out safe ≡ ok tt)
                × ((timing_out.http_fetch safe ≡ err timeout) ⊎ IsLost timing_out safe timeout)))))
fetch_auto_fails_example = fetch_auto_fails timing_out url timeout
