-- ===== src/Fetch/UrlSafety.antt =====
-- app/services/urlsafety.py. The URL and address parsers of Python's library and the DNS resolver are
-- fields of `UrlLibrary`; `none` is a `ValueError` of `ip_address`, an `OSError` of the resolver.
pub mod Policy
use web_search_api.Prelude.{
  String, Bool, true, false, not, ◌&&◌, ◌||◌, Option, none, some, List, [], ◌∷◌, str_eq, format,
  if◌then◌else◌,
}
use web_search_api.Core.Errors.{DomainError, make_error, forbidden_url_error, validation_problem}
use web_search_api.Core.Result.{Result, ok, err, ◌>>=◌, ◌>>◌}

-- `urllib.parse.SplitResult`; `hostname` is `none` where the attribute is `None`.
pub record SplitUrl : Type 0 where
  pub scheme : String
  pub netloc : String
  pub path : String
  pub query : String
  pub fragment : String
  pub hostname : Option String

pub data Parsed : Type 0 where
  value_error : String → Parsed
  parsed : SplitUrl → Parsed

pub record IpAddress : Type 0 where
  pub text : String
  pub is_global : Bool
  pub is_multicast : Bool

pub record UrlLibrary : Type 0 where
  pub strip : String → String
  pub strip_brackets : String → String
  pub lower : String → String
  pub urlsplit : String → Parsed
  pub urlunsplit : String → String → String → String → String → String
  pub ip_address : String → Option IpAddress
  pub resolve : String → Option (List String)

unfoldable pub is_member : String → List String → Bool
is_member a [] = false
is_member a (x ∷ xs) = str_eq a x || is_member a xs

abbrev pub allowed_schemes : List String
allowed_schemes = "http" ∷ "https" ∷ []

abbrev pub cloud_metadata_hosts : List String
cloud_metadata_hosts =
    "metadata.google.internal" ∷ "metadata.goog" ∷ "instance-data" ∷ "metadata" ∷ []

abbrev pub local_hosts : List String
local_hosts = "localhost" ∷ "localhost.localdomain" ∷ "ip6-localhost" ∷ []

module _ (lib : UrlLibrary) where
  open lib use {strip, strip_brackets, lower, urlsplit, urlunsplit, ip_address, resolve}

  -- The second half of `normalise_url`, after its own `urlsplit(url.strip())`.
  unfoldable pub normalise_parts : SplitUrl → String
  normalise_parts parts =
      urlunsplit (lower parts.scheme) (lower parts.netloc)
        (if str_eq parts.path "" then "/" else parts.path) parts.query ""

  unfoldable pub assert_public_ip : String → String → Result (Unit {0})
  assert_public_ip address host = elim (ip_address address) [
    | none ↦ err (
        make_error forbidden_url_error "Unresolvable address"
          (some (format (host ∷ " produced an invalid address." ∷ []))) none)
    | some ip ↦
        if not ip.is_global || ip.is_multicast
        then err (
            make_error forbidden_url_error "Blocked address"
              (some (
                format (
                  host ∷ " resolves to " ∷ address
                  ∷ ", which is a private, loopback, link-local or otherwise non-public address."
                  ∷ [])))
              none)
        else ok tt
  ]

  -- `for address in addresses: assert_public_ip(address, host=host)`
  unfoldable pub assert_all_public : List String → String → Result (Unit {0})
  assert_all_public [] host = ok tt
  assert_all_public (a ∷ rest) host = do assert_public_ip a host; assert_all_public rest host

  abbrev unresolvable : List String → DomainError
  unresolvable detail =
      make_error forbidden_url_error "Unresolvable host" (some (format detail)) none

  -- The addresses that a name resolves to, checked unless private ones are allowed.
  unfoldable pub check_resolved : Bool → String → Result (Unit {0})
  check_resolved allow_private host = elim (resolve host) [
    | none ↦ err (unresolvable ("Could not resolve " ∷ host ∷ "." ∷ []))
    | some [] ↦ err (unresolvable (host ∷ " resolved to no addresses." ∷ []))
    | some (a ∷ rest) ↦ if allow_private then ok tt else assert_all_public (a ∷ rest) host
  ]

  -- A literal address is checked itself; a name through the resolver.
  unfoldable pub check_address : Bool → String → Result (Unit {0})
  check_address allow_private host = elim (ip_address (strip_brackets host)) [
    | some ip ↦ if allow_private then ok tt else assert_public_ip ip.text host
    | none ↦ check_resolved allow_private host
  ]

  abbrev blocked_host : List String → DomainError
  blocked_host detail = make_error forbidden_url_error "Blocked host" (some (format detail)) none

  unfoldable pub check_host : Bool → String → Result (Unit {0})
  check_host allow_private host =
      if is_member host cloud_metadata_hosts
      then err (blocked_host (host ∷ " is a cloud metadata endpoint and is never fetched." ∷ []))
      else if is_member host local_hosts && not allow_private
      then err (blocked_host (host ∷ " refers to this machine." ∷ []))
      else check_address allow_private host

  -- `if not host`: absent, or empty.
  unfoldable pub host_of : SplitUrl → Option String
  host_of parts = elim parts.hostname [
    | none ↦ none
    | some h ↦ if str_eq h "" then none else some h
  ]

  unfoldable pub check_parts : Bool → SplitUrl → Result String
  check_parts allow_private parts =
      if not (is_member (lower parts.scheme) allowed_schemes)
      then err (
          make_error validation_problem "Unsupported URL scheme"
            (some "Only http, https URLs may be fetched.") none)
      else elim (host_of parts) [
        | none ↦ err (
            make_error validation_problem "Malformed URL" (some "The URL has no host component.")
              none)
        | some h ↦ do check_host allow_private (lower h); ok (normalise_parts parts)
      ]

  unfoldable pub validate_url : Bool → String → Result String
  validate_url allow_private url = elim (urlsplit (strip url)) [
    | value_error m ↦ err (make_error validation_problem "Malformed URL" (some m) none)
    | parsed parts ↦ check_parts allow_private parts
  ]
