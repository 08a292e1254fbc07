-- ===== src/Core/Errors.antt =====
-- app/core/errors.py: the domain exceptions and their problem+json mapping. A class is a constructor
-- of `ErrorKind`; an exception is a `DomainError` record.
use Prim.Native.Char.{code as code_point}
use Prim.Native.String
use web_search_api.Prelude.{
  ℕ, ◌+◌, ◌≤◌, ◌<◌, String, ◌≡◌, refl, Bool, true, false, ◌&&◌, Option, List, [], ◌∷◌, leb,
  if◌then◌else◌, or_else, arith, str_eq, format,
}

pub data ErrorKind : Type 0 where
  domain_error validation_problem auth_error forbidden_url_error not_found_error : ErrorKind
  rate_limited_error upstream_error search_blocked_error provider_unavailable_error : ErrorKind
  preferences_unavailable_error timeout_problem : ErrorKind

-- The `status` attribute; `SearchBlockedError` inherits that of `UpstreamError`.
abbrev pub status : ErrorKind → ℕ
status domain_error = 500
status validation_problem = 400
status auth_error = 401
status forbidden_url_error = 403
status not_found_error = 404
status rate_limited_error = 429
status upstream_error = 502
status search_blocked_error = 502
status provider_unavailable_error = 503
status preferences_unavailable_error = 503
status timeout_problem = 504

-- `isinstance(exc, UpstreamError)`: the class or its one subclass.
abbrev pub is_upstream : ErrorKind → Bool
is_upstream upstream_error = true
is_upstream search_blocked_error = true
is_upstream _ = false

unfoldable pub class_name : ErrorKind → String
class_name domain_error = "DomainError"
class_name validation_problem = "ValidationProblem"
class_name auth_error = "AuthError"
class_name forbidden_url_error = "ForbiddenUrlError"
class_name not_found_error = "NotFoundError"
class_name rate_limited_error = "RateLimitedError"
class_name upstream_error = "UpstreamError"
class_name search_blocked_error = "SearchBlockedError"
class_name provider_unavailable_error = "ProviderUnavailableError"
class_name preferences_unavailable_error = "PreferencesUnavailableError"
class_name timeout_problem = "TimeoutProblem"

-- The `code` attribute: declared by the base class, set by `__init_subclass__` on every other.
unfoldable pub code : ErrorKind → String
code domain_error = "internal_error"
code validation_problem = "validation_problem"
code auth_error = "auth_error"
code forbidden_url_error = "forbidden_url_error"
code not_found_error = "not_found_error"
code rate_limited_error = "rate_limited_error"
code upstream_error = "upstream_error"
code search_blocked_error = "search_blocked_error"
code provider_unavailable_error = "provider_unavailable_error"
code preferences_unavailable_error = "preferences_unavailable_error"
code timeout_problem = "timeout_problem"

abbrev pub codes : String → List ℕ
codes String.[] = []
codes (String.◌∷◌ c s) = code_point c ∷ codes s

is_upper : ℕ → Bool
is_upper c = leb b'A' c && leb c b'Z'

lower : ℕ → ℕ
unfolding is_upper
lower c = if is_upper c then c + 32 else c

-- Past the first character an upper-case letter gets an underscore in front: `(?<!^)(?=[A-Z])`.
split_camel : List ℕ → List ℕ
unfolding lower
split_camel [] = []
split_camel (c ∷ cs) =
    let rest = split_camel cs in if is_upper c then b'_' ∷ lower c ∷ rest else lower c ∷ rest

unfoldable pub default_code : List ℕ → List ℕ
unfolding split_camel
default_code [] = []
default_code (c ∷ cs) = lower c ∷ split_camel cs

pub record DomainError : Type 0 where
  pub kind : ErrorKind
  pub title : String
  pub detail : String
  pub instance_uri : Option String

-- `__init__`: the detail defaults to the title.
unfoldable pub make_error : ErrorKind → String → Option String → Option String → DomainError
make_error kind title detail instance_uri = record {
  kind = kind;
  title = title;
  detail = or_else detail title;
  instance_uri = instance_uri;
}

-- `str(exc)`: what `__init__` hands to `Exception`.
unfoldable pub message : DomainError → String
message e = if str_eq e.detail e.title then e.title else format (e.title ∷ ": " ∷ e.detail ∷ [])

pub record ErrorPayload : Type 0 where
  pub code : String
  pub title : String
  pub detail : String

pub record Problem : Type 0 where
  pub type_uri : String
  pub title : String
  pub status : ℕ
  pub detail : String
  pub code : String
  pub instance_uri : Option String

unfoldable pub to_problem : DomainError → Problem
to_problem e = record {
  type_uri = String.◌++◌ "https://web-search-api.dev/problems/" (code e.kind);
  title = e.title;
  status = status e.kind;
  detail = e.detail;
  code = code e.kind;
  instance_uri = e.instance_uri;
}

unfoldable pub to_error_payload : DomainError → ErrorPayload
to_error_payload e = record { code = code e.kind; title = e.title; detail = e.detail }

-- The code of every subclass is its class name in snake case, as `__init_subclass__` computes it
-- over code points; the base class alone keeps the code that it declares.
pub code-default_code :
    (k : ErrorKind)
    → (k ≡ domain_error → code k ≡ "internal_error")
      × ((k ≡ domain_error → ⊥) → codes (code k) ≡ default_code (codes (class_name k)))
unfolding code default_code class_name
code-default_code domain_error = (λ _. refl, λ h. absurd (h refl))
code-default_code validation_problem = (λ h. cc h, λ _. refl)
code-default_code auth_error = (λ h. cc h, λ _. refl)
code-default_code forbidden_url_error = (λ h. cc h, λ _. refl)
code-default_code not_found_error = (λ h. cc h, λ _. refl)
code-default_code rate_limited_error = (λ h. cc h, λ _. refl)
code-default_code upstream_error = (λ h. cc h, λ _. refl)
code-default_code search_blocked_error = (λ h. cc h, λ _. refl)
code-default_code provider_unavailable_error = (λ h. cc h, λ _. refl)
code-default_code preferences_unavailable_error = (λ h. cc h, λ _. refl)
code-default_code timeout_problem = (λ h. cc h, λ _. refl)

-- The problem document and the compact payload of one error agree, and the status is 4xx or 5xx.
pub to_problem-to_error_payload :
    (e : DomainError)
    → ((to_problem e).code ≡ (to_error_payload e).code)
      × ((to_problem e).title ≡ (to_error_payload e).title)
      × ((to_problem e).detail ≡ (to_error_payload e).detail)
      × (400 ≤ (to_problem e).status)
      × ((to_problem e).status < 600)
unfolding to_problem to_error_payload
to_problem-to_error_payload e = (refl, refl, refl, range.0, range.1)
  where
    status_range : (k : ErrorKind) → (400 ≤ status k) × (status k < 600)
    status_range domain_error = omega arith
    status_range _ = omega arith

    range : (400 ≤ status e.kind) × (status e.kind < 600)
    range = status_range e.kind
