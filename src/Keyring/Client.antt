-- ===== src/Keyring/Client.antt =====
-- app/services/keyring/client.py: `KeyringClient.resolve`, by how its GET ends. A moment is a number of
-- clock ticks; `datetime.fromisoformat` is a parameter that gives the moment in UTC.
use web_search_api.Prelude.{
  ℕ, String, Bool, false, not, ◌&&◌, Option, none, some, List, [], ◌∷◌, ◌==◌, leb, if◌then◌else◌,
  str_eq, format,
}
use web_search_api.Core.Errors.{
  DomainError, make_error, auth_error, provider_unavailable_error, timeout_problem,
}

pub record ResolvedAuth : Type 0 where
  pub headers : List (String × String)
  pub query_params : List (String × String)
  pub expires_at : Option ℕ

abbrev pub no_auth : ResolvedAuth
no_auth = record { headers = []; query_params = []; expires_at = none }

pub is_expired : ResolvedAuth → ℕ → Bool
is_expired auth now = elim auth.expires_at [ none ↦ false | some moment ↦ leb moment now ]

-- A field of a JSON object as `_detail` reads it: falsy, a text that is not empty, or anything else.
pub data TextField : Type 0 where
  falsy other : TextField
  text : String → TextField

-- The fields that are read of a JSON object, its maps as `_string_map` reads them; `expires_at` is
-- `none` where it is no text or empty.
pub record Payload : Type 0 where
  pub detail : TextField
  pub title : TextField
  pub headers : List (String × String)
  pub query_params : List (String × String)
  pub expires_at : Option String

pub data Content : Type 0 where
  not_json : String → Content
  not_object : Content
  object : Payload → Content

pub data Answer : Type 0 where
  timed_out : Answer
  unreachable : String → Answer
  responded : ℕ → Content → Answer

-- What `resolve` returns or raises; `not_connected` is `NotConnectedError`.
pub data Credential : Type 0 where
  connected : ResolvedAuth → Credential
  not_connected : Credential
  refused : DomainError → Credential

-- `get` is the GET for a profile, a service and a user's token.
pub record KeyringClient : Type 0 where
  pub base_url : String
  pub service_token : String
  pub timeout : String
  pub get : String → String → String → Answer

abbrev pub is_configured : KeyringClient → Bool
is_configured k = not (str_eq k.base_url "") && not (str_eq k.service_token "")

-- `payload.get("detail") or payload.get("title")`
abbrev first_of : TextField → TextField → TextField
first_of falsy title = title
first_of other title = other
first_of (text s) title = text s

abbrev text_or : TextField → String → String
text_or falsy fallback = fallback
text_or other fallback = fallback
text_or (text s) fallback = s

-- `_detail`
unfoldable pub detail_of : Content → String → String
detail_of (not_json m) fallback = fallback
detail_of not_object fallback = fallback
detail_of (object p) fallback = text_or (first_of p.detail p.title) fallback

module _ (str : ℕ → String) (from_iso : String → Option ℕ) where
  unavailable : String → String → Credential
  unavailable title detail =
      refused (make_error provider_unavailable_error title (some detail) none)

  -- `_parse_expiry`; a text that does not parse is no expiry.
  abbrev parse_expiry : Option String → Option ℕ
  parse_expiry none = none
  parse_expiry (some s) = from_iso s

  unfoldable pub to_auth : Content → Credential
  unfolding unavailable
  to_auth (not_json m) = unavailable "Keyring returned invalid JSON" m
  to_auth not_object = unavailable "Keyring returned an unexpected payload" "Expected an object."
  to_auth (object p) = connected (record {
    headers = p.headers;
    query_params = p.query_params;
    expires_at = parse_expiry p.expires_at;
  })

  unfoldable pub read_status : ℕ → Content → Credential
  unfolding unavailable
  read_status status content =
      if status == 404
      then not_connected
      else if status == 401
      then refused (
          make_error auth_error "Keyring rejected the credentials"
            (some (detail_of content "The user token or this service's token was refused.")) none)
      else if leb 400 status
      then unavailable "Keyring could not provide the credential"
          (detail_of content (format ("Keyring responded " ∷ str status ∷ "." ∷ [])))
      else to_auth content

  unfoldable pub resolve : KeyringClient → String → String → String → Credential
  unfolding unavailable
  resolve k profile service user_token = elim (k.get profile service user_token) [
    | timed_out ↦ refused (
        make_error timeout_problem "Keyring timed out"
          (some (format ("No answer within " ∷ k.timeout ∷ "s." ∷ []))) none)
    | unreachable m ↦ unavailable "Keyring unreachable" (format (k.base_url ∷ ": " ∷ m ∷ []))
    | responded status content ↦ read_status status content
  ]
