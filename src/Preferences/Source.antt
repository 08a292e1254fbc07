-- ===== src/Preferences/Source.antt =====
-- app/services/preferences.py: where a request's preferences come from. The settings client is a
-- parameter, by how its `resolve` ends; so are `str.strip` and `str.lower`.
use web_search_api.Prelude.{
  ℕ, ◌*◌, min, String, Option, none, some, List, [], ◌++◌, map, or_else, if◌then◌else◌, str_eq,
}
use web_search_api.Core.Errors.{DomainError, make_error, preferences_unavailable_error}
use web_search_api.Preferences.{Preferences, standard}
use web_search_api.Preferences.Reading.{
  Value, text, ResolvedSettings, ◌>>=◌, read_text, whole_number, string_list, read_safe_search,
  read_summary_length,
}
use web_search_api.Search.Base.{moderate}

-- The fields of the configuration that are read here.
pub record Settings : Type 0 where
  pub default_model : String
  pub max_content_chars : ℕ
  pub search_backend : String
  pub disabled_providers : List String
  pub job_retention_seconds : ℕ
  pub keyring_default_profile : String

pub data Resolution : Type 0 where
  resolved : ResolvedSettings → Resolution
  unavailable rejected : Resolution

-- `resolve` for a user's token and a profile.
abbrev pub SettingsClient : Type 0
SettingsClient = String → Option String → Resolution

-- What `for_token` returns or raises; `refused_setting` is a `SettingsRefused` that it lets pass.
pub data Outcome : Type 0 where
  given : Preferences → Outcome
  failed : DomainError → Outcome
  refused_setting : Outcome

abbrev pub max_pages_per_query : ℕ
max_pages_per_query = 10

abbrev pub seconds_per_hour : ℕ
seconds_per_hour = 3600

abbrev pub refused_message : String
refused_message = "settings-api did not accept this service's request for your settings"

unfoldable pub deployment_preferences : Settings → Preferences
deployment_preferences s = record {
  default_model = s.default_model;
  max_content_chars = s.max_content_chars;
  search_backend = s.search_backend;
  disabled_providers = some s.disabled_providers;
  job_retention_seconds = s.job_retention_seconds;
  default_profile = some s.keyring_default_profile;
  safe_search = none;
  recency_days = none;
  language = none;
  region = none;
  blocked_domains = [];
  read_top_pages = 0;
  summary_length = standard;
  research_notes = none;
}

-- What is left of the configuration while settings-api cannot be asked.
unfoldable pub outage_preferences : Settings → Preferences
outage_preferences s = record (deployment_preferences s) {
  disabled_providers = none;
  default_profile = none;
  safe_search = some moderate;
}

-- `DeploymentPreferences.for_token`
pub deployment_for_token : Settings → Option String → Option String → Preferences
deployment_for_token s user_token profile = deployment_preferences s

module _ (s : Settings) where
  -- `_disabled_providers`
  unfoldable pub disabled_of : ResolvedSettings → Option (List String)
  disabled_of r = elim (string_list "disabled_providers" r) [
    | none ↦ none
    | some value ↦ some (or_else value [] ++ s.disabled_providers)
  ]

  abbrev profile_value : Value → String
  profile_value (text t) = if str_eq t "" then s.keyring_default_profile else t
  profile_value _ = s.keyring_default_profile

  -- `_default_profile`
  unfoldable pub default_profile_of : ResolvedSettings → Option String
  default_profile_of r = elim (r "default_profile") [
    | none ↦ none
    | some v ↦ some (profile_value v)
  ]

  -- The ceiling, or the person's number below it.
  abbrev pub capped : ℕ → Option ℕ → ℕ
  capped ceiling none = ceiling
  capped ceiling (some n) = min ceiling n

  abbrev retention : Option ℕ → ℕ
  retention none = s.job_retention_seconds
  retention (some hours) = hours * seconds_per_hour

  abbrev outcome_of : Option Preferences → Outcome
  outcome_of none = refused_setting
  outcome_of (some p) = given p

  module _ (strip lower : String → String) where
    -- `_apply`
    unfoldable pub apply : ResolvedSettings → Option Preferences
    apply r = do
      hours ← whole_number "job_retention_hours" 0 r
      chars ← whole_number "max_content_chars" 1 r
      model ← read_text "default_model" r
      backend ← read_text "search_backend" r
      safe ← read_safe_search r
      recency ← whole_number "recency_days" 1 r
      language ← read_text "language" r
      region ← read_text "region" r
      blocked ← string_list "blocked_domains" r
      pages ← whole_number "read_top_pages" 0 r
      summary ← read_summary_length r
      notes ← read_text "research_notes" r
      some (record {
        default_model = or_else model s.default_model;
        max_content_chars = capped s.max_content_chars chars;
        search_backend = or_else backend s.search_backend;
        disabled_providers = disabled_of r;
        job_retention_seconds = retention hours;
        default_profile = default_profile_of r;
        safe_search = some safe;
        recency_days = recency;
        language = language;
        region = region;
        blocked_domains = map (λ d. lower (strip d)) (or_else blocked []);
        read_top_pages = min (or_else pages 0) max_pages_per_query;
        summary_length = summary;
        research_notes = notes;
      })

    -- After the last `resolve`.
    unfoldable pub conclude : Resolution → Outcome
    conclude (resolved r) = outcome_of (apply r)
    conclude unavailable = given (outage_preferences s)
    conclude rejected = failed (make_error preferences_unavailable_error refused_message none none)

    -- After the first: a request that names no profile resolves again with the default one.
    unfoldable pub resolve_again : SettingsClient → String → Option String → Resolution → Resolution
    resolve_again client token (some profile) first = first
    resolve_again client token none unavailable = unavailable
    resolve_again client token none rejected = rejected
    resolve_again client token none (resolved r) = elim (default_profile_of r) [
      | none ↦ resolved r
      | some chosen ↦ client token (some chosen)
    ]

    -- `SettingsApiPreferences.for_token`
    unfoldable pub for_token : SettingsClient → Option String → Option String → Outcome
    for_token client none profile = given (deployment_preferences s)
    for_token client (some token) profile =
        conclude (resolve_again client token profile (client token profile))
