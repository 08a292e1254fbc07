-- ===== src/Tests/Preferences.antt =====
-- A person who disables one provider at a deployment that disables another.
use web_search_api.Prelude.{
  ◌≤◌, String, ◌≡◌, refl, Option, none, some, List, [], ◌∷◌, ◌++◌, or_else, All, inl, inr, join,
  str_eq, if◌then◌else◌,
}
use web_search_api.Llm.Registry.Catalog.{disabled_cache_token, sorted_set, insert_name}
use web_search_api.Llm.Registry.Isolation.{caches_after}
use web_search_api.Llm.Registry.Contacts.{IsAllowed}
use web_search_api.Llm.Registry.Completed.{IsTold, own_visit, completed}
use web_search_api.Preferences.{Preferences, standard, require_disabled_providers}
use web_search_api.Preferences.Reading.{
  missing, number, texts, ResolvedSettings, read_text, whole_number, string_list, read_safe_search,
  read_summary_length,
}
use web_search_api.Preferences.Source.{
  Settings, SettingsClient, resolved, given, for_token, resolve_again, conclude, apply, disabled_of,
  default_profile_of,
}
use web_search_api.Preferences.Ceilings.{final, for_token-IsWithin, for_token_disabled}
use web_search_api.Preferences.Operator.{completed-IsAllowed}
use web_search_api.Search.Base.{moderate}
use web_search_api.Tests.Registry.{
  tools, registry, clock, ada, request, open_visit, registry-IsHonest,
}

abbrev settings : Settings
settings = record {
  default_model = "ollama:llama3";
  max_content_chars = 1000;
  search_backend = "auto";
  disabled_providers = "openai" ∷ [];
  job_retention_seconds = 60;
  keyring_default_profile = "personal";
}

abbrev stored : ResolvedSettings
stored key =
    if str_eq key "disabled_providers"
    then some (texts ("groq" ∷ []))
    else if str_eq key "max_content_chars"
    then some (number 5000)
    else if str_eq key "read_top_pages"
    then some (number 30)
    else some missing

abbrev client : SettingsClient
client token profile = resolved stored

abbrev names : List String
names = "groq" ∷ "openai" ∷ []

abbrev chosen : Preferences
chosen = record {
  default_model = "ollama:llama3";
  max_content_chars = 1000;
  search_backend = "auto";
  disabled_providers = some names;
  job_retention_seconds = 60;
  default_profile = some "personal";
  safe_search = some moderate;
  recency_days = none;
  language = none;
  region = none;
  blocked_domains = [];
  read_top_pages = 10;
  summary_length = standard;
  research_notes = none;
}

chosen_given : for_token settings (λ s. s) (λ s. s) client (some "t") none ≡ given chosen
unfolding for_token resolve_again conclude apply disabled_of default_profile_of read_text
    whole_number string_list read_safe_search read_summary_length
chosen_given = refl

for_token-IsWithin_example : (1000 ≤ 1000) × (10 ≤ 10)
for_token-IsWithin_example =
    for_token-IsWithin settings (λ s. s) (λ s. s) client (some "t") none chosen chosen_given

for_token_disabled_example :
    (r : ResolvedSettings) × (v : Option (List String)) × (final settings
        (λ s. s)
        (λ s. s)
        client
        "t"
        none
      ≡ resolved r)
    × (string_list "disabled_providers" r ≡ some v)
    × (names ≡ or_else v [] ++ ("openai" ∷ []))
unfolding require_disabled_providers
for_token_disabled_example =
    for_token_disabled settings (λ s. s) (λ s. s) client "t" none chosen names chosen_given refl

told :
    IsTold tools registry clock request none
      (some ada)
      none
      names
      none
      (own_visit tools registry clock request none (some ada) none names none ∷ open_visit ∷ [])
unfolding disabled_cache_token sorted_set insert_name join
told u (inl q) e name = rw (← q) refl
told u (inr (inl q)) e name =
    absurd (let f : ◌≡◌ {A = String} "" "groq,openai" = rw (← q) at e in cc)
told u (inr (inr k)) e name = elim k [ ]

completed-IsAllowed_example :
    All
      (IsAllowed ("openai" ∷ []))
      (completed tools registry clock request none
        (some ada)
        none
        names
        none
        (caches_after tools (open_visit ∷ []))).1
unfolding require_disabled_providers
completed-IsAllowed_example =
    completed-IsAllowed settings (λ s. s) (λ s. s) tools registry clock request none (some ada) none
      names none client "t" none chosen (open_visit ∷ []) chosen_given refl
      (registry-IsHonest, (registry-IsHonest, tt)) told
