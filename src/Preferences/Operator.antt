-- ===== src/Preferences/Operator.antt =====
-- What the operator has turned off stays off in a completion for a person.
use web_search_api.Prelude.{
  String, ◌≡◌, false, Option, some, List, [], ◌∷◌, ◌++◌, or_else, All, All-each, All-Has, arith,
}
use web_search_api.Core.Result.{ok}
use web_search_api.Fetch.UrlSafety.{is_member}
use web_search_api.Keyring.Caller.{Caller}
use web_search_api.Keyring.Client.{ResolvedAuth}
use web_search_api.Llm.Capabilities.{Intent}
use web_search_api.Llm.Registry.{ModelRegistry, Clock, RegistryTools, Contact, listed, chatted}
use web_search_api.Llm.Registry.Isolation.{Visit, caches_after}
use web_search_api.Llm.Registry.Contacts.{IsAllowed, IsHonest}
use web_search_api.Llm.Registry.Completed.{IsTold, own_visit, completed, complete-IsAllowed}
use web_search_api.Preferences.{Preferences, require_disabled_providers}
use web_search_api.Preferences.Source.{Settings, SettingsClient, given, for_token}
use web_search_api.Preferences.Ceilings.{for_token_disabled}

is_member-append :
    (a : String) (xs ys : List String) → is_member a (xs ++ ys) ≡ false → is_member a ys ≡ false
unfolding is_member
is_member-append a [] ys h = h
is_member-append a (x ∷ xs) ys h = is_member-append a xs ys (ground arith)

IsAllowed-append : (xs ys : List String) (c : Contact) → IsAllowed (xs ++ ys) c → IsAllowed ys c
IsAllowed-append xs ys (listed name) h = is_member-append name xs ys h
IsAllowed-append xs ys (chatted name i auth) h = is_member-append name xs ys h

module _ (s : Settings) (strip lower : String → String) (tools : RegistryTools) (r : ModelRegistry)
    (clock : Clock) (request : Intent) (model_id : Option String) (caller : Option Caller)
    (auth : Option ResolvedAuth) (names : List String) (chosen_default : Option String) where
  -- A completion with the disabled providers of a person's preferences, however the person chose, contacts
  -- no provider that the configuration disables. The providers offer models under their own names, and a
  -- filter of an earlier call with the same token has the same names.
  pub completed-IsAllowed :
      (client : SettingsClient) (token : String) (requested : Option String) (p : Preferences)
      (vs : List (Visit tools))
      → for_token s strip lower client (some token) requested ≡ given p
      → require_disabled_providers p ≡ ok names
      → All
          (λ u. IsHonest u.registry)
          (own_visit tools r clock request model_id caller auth names chosen_default ∷ vs)
      → IsTold tools r clock request model_id caller auth names chosen_default
          (own_visit tools r clock request model_id caller auth names chosen_default ∷ vs)
      → All
          (IsAllowed s.disabled_providers)
          (completed tools r clock request model_id caller auth names chosen_default
            (caches_after tools vs)).1
  completed-IsAllowed client token requested p vs given_p known honest told =
      let (_, v, _, _, e) =
        for_token_disabled s strip lower client token requested p names given_p known in
      let allowed =
        complete-IsAllowed tools r clock request model_id caller auth names chosen_default vs honest
          told in
      All-each (IsAllowed s.disabled_providers) _ (λ c h.
        IsAllowed-append (or_else v []) s.disabled_providers c
          (rw (← e) (All-Has (IsAllowed names) _ allowed h)))
