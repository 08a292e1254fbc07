-- ===== src/Llm/Registry/Completion.antt =====
-- app/services/llm/registry.py: `resolve`, `provider_for` and `complete`.
use web_search_api.Prelude.{
  String, Bool, true, false, ◌&&◌, Option, none, some, List, [], ◌∷◌, ◌++◌, map, take,
  if◌then◌else◌, str_eq, format, join,
}
use web_search_api.Core.Errors.{
  make_error, not_found_error, preferences_unavailable_error, provider_unavailable_error,
}
use web_search_api.Core.Result.{Result, ok, err, ◌>>=◌}
use web_search_api.Keyring.Caller.{Caller}
use web_search_api.Keyring.Client.{ResolvedAuth, connected, not_connected, refused}
use web_search_api.Llm.Capabilities.{Intent}
use web_search_api.Llm.Chat.{ChatResponse}
use web_search_api.Llm.Models.{ModelInfo, split_model_id}
use web_search_api.Preferences.{profile_unknown}
use web_search_api.Llm.Registry.{
  Provider, ModelCatalog, Caches, ModelRegistry, Clock, RegistryTools, Contact, chatted, find,
  find_provider,
}
use web_search_api.Llm.Registry.Probing.{credential_for}
use web_search_api.Llm.Registry.Catalog.{Call, catalog}

-- `_require_profile_for_provider`: whether it raises.
unfoldable pub needs_profile : String → Option Caller → List Provider → Bool
needs_profile name none ps = false
needs_profile name (some caller) ps = elim (find_provider name ps) [
  | none ↦ false
  | some p ↦ p.requires_credential && (elim caller.profile [ none ↦ true | some _ ↦ false ])
]

-- `text or fallback`, which passes over an empty text.
unfoldable pub text_or_else : Option String → String → String
text_or_else none fallback = fallback
text_or_else (some s) fallback = if str_eq s "" then fallback else s

-- What follows `catalog.find`; `first` is `catalog.models[0]`.
unfoldable pub found_or_first :
    Option String → List ModelInfo → ModelInfo → Option ModelInfo → Result ModelInfo
found_or_first model_id models first (some m) = ok m
found_or_first none models first none = ok first
found_or_first (some id) models first none = err (
    make_error not_found_error "Unknown or unavailable model"
      (some (
        format (
          "'"
          ∷ id
          ∷ "' is not available. Currently available: "
          ∷ join ", " (map (λ m. m.id) (take 10 models))
          ∷ [])))
      none)

module _ (r : ModelRegistry) where
  -- `model_id or (default_model or self._default_model)`
  unfoldable pub requested_id : Option String → Option String → String
  requested_id model_id chosen_default =
      text_or_else model_id (text_or_else chosen_default r.default_model)

  unfoldable pub pick_of :
      Option String → String → Option Caller → List ModelInfo → Result ModelInfo
  pick_of model_id id caller [] = err (
      make_error provider_unavailable_error "No LLM provider is currently available"
        (some
          "No provider is reachable for this caller. Check GET /v1/models for per-provider status, and that a credential is stored in keyring for the profile you named.")
        none)
  pick_of model_id id caller (first ∷ rest) = split_model_id id >>= (λ parts.
      if needs_profile parts.0 caller r.providers
      then err (make_error preferences_unavailable_error profile_unknown none none)
      else found_or_first model_id (first ∷ rest) first (find id (first ∷ rest)))

  -- What `resolve` does with its catalogue.
  abbrev pub pick : Option String → Option String → Option Caller → ModelCatalog → Result ModelInfo
  pick model_id chosen_default caller c =
      pick_of model_id (requested_id model_id chosen_default) caller c.models

  unfoldable pub provider_for : ModelInfo → Result Provider
  provider_for m = elim (find_provider m.provider r.providers) [
    | some p ↦ ok p
    | none ↦ err (
        make_error not_found_error "Unknown provider"
          (some (format ("No provider registered for '" ∷ m.provider ∷ "'." ∷ []))) none)
  ]

module _ (tools : RegistryTools) where
  open tools use {str}

  module _ (r : ModelRegistry) where
    unfoldable pub resolve :
        Clock
        → Option String
        → Option Caller
        → List String
        → Option String
        → Caches
        → Call (Result ModelInfo)
    resolve clock model_id caller disabled chosen_default caches =
        let (caches', contacts, result) = catalog tools r clock false caller disabled caches in
        (caches', contacts, result >>= (λ c. pick r model_id chosen_default caller c))

    -- A credential resolved earlier, or the caller's own.
    unfoldable pub auth_for :
        Option ResolvedAuth → Option Caller → ModelInfo → Provider → Result ResolvedAuth
    auth_for (some auth) caller m p = ok auth
    auth_for none caller m p = elim (credential_for tools r.keyring p caller) [
      | connected auth ↦ ok auth
      | refused e ↦ err e
      | not_connected ↦ err (
          make_error not_found_error "No credential for this model"
            (some (
              format (
                "'" ∷ m.id ∷ "' needs a credential stored in keyring under service '" ∷ p.name
                ∷ "' for this profile." ∷ [])))
            none)
    ]

    -- `complete` from the resolved model on.
    unfoldable pub send_to :
        Intent
        → Option Caller
        → Option ResolvedAuth
        → ModelInfo
        → List Contact × Result ChatResponse
    send_to request caller auth m = elim (provider_for r m) [
      | err e ↦ ([], err e)
      | ok p ↦ elim (auth_for auth caller m p) [
        | err e ↦ ([], err e)
        | ok a ↦ let i = record request { model = m.model } in (chatted p.name i a ∷ [], p.chat i a)
      ]
    ]

    abbrev pub send_picked :
        Intent
        → Option Caller
        → Option ResolvedAuth
        → Result ModelInfo
        → List Contact × Result ChatResponse
    send_picked request caller auth (err e) = ([], err e)
    send_picked request caller auth (ok m) = send_to request caller auth m

    unfoldable pub complete :
        Clock
        → Intent
        → Option String
        → Option Caller
        → Option ResolvedAuth
        → List String
        → Option String
        → Caches
        → Call (Result ChatResponse)
    complete clock request model_id caller auth disabled chosen_default caches =
        let (caches', contacts, result) =
          resolve clock model_id caller disabled chosen_default caches in
        let (more, answer) = send_picked request caller auth result in
        (caches', contacts ++ more, answer)
