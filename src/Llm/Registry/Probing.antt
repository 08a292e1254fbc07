-- ===== src/Llm/Registry/Probing.antt =====
-- app/services/llm/registry.py: `credential_for`, `_probe_one`, `_probe_all`,
-- `credentialed_provider_names`.
use web_search_api.Prelude.{
  String, Bool, true, false, not, ◌&&◌, ◌||◌, Option, none, some, List, [], ◌∷◌, ◌++◌, map, filter,
  length, if◌then◌else◌, format, first_chars, contains,
}
use web_search_api.Core.Errors.{
  DomainError, make_error, message, preferences_unavailable_error, provider_unavailable_error,
  rate_limited_error,
}
use web_search_api.Fetch.UrlSafety.{is_member}
use web_search_api.Keyring.Caller.{Caller}
use web_search_api.Keyring.Client.{
  KeyringClient, no_auth, Credential, connected, not_connected, refused, is_configured,
  resolve as resolve_credential,
}
use web_search_api.Llm.Models.{
  ModelInfo, ProviderHealth, ProviderStatus, available, unauthorized, unreachable, not_configured,
  is_available,
}
use web_search_api.Preferences.{profile_unknown}
use web_search_api.Llm.Registry.{
  Listing, offered, raised, past_deadline, crashed, Provider, ModelCatalog, ModelRegistry,
  RegistryTools, Contact, listed, sort_by,
}

-- What a probe of one provider gives, and whether it called `list_models`.
pub record Probe : Type 0 where
  pub health : ProviderHealth
  pub found : List ModelInfo
  pub asked : Bool

abbrev pub unavailable_probe : String → ProviderStatus → String → Bool → Probe
unavailable_probe name status detail asked = record {
  health = record { name = name; status = status; detail = detail; model_count = 0 };
  found = [];
  asked = asked;
}

-- The loop over the results.
unfoldable pub models_of : List Probe → List ModelInfo
models_of [] = []
models_of (q ∷ qs) = (if is_available q.health then q.found else []) ++ models_of qs

module _ (tools : RegistryTools) where
  open tools use {digest, lower, str, from_iso}

  unfoldable pub with_keyring : Option KeyringClient → String → String → String → Credential
  with_keyring none profile service token = not_connected
  with_keyring (some k) profile service token =
      if is_configured k
      then resolve_credential str from_iso k profile service token
      else not_connected

  unfoldable pub credential_for : Option KeyringClient → Provider → Option Caller → Credential
  credential_for keyring p caller =
      if not p.requires_credential then connected no_auth else elim caller [
        | none ↦ not_connected
        | some c ↦ elim c.profile [
          | none ↦ refused (make_error preferences_unavailable_error profile_unknown none none)
          | some profile ↦ with_keyring keyring profile p.name c.user_token
        ]
      ]

  abbrev no_credential : String → Probe
  no_credential name =
      unavailable_probe name not_configured "No credential for this caller in keyring." false

  -- The handler of a domain error of `list_models`; any but the two named falls to `except Exception`.
  unfoldable pub raised_probe : String → DomainError → Probe
  raised_probe name e = elim e.kind [
    | provider_unavailable_error ↦
        unavailable_probe name
          (if contains (lower e.detail) "credential" || contains (lower e.title) "credential"
            then unauthorized
            else unreachable)
          (first_chars 200 e.detail) true
    | rate_limited_error ↦ unavailable_probe name unreachable (first_chars 200 e.detail) true
    | _ ↦ unavailable_probe name unreachable (first_chars 200 (message e)) true
  ]

  unfoldable pub listing_probe : String → String → Listing → Probe
  listing_probe timeout name (offered ms) = record {
    health = record {
      name = name;
      status = available;
      detail = format (str (length ms) ∷ " models" ∷ []);
      model_count = length ms;
    };
    found = ms;
    asked = true;
  }
  listing_probe timeout name (raised e) = raised_probe name e
  listing_probe timeout name past_deadline =
      unavailable_probe name unreachable (format ("Did not respond within " ∷ timeout ∷ "s." ∷ []))
        true
  listing_probe timeout name (crashed m) =
      unavailable_probe name unreachable (first_chars 200 m) true

  -- A refusal of `credential_for`.
  unfoldable pub refused_probe : String → DomainError → Probe
  refused_probe name e = elim e.kind [
    | preferences_unavailable_error ↦ no_credential name
    | _ ↦ unavailable_probe name unauthorized (first_chars 200 e.detail) false
  ]

  module _ (r : ModelRegistry) where
    -- `_probe_one` from the credential on.
    unfoldable pub probe_with : Provider → Credential → Probe
    probe_with p not_connected = no_credential p.name
    probe_with p (refused e) = refused_probe p.name e
    probe_with p (connected auth) = listing_probe r.probe_timeout p.name (p.list_models auth)

    -- `_probe_one`
    unfoldable pub probe_one : Option Caller → Provider → Probe
    probe_one caller p =
        if not p.has_endpoint
        then unavailable_probe p.name not_configured "No endpoint configured." false
        else probe_with p (credential_for r.keyring p caller)

    unfoldable pub allowed : List String → List Provider
    allowed disabled = filter (λ p. not (is_member p.name disabled)) r.providers

    -- The gathered probes of `_probe_all`.
    abbrev pub gathered : Option Caller → List String → List Probe
    gathered caller disabled = map (probe_one caller) (allowed disabled)

    unfoldable pub probe_all : Option Caller → List String → ModelCatalog
    probe_all caller disabled = record {
      models = sort_by (λ m. m.id) (models_of (gathered caller disabled));
      providers = sort_by (λ h. h.name) (map (λ q. q.health) (gathered caller disabled));
    }

    -- The providers that these probes ask for their models.
    unfoldable pub probe_contacts : Option Caller → List String → List Contact
    probe_contacts caller disabled =
        map (λ q. listed q.health.name) (filter (λ q. q.asked) (gathered caller disabled))

    -- `credentialed_provider_names`
    unfoldable pub credentialed_provider_names : List String → List String
    credentialed_provider_names disabled = elim r.keyring [
      | none ↦ []
      | some k ↦
          if is_configured k
          then map (λ p. p.name)
              (filter
                (λ p. not (is_member p.name disabled) && (p.requires_credential && p.has_endpoint))
                r.providers)
          else []
    ]
