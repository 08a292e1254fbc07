-- ===== src/Llm/Registry.antt =====
-- app/services/llm/registry.py: the types of `ModelRegistry`. A provider is given by what its calls
-- return or raise in one call of the registry; a set of names is a list. Calls of the registry run one
-- after another, and `Clock` holds the readings of one catalogue's cache: before the lock, under it, and
-- after the probe. A call returns, beside its result, the contacts that it made with providers.
pub mod Probing
pub mod Catalog
pub mod Completion
pub mod Listed
pub mod Chosen
pub mod Isolation
pub mod Bounds
pub mod Named
pub mod Contacts
pub mod Completed
use web_search_api.Prelude.{
  ℕ, String, Bool, true, false, not, ◌&&◌, ◌||◌, Option, none, some, List, [], ◌∷◌, ◌++◌, map,
  filter, length, leb, take, if◌then◌else◌, str_eq, format, first_chars, text_le, contains, join,
  or_else,
}
use web_search_api.Core.Errors.{
  DomainError, ErrorKind, make_error, message, not_found_error, preferences_unavailable_error,
  provider_unavailable_error, rate_limited_error,
}
use web_search_api.Core.Result.{Result, ok, err}
use web_search_api.Core.Cache.{TtlCache, init as init_cache, invalidate, get as get_cached}
use web_search_api.Fetch.UrlSafety.{is_member}
use web_search_api.Keyring.Caller.{Caller, cache_key}
use web_search_api.Keyring.Client.{
  KeyringClient, ResolvedAuth, no_auth, Credential, connected, not_connected, refused,
  is_configured, resolve as resolve_credential,
}
use web_search_api.Llm.Capabilities.{Intent}
use web_search_api.Llm.Chat.{ChatResponse}
use web_search_api.Llm.Models.{
  ModelInfo, ProviderHealth, ProviderStatus, available, unauthorized, unreachable, not_configured,
  is_available, split_model_id,
}

-- How `list_models` under its timeout ends: `raised` is a domain error, `crashed` any other exception
-- with its text.
pub data Listing : Type 0 where
  offered : List ModelInfo → Listing
  raised : DomainError → Listing
  past_deadline : Listing
  crashed : String → Listing

pub record Provider : Type 0 where
  pub name : String
  pub requires_credential : Bool
  pub has_endpoint : Bool
  pub list_models : ResolvedAuth → Listing
  pub chat : Intent → ResolvedAuth → Result ChatResponse

pub record ModelCatalog : Type 0 where
  pub models : List ModelInfo
  pub providers : List ProviderHealth

abbrev pub Key : Type 0
Key = String × String × String

-- What the constructor sets, and `caches` beside it. `providers` are the values of the dictionary, each under its own name.
pub record ModelRegistry : Type 0 where
  pub providers : List Provider
  pub default_model : String
  pub keyring : Option KeyringClient
  pub probe_timeout : String
  pub cache_ttl : ℕ
  pub max_cached_callers : ℕ

pub record Clock : Type 0 where
  pub now : ℕ
  pub looked_at : ℕ
  pub done_at : ℕ

-- `hexdigest` of SHA-256, `str.lower`, `str` of a number, and the parser of the keyring client.
pub record RegistryTools : Type 0 where
  pub digest : String → String
  pub lower : String → String
  pub str : ℕ → String
  pub from_iso : String → Option ℕ

-- A call of a provider's `list_models` or `chat`.
pub data Contact : Type 0 where
  listed : String → Contact
  chatted : String → Intent → ResolvedAuth → Contact

-- `ModelCatalog.find`
unfoldable pub find : String → List ModelInfo → Option ModelInfo
find id [] = none
find id (m ∷ ms) = if str_eq m.id id then some m else find id ms

-- `self._providers.get(name)`
unfoldable pub find_provider : String → List Provider → Option Provider
find_provider name [] = none
find_provider name (p ∷ ps) = if str_eq p.name name then some p else find_provider name ps

module _ {A : Type 0} (key : A → String) where
  -- `sort(key=...)`, stable.
  unfoldable pub insert_by : A → List A → List A
  insert_by a [] = a ∷ []
  insert_by a (b ∷ bs) = if text_le (key a) (key b) then a ∷ b ∷ bs else b ∷ insert_by a bs

  unfoldable pub sort_by : List A → List A
  sort_by [] = []
  sort_by (a ∷ as_) = insert_by a (sort_by as_)

-- `self._caches`, oldest first.
abbrev pub Caches : Type 0
Caches = List (Key × TtlCache ModelCatalog)

abbrev pub same_key : Key → Key → Bool
same_key (a, b, c) (x, y, z) = str_eq a x && (str_eq b y && str_eq c z)

unfoldable pub find_cache : Key → Caches → Option (TtlCache ModelCatalog)
find_cache k [] = none
find_cache k ((j, c) ∷ cs) = if same_key j k then some c else find_cache k cs

-- `self._caches[key] = cache`, and the change of a cache that is there.
unfoldable pub put_cache : Key → TtlCache ModelCatalog → Caches → Caches
put_cache k c [] = (k, c) ∷ []
put_cache k c ((j, d) ∷ cs) = if same_key j k then (k, c) ∷ cs else (j, d) ∷ put_cache k c cs

-- `pop(next(iter(self._caches)))`, which raises on an empty dictionary: `max_cached_callers` is taken to
-- be at least 1.
abbrev pub drop_oldest : Caches → Caches
drop_oldest [] = []
drop_oldest (_ ∷ cs) = cs
