-- ===== src/Llm/Registry/Catalog.antt =====
-- app/services/llm/registry.py: the cached catalogues, `_cache_for` and `catalog`.
use web_search_api.Prelude.{
  String, Bool, Option, none, some, List, [], ◌∷◌, length, leb, if◌then◌else◌, str_eq, text_le,
  join,
}
use web_search_api.Core.Result.{Result, ok}
use web_search_api.Core.Cache.{TtlCache, init as init_cache, invalidate, get as get_cached}
use web_search_api.Keyring.Caller.{Caller, cache_key}
use web_search_api.Llm.Registry.{
  ModelCatalog, Key, Caches, ModelRegistry, Clock, RegistryTools, Contact, find_cache, put_cache,
  drop_oldest,
}
use web_search_api.Llm.Registry.Probing.{probe_all, probe_contacts}

-- `_cache_for`, up to its dictionary: the cache of a key, made if it is missing.
unfoldable pub cache_for : Key → ModelRegistry → Caches → Caches × TtlCache ModelCatalog
cache_for key r caches = elim (find_cache key caches) [
  | some cache ↦ (caches, cache)
  | none ↦
      let room = if leb r.max_cached_callers (length caches) then drop_oldest caches else caches in
      (put_cache key (init_cache r.cache_ttl) room, init_cache r.cache_ttl)
]

abbrev pub Call : Type 0 → Type 0
Call A = Caches × List Contact × A

-- `sorted(frozenset(...))` of names.
unfoldable pub insert_name : String → List String → List String
insert_name a [] = a ∷ []
insert_name a (b ∷ bs) =
    let rest = insert_name a bs in
    if str_eq a b then b ∷ bs else if text_le a b then a ∷ b ∷ bs else b ∷ rest

unfoldable pub sorted_set : List String → List String
sorted_set [] = []
sorted_set (a ∷ as_) = insert_name a (sorted_set as_)

module _ (tools : RegistryTools) where
  open tools use {digest, lower, str, from_iso}

  unfoldable pub disabled_cache_token : List String → String
  disabled_cache_token disabled = elim (sorted_set disabled) [
    | [] ↦ ""
    | n ∷ ns ↦ digest (join "," (n ∷ ns))
  ]

  unfoldable pub key_of : Option Caller → List String → Key
  key_of none disabled = ("", "", disabled_cache_token disabled)
  key_of (some caller) disabled =
      ((cache_key caller).0, (cache_key caller).1, disabled_cache_token disabled)

  module _ (r : ModelRegistry) where
    unfoldable pub catalog :
        Clock → Bool → Option Caller → List String → Caches → Call (Result ModelCatalog)
    catalog clock refresh caller disabled caches =
        let key = key_of caller disabled in
        let (caches', cache) = cache_for key r caches in
        let (cache', result, probed) =
          get_cached clock.now
            (record {
              looked_at = clock.looked_at;
              made = ok (probe_all tools r caller disabled);
              done_at = clock.done_at;
            })
            (if refresh then invalidate cache else cache) in
        (
          put_cache key cache' caches',
          if probed then probe_contacts tools r caller disabled else [],
          result,
        )
