-- ===== src/Llm/Registry/Isolation.antt =====
-- What the cached catalogues hold after any calls of `catalog`.
use web_search_api.Prelude.{
  String, ◌≡◌, refl, Bool, true, false, Option, none, some, List, [], ◌∷◌, length, leb,
  if◌then◌else◌, All, Has, inl, inr, arith, eq_iff, Bool-cases, Option-cases,
}
use web_search_api.Core.Result.{Result, ok}
use web_search_api.Core.Cache.{
  TtlCache, Holds, get-Holds, init-Holds, invalidate-Holds, init as init_cache, invalidate,
}
use web_search_api.Keyring.Caller.{Caller}
use web_search_api.Llm.Registry.{
  ModelCatalog, Key, Caches, ModelRegistry, Clock, RegistryTools, same_key, find_cache, put_cache,
  drop_oldest,
}
use web_search_api.Llm.Registry.Probing.{probe_all}
use web_search_api.Llm.Registry.Catalog.{Call, catalog, cache_for, key_of}

pub same_key→eq : (j k : Key) → same_key j k ≡ true → j ≡ k
same_key→eq (a, b, c) (x, y, z) h =
    let p : a ≡ x = ground (arith, eq_iff a x) in
    let q : b ≡ y = ground (arith, eq_iff b y) in
    let r : c ≡ z = ground (arith, eq_iff c z) in rw (p, q, r) refl

pub cache_for_found :
    (k : Key) (r : ModelRegistry) (cs : Caches) (c : TtlCache ModelCatalog)
    → find_cache k cs ≡ some c
    → cache_for k r cs ≡ (cs, c)
unfolding cache_for
cache_for_found k r cs c h = ground arith

-- The caches with room for one more.
abbrev pub with_room : ModelRegistry → Caches → Caches
with_room r cs = if leb r.max_cached_callers (length cs) then drop_oldest cs else cs

pub cache_for_missing :
    (k : Key) (r : ModelRegistry) (cs : Caches)
    → find_cache k cs ≡ none
    → cache_for k r cs
      ≡ (put_cache k (init_cache r.cache_ttl) (with_room r cs), init_cache r.cache_ttl)
unfolding cache_for
cache_for_missing k r cs h = ground arith

module _ (P : Key → ModelCatalog → Type 0) where
  abbrev KeyedHolds : Key × TtlCache ModelCatalog → Type 0
  KeyedHolds (k, c) = Holds (P k) c

  abbrev CachesHold : Caches → Type 0
  CachesHold cs = All KeyedHolds cs

  find_cache-Holds :
      (k : Key) (cs : Caches) (c : TtlCache ModelCatalog)
      → CachesHold cs
      → find_cache k cs ≡ some c
      → Holds (P k) c
  unfolding find_cache
  find_cache-Holds k [] c h e = cc
  find_cache-Holds k ((j, d) ∷ cs) c h e = elim (Bool-cases (same_key j k)) [
    | inl t ↦
        let q : some d ≡ some c = rw t at e in
        let s : d ≡ c = cc in rw (← same_key→eq j k t, ← s) h.0
    | inr f ↦ find_cache-Holds k cs c h.1 (rw f at e)
  ]

  put_cache-Holds :
      (k : Key) (c : TtlCache ModelCatalog) (cs : Caches)
      → Holds (P k) c
      → CachesHold cs
      → CachesHold (put_cache k c cs)
  unfolding put_cache
  put_cache-Holds k c [] p h = (p, tt)
  put_cache-Holds k c ((j, d) ∷ cs) p h = elim (Bool-cases (same_key j k)) [
    | inl t ↦ rw t (p, h.1)
    | inr f ↦ rw f (h.0, put_cache-Holds k c cs p h.1)
  ]

  drop_oldest_holds : (cs : Caches) → CachesHold cs → CachesHold (drop_oldest cs)
  drop_oldest_holds [] h = tt
  drop_oldest_holds (c ∷ cs) h = h.1

  with_room_holds : (r : ModelRegistry) (cs : Caches) → CachesHold cs → CachesHold (with_room r cs)
  with_room_holds r cs h = elim (Bool-cases (leb r.max_cached_callers (length cs))) [
    | inl t ↦ rw t (drop_oldest_holds cs h)
    | inr f ↦ rw f h
  ]

  cache_for-Holds :
      (k : Key) (r : ModelRegistry) (cs : Caches)
      → CachesHold cs
      → CachesHold (cache_for k r cs).0 × Holds (P k) (cache_for k r cs).1
  cache_for-Holds k r cs h = elim (Option-cases (find_cache k cs)) [
    | inl n ↦ rw (cache_for_missing k r cs n) (
      put_cache-Holds k _ _ (init-Holds (P k) r.cache_ttl) (with_room_holds r cs h),
      init-Holds (P k) r.cache_ttl,
    )
    | inr (c, q) ↦ rw (cache_for_found k r cs c q) (h, find_cache-Holds k cs c h q)
  ]

  before-Holds :
      (b : Bool) (k : Key) (c : TtlCache ModelCatalog)
      → Holds (P k) c
      → Holds (P k) (if b then invalidate c else c)
  before-Holds true k c h = invalidate-Holds (P k) c
  before-Holds false k c h = h

CachesHold-map :
    (P Q : Key → ModelCatalog → Type 0) (cs : Caches)
    → ((k : Key) (m : ModelCatalog) → P k m → Q k m)
    → CachesHold P cs
    → CachesHold Q cs
CachesHold-map P Q [] f h = tt
CachesHold-map P Q ((k, c) ∷ cs) f h = (λ m q. f k m (h.0 m q), CachesHold-map P Q cs f h.1)

anything-Holds : (cs : Caches) → CachesHold (λ k m. Unit) cs
anything-Holds [] = tt
anything-Holds ((k, c) ∷ cs) = (λ v q. tt, anything-Holds cs)

module _ (tools : RegistryTools) where
  -- One call of `catalog`, with the registry as its providers answer in that call.
  pub record Visit : Type 0 where
    pub registry : ModelRegistry
    pub clock : Clock
    pub refresh : Bool
    pub caller : Option Caller
    pub disabled : List String

  abbrev pub visit : Visit → Caches → Call (Result ModelCatalog)
  visit v cs = catalog tools v.registry v.clock v.refresh v.caller v.disabled cs

  -- The caches after calls, the latest first, from none.
  abbrev pub caches_after : List Visit → Caches
  caches_after [] = []
  caches_after (v ∷ vs) = (visit v (caches_after vs)).0

  abbrev pub key_at : Visit → Key
  key_at v = key_of tools v.caller v.disabled

  abbrev pub probed_at : Visit → ModelCatalog
  probed_at v = probe_all tools v.registry v.caller v.disabled

  -- One of the calls probed a catalogue for a key.
  abbrev pub IsProbedFor : List Visit → Key → ModelCatalog → Type 0
  IsProbedFor vs k m = (u : Visit) × Has u vs × (key_at u ≡ k) × (probed_at u ≡ m)

  visit_holds :
      (P : Key → ModelCatalog → Type 0) (v : Visit) (cs : Caches)
      → P (key_at v) (probed_at v)
      → CachesHold P cs
      → CachesHold P (visit v cs).0
        × ((m : ModelCatalog) × ((visit v cs).2 ≡ ok m) × P (key_at v) m)
  unfolding catalog
  visit_holds P v cs p h =
      let k = key_at v in
      let (kept, found) = cache_for-Holds P k v.registry cs h in
      let (held, given) =
        get-Holds (P k) v.clock.now _ _ (probed_at v) refl p
          (before-Holds P v.refresh k (cache_for k v.registry cs).1 found) in
      (put_cache-Holds P k _ _ held kept, given)

  -- A call of `catalog` never fails.
  pub visit_returns : (v : Visit) (cs : Caches) → (m : ModelCatalog) × ((visit v cs).2 ≡ ok m)
  visit_returns v cs =
      let (_, (m, q, _)) = visit_holds (λ k m. Unit) v cs tt (anything-Holds cs) in (m, q)

  IsProbedFor-later :
      (v : Visit) (vs : List Visit) (k : Key) (m : ModelCatalog)
      → IsProbedFor vs k m
      → IsProbedFor (v ∷ vs) k m
  IsProbedFor-later v vs k m (u, h, p, q) = (u, inr h, p, q)

  visited_holds :
      (v : Visit) (vs : List Visit)
      → CachesHold (IsProbedFor vs) (caches_after vs)
      → CachesHold (IsProbedFor (v ∷ vs)) (caches_after (v ∷ vs))
        × ((m : ModelCatalog) × ((visit v (caches_after vs)).2 ≡ ok m)
            × IsProbedFor (v ∷ vs) (key_at v) m)
  visited_holds v vs h =
      visit_holds (IsProbedFor (v ∷ vs)) v (caches_after vs) (v, inl refl, refl, refl)
        (CachesHold-map (IsProbedFor vs) (IsProbedFor (v ∷ vs)) (caches_after vs)
          (IsProbedFor-later v vs) h)

  caches_after_hold : (vs : List Visit) → CachesHold (IsProbedFor vs) (caches_after vs)
  caches_after_hold [] = tt
  caches_after_hold (v ∷ vs) = (visited_holds v vs (caches_after_hold vs)).0

  -- After any calls of `catalog` on an empty dictionary, whatever the providers answered in each, one
  -- more call returns a catalogue. It was probed in that call or in an earlier one, for a caller and a
  -- filter that have the same key (the account id, the profile, and the token of the filter) as those of
  -- the call.
  pub catalog_isolates :
      (vs : List Visit) (v : Visit)
      → (m : ModelCatalog) × ((visit v (caches_after vs)).2 ≡ ok m)
        × IsProbedFor (v ∷ vs) (key_at v) m
  catalog_isolates vs v = (visited_holds v vs (caches_after_hold vs)).1
