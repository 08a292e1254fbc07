-- ===== src/Llm/Registry/Bounds.antt =====
-- How many catalogues are kept after any calls of `catalog`.
use web_search_api.Prelude.{
  ℕ, suc, ◌≡◌, refl, sym, ◌∙◌, true, false, none, some, List, [], ◌∷◌, length, leb, All, ◌⊎◌, inl,
  inr, arith, eq_refl, Bool-cases, Option-cases, ◌<◌, ◌≤◌,
}
use web_search_api.Core.Cache.{TtlCache, init as init_cache}
use web_search_api.Llm.Registry.{
  ModelCatalog, Key, Caches, ModelRegistry, RegistryTools, same_key, find_cache, put_cache,
}
use web_search_api.Llm.Registry.Catalog.{catalog, cache_for, key_of}
use web_search_api.Llm.Registry.Isolation.{
  Visit, caches_after, with_room, cache_for_found, cache_for_missing, same_key→eq,
}

-- Every key has one catalogue.
abbrev pub IsKeyed : Caches → Type 0
IsKeyed [] = Unit
IsKeyed ((k, c) ∷ cs) = (find_cache k cs ≡ none) × IsKeyed cs

abbrev IsKept : ℕ → Caches → Type 0
IsKept n cs = IsKeyed cs × (length cs ≤ n)

-- The key is there, or there is room for it.
abbrev HasRoom : ℕ → Key → Caches → Type 0
HasRoom n k cs = find_cache k cs ≡ none → length cs < n

same_key_refl : (k : Key) → same_key k k ≡ true
same_key_refl (a, b, c) = rw (eq_refl a, eq_refl b, eq_refl c) refl

find_cache-put :
    (k j : Key) (c : TtlCache ModelCatalog) (cs : Caches)
    → same_key k j ≡ false
    → find_cache j cs ≡ none
    → find_cache j (put_cache k c cs) ≡ none
unfolding find_cache put_cache
find_cache-put k j c [] f h = rw f refl
find_cache-put k j c ((i, d) ∷ cs) f h = elim (Bool-cases (same_key i k)) [
  | inl t ↦
      let h' : find_cache j ((k, d) ∷ cs) ≡ none = rw (same_key→eq i k t) at h in
      rw (t, f) (rw f at h')
  | inr u ↦ elim (Bool-cases (same_key i j)) [
    | inl v ↦ absurd (let e : some d ≡ none = rw v at h in cc)
    | inr v ↦ rw (u, v) (find_cache-put k j c cs f (rw v at h))
  ]
]

find_cache-put_same :
    (k : Key) (c : TtlCache ModelCatalog) (cs : Caches) → find_cache k (put_cache k c cs) ≡ some c
unfolding find_cache put_cache
find_cache-put_same k c [] = rw (same_key_refl k) refl
find_cache-put_same k c ((j, d) ∷ cs) = elim (Bool-cases (same_key j k)) [
  | inl t ↦ rw (t, same_key_refl k) refl
  | inr u ↦ rw (u, u) (find_cache-put_same k c cs)
]

same_key_sym : (j k : Key) → same_key j k ≡ false → same_key k j ≡ false
same_key_sym j k h = elim (Bool-cases (same_key k j)) [
  | inl t ↦
      absurd (
        let e : same_key j j ≡ false = rw (same_key→eq k j t) at h in let r = same_key_refl j in cc)
  | inr f ↦ f
]

put_cache-IsKeyed :
    (k : Key) (c : TtlCache ModelCatalog) (cs : Caches) → IsKeyed cs → IsKeyed (put_cache k c cs)
unfolding put_cache find_cache
put_cache-IsKeyed k c [] h = (refl, tt)
put_cache-IsKeyed k c ((j, d) ∷ cs) (h, g) = elim (Bool-cases (same_key j k)) [
  | inl t ↦ rw t (rw (same_key→eq j k t) at h, g)
  | inr u ↦ rw u (find_cache-put k j c cs (same_key_sym j k u) h, put_cache-IsKeyed k c cs g)
]

length-put_cache :
    (k : Key) (c : TtlCache ModelCatalog) (cs : Caches)
    → (length (put_cache k c cs) ≤ length cs)
      ⊎ ((find_cache k cs ≡ none) × (length (put_cache k c cs) ≤ suc (length cs)))
unfolding put_cache find_cache
length-put_cache k c [] = inr (refl, omega arith)
length-put_cache k c ((j, d) ∷ cs) = elim (Bool-cases (same_key j k)) [
  | inl t ↦ rw t (inl (omega arith))
  | inr u ↦ rw u (elim (length-put_cache k c cs) [
    | inl l ↦ inl (omega (arith, l))
    | inr (e, l) ↦ inr (e, omega (arith, l))
  ])
]

put_cache-IsKept :
    (n : ℕ) (k : Key) (c : TtlCache ModelCatalog) (cs : Caches)
    → IsKept n cs
    → HasRoom n k cs
    → IsKept n (put_cache k c cs)
put_cache-IsKept n k c cs (h, l) room = (
  put_cache-IsKeyed k c cs h,
  elim (length-put_cache k c cs) [
    | inl m ↦ omega (arith, m, l)
    | inr (e, m) ↦ omega (arith, m, room e)
  ],
)

with_room-IsKeyed : (r : ModelRegistry) (cs : Caches) → IsKeyed cs → IsKeyed (with_room r cs)
with_room-IsKeyed r [] h = elim (Bool-cases (leb r.max_cached_callers 0)) [
  | inl t ↦ rw t tt
  | inr f ↦ rw f tt
]
with_room-IsKeyed r (c ∷ cs) h = elim (Bool-cases (leb r.max_cached_callers (suc (length cs)))) [
  | inl t ↦ rw t h.1
  | inr f ↦ rw f h
]

length-with_room :
    (r : ModelRegistry) (cs : Caches)
    → 0 < r.max_cached_callers
    → length cs ≤ r.max_cached_callers
    → length (with_room r cs) < r.max_cached_callers
length-with_room r [] p l = let h : leb r.max_cached_callers 0 ≡ false = ground arith in rw h p
length-with_room r (c ∷ cs) p l = ground arith

put_again :
    (n : ℕ) (k : Key) (c : TtlCache ModelCatalog) (cs : Caches) → HasRoom n k (put_cache k c cs)
put_again n k c cs e = absurd (let f : some c ≡ none = sym (find_cache-put_same k c cs) ∙ e in cc)

cache_for-IsKept :
    (k : Key) (r : ModelRegistry) (cs : Caches)
    → 0 < r.max_cached_callers
    → IsKept r.max_cached_callers cs
    → IsKept r.max_cached_callers (cache_for k r cs).0
      × HasRoom r.max_cached_callers k (cache_for k r cs).0
cache_for-IsKept k r cs p (h, l) = elim (Option-cases (find_cache k cs)) [
  | inl m ↦ rw (cache_for_missing k r cs m) (
    put_cache-IsKept r.max_cached_callers k (init_cache r.cache_ttl) (with_room r cs)
        (with_room-IsKeyed r cs h, omega (arith, length-with_room r cs p l))
        (λ _. length-with_room r cs p l),
    put_again r.max_cached_callers k (init_cache r.cache_ttl) (with_room r cs),
  )
  | inr (c, q) ↦
      rw (cache_for_found k r cs c q)
        ((h, l), λ e. absurd (let f : some c ≡ none = rw q at e in cc))
]

cache_for-IsKept_at :
    (n : ℕ) (k : Key) (r : ModelRegistry) (cs : Caches)
    → r.max_cached_callers ≡ n
    → 0 < n
    → IsKept n cs
    → IsKept n (cache_for k r cs).0 × HasRoom n k (cache_for k r cs).0
cache_for-IsKept_at n k r cs e p h = rw (← e) (cache_for-IsKept k r cs (rw e p) (rw e h))

module _ (tools : RegistryTools) where
  -- After any calls of `catalog` on an empty dictionary, of a registry whose `max_cached_callers` is the
  -- same number in all of them and at least 1, at most that many catalogues are kept, and no two of them
  -- under the same key.
  pub caches_after-IsKept :
      (n : ℕ) (vs : List (Visit tools))
      → 0 < n
      → All (λ v. v.registry.max_cached_callers ≡ n) vs
      → IsKeyed (caches_after tools vs) × (length (caches_after tools vs) ≤ n)
  unfolding catalog
  caches_after-IsKept n [] p h = (tt, omega arith)
  caches_after-IsKept n (v ∷ vs) p (e, h) =
      let k = key_of tools v.caller v.disabled in
      let (kept, room) =
        cache_for-IsKept_at n k v.registry (caches_after tools vs) e p
          (caches_after-IsKept n vs p h) in
      put_cache-IsKept n k _ (cache_for k v.registry (caches_after tools vs)).0 kept room
