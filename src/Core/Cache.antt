-- ===== src/Core/Cache.antt =====
-- app/core/cache.py: `TTLCache`, one value that goes stale. A clock reading is an argument. `get` is
-- two steps: the look at the cache before the lock, and what happens under the lock, where the other
-- callers of `get` have run before.
use web_search_api.Prelude.{
  ℕ, suc, ◌-◌, ◌<◌, ◌≡◌, refl, Bool, true, false, Option, none, some, List, [], ◌∷◌, leb,
  if◌then◌else◌, arith, All, Option-cases, inl, inr, ◌↔◌, map,
}
use web_search_api.Core.Errors.{DomainError}
use web_search_api.Core.Result.{Result, ok, err}

pub record TtlCache (A : Type 0) : Type 0 where
  pub ttl : ℕ
  pub value : Option A
  pub stored_at : ℕ

-- One caller under the lock: the reading of its second look, what its factory gives or raises, and
-- the reading after that.
pub record Caller (A : Type 0) : Type 0 where
  pub looked_at : ℕ
  pub made : Result A
  pub done_at : ℕ

module _ {A : Type 0} where
  unfoldable pub init : ℕ → TtlCache A
  init ttl = record { ttl = ttl; value = none; stored_at = 0 }

  unfoldable pub invalidate : TtlCache A → TtlCache A
  invalidate c = record c { value = none }

  unfoldable pub peek : ℕ → TtlCache A → Option A
  peek now c = elim c.value [
    | none ↦ none
    | some v ↦ if leb c.ttl 0 then none else if leb c.ttl (now - c.stored_at) then none else some v
  ]

  -- The new cache, what the caller gets, and whether its factory was called.
  unfoldable pub refresh : Caller A → TtlCache A → TtlCache A × Result A × Bool
  refresh w c = elim (peek w.looked_at c) [
    | some v ↦ (c, ok v, false)
    | none ↦ elim w.made [
      | ok v ↦ (record c { value = some v; stored_at = w.done_at }, ok v, true)
      | err e ↦ (c, err e, true)
    ]
  ]

  -- `get`: a fresh value at once, or the turn under the lock.
  unfoldable pub get : ℕ → Caller A → TtlCache A → TtlCache A × Result A × Bool
  get now w c = elim (peek now c) [ some v ↦ (c, ok v, false) | none ↦ refresh w c ]

  -- Callers that take the lock one after another, and how often a factory was called.
  unfoldable pub queue : List (Caller A) → TtlCache A → TtlCache A × List (Result A) × ℕ
  queue [] c = (c, [], 0)
  queue (w ∷ ws) c =
      let (c', r, called) = refresh w c in
      let (c'', rs, n) = queue ws c' in (c'', r ∷ rs, if called then suc n else n)

  -- What is found by a look at the cache: a stored value, for less than `ttl` after it was stored.
  pub peek_exact :
      (now : ℕ) (v : A) (c : TtlCache A)
      → (peek now c ≡ some v) ↔ ((c.value ≡ some v) × (0 < c.ttl) × (now - c.stored_at < c.ttl))
  unfolding peek
  peek_exact now v c = (
    λ h. elim (Option-cases c.value) [
      | inl n ↦ absurd (ground arith)
      | inr (u, q) ↦ (ground arith, ground arith, ground arith)
    ],
    λ (q, p, f). ground arith,
  )

  refresh_fresh :
      (w : Caller A) (c : TtlCache A) (v : A)
      → peek w.looked_at c ≡ some v
      → refresh w c ≡ (c, ok v, false)
  unfolding refresh
  refresh_fresh w c v h = ground arith

  refresh_stale :
      (w : Caller A) (c : TtlCache A) (v : A)
      → peek w.looked_at c ≡ none
      → w.made ≡ ok v
      → refresh w c ≡ (record c { value = some v; stored_at = w.done_at }, ok v, true)
  unfolding refresh
  refresh_stale w c v h m = ground arith

  get_stale :
      (now : ℕ) (w : Caller A) (c : TtlCache A) → peek now c ≡ none → get now w c ≡ refresh w c
  unfolding get
  get_stale now w c h = ground arith

  -- A caller looks while a value stored at `stored` is fresh.
  abbrev pub IsPrompt : ℕ → ℕ → Caller A → Type 0
  IsPrompt ttl stored w = w.looked_at - stored < ttl

  queue_fresh :
      (ws : List (Caller A)) (c : TtlCache A) (v : A)
      → c.value ≡ some v
      → 0 < c.ttl
      → All (IsPrompt c.ttl c.stored_at) ws
      → queue ws c ≡ (c, map (λ _. ok v) ws, 0)
  unfolding queue
  queue_fresh [] c v q p h = refl
  queue_fresh (w ∷ ws) c v q p h =
      let fresh = refresh_fresh w c v ((peek_exact w.looked_at v c).1 (q, p, h.0)) in
      rw (fresh, queue_fresh ws c v q p h.1)

  -- Where a stale cache is refreshed with success, callers that queue on the lock behind the
  -- refresh and look while its value is fresh all get that value, and the factory is called once.
  pub queue_single_flight :
      (w : Caller A) (ws : List (Caller A)) (c : TtlCache A) (v : A)
      → peek w.looked_at c ≡ none
      → w.made ≡ ok v
      → 0 < c.ttl
      → All (IsPrompt c.ttl w.done_at) ws
      → ((queue (w ∷ ws) c).1 ≡ ok v ∷ map (λ _. ok v) ws) × ((queue (w ∷ ws) c).2 ≡ 1)
  unfolding queue
  queue_single_flight w ws c v h m p prompt =
      let c' : TtlCache A = record c { value = some v; stored_at = w.done_at } in
      rw (refresh_stale w c v h m, queue_fresh ws c' v refl p prompt) (refl, refl)

  -- A factory that raises leaves the cache as it was, and so does a value that is still fresh.
  pub get_keeps :
      (now : ℕ) (w : Caller A) (c : TtlCache A)
      → ((v : A) → peek now c ≡ some v → get now w c ≡ (c, ok v, false))
        × ((e : DomainError)
            → peek now c ≡ none
            → peek w.looked_at c ≡ none
            → w.made ≡ err e
            → get now w c ≡ (c, err e, true))
  unfolding get refresh
  get_keeps now w c = (λ v h. ground arith, λ e h k m. ground arith)

  module _ {κ} (P : A → Type κ) where
    -- What a cache holds, where it holds something, has the property.
    abbrev pub Holds : TtlCache A → Type κ
    Holds c = (v : A) → c.value ≡ some v → P v

    pub init-Holds : (ttl : ℕ) → Holds (init ttl)
    unfolding init
    init-Holds ttl v q = absurd (let e : none ≡ some v = q in cc)

    pub invalidate-Holds : (c : TtlCache A) → Holds (invalidate c)
    unfolding invalidate
    invalidate-Holds c v q = absurd (let e : none ≡ some v = q in cc)

    refresh-Holds :
        (w : Caller A) (c : TtlCache A) (m : A)
        → w.made ≡ ok m
        → P m
        → Holds c
        → Holds (refresh w c).0 × ((v : A) × ((refresh w c).1 ≡ ok v) × P v)
    unfolding refresh peek
    refresh-Holds w c m e p h = elim (Option-cases (peek w.looked_at c)) [
      | inl n ↦ rw (refresh_stale w c m n e) (λ v q. let s : m ≡ v = cc in rw (← s) p, (m, refl, p))
      | inr (v, q) ↦
          rw (refresh_fresh w c v q) (h, (v, refl, h v ((peek_exact w.looked_at v c).0 q).0))
    ]

    -- A factory that returns a value with the property leaves a cache, and gives a result, with it.
    pub get-Holds :
        (now : ℕ) (w : Caller A) (c : TtlCache A) (m : A)
        → w.made ≡ ok m
        → P m
        → Holds c
        → Holds (get now w c).0 × ((v : A) × ((get now w c).1 ≡ ok v) × P v)
    get-Holds now w c m e p h = elim (Option-cases (peek now c)) [
      | inl n ↦ rw (get_stale now w c n) (refresh-Holds w c m e p h)
      | inr (v, q) ↦ rw ((get_keeps now w c).0 v q) (h, (v, refl, h v ((peek_exact now v c).0 q).0))
    ]
