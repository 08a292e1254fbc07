-- ===== src/Jobs/Store/Capacity.antt =====
-- The size cap of `InMemoryJobStore`: `_evict_locked` and what it does to a `put`.
use web_search_api.Prelude.{
  ℕ, ◌≤◌, ◌≡◌, ◌≢◌, refl, sym, ap, ◌∙◌, ◌⊎◌, inl, inr, true, false, List, [], ◌∷◌, arith, length,
  filter, leb, Bool-cases, Has, All, Has-filter, filter-Has, false≢true,
}
use web_search_api.Jobs.Base.{Job, is_terminal}
use web_search_api.Jobs.Store.{
  Store, set_job, discard, event_for, purge, sort_oldest, evict_loop, evict, fire, enter, put,
  expired,
}
use web_search_api.Jobs.Store.Jobs.{
  IsUnique, IsUnique-set_job, IsUnique-discard, IsUnique-purge, Has-set_job, Has-set_job_self,
  Has-purge, job_of_id, jobs-event_for, settings-purge,
}
use web_search_api.Jobs.Store.Eviction.{
  Has-sort_oldest, sort_oldest-Has, IsSorted-sort_oldest, evict_loop-Has, Has-evict_loop,
  evict_loop_cap, evict_loop_oldest,
}

module _ {R : Type 0} where
  abbrev terminal_of : Store R → List (Job R)
  terminal_of s = filter (λ j. is_terminal j.status) s.jobs

  -- An eviction takes no unfinished job.
  Has-evict :
      (s : Store R) (j : Job R)
      → IsUnique s.jobs
      → Has j s.jobs
      → is_terminal j.status ≡ false
      → Has j (evict s).jobs
  unfolding evict
  Has-evict s j u h n = Has-evict_loop _ s j h (apart (sort_oldest (terminal_of s)) (λ t m. m))
    where
      apart :
          (ts : List (Job R))
          → ((t : Job R) → Has t ts → Has t (sort_oldest (terminal_of s)))
          → All (λ t. j.id ≢ t.id) ts
      apart [] f = tt
      apart (t ∷ ts) f = (
        λ e.
            let (m, done) =
              filter-Has (λ (i : Job R). is_terminal i.status) t s.jobs
                (sort_oldest-Has t (terminal_of s) (f t (inl refl))) in
            let q : j ≡ t = job_of_id s.jobs j t u h m e in
            false≢true (sym n ∙ ap (λ (x : Job R). is_terminal x.status) q ∙ done),
        apart ts (λ i m. f i (inr m)),
      )

  ids_apart : (j : Job R) (ts : List (Job R)) → All (λ t. j.id ≢ t.id) ts → Has j ts → ⊥
  ids_apart j [] n h = elim h [ ]
  ids_apart j (t ∷ ts) n (inl q) = n.0 (ap (λ (x : Job R). x.id) (sym q))
  ids_apart j (t ∷ ts) n (inr m) = ids_apart j ts n.1 m

  -- After an eviction the store is within its cap, or holds unfinished jobs only.
  pub evict_cap :
      (s : Store R)
      → (length (evict s).jobs ≤ s.max_jobs)
        ⊎ ((j : Job R) → Has j (evict s).jobs → is_terminal j.status ≡ false)
  unfolding evict
  evict_cap s = elim (evict_loop_cap (sort_oldest (terminal_of s)) s) [
    | inl le ↦ inl le
    | inr gone ↦ inr λ j h. elim (Bool-cases (is_terminal j.status)) [
      | inl done ↦ absurd (
          ids_apart j _ (gone j h) (
            Has-sort_oldest j (terminal_of s)
              (Has-filter _ j s.jobs (evict_loop-Has _ s j h) done)))
      | inr f ↦ f
    ]
  ]

  -- In a store with one job per id, an evicted job was created no later than any finished job that
  -- stays.
  pub evict_oldest :
      (s : Store R) (a b : Job R)
      → IsUnique s.jobs
      → Has a s.jobs
      → (Has a (evict s).jobs → ⊥)
      → Has b (evict s).jobs
      → is_terminal b.status ≡ true
      → a.created_at ≤ b.created_at
  unfolding evict
  evict_oldest s a b u ha na hb done =
      evict_loop_oldest s.jobs (sort_oldest (terminal_of s)) s a b u
        (IsSorted-sort_oldest (terminal_of s))
        (λ i m.
          (filter-Has (λ (x : Job R). is_terminal x.status) i s.jobs
            (sort_oldest-Has i (terminal_of s) m)).0)
        (λ i m. m) ha na
        (Has-sort_oldest b (terminal_of s) (Has-filter _ b s.jobs (evict_loop-Has _ s b hb) done))
        hb

  pub evict-Has : (s : Store R) (j : Job R) → Has j (evict s).jobs → Has j s.jobs
  unfolding evict
  evict-Has s j h = evict_loop-Has _ s j h

  IsUnique-evict_loop :
      (ts : List (Job R)) (s : Store R) → IsUnique s.jobs → IsUnique (evict_loop ts s).jobs
  unfolding evict_loop
  IsUnique-evict_loop [] s u = u
  IsUnique-evict_loop (t ∷ ts) s u = elim (Bool-cases (leb (length s.jobs) s.max_jobs)) [
    | inl fits ↦ rw fits u
    | inr over ↦ rw over (IsUnique-evict_loop ts (discard t.id s) (IsUnique-discard t.id s u))
  ]

  pub IsUnique-evict : (s : Store R) → IsUnique s.jobs → IsUnique (evict s).jobs
  unfolding evict
  IsUnique-evict s u = IsUnique-evict_loop _ s u

  pub jobs-enter : (j : Job R) (s : Store R) → (enter j s).jobs ≡ set_job j s.jobs
  unfolding enter fire
  jobs-enter j s = ground (arith, jobs-event_for j.id (record s { jobs = set_job j s.jobs }))

  pub max_jobs-enter : (j : Job R) (s : Store R) → (enter j s).max_jobs ≡ s.max_jobs
  unfolding enter fire event_for
  max_jobs-enter j s = ground arith

  pub IsUnique-put :
      (now : ℕ) (j : Job R) (s : Store R) → IsUnique s.jobs → IsUnique (put now j s).jobs
  unfolding put
  IsUnique-put now j s u =
      IsUnique-evict _ (rw jobs-enter (IsUnique-set_job j _ (IsUnique-purge now s u)))

  -- In a store with one job per id, an unfinished job is neither expired nor evicted by a `put`
  -- under another id: the record of work in flight never vanishes.
  pub Has-put :
      (now : ℕ) (j i : Job R) (s : Store R)
      → IsUnique s.jobs
      → Has i s.jobs
      → is_terminal i.status ≡ false
      → i.id ≢ j.id
      → Has i (put now j s).jobs
  unfolding put
  Has-put now j i s u h n ne =
      Has-evict _ i (rw jobs-enter (IsUnique-set_job j _ (IsUnique-purge now s u)))
        (rw jobs-enter (Has-set_job j i _ (Has-purge now s i u h (unfinished now s i n)) ne)) n
    where
      unfinished :
          (now : ℕ) (s : Store R) (i : Job R)
          → is_terminal i.status ≡ false
          → expired now s i ≡ false
      unfinished now s i n = unfold expired in rw n

  pub Has-put_self :
      (now : ℕ) (j : Job R) (s : Store R)
      → IsUnique s.jobs
      → is_terminal j.status ≡ false
      → Has j (put now j s).jobs
  unfolding put
  Has-put_self now j s u n =
      Has-evict _ j (rw jobs-enter (IsUnique-set_job j _ (IsUnique-purge now s u)))
        (rw jobs-enter (Has-set_job_self j _)) n

  -- Whatever was put, the store ends within its cap or with unfinished jobs only.
  pub put_cap :
      (now : ℕ) (j : Job R) (s : Store R)
      → (length (put now j s).jobs ≤ s.max_jobs)
        ⊎ ((i : Job R) → Has i (put now j s).jobs → is_terminal i.status ≡ false)
  unfolding put
  put_cap now j s = elim (evict_cap (enter j (purge now s))) [
    | inl le ↦ inl (omega (arith, max_jobs-enter j (purge now s), (settings-purge now s).0))
    | inr all ↦ inr all
  ]
