-- ===== src/Jobs/Store/Eviction.antt =====
-- The loop of `_evict_locked` over the sorted jobs.
use web_search_api.Prelude.{
  ℕ, ◌≤◌, ◌≡◌, ◌≢◌, refl, sym, ap, ◌⊎◌, inl, inr, List, [], ◌∷◌, arith, length, leb, leb→le, str_eq,
  eq_iff, ne_of_str_eq, Bool-cases, Has, All, All-Has,
}
use web_search_api.Jobs.Base.{Job}
use web_search_api.Jobs.Store.{Store, discard, insert_oldest, sort_oldest, evict_loop}
use web_search_api.Jobs.Store.Jobs.{
  IsUnique, Has-drop_job, drop_job-Has, job_of_id, jobs-discard, settings-discard,
}

module _ {R : Type 0} where
  -- Oldest first.
  abbrev IsSorted : List (Job R) → Type 0
  IsSorted [] = Unit
  IsSorted (j ∷ js) = All (λ i. j.created_at ≤ i.created_at) js × IsSorted js

  Has-insert_oldest :
      (j i : Job R) (js : List (Job R)) → (j ≡ i) ⊎ Has i js → Has i (insert_oldest j js)
  unfolding insert_oldest
  Has-insert_oldest j i [] h = h
  Has-insert_oldest j i (k ∷ js) h = elim (Bool-cases (leb j.created_at k.created_at)) [
    | inl t ↦ rw t h
    | inr f ↦ rw f (elim h [
      | inl q ↦ inr (Has-insert_oldest j i js (inl q))
      | inr m ↦ elim m [ inl q ↦ inl q | inr n ↦ inr (Has-insert_oldest j i js (inr n)) ]
    ])
  ]

  insert_oldest-Has :
      (j i : Job R) (js : List (Job R)) → Has i (insert_oldest j js) → (j ≡ i) ⊎ Has i js
  unfolding insert_oldest
  insert_oldest-Has j i [] h = h
  insert_oldest-Has j i (k ∷ js) h = elim (Bool-cases (leb j.created_at k.created_at)) [
    | inl t ↦ rw t at h
    | inr f ↦ elim (rw f at h) [
      | inl q ↦ inr (inl q)
      | inr m ↦ elim (insert_oldest-Has j i js m) [ inl q ↦ inl q | inr n ↦ inr (inr n) ]
    ]
  ]

  pub Has-sort_oldest : (i : Job R) (js : List (Job R)) → Has i js → Has i (sort_oldest js)
  unfolding sort_oldest
  Has-sort_oldest i [] h = h
  Has-sort_oldest i (j ∷ js) (inl q) = Has-insert_oldest j i (sort_oldest js) (inl q)
  Has-sort_oldest i (j ∷ js) (inr m) =
      Has-insert_oldest j i (sort_oldest js) (inr (Has-sort_oldest i js m))

  pub sort_oldest-Has : (i : Job R) (js : List (Job R)) → Has i (sort_oldest js) → Has i js
  unfolding sort_oldest
  sort_oldest-Has i [] h = h
  sort_oldest-Has i (j ∷ js) h = elim (insert_oldest-Has j i (sort_oldest js) h) [
    | inl q ↦ inl q
    | inr m ↦ inr (sort_oldest-Has i js m)
  ]

  All-insert_oldest :
      (n : ℕ) (j : Job R) (js : List (Job R))
      → n ≤ j.created_at
      → All (λ i. n ≤ i.created_at) js
      → All (λ i. n ≤ i.created_at) (insert_oldest j js)
  unfolding insert_oldest
  All-insert_oldest n j [] p h = (p, tt)
  All-insert_oldest n j (k ∷ js) p h = elim (Bool-cases (leb j.created_at k.created_at)) [
    | inl t ↦ rw t (p, h)
    | inr f ↦ rw f (h.0, All-insert_oldest n j js p h.1)
  ]

  All-le :
      (m n : ℕ) (js : List (Job R))
      → m ≤ n
      → All (λ i. n ≤ i.created_at) js
      → All (λ i. m ≤ i.created_at) js
  All-le m n [] p h = tt
  All-le m n (k ∷ js) p h = (omega arith, All-le m n js p h.1)

  IsSorted-insert_oldest :
      (j : Job R) (js : List (Job R)) → IsSorted js → IsSorted (insert_oldest j js)
  unfolding insert_oldest
  IsSorted-insert_oldest j [] h = (tt, tt)
  IsSorted-insert_oldest j (k ∷ js) h = elim (Bool-cases (leb j.created_at k.created_at)) [
    | inl t ↦ rw t (
        let p : j.created_at ≤ k.created_at = leb→le _ _ t in
        ((p, All-le j.created_at k.created_at js p h.0), h))
    | inr f ↦
        rw f
          (All-insert_oldest k.created_at j js (ground arith) h.0, IsSorted-insert_oldest j js h.1)
  ]

  pub IsSorted-sort_oldest : (js : List (Job R)) → IsSorted (sort_oldest js)
  unfolding sort_oldest
  IsSorted-sort_oldest [] = tt
  IsSorted-sort_oldest (j ∷ js) =
      IsSorted-insert_oldest j (sort_oldest js) (IsSorted-sort_oldest js)

  pub evict_loop-Has :
      (ts : List (Job R)) (s : Store R) (j : Job R) → Has j (evict_loop ts s).jobs → Has j s.jobs
  unfolding evict_loop
  evict_loop-Has [] s j h = h
  evict_loop-Has (t ∷ ts) s j h = elim (Bool-cases (leb (length s.jobs) s.max_jobs)) [
    | inl fits ↦ rw fits at h
    | inr over ↦
        (drop_job-Has t.id j s.jobs
          (rw jobs-discard at (evict_loop-Has ts (discard t.id s) j (rw over at h)))).0
  ]

  -- A job that is not listed stays.
  pub Has-evict_loop :
      (ts : List (Job R)) (s : Store R) (j : Job R)
      → Has j s.jobs
      → All (λ t. j.id ≢ t.id) ts
      → Has j (evict_loop ts s).jobs
  unfolding evict_loop
  Has-evict_loop [] s j h n = h
  Has-evict_loop (t ∷ ts) s j h n = elim (Bool-cases (leb (length s.jobs) s.max_jobs)) [
    | inl fits ↦ rw fits h
    | inr over ↦ rw over (
        Has-evict_loop ts (discard t.id s) j (rw jobs-discard (Has-drop_job t.id j s.jobs h n.0))
          n.1)
  ]

  -- The loop ends at the cap, or has dropped every listed job.
  pub evict_loop_cap :
      (ts : List (Job R)) (s : Store R)
      → (length (evict_loop ts s).jobs ≤ s.max_jobs)
        ⊎ ((j : Job R) → Has j (evict_loop ts s).jobs → All (λ t. j.id ≢ t.id) ts)
  unfolding evict_loop
  evict_loop_cap [] s = inr (λ j h. tt)
  evict_loop_cap (t ∷ ts) s = elim (Bool-cases (leb (length s.jobs) s.max_jobs)) [
    | inl fits ↦ rw fits (inl (leb→le _ _ fits))
    | inr over ↦ rw over (elim (evict_loop_cap ts (discard t.id s)) [
      | inl le ↦ inl (omega (arith, (settings-discard t.id s).0))
      | inr gone ↦ inr λ j h. (
        (drop_job-Has t.id j s.jobs
            (rw jobs-discard at (evict_loop-Has ts (discard t.id s) j h))).1,
        gone j h,
      )
    ])
  ]

  -- What the loop drops is not newer than a listed job that it keeps. `js` is the dictionary that
  -- the loop began with.
  pub evict_loop_oldest :
      (js ts : List (Job R)) (s : Store R) (a b : Job R)
      → IsUnique js
      → IsSorted ts
      → ((i : Job R) → Has i ts → Has i js)
      → ((i : Job R) → Has i s.jobs → Has i js)
      → Has a s.jobs
      → (Has a (evict_loop ts s).jobs → ⊥)
      → Has b ts
      → Has b (evict_loop ts s).jobs
      → a.created_at ≤ b.created_at
  unfolding evict_loop
  evict_loop_oldest js [] s a b u o tin sin ha na hb kb = elim hb [ ]
  evict_loop_oldest js (t ∷ ts) s a b u o tin sin ha na hb kb =
      elim (Bool-cases (leb (length s.jobs) s.max_jobs)) [
        | inl fits ↦ absurd (na (rw fits ha))
        | inr over ↦
            let kb' : Has b (evict_loop ts (discard t.id s)).jobs = rw over at kb in
            let kept =
              drop_job-Has t.id b s.jobs
                (rw jobs-discard at (evict_loop-Has ts (discard t.id s) b kb')) in
            let hb' : Has b ts = elim hb [
              | inl q ↦ absurd (kept.1 (ap (λ (x : Job R). x.id) (sym q)))
              | inr m ↦ m
            ] in
            elim (Bool-cases (str_eq a.id t.id)) [
              | inl same ↦
                  let q : a ≡ t =
                    job_of_id js a t u (sin a ha) (tin t (inl refl)) ((eq_iff a.id t.id).0 same) in
                  rw q (All-Has (λ i. t.created_at ≤ i.created_at) ts o.0 hb')
              | inr other ↦
                  evict_loop_oldest js ts (discard t.id s) a b u o.1 (λ i m. tin i (inr m))
                    (λ i m. sin i (drop_job-Has t.id i s.jobs (rw jobs-discard at m)).0)
                    (rw jobs-discard (Has-drop_job t.id a s.jobs ha (ne_of_str_eq a.id t.id other)))
                    (λ m. na (rw over m)) hb' kb'
            ]
      ]
