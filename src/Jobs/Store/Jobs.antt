-- ===== src/Jobs/Store/Jobs.antt =====
-- The dictionary of jobs of `InMemoryJobStore`: what each change keeps.
use web_search_api.Prelude.{
  ℕ, false≢true, String, ◌≡◌, ◌≢◌, refl, sym, ap, ◌∙◌, ◌⊎◌, inl, inr, Bool, false, not, some, List,
  [], ◌∷◌, map, arith, filter, str_eq, eq_iff, eq_refl, str_eq_of_ne, ne_of_str_eq, Bool-cases, Has,
  All, Has-filter, filter-Has, All-Has, All-filter,
}
use web_search_api.Jobs.Base.{Job}
use web_search_api.Jobs.Store.{
  Store, find_job, set_job, drop_job, release, discard, discard_all, event_for, expired, purge,
}

module _ {R : Type 0} where
  -- Every job stands once, under its own id.
  abbrev pub IsUnique : List (Job R) → Type 0
  IsUnique [] = Unit
  IsUnique (j ∷ js) = All (λ i. i.id ≢ j.id) js × IsUnique js

  pub IsUnique-filter :
      (p : Job R → Bool) (js : List (Job R)) → IsUnique js → IsUnique (filter p js)
  IsUnique-filter p [] u = tt
  IsUnique-filter p (j ∷ js) u = elim (Bool-cases (p j)) [
    | inl t ↦ rw t (All-filter (λ i. i.id ≢ j.id) p js u.0, IsUnique-filter p js u.1)
    | inr f ↦ rw f (IsUnique-filter p js u.1)
  ]

  All-set_job :
      (P : Job R → Type 0) (j : Job R) (js : List (Job R)) → All P js → P j → All P (set_job j js)
  unfolding set_job
  All-set_job P j [] h p = (p, tt)
  All-set_job P j (i ∷ js) h p = elim (Bool-cases (str_eq i.id j.id)) [
    | inl t ↦ rw t (p, h.1)
    | inr f ↦ rw f (h.0, All-set_job P j js h.1 p)
  ]

  same_id :
      (j : Job R) {a b : String} (js : List (Job R))
      → a ≡ b
      → All (λ i. i.id ≢ a) js
      → All (λ i. i.id ≢ b) js
  same_id j [] e h = tt
  same_id j (i ∷ js) e h = (λ p. h.0 (p ∙ sym e), same_id j js e h.1)

  pub IsUnique-set_job : (j : Job R) (js : List (Job R)) → IsUnique js → IsUnique (set_job j js)
  unfolding set_job
  IsUnique-set_job j [] u = (tt, tt)
  IsUnique-set_job j (i ∷ js) u = elim (Bool-cases (str_eq i.id j.id)) [
    | inl t ↦ rw t (same_id j js ((eq_iff i.id j.id).0 t) u.0, u.1)
    | inr f ↦ rw f (
      All-set_job (λ k. k.id ≢ i.id) j js u.0 (λ p. ne_of_str_eq i.id j.id f (sym p)),
      IsUnique-set_job j js u.1,
    )
  ]

  pub Has-set_job_self : (j : Job R) (js : List (Job R)) → Has j (set_job j js)
  unfolding set_job
  Has-set_job_self j [] = inl refl
  Has-set_job_self j (i ∷ js) = elim (Bool-cases (str_eq i.id j.id)) [
    | inl t ↦ rw t (inl refl)
    | inr f ↦ rw f (inr (Has-set_job_self j js))
  ]

  pub Has-set_job :
      (j i : Job R) (js : List (Job R)) → Has i js → i.id ≢ j.id → Has i (set_job j js)
  unfolding set_job
  Has-set_job j i [] h n = elim h [ ]
  Has-set_job j i (k ∷ js) h n = elim (Bool-cases (str_eq k.id j.id)) [
    | inl t ↦ rw t (elim h [
      | inl q ↦ absurd (n (ap (λ (x : Job R). x.id) (sym q) ∙ (eq_iff k.id j.id).0 t))
      | inr m ↦ inr m
    ])
    | inr f ↦ rw f (elim h [ inl q ↦ inl q | inr m ↦ inr (Has-set_job j i js m n) ])
  ]

  pub set_job-Has : (j i : Job R) (js : List (Job R)) → Has i (set_job j js) → (j ≡ i) ⊎ Has i js
  unfolding set_job
  set_job-Has j i [] h = elim h [ inl q ↦ inl q | inr m ↦ elim m [ ] ]
  set_job-Has j i (k ∷ js) h = elim (Bool-cases (str_eq k.id j.id)) [
    | inl t ↦ elim (rw t at h) [ inl q ↦ inl q | inr m ↦ inr (inr m) ]
    | inr f ↦ elim (rw f at h) [
      | inl q ↦ inr (inl q)
      | inr m ↦ elim (set_job-Has j i js m) [ inl q ↦ inl q | inr n ↦ inr (inr n) ]
    ]
  ]

  pub find_job-Has :
      (k : String) (js : List (Job R)) (j : Job R) → find_job k js ≡ some j → Has j js × (j.id ≡ k)
  unfolding find_job
  find_job-Has k [] j h = cc
  find_job-Has k (i ∷ js) j h = elim (Bool-cases (str_eq i.id k)) [
    | inl t ↦
        let q : i ≡ j = ground arith in
        (inl q, ap (λ (x : Job R). x.id) (sym q) ∙ (eq_iff i.id k).0 t)
    | inr f ↦ let (m, e) = find_job-Has k js j (ground arith) in (inr m, e)
  ]

  pub Has-find_job :
      (js : List (Job R)) (j : Job R) → IsUnique js → Has j js → find_job j.id js ≡ some j
  unfolding find_job
  Has-find_job [] j u h = elim h [ ]
  Has-find_job (i ∷ js) j u (inl q) = rw (q, eq_refl)
  Has-find_job (i ∷ js) j u (inr m) =
      rw (str_eq_of_ne i.id j.id (λ p. All-Has (λ k. k.id ≢ i.id) js u.0 m (sym p)))
        (Has-find_job js j u.1 m)

  -- Two jobs of one id are one job.
  pub job_of_id :
      (js : List (Job R)) (i j : Job R) → IsUnique js → Has i js → Has j js → i.id ≡ j.id → i ≡ j
  job_of_id js i j u hi hj e =
      some_inj (sym (Has-find_job js i u hi) ∙ ap (λ k. find_job k js) e ∙ Has-find_job js j u hj)
    where
      some_inj : {a b : Job R} → some a ≡ some b → a ≡ b
      some_inj h = cc

module _ {R : Type 0} where
  pub jobs-release : (k : String) (s : Store R) → (release k s).jobs ≡ s.jobs
  unfolding release
  jobs-release k s = ground arith

  pub jobs-discard : (k : String) (s : Store R) → (discard k s).jobs ≡ drop_job k s.jobs
  unfolding discard
  jobs-discard k s = jobs-release k _

  -- The settings of the store stay.
  pub settings-discard :
      (k : String) (s : Store R)
      → ((discard k s).max_jobs ≡ s.max_jobs) × ((discard k s).retention ≡ s.retention)
  unfolding discard release
  settings-discard k s = ground arith

  pub jobs-event_for : (k : String) (s : Store R) → (event_for k s).0.jobs ≡ s.jobs
  unfolding event_for
  jobs-event_for k s = ground arith

  pub Has-drop_job :
      (k : String) (j : Job R) (js : List (Job R)) → Has j js → j.id ≢ k → Has j (drop_job k js)
  unfolding drop_job
  Has-drop_job k j js h n = Has-filter _ j js h (rw (str_eq_of_ne j.id k n))

  pub drop_job-Has :
      (k : String) (j : Job R) (js : List (Job R)) → Has j (drop_job k js) → Has j js × (j.id ≢ k)
  unfolding drop_job
  drop_job-Has k j js h =
      let (m, e) = filter-Has (λ (i : Job R). not (str_eq i.id k)) j js h in
      (m, ne_of_str_eq j.id k (ground arith))

  pub Has-discard_all :
      (ks : List String) (j : Job R) (s : Store R)
      → Has j s.jobs
      → All (λ k. j.id ≢ k) ks
      → Has j (discard_all ks s).jobs
  unfolding discard_all
  Has-discard_all [] j s h n = h
  Has-discard_all (k ∷ ks) j s h n =
      Has-discard_all ks j (discard k s) (rw jobs-discard (Has-drop_job k j s.jobs h n.0)) n.1

  pub discard_all-Has :
      (ks : List String) (j : Job R) (s : Store R)
      → Has j (discard_all ks s).jobs
      → Has j s.jobs × All (λ k. j.id ≢ k) ks
  unfolding discard_all
  discard_all-Has [] j s h = (h, tt)
  discard_all-Has (k ∷ ks) j s h =
      let (m, ns) = discard_all-Has ks j (discard k s) h in
      let (o, n) = drop_job-Has k j s.jobs (rw jobs-discard at m) in (o, (n, ns))

  pub IsUnique-discard : (k : String) (s : Store R) → IsUnique s.jobs → IsUnique (discard k s).jobs
  unfolding drop_job
  IsUnique-discard k s u = rw jobs-discard (IsUnique-filter _ s.jobs u)

  pub IsUnique-discard_all :
      (ks : List String) (s : Store R) → IsUnique s.jobs → IsUnique (discard_all ks s).jobs
  unfolding discard_all
  IsUnique-discard_all [] s u = u
  IsUnique-discard_all (k ∷ ks) s u = IsUnique-discard_all ks (discard k s) (IsUnique-discard k s u)

  pub settings-discard_all :
      (ks : List String) (s : Store R)
      → ((discard_all ks s).max_jobs ≡ s.max_jobs) × ((discard_all ks s).retention ≡ s.retention)
  unfolding discard_all
  settings-discard_all [] s = (refl, refl)
  settings-discard_all (k ∷ ks) s =
      ground (arith, settings-discard_all ks (discard k s), settings-discard k s)

  -- An id of the list `map id js` is that of a job in it.
  All-ids :
      (a : String) (js : List (Job R))
      → ((i : Job R) → Has i js → a ≢ i.id)
      → All (λ k. a ≢ k) (map (λ j. j.id) js)
  All-ids a [] f = tt
  All-ids a (j ∷ js) f = (f j (inl refl), All-ids a js (λ i m. f i (inr m)))

  ids-Has :
      (j : Job R) (js : List (Job R)) → All (λ k. j.id ≢ k) (map (λ i. i.id) js) → Has j js → ⊥
  ids-Has j [] h m = elim m [ ]
  ids-Has j (i ∷ js) h (inl q) = h.0 (ap (λ (x : Job R). x.id) (sym q))
  ids-Has j (i ∷ js) h (inr m) = ids-Has j js h.1 m

  -- A purge keeps every job that has not expired, and no other.
  pub Has-purge :
      (now : ℕ) (s : Store R) (j : Job R)
      → IsUnique s.jobs
      → Has j s.jobs
      → expired now s j ≡ false
      → Has j (purge now s).jobs
  unfolding purge
  Has-purge now s j u h e = Has-discard_all _ j s h (
      All-ids j.id (filter (expired now s) s.jobs) λ i m p.
        let (mi, ei) = filter-Has (expired now s) i s.jobs m in
        let q : j ≡ i = job_of_id s.jobs j i u h mi p in
        false≢true (sym e ∙ ap (expired now s) q ∙ ei))

  pub purge-Has :
      (now : ℕ) (s : Store R) (j : Job R)
      → Has j (purge now s).jobs
      → Has j s.jobs × (expired now s j ≡ false)
  unfolding purge
  purge-Has now s j h =
      let (m, ns) = discard_all-Has _ j s h in
      elim (Bool-cases (expired now s j)) [
        | inl t ↦ absurd (ids-Has j _ ns (Has-filter (expired now s) j s.jobs m t))
        | inr f ↦ (m, f)
      ]

  pub IsUnique-purge : (now : ℕ) (s : Store R) → IsUnique s.jobs → IsUnique (purge now s).jobs
  unfolding purge
  IsUnique-purge now s u = IsUnique-discard_all _ s u

  pub settings-purge :
      (now : ℕ) (s : Store R)
      → ((purge now s).max_jobs ≡ s.max_jobs) × ((purge now s).retention ≡ s.retention)
  unfolding purge
  settings-purge now s = settings-discard_all _ s
