-- ===== src/Jobs/Runner/Saving.antt =====
-- What `save` does to the store and to the tasks of a `JobRunner`.
use web_search_api.Prelude.{
  ℕ, String, ◌≡◌, ◌≢◌, refl, sym, ap, ◌∙◌, ◌⊎◌, inl, inr, false, List, [], ◌∷◌, map, arith, All,
  Has, Has-map, map-Has, Bool-cases, str_eq, eq_iff, eq_refl, str_eq_of_ne, ne_of_str_eq,
}
use web_search_api.Jobs.Base.{Job, is_terminal}
use web_search_api.Jobs.Store.{Store, put, purge, set_job}
use web_search_api.Jobs.Store.Jobs.{
  IsUnique, IsUnique-set_job, IsUnique-purge, Has-set_job_self, set_job-Has, job_of_id, purge-Has,
}
use web_search_api.Jobs.Store.Capacity.{evict-Has, jobs-enter, IsUnique-put, Has-put, Has-put_self}
use web_search_api.Jobs.Runner.{
  Task, Runner, Phase, aliased, write_task, write_store, save, move_task,
}

module _ {R : Type 0} where
  pub aliased_same : (j i : Job R) → i.id ≡ j.id → aliased j i ≡ j
  unfolding aliased
  aliased_same j i e = rw (e, eq_refl) refl

  pub aliased_other : (j i : Job R) → i.id ≢ j.id → aliased j i ≡ i
  unfolding aliased
  aliased_other j i n = rw (str_eq_of_ne i.id j.id n) refl

  pub id-aliased : (j i : Job R) → (aliased j i).id ≡ i.id
  unfolding aliased
  id-aliased j i = elim (Bool-cases (str_eq i.id j.id)) [
    | inl t ↦ rw t (sym ((eq_iff i.id j.id).0 t))
    | inr f ↦ rw f refl
  ]

  -- The job that is put, or one that was there under another id.
  pub put-Has :
      (now : ℕ) (j i : Job R) (s : Store R)
      → IsUnique s.jobs
      → Has i (put now j s).jobs
      → (j ≡ i) ⊎ (Has i s.jobs × (i.id ≢ j.id))
  unfolding put
  put-Has now j i s u h =
      let js : List (Job R) = (purge now s).jobs in
      let m : Has i (set_job j js) = rw (← jobs-enter j (purge now s)) (evict-Has _ i h) in
      elim (set_job-Has j i js m) [
        | inl q ↦ inl q
        | inr k ↦ elim (Bool-cases (str_eq i.id j.id)) [
          | inl t ↦ inl (
              sym (
                job_of_id (set_job j js) i j (IsUnique-set_job j js (IsUnique-purge now s u)) m
                  (Has-set_job_self j js) ((eq_iff i.id j.id).0 t)))
          | inr f ↦ inr ((purge-Has now s i k).0, ne_of_str_eq i.id j.id f)
        ]
      ]

  All-aliased :
      (j : Job R) (k : String) (js : List (Job R))
      → All (λ i. i.id ≢ k) js
      → All (λ i. i.id ≢ k) (map (aliased j) js)
  All-aliased j k [] a = tt
  All-aliased j k (i ∷ js) a = (λ e. a.0 (sym (id-aliased j i) ∙ e), All-aliased j k js a.1)

  IsUnique-aliased : (j : Job R) (js : List (Job R)) → IsUnique js → IsUnique (map (aliased j) js)
  IsUnique-aliased j [] u = tt
  IsUnique-aliased j (i ∷ js) u =
      (rw (id-aliased j i) (All-aliased j i.id js u.0), IsUnique-aliased j js u.1)

  IsUnique-write_store :
      (j : Job R) (s : Store R) → IsUnique s.jobs → IsUnique (write_store j s).jobs
  unfolding write_store
  IsUnique-write_store j s u = IsUnique-aliased j s.jobs u

  pub IsUnique-save :
      (now : ℕ) (j : Job R) (r : Runner R)
      → IsUnique r.store.jobs
      → IsUnique (save now j r).store.jobs
  unfolding save
  IsUnique-save now j r u = IsUnique-put now j _ (IsUnique-write_store j r.store u)

  pub save-Has :
      (now : ℕ) (j i : Job R) (r : Runner R)
      → IsUnique r.store.jobs
      → Has i (save now j r).store.jobs
      → (j ≡ i) ⊎ (Has i r.store.jobs × (i.id ≢ j.id))
  unfolding save write_store
  save-Has now j i r u h =
      elim (put-Has now j i (write_store j r.store) (IsUnique-aliased j r.store.jobs u) h) [
        | inl q ↦ inl q
        | inr (m, n) ↦
            let (v, hv, q) = map-Has (aliased j) i r.store.jobs m in
            let other : v.id ≢ j.id =
              λ e. n (ap (λ (x : Job R). x.id) (sym q) ∙ id-aliased j v ∙ e) in
            let same : v ≡ i = sym (aliased_other j v other) ∙ q in inr (rw (← same) hv, n)
      ]

  pub Has-save :
      (now : ℕ) (j i : Job R) (r : Runner R)
      → IsUnique r.store.jobs
      → Has i r.store.jobs
      → is_terminal i.status ≡ false
      → i.id ≢ j.id
      → Has i (save now j r).store.jobs
  unfolding save write_store
  Has-save now j i r u h open_job n =
      Has-put now j i (write_store j r.store) (IsUnique-aliased j r.store.jobs u)
        (rw (← aliased_other j i n) (Has-map (aliased j) i r.store.jobs h)) open_job n

  pub Has-save_self :
      (now : ℕ) (j : Job R) (r : Runner R)
      → IsUnique r.store.jobs
      → is_terminal j.status ≡ false
      → Has j (save now j r).store.jobs
  unfolding save write_store
  Has-save_self now j r u open_job =
      Has-put_self now j (write_store j r.store) (IsUnique-aliased j r.store.jobs u) open_job

  -- A task after its job is written and the phase of the task under that id is set.
  abbrev pub step_task : Job R → Phase → Task R → Task R
  step_task j p t = move_task j.id p (write_task j t)

  pub step_task_same :
      (j : Job R) (p : Phase) (t : Task R)
      → t.job.id ≡ j.id
      → step_task j p t ≡ record t { job = j; phase = p }
  unfolding move_task write_task
  step_task_same j p t e = rw (aliased_same j t.job e, eq_refl) refl

  pub step_task_other : (j : Job R) (p : Phase) (t : Task R) → t.job.id ≢ j.id → step_task j p t ≡ t
  unfolding move_task write_task
  step_task_other j p t n = rw (aliased_other j t.job n, str_eq_of_ne t.job.id j.id n) refl

  pub id-write_task : (j : Job R) (t : Task R) → (write_task j t).job.id ≡ t.job.id
  unfolding write_task
  id-write_task j t = id-aliased j t.job

  pub id-move_task : (k : String) (p : Phase) (t : Task R) → (move_task k p t).job.id ≡ t.job.id
  unfolding move_task
  id-move_task k p t = ground arith

  pub phase-write_task : (j : Job R) (t : Task R) → (write_task j t).phase ≡ t.phase
  unfolding write_task
  phase-write_task j t = refl

  pub write_task_other : (j : Job R) (t : Task R) → t.job.id ≢ j.id → write_task j t ≡ t
  unfolding write_task
  write_task_other j t n = rw (aliased_other j t.job n) refl
