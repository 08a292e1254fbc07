-- ===== src/Jobs/Runner/Stops.antt =====
-- How many jobs of a `JobRunner` run at once, and how they stop.
use web_search_api.Prelude.{
  ℕ, ◌+◌, ◌≤◌, String, ◌≡◌, ◌≢◌, refl, sym, ap, ◌∙◌, inl, inr, Bool, true, not, none, some, List,
  [], ◌∷◌, map, filter, length, arith, All, All-Has, Has, Has-filter, map-Has, Bool-cases,
  Option-cases, str_eq, eq_refl, str_eq_of_ne,
}
use web_search_api.Core.Errors.{DomainError, make_error, not_found_error}
use web_search_api.Core.Result.{Result, ok, err}
use web_search_api.Jobs.Base.{
  Job, JobStatus, queued, running, succeeded, failed, cancelled, is_terminal, same_status,
}
use web_search_api.Jobs.Store.{purge, find_job}
use web_search_api.Jobs.Store.Jobs.{IsUnique, find_job-Has, job_of_id}
use web_search_api.Jobs.Runner.{
  Task, Runner, waiting, working, ended, withdraw, finish, settle, save, write_task, flag_task,
  cancel, unknown_job,
}
use web_search_api.Jobs.Runner.Flags.{
  cancelling-flag, flag_task_same, id-flag_task, cancelling-write_task, cancel_absent,
  cancel_settled, cancel_open,
}
use web_search_api.Jobs.Runner.Slots.{busy, slot, IsDistinct, IsDistinct-filter, busy-reap}
use web_search_api.Jobs.Runner.Saving.{save-Has, phase-write_task, id-write_task}
use web_search_api.Jobs.Runner.Steps.{Reaches}
use web_search_api.Jobs.Runner.Sound.{IsSound, IsSound-purge, status_of}
use web_search_api.Jobs.Runner.Runs.{IsSound-Reaches}

runs : (s : JobStatus) → same_status s running ≡ true → s ≡ running
runs queued h = cc
runs running h = refl
runs succeeded h = cc
runs failed h = cc
runs cancelled h = cc

module _ {R : Type 0} where
  busy-others :
      (k : String) (ts : List (Task R))
      → All (λ u. u.job.id ≢ k) ts
      → busy (filter (λ u. not (str_eq u.job.id k)) ts) ≡ busy ts
  busy-others k ts a = busy-reap k ts (λ u h e. absurd (All-Has _ ts a h e))

  busy-remove :
      (t : Task R) (ts : List (Task R))
      → IsDistinct ts
      → Has t ts
      → busy (filter (λ u. not (str_eq u.job.id t.job.id)) ts) + slot t.phase ≡ busy ts
  unfolding busy
  busy-remove t [] d h = elim h [ ]
  busy-remove t (u ∷ ts) d (inl q) =
      let rest = busy-others t.job.id ts (rw (← q) d.0) in rw (q, eq_refl) (omega (arith, rest))
  busy-remove t (u ∷ ts) d (inr m) =
      let rest = busy-remove t ts d.1 m in
      rw (str_eq_of_ne u.job.id t.job.id (λ e. All-Has _ ts d.0 m (sym e))) (omega (arith, rest))

  abbrev pub is_running : Job R → Bool
  is_running j = same_status j.status running

  -- Each running job has a slot of its own.
  count_running :
      (js : List (Job R)) (ts : List (Task R))
      → IsUnique js
      → IsDistinct ts
      → ((j : Job R)
          → Has j js
          → j.status ≡ running
          → (t : Task R) × Has t ts × (t.phase ≡ working) × (t.job.id ≡ j.id))
      → length (filter is_running js) ≤ busy ts
  count_running [] ts u d held = omega arith
  count_running (j ∷ js) ts u d held = elim (Bool-cases (is_running j)) [
    | inl r ↦
        let (t, h, w, e) = held j (inl refl) (runs j.status r) in
        let keep : Task R → Bool = λ v. not (str_eq v.job.id t.job.id) in
        let fewer = busy-remove t ts d h in
        let fewer' = rw w at fewer in
        let rest = count_running js (filter keep ts) u.1 (IsDistinct-filter keep ts d) (λ i m run.
          let (v, hv, wv, ev) = held i (inr m) run in
          let n : v.job.id ≢ t.job.id = λ x. All-Has _ js u.0 m (sym ev ∙ x ∙ e) in
          (v, Has-filter keep v ts hv (rw (str_eq_of_ne v.job.id t.job.id n) refl), wv, ev)) in
        rw r (omega arith)
    | inr f ↦ rw f (count_running js ts u.1 d (λ i m. held i (inr m)))
  ]

  -- Whatever happens to a runner, its store never holds more than `max_concurrent` running jobs.
  pub running_bounded :
      (retention max_jobs max_concurrent : ℕ) (r : Runner R)
      → Reaches retention max_jobs max_concurrent r
      → length (filter is_running r.store.jobs) ≤ max_concurrent
  running_bounded retention max_jobs max_concurrent r run =
      let s = IsSound-Reaches max_concurrent retention max_jobs r run in
      omega (arith, count_running r.store.jobs r.tasks s.unique s.distinct s.held, s.slots)

  busy-ended : (ts : List (Task R)) → All (λ t. t.phase ≡ ended) ts → busy ts ≡ 0
  unfolding busy
  busy-ended [] a = refl
  busy-ended (t ∷ ts) a = rw (a.0, busy-ended ts a.1) refl

  -- Whatever happened to a runner, once every task has ended, all slots are free and no job in the
  -- store is running.
  pub ended_quiet :
      (retention max_jobs max_concurrent : ℕ) (r : Runner R)
      → Reaches retention max_jobs max_concurrent r
      → All (λ t. t.phase ≡ ended) r.tasks
      → (r.free ≡ max_concurrent) × ((j : Job R) → Has j r.store.jobs → j.status ≢ running)
  ended_quiet retention max_jobs max_concurrent r run over =
      let s = IsSound-Reaches max_concurrent retention max_jobs r run in
      (
        omega (arith, s.slots, busy-ended r.tasks over),
        λ j m q.
            let (t, h, w, e) = s.held j m q in
            let o : t.phase ≡ ended = All-Has (λ (x : Task R). x.phase ≡ ended) r.tasks over h in
            cc,
      )

  -- What a cancel that returns the job `j` leaves behind.
  pub record IsStopped (k : String) (j : Job R) (r : Runner R) : Type 0 where
    pub named : j.id ≡ k
    pub over : is_terminal j.status ≡ true
    pub stored : (i : Job R) → Has i r.store.jobs → i.id ≡ k → i ≡ j
    -- A task that has not begun is being cancelled.
    pub barred :
        (t : Task R) → Has t r.tasks → t.job.id ≡ k → t.phase ≡ waiting → t.cancelling ≡ true

  abbrev stopped_job : ℕ → Job R → Job R
  stopped_job finished j = settle finished cancelled none none j

  withdraw-IsStopped :
      (max_concurrent finished now : ℕ) (k : String) (j : Job R) (r : Runner R)
      → j.id ≡ k
      → IsSound max_concurrent r
      → IsStopped k (stopped_job finished j) (withdraw finished now k j r)
  unfolding withdraw finish settle save
  withdraw-IsStopped max_concurrent finished now k j r e s =
      let j' : Job R = settle finished cancelled none none j in
      let r' : Runner R = record r { tasks = map (flag_task k) r.tasks } in
      record {
        named = e;
        over = refl;
        stored = λ i m q. elim (save-Has now j' i r' s.unique m) [
          | inl same ↦ sym same
          | inr (_, n) ↦ absurd (n (q ∙ sym e))
        ];
        barred = λ t h q w.
            let (u, hu, p) = map-Has (write_task j') t (map (flag_task k) r.tasks) h in
            let (v, hv, p') = map-Has (flag_task k) u r.tasks hu in
            let named : v.job.id ≡ k =
              sym (id-flag_task k v)
              ∙ ap (λ (x : Task R). x.job.id) p'
              ∙ sym (id-write_task j' u)
              ∙ ap (λ (x : Task R). x.job.id) p
              ∙ q in
            let phase : (flag_task k v).phase ≡ waiting =
              ap (λ (x : Task R). x.phase) p'
              ∙ sym (phase-write_task j' u)
              ∙ ap (λ (x : Task R). x.phase) p
              ∙ w in
            let on = cancelling-flag v (λ x.
              let y : (flag_task k v).phase ≡ ended =
                ap (λ (z : Task R). z.phase) (flag_task_same k v named) ∙ x in
              cc) in
            ap (λ (x : Task R). x.cancelling) (sym p)
            ∙ cancelling-write_task j' u
            ∙ ap (λ (x : Task R). x.cancelling) (sym p' ∙ flag_task_same k v named)
            ∙ on;
      }

  settled-IsStopped :
      (max_concurrent : ℕ) (k : String) (j : Job R) (r : Runner R)
      → find_job k r.store.jobs ≡ some j
      → is_terminal j.status ≡ true
      → IsSound max_concurrent r
      → IsStopped k j r
  settled-IsStopped max_concurrent k j r found over s =
      let (m, e) = find_job-Has k r.store.jobs j found in
      record {
        named = e;
        over = over;
        stored = λ i h q. job_of_id r.store.jobs i j s.unique h m (q ∙ sym e);
        barred = λ t h q w. elim (Bool-cases t.cancelling) [
          | inl on ↦ on
          | inr off ↦
              let (hs, st) = s.kept t h (λ x. (let y : waiting ≡ ended = sym w ∙ x in cc)) off in
              let same = job_of_id r.store.jobs t.job j s.unique hs m (q ∙ sym e) in
              let status : j.status ≡ queued =
                ap (λ (x : Job R). x.status) (sym same) ∙ st ∙ ap status_of w in
              absurd (let no = rw status at over in cc)
        ];
      }

  -- Of a runner that a new one can become: a cancel that returns a job returns the job of that id
  -- in a terminal state, the store holds no other version of it, and its task is being cancelled
  -- if it has not begun; a cancel that fails does so because the store has no such job.
  pub cancel-IsStopped :
      (retention max_jobs max_concurrent looked finished now : ℕ) (k : String) (r : Runner R)
      → Reaches retention max_jobs max_concurrent r
      → ((j : Job R)
          → (cancel looked finished now k r).1 ≡ ok j
          → IsStopped k j (cancel looked finished now k r).0)
        × ((e : DomainError)
            → (cancel looked finished now k r).1 ≡ err e
            → (e.kind ≡ not_found_error)
              × (find_job k (cancel looked finished now k r).0.store.jobs ≡ none))
  unfolding unknown_job make_error
  cancel-IsStopped retention max_jobs max_concurrent looked finished now k r run =
      let s = IsSound-Reaches max_concurrent retention max_jobs r run in
      let r' : Runner R = record r { store = purge looked r.store } in
      let seen : IsSound max_concurrent r' =
        IsSound-purge max_concurrent looked (purge looked r.store) r refl s in
      elim (Option-cases (find_job k r'.store.jobs)) [
        | inl n ↦
            rw (cancel_absent looked finished now k r n)
              (λ j q. cc, λ e q. (ap (λ (x : DomainError). x.kind) (sym (err_inj _ _ q)), n))
        | inr (j, found) ↦ elim (Bool-cases (is_terminal j.status)) [
          | inl t ↦ rw (cancel_settled looked finished now k r j found t) (
            λ i q. rw (← ok_inj _ _ q) (settled-IsStopped max_concurrent k j r' found t seen),
            λ e q. cc,
          )
          | inr f ↦ rw (cancel_open looked finished now k r j found f) (
            λ i q. rw (← ok_inj _ _ q) (
                withdraw-IsStopped max_concurrent finished now k j r'
                  (find_job-Has k r'.store.jobs j found).1 seen),
            λ e q. cc,
          )
        ]
      ]
    where
      ok_inj : (a b : Job R) → ok a ≡ ok b → a ≡ b
      ok_inj a b q = cc

      err_inj : (d e : DomainError) → ◌≡◌ {A = Result (Job R)} (err d) (err e) → d ≡ e
      err_inj d e q = cc
