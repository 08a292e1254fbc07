-- ===== src/Jobs/Runner/Runs.antt =====
-- Every run of a `JobRunner`, step by step.
use web_search_api.Prelude.{
  ℕ, String, ◌≡◌, ◌≢◌, refl, sym, ap, ◌∙◌, ◌⊎◌, inl, inr, true, none, List, map, arith, Has-map,
  map-Has, Bool-cases, Option-cases, str_eq, eq_iff, ne_of_str_eq, leb, ◌||◌,
}
use web_search_api.Jobs.Base.{Job, cancelled, is_terminal}
use web_search_api.Jobs.Store.{Store, init as init_store, purge, get, list, find_job, start_wait}
use web_search_api.Jobs.Store.Jobs.{find_job-Has, jobs-event_for}
use web_search_api.Jobs.Runner.{
  Task, Runner, ended, init, save, write_task, flag, flag_task, finish, settle, withdraw, cancel,
  get_job, list_jobs, start_poll, close,
}
use web_search_api.Jobs.Runner.Flags.{
  cancelling-flag, flag_task_same, flag_task_other, id-flag_task, phase-flag_task,
  cancelling-write_task, cancel_absent, cancel_settled, cancel_open,
}
use web_search_api.Jobs.Runner.Slots.{busy, IsDistinct-map, busy-map}
use web_search_api.Jobs.Runner.Saving.{
  IsUnique-save, save-Has, Has-save, id-write_task, phase-write_task, write_task_other,
}
use web_search_api.Jobs.Runner.Steps.{
  Step, submitted, begun, completed, abandoned, reaped, cancel_called, get_called, list_called,
  poll_called, close_called, Reaches, start, next,
}
use web_search_api.Jobs.Runner.Sound.{IsSound, is_open, IsSound-purge, IsSound-flag_all}
use web_search_api.Jobs.Runner.Turns.{
  IsSound-submit, IsSound-begin, IsSound-complete, IsSound-abandon, IsSound-reap,
}

module _ {R : Type 0} (max_concurrent : ℕ) where
  IsSound-withdraw :
      (finished now : ℕ) (k : String) (j : Job R) (r : Runner R)
      → j.id ≡ k
      → IsSound max_concurrent r
      → IsSound max_concurrent (withdraw finished now k j r)
  unfolding withdraw finish settle save
  IsSound-withdraw finished now k j r e s =
      let j' : Job R = settle finished cancelled none none j in
      let flagged : List (Task R) = map (flag_task k) r.tasks in
      let r' : Runner R = record r { tasks = flagged } in
      record {
        unique = IsUnique-save now j' r' s.unique;
        distinct =
            IsDistinct-map (write_task j') flagged (id-write_task j')
              (IsDistinct-map (flag_task k) r.tasks (id-flag_task k) s.distinct);
        slots =
            let a = busy-map (write_task j') flagged (phase-write_task j') in
            let b = busy-map (flag_task k) r.tasks (phase-flag_task k) in omega (arith, s.slots);
        held = λ i m run. elim (save-Has now j' i r' s.unique m) [
          | inl q ↦ absurd (let c : cancelled ≡ i.status = ap (λ (x : Job R). x.status) q in cc)
          | inr (m', n) ↦
              let (u, hu, p, q) = s.held i m' run in
              (
                write_task j' (flag_task k u),
                Has-map (write_task j') _ flagged (Has-map (flag_task k) u r.tasks hu),
                phase-write_task j' (flag_task k u) ∙ phase-flag_task k u ∙ p,
                id-write_task j' (flag_task k u) ∙ id-flag_task k u ∙ q,
              )
        ];
        kept = λ u hu n c.
            let (w, hw, q) = map-Has (write_task j') u flagged hu in
            let (v, hv, q') = map-Has (flag_task k) w r.tasks hw in
            elim (Bool-cases (str_eq v.job.id k)) [
              | inl same ↦
                  let f = flag_task_same k v ((eq_iff v.job.id k).0 same) in
                  let live : (flag v).phase ≢ ended = λ x. n (
                    ap (λ (y : Task R). y.phase) (sym q)
                    ∙ phase-write_task j' w
                    ∙ ap (λ (y : Task R). y.phase) (sym q' ∙ f)
                    ∙ x) in
                  let on : u.cancelling ≡ true =
                    ap (λ (y : Task R). y.cancelling) (sym q)
                    ∙ cancelling-write_task j' w
                    ∙ ap (λ (y : Task R). y.cancelling) (sym q' ∙ f)
                    ∙ cancelling-flag v live in
                  absurd cc
              | inr other ↦
                  let ne = ne_of_str_eq v.job.id k other in
                  let ne' : v.job.id ≢ j.id = λ x. ne (x ∙ e) in
                  let same : v ≡ u =
                    sym (write_task_other j' v ne')
                    ∙ ap (write_task j') (sym (flag_task_other k v ne) ∙ q')
                    ∙ q in
                  let (m, st) = s.kept v hv (rw same n) (rw same c) in
                  rw (← same)
                    (Has-save now j' v.job r' s.unique m (is_open v (rw same n) st) ne', st)
            ];
      }

  pub IsSound-cancel :
      (looked finished now : ℕ) (k : String) (r : Runner R)
      → IsSound max_concurrent r
      → IsSound max_concurrent (cancel looked finished now k r).0
  IsSound-cancel looked finished now k r s =
      let store : Store R = purge looked r.store in
      let seen = IsSound-purge max_concurrent looked store r refl s in
      elim (Option-cases (find_job k store.jobs)) [
        | inl n ↦ rw (cancel_absent looked finished now k r n) seen
        | inr (j, found) ↦ elim (Bool-cases (is_terminal j.status)) [
          | inl t ↦ rw (cancel_settled looked finished now k r j found t) seen
          | inr f ↦
              rw (cancel_open looked finished now k r j found f)
                (IsSound-withdraw finished now k j _ (find_job-Has k store.jobs j found).1 seen)
        ]
      ]

  jobs-start_wait :
      (now : ℕ) (k : String) (s : Store R) → (start_wait now k s).0.jobs ≡ (purge now s).jobs
  unfolding start_wait
  jobs-start_wait now k s = ground (arith, jobs-event_for k (purge now s))

  state-start_poll :
      (now then_now : ℕ) (k : String) (timeout : ℕ) (r : Runner R)
      → ((start_poll now then_now k timeout r).0 ≡ record r { store = purge now r.store })
        ⊎ ((start_poll now then_now k timeout r).0
            ≡ record r { store = (start_wait then_now k (purge now r.store)).0 })
  unfolding start_poll get
  state-start_poll now then_now k timeout r =
      elim (Option-cases (find_job k (purge now r.store).jobs)) [
        | inl n ↦ inl (ground arith)
        | inr (j, found) ↦ elim (Bool-cases (is_terminal j.status || leb timeout 0)) [
          | inl t ↦ inl (ground arith)
          | inr f ↦ inr (ground arith)
        ]
      ]

  IsSound-start_poll :
      (now then_now : ℕ) (k : String) (timeout : ℕ) (r : Runner R)
      → IsSound max_concurrent r
      → IsSound max_concurrent (start_poll now then_now k timeout r).0
  IsSound-start_poll now then_now k timeout r s =
      let store : Store R = purge now r.store in
      let seen = IsSound-purge max_concurrent now store r refl s in
      elim (state-start_poll now then_now k timeout r) [
        | inl q ↦ rw q seen
        | inr q ↦ rw q (
            IsSound-purge max_concurrent then_now (start_wait then_now k store).0
              (record r { store = store }) (jobs-start_wait then_now k store) seen)
      ]

  IsSound-Step :
      (r r' : Runner R) → Step r r' → IsSound max_concurrent r → IsSound max_concurrent r'
  unfolding get_job list_jobs get list close
  IsSound-Step _ _ (submitted created now id kind retention r fresh) s =
      IsSound-submit max_concurrent created now id kind retention r fresh s
  IsSound-Step _ _ (begun started now t r h w c room) s =
      IsSound-begin max_concurrent started now t r h w room s
  IsSound-Step _ _ (completed finished now o t r h w) s =
      IsSound-complete max_concurrent finished now o t r h w s
  IsSound-Step _ _ (abandoned t r h w c) s = IsSound-abandon max_concurrent t r h w s
  IsSound-Step _ _ (reaped t r h w) s = IsSound-reap max_concurrent t r h w s
  IsSound-Step _ _ (cancel_called looked finished now k r) s =
      IsSound-cancel looked finished now k r s
  IsSound-Step _ _ (get_called now k r) s =
      IsSound-purge max_concurrent now (purge now r.store) r refl s
  IsSound-Step _ _ (list_called now status limit r) s =
      IsSound-purge max_concurrent now (purge now r.store) r refl s
  IsSound-Step _ _ (poll_called now then_now k timeout r) s =
      IsSound-start_poll now then_now k timeout r s
  IsSound-Step _ _ (close_called r) s = IsSound-flag_all max_concurrent r s

  -- Whatever happens to a runner, its slots are all free or held by tasks, a job in the store runs only
  -- while its task holds a slot, and the job of every task that has neither ended nor been cancelled
  -- is in the store: neither expiry nor the size cap loses work in flight.
  pub IsSound-Reaches :
      (retention max_jobs : ℕ) (r : Runner R)
      → Reaches retention max_jobs max_concurrent r
      → IsSound max_concurrent r
  unfolding init init_store busy
  IsSound-Reaches retention max_jobs _ start = record {
    unique = tt;
    distinct = tt;
    slots = omega arith;
    held = λ j m run. elim m [ ];
    kept = λ t h n c. elim h [ ];
  }
  IsSound-Reaches retention max_jobs r (next run step) =
      IsSound-Step _ r step (IsSound-Reaches retention max_jobs _ run)
