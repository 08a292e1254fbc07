-- ===== src/Jobs/Runner/Sound.antt =====
-- What stays true of a `JobRunner` whatever happens to it.
use web_search_api.Prelude.{
  ℕ, ◌+◌, ◌≡◌, ◌≢◌, refl, sym, ap, ◌∙◌, ◌⊎◌, inl, inr, true, false, List, map, arith, Has, Has-map,
  map-Has, Bool-cases, str_eq, eq_iff, ne_of_str_eq,
}
use web_search_api.Jobs.Base.{Job, JobStatus, queued, running, cancelled, is_terminal}
use web_search_api.Jobs.Store.{Store, purge, expired}
use web_search_api.Jobs.Store.Jobs.{IsUnique, IsUnique-purge, Has-purge, purge-Has}
use web_search_api.Jobs.Runner.{
  Task, Runner, Phase, waiting, working, ended, save, move, move_task, write_task, flag,
}
use web_search_api.Jobs.Runner.Flags.{phase-flag, id-flag, cancelling-flag}
use web_search_api.Jobs.Runner.Slots.{
  busy, slot, IsDistinct, IsDistinct-map, busy-map, busy-move_at,
}
use web_search_api.Jobs.Runner.Saving.{
  IsUnique-save, save-Has, Has-save, Has-save_self, step_task_same, step_task_other, id-write_task,
  id-move_task, phase-write_task, step_task,
}

abbrev pub status_of : Phase → JobStatus
status_of waiting = queued
status_of working = running
status_of ended = cancelled

module _ {R : Type 0} where
  pub record IsSound (max_concurrent : ℕ) (r : Runner R) : Type 0 where
    pub unique : IsUnique r.store.jobs
    pub distinct : IsDistinct r.tasks
    -- Every slot of the semaphore is free or held by a task.
    pub slots : busy r.tasks + r.free ≡ max_concurrent
    -- No job runs without a task inside the semaphore.
    pub held :
        (j : Job R)
        → Has j r.store.jobs
        → j.status ≡ running
        → (t : Task R) × Has t r.tasks × (t.phase ≡ working) × (t.job.id ≡ j.id)
    -- The job of a live task is in the store, in the status of its phase.
    pub kept :
        (t : Task R)
        → Has t r.tasks
        → t.phase ≢ ended
        → t.cancelling ≡ false
        → Has t.job r.store.jobs × (t.job.status ≡ status_of t.phase)

  pub is_open :
      (t : Task R)
      → t.phase ≢ ended
      → t.job.status ≡ status_of t.phase
      → is_terminal t.job.status ≡ false
  is_open t n e = rw e (from t.phase n)
    where
      from : (p : Phase) → p ≢ ended → is_terminal (status_of p) ≡ false
      from waiting n = refl
      from working n = refl
      from ended n = absurd (n refl)

  -- A task's job is written and saved, and the task moves on.
  pub IsSound-advance :
      (max_concurrent now free : ℕ) (j : Job R) (p : Phase) (t : Task R) (r : Runner R)
      → Has t r.tasks
      → t.job.id ≡ j.id
      → free + slot p ≡ r.free + slot t.phase
      → ((p ≡ ended) × (j.status ≢ running)) ⊎ ((p ≡ working) × (j.status ≡ running))
      → IsSound max_concurrent r
      → IsSound max_concurrent (move j.id p (save now j (record r { free = free })))
  unfolding move save
  IsSound-advance max_concurrent now free j p t r h e count fits s =
      let r' : Runner R = record r { free = free } in
      let write_keeps = id-write_task j in
      let written : List (Task R) = map (write_task j) r.tasks in
      let d : IsDistinct written = IsDistinct-map (write_task j) r.tasks write_keeps s.distinct in
      record {
        unique = IsUnique-save now j r' s.unique;
        distinct = IsDistinct-map (move_task j.id p) written (id-move_task j.id p) d;
        slots =
            let own = Has-map (write_task j) t r.tasks h in
            let b = busy-move_at (write_task j t) j.id p written d own (write_keeps t ∙ e) in
            let b' : busy (map (move_task j.id p) written) + slot t.phase ≡ busy written + slot p =
              rw (phase-write_task j t) at b in
            let w : busy written ≡ busy r.tasks =
              busy-map (write_task j) r.tasks (phase-write_task j) in
            omega (arith, s.slots);
        held = λ i m running_i. elim (save-Has now j i r' s.unique m) [
          | inl q ↦ elim fits [
            | inl (_, n) ↦ absurd (n (rw q running_i))
            | inr (w, _) ↦ (
              record t { job = j; phase = p },
              rw (← step_task_same j p t e) (moved t h),
              w,
              ap (λ (x : Job R). x.id) q,
            )
          ]
          | inr (m', n) ↦
              let (v, hv, w, q) = s.held i m' running_i in
              (v, rw (← step_task_other j p v (λ x. n (sym q ∙ x))) (moved v hv), w, q)
        ];
        kept = λ u m n c.
            let (w, hw, q) = map-Has (move_task j.id p) u written m in
            let (v, hv, q') = map-Has (write_task j) w r.tasks hw in
            let full : step_task j p v ≡ u = ap (move_task j.id p) q' ∙ q in
            elim (Bool-cases (str_eq v.job.id j.id)) [
              | inl same ↦
                  let made = step_task_same j p v ((eq_iff v.job.id j.id).0 same) in
                  written_kept v u (sym made ∙ full) n
              | inr other ↦
                  let ne = ne_of_str_eq v.job.id j.id other in
                  let stays : v ≡ u = sym (step_task_other j p v ne) ∙ full in
                  let (hs, st) = s.kept v hv (rw stays n) (rw stays c) in
                  rw (← stays)
                    (Has-save now j v.job r' s.unique hs (is_open v (rw stays n) st) ne, st)
            ];
      }
    where
      written_kept :
          (v u : Task R)
          → record v { job = j; phase = p } ≡ u
          → u.phase ≢ ended
          → Has u.job (save now j (record r { free = free })).store.jobs
            × (u.job.status ≡ status_of u.phase)
      written_kept v u q n = elim fits [
        | inl (over, _) ↦ absurd (n (sym (ap (λ (x : Task R). x.phase) q) ∙ over))
        | inr (w, run) ↦
            rw (← q)
              (Has-save_self now j (record r { free = free }) s.unique (rw run refl), rw w run)
      ]

      moved :
          (u : Task R)
          → Has u r.tasks
          → Has
              (move_task j.id p (write_task j u))
              (map (move_task j.id p) (map (write_task j) r.tasks))
      moved u m = Has-map (move_task j.id p) (write_task j u) _ (Has-map (write_task j) u r.tasks m)

  -- A read of the store purges it, and no live task loses its job.
  pub IsSound-purge :
      (max_concurrent now : ℕ) (store : Store R) (r : Runner R)
      → store.jobs ≡ (purge now r.store).jobs
      → IsSound max_concurrent r
      → IsSound max_concurrent (record r { store = store })
  unfolding expired
  IsSound-purge max_concurrent now store r e s = record {
    unique = rw e (IsUnique-purge now r.store s.unique);
    distinct = s.distinct;
    slots = s.slots;
    held = λ j m run. s.held j (purge-Has now r.store j (rw e at m)).0 run;
    kept = λ t h n c.
        let (m, st) = s.kept t h n c in
        let open_job = is_open t n st in
        (rw e (Has-purge now r.store t.job s.unique m (ground arith)), st);
  }

  -- After `close`, no task is live.
  pub IsSound-flag_all :
      (max_concurrent : ℕ) (r : Runner R)
      → IsSound max_concurrent r
      → IsSound max_concurrent (record r { tasks = map flag r.tasks })
  IsSound-flag_all max_concurrent r s = record {
    unique = s.unique;
    distinct = IsDistinct-map flag r.tasks id-flag s.distinct;
    slots = rw (busy-map flag r.tasks phase-flag) s.slots;
    held = λ j m run.
        let (t, h, w, q) = s.held j m run in
        (flag t, Has-map flag t r.tasks h, phase-flag t ∙ w, ap (λ x. x) (id-flag t) ∙ q);
    kept = λ u h n c.
        let (t, m, q) = map-Has flag u r.tasks h in
        absurd (
          let on = cancelling-flag t (rw q n) in let on' : u.cancelling ≡ true = rw (← q) on in cc);
  }
