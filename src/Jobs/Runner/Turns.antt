-- ===== src/Jobs/Runner/Turns.antt =====
-- The turns of a task of a `JobRunner` keep it sound.
use web_search_api.Prelude.{
  ℕ, ◌+◌, ◌-◌, ◌<◌, String, ◌≡◌, ◌≢◌, refl, sym, ap, ◌∙◌, inl, inr, Bool, false, not, Option, [],
  ◌∷◌, arith, All-Has, Has, Has-map, map-Has, Has-append, append-Has, Has-filter, filter-Has,
  Bool-cases, str_eq, eq_iff, eq_refl, str_eq_of_ne, ne_of_str_eq,
}
use web_search_api.Jobs.Base.{Job, queued, create}
use web_search_api.Jobs.Store.Capacity.{IsUnique-put, Has-put, Has-put_self}
use web_search_api.Jobs.Runner.{
  Task, Runner, Outcome, returned, raised, crashed, interrupted, waiting, working, ended, move_task,
  submit, begin, complete, conclude, finish, settle, start_job, abandon, reap, move,
}
use web_search_api.Jobs.Runner.Slots.{
  busy, IsDistinct-map, IsDistinct-filter, IsDistinct-add, task_of_id, busy-append, busy-move_at,
  busy-reap,
}
use web_search_api.Jobs.Runner.Saving.{put-Has, id-move_task}
use web_search_api.Jobs.Runner.Steps.{IsFresh}
use web_search_api.Jobs.Runner.Sound.{IsSound, is_open, IsSound-advance}

module _ {R : Type 0} (max_concurrent : ℕ) where
  pub IsSound-submit :
      (created now : ℕ) (id kind : String) (retention : Option ℕ) (r : Runner R)
      → IsFresh id r
      → IsSound max_concurrent r
      → IsSound max_concurrent (submit created now id kind retention r).0
  unfolding submit create busy
  IsSound-submit created now id kind retention r fresh s =
      let j : Job R = create id kind created retention in
      let t : Task R = record { job = j; phase = waiting; cancelling = false } in
      record {
        unique = IsUnique-put now j r.store s.unique;
        distinct = IsDistinct-add t r.tasks fresh.0 s.distinct;
        slots = let b = busy-append r.tasks (t ∷ []) in omega (arith, s.slots);
        held = λ i m run. elim (put-Has now j i r.store s.unique m) [
          | inl q ↦ absurd (let e : queued ≡ i.status = ap (λ (x : Job R). x.status) q in cc)
          | inr (m', _) ↦
              let (u, h, w, q) = s.held i m' run in (u, Has-append u r.tasks (t ∷ []) (inl h), w, q)
        ];
        kept = λ u h n c. elim (append-Has u r.tasks (t ∷ []) h) [
          | inl old ↦
              let (m, st) = s.kept u old n c in
              (
                Has-put now j u.job r.store s.unique m (is_open u n st)
                    (All-Has _ r.tasks fresh.0 old),
                st,
              )
          | inr (inl q) ↦ rw (← q) (Has-put_self now j r.store s.unique refl, refl)
          | inr (inr none_left) ↦ elim none_left [ ]
        ];
      }

  pub IsSound-begin :
      (started now : ℕ) (t : Task R) (r : Runner R)
      → Has t r.tasks
      → t.phase ≡ waiting
      → 0 < r.free
      → IsSound max_concurrent r
      → IsSound max_concurrent (begin started now t r)
  unfolding begin start_job
  IsSound-begin started now t r h w room s =
      IsSound-advance max_concurrent now (r.free - 1) (start_job started t.job) working t r h refl
        (rw w (omega arith)) (inr (refl, refl)) s

  pub IsSound-complete :
      (finished now : ℕ) (o : Outcome R) (t : Task R) (r : Runner R)
      → Has t r.tasks
      → t.phase ≡ working
      → IsSound max_concurrent r
      → IsSound max_concurrent (complete finished now o t r)
  unfolding complete conclude finish settle
  IsSound-complete finished now (returned v) t r h w s =
      IsSound-advance max_concurrent now (r.free + 1) _ ended t r h refl (rw w (omega arith))
        (inl (refl, λ e. cc)) s
  IsSound-complete finished now (raised e) t r h w s =
      IsSound-advance max_concurrent now (r.free + 1) _ ended t r h refl (rw w (omega arith))
        (inl (refl, λ e. cc)) s
  IsSound-complete finished now crashed t r h w s =
      IsSound-advance max_concurrent now (r.free + 1) _ ended t r h refl (rw w (omega arith))
        (inl (refl, λ e. cc)) s
  IsSound-complete finished now interrupted t r h w s =
      IsSound-advance max_concurrent now (r.free + 1) _ ended t r h refl (rw w (omega arith))
        (inl (refl, λ e. cc)) s

  moved_same :
      (k : String) (u : Task R) → u.job.id ≡ k → move_task k ended u ≡ record u { phase = ended }
  unfolding move_task
  moved_same k u e = rw (e, eq_refl) refl

  moved_other : (k : String) (u : Task R) → u.job.id ≢ k → move_task k ended u ≡ u
  unfolding move_task
  moved_other k u n = rw (str_eq_of_ne u.job.id k n) refl

  pub IsSound-abandon :
      (t : Task R) (r : Runner R)
      → Has t r.tasks
      → t.phase ≡ waiting
      → IsSound max_concurrent r
      → IsSound max_concurrent (abandon t r)
  unfolding abandon move
  IsSound-abandon t r h w s =
      let k : String = t.job.id in
      record {
        unique = s.unique;
        distinct = IsDistinct-map (move_task k ended) r.tasks (id-move_task k ended) s.distinct;
        slots =
            let b0 = busy-move_at t k ended r.tasks s.distinct h refl in
            let b = rw w at b0 in omega (arith, s.slots);
        held = λ i m run.
            let (u, hu, p, q) = s.held i m run in
            elim (Bool-cases (str_eq u.job.id k)) [
              | inl same ↦
                  let e = task_of_id r.tasks u t s.distinct hu h ((eq_iff u.job.id k).0 same) in
                  absurd (let p' : t.phase ≡ working = rw (← e) p in cc)
              | inr other ↦
                  let e = moved_other k u (ne_of_str_eq u.job.id k other) in
                  (u, rw (← e) (Has-map (move_task k ended) u r.tasks hu), p, q)
            ];
        kept = λ u hu n c.
            let (v, hv, q) = map-Has (move_task k ended) u r.tasks hu in
            elim (Bool-cases (str_eq v.job.id k)) [
              | inl same ↦
                  let e = moved_same k v ((eq_iff v.job.id k).0 same) in
                  absurd (n (ap (λ (x : Task R). x.phase) (sym q ∙ e)))
              | inr other ↦
                  let e : v ≡ u = sym (moved_other k v (ne_of_str_eq v.job.id k other)) ∙ q in
                  rw (← e) (s.kept v hv (rw e n) (rw e c))
            ];
      }

  pub IsSound-reap :
      (t : Task R) (r : Runner R)
      → Has t r.tasks
      → t.phase ≡ ended
      → IsSound max_concurrent r
      → IsSound max_concurrent (reap t r)
  unfolding reap
  IsSound-reap t r h w s =
      let k : String = t.job.id in
      let other : Task R → Bool = λ u. not (str_eq u.job.id k) in
      let over : (u : Task R) → Has u r.tasks → u.job.id ≡ k → u.phase ≡ ended =
        λ u hu e. ap (λ (x : Task R). x.phase) (task_of_id r.tasks u t s.distinct hu h e) ∙ w in
      record {
        unique = s.unique;
        distinct = IsDistinct-filter other r.tasks s.distinct;
        slots = rw (busy-reap k r.tasks over) s.slots;
        held = λ i m run.
            let (u, hu, p, q) = s.held i m run in
            let n : u.job.id ≢ k = λ e. (let o : u.phase ≡ ended = over u hu e in cc) in
            (u, Has-filter other u r.tasks hu (rw (str_eq_of_ne u.job.id k n) refl), p, q);
        kept = λ u hu n c. s.kept u (filter-Has other u r.tasks hu).0 n c;
      }
