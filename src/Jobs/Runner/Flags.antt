-- ===== src/Jobs/Runner/Flags.antt =====
-- What `task.cancel()` does to a task, and what `cancel` returns on each of its ways.
use web_search_api.Prelude.{
  ℕ, String, ◌≡◌, ◌≢◌, refl, ◌∙◌, ◌⊎◌, inl, inr, true, false, none, some, arith, Bool-cases, str_eq,
  eq_iff, eq_refl, str_eq_of_ne, ne_of_str_eq,
}
use web_search_api.Core.Result.{ok, err}
use web_search_api.Jobs.Base.{Job, cancelled, is_terminal}
use web_search_api.Jobs.Store.{purge, get, find_job}
use web_search_api.Jobs.Runner.{
  Task, Runner, Phase, waiting, working, ended, flag, flag_task, write_task, settle, withdraw,
  cancel, unknown_job,
}

module _ {R : Type 0} where
  pub phase-flag : (t : Task R) → (flag t).phase ≡ t.phase
  unfolding flag
  phase-flag t = ground arith

  pub id-flag : (t : Task R) → (flag t).job.id ≡ t.job.id
  unfolding flag
  id-flag t = ground arith

  -- A flagged task that has not ended is being cancelled.
  pub cancelling-flag : (t : Task R) → (flag t).phase ≢ ended → (flag t).cancelling ≡ true
  unfolding flag
  cancelling-flag t n = elim (phase_cases t.phase) [
    | inl e ↦ absurd (n (phase-flag t ∙ e))
    | inr (inl e) ↦ rw e refl
    | inr (inr e) ↦ rw e refl
  ]
    where
      phase_cases : (p : Phase) → (p ≡ ended) ⊎ ((p ≡ waiting) ⊎ (p ≡ working))
      phase_cases waiting = inr (inl refl)
      phase_cases working = inr (inr refl)
      phase_cases ended = inl refl

  pub flag_task_same : (k : String) (u : Task R) → u.job.id ≡ k → flag_task k u ≡ flag u
  unfolding flag_task
  flag_task_same k u e = rw (e, eq_refl) refl

  pub flag_task_other : (k : String) (u : Task R) → u.job.id ≢ k → flag_task k u ≡ u
  unfolding flag_task
  flag_task_other k u n = rw (str_eq_of_ne u.job.id k n) refl

  pub id-flag_task : (k : String) (u : Task R) → (flag_task k u).job.id ≡ u.job.id
  id-flag_task k u = elim (Bool-cases (str_eq u.job.id k)) [
    | inl t ↦ rw (flag_task_same k u ((eq_iff u.job.id k).0 t)) (id-flag u)
    | inr f ↦ rw (flag_task_other k u (ne_of_str_eq u.job.id k f)) refl
  ]

  pub phase-flag_task : (k : String) (u : Task R) → (flag_task k u).phase ≡ u.phase
  phase-flag_task k u = elim (Bool-cases (str_eq u.job.id k)) [
    | inl t ↦ rw (flag_task_same k u ((eq_iff u.job.id k).0 t)) (phase-flag u)
    | inr f ↦ rw (flag_task_other k u (ne_of_str_eq u.job.id k f)) refl
  ]

  pub cancelling-write_task : (j : Job R) (u : Task R) → (write_task j u).cancelling ≡ u.cancelling
  unfolding write_task
  cancelling-write_task j u = refl

  pub cancel_absent :
      (looked finished now : ℕ) (k : String) (r : Runner R)
      → find_job k (purge looked r.store).jobs ≡ none
      → cancel looked finished now k r
        ≡ (record r { store = purge looked r.store }, err (unknown_job k))
  unfolding cancel get
  cancel_absent looked finished now k r h = ground arith

  pub cancel_settled :
      (looked finished now : ℕ) (k : String) (r : Runner R) (j : Job R)
      → find_job k (purge looked r.store).jobs ≡ some j
      → is_terminal j.status ≡ true
      → cancel looked finished now k r ≡ (record r { store = purge looked r.store }, ok j)
  unfolding cancel get
  cancel_settled looked finished now k r j h t = ground arith

  pub cancel_open :
      (looked finished now : ℕ) (k : String) (r : Runner R) (j : Job R)
      → find_job k (purge looked r.store).jobs ≡ some j
      → is_terminal j.status ≡ false
      → cancel looked finished now k r ≡ (
        withdraw finished now k j (record r { store = purge looked r.store }),
        ok (settle finished cancelled none none j),
      )
  unfolding cancel get
  cancel_open looked finished now k r j h t = ground arith
