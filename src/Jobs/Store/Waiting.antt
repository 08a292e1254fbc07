-- ===== src/Jobs/Store/Waiting.antt =====
-- Long polls on `InMemoryJobStore`, against any calls that other tasks make in between.
use web_search_api.Prelude.{
  ℕ, String, ◌≡◌, sym, ap, ◌∙◌, ◌⊎◌, inl, inr, false, Option, some, List, [], ◌∷◌, arith,
  Bool-cases, Option-cases, Has,
}
use web_search_api.Jobs.Base.{JobStatus, Job, is_terminal}
use web_search_api.Jobs.Store.{
  Store, wait_on, init, find_job, find_event, discard, purge, put, get, list, delete, start_wait,
}
use web_search_api.Jobs.Store.Jobs.{find_job-Has, Has-find_job}
use web_search_api.Jobs.Store.Links.{IsLinked, Watches, IsLinked-discard, Watches-discard}
use web_search_api.Jobs.Store.Events.{
  IsLinked-init, IsLinked-purge, IsLinked-put, Watches-purge, Watches-put, release_missing,
  event_for_held,
}

-- The calls of the store that other tasks may make; each is one atomic step.
pub data Call (R : Type 0) : Type 0 where
  put_call : ℕ → Job R → Call R
  get_call : ℕ → String → Call R
  list_call : ℕ → Option JobStatus → ℕ → Call R
  delete_call : String → Call R
  wait_call : ℕ → String → Call R

module _ {R : Type 0} where
  unfoldable pub apply : Call R → Store R → Store R
  apply (put_call now j) s = put now j s
  apply (get_call now k) s = (get now k s).0
  apply (list_call now st limit) s = (list now st limit s).0
  apply (delete_call k) s = (delete k s).0
  apply (wait_call now k) s = (start_wait now k s).0

  unfoldable pub apply_all : List (Call R) → Store R → Store R
  apply_all [] s = s
  apply_all (c ∷ cs) s = apply_all cs (apply c s)

  state-delete :
      (k : String) (s : Store R)
      → IsLinked s
      → ((delete k s).0 ≡ s) ⊎ ((delete k s).0 ≡ discard k s)
  unfolding delete
  state-delete k s l = elim (Option-cases (find_job k s.jobs)) [
    | inl n ↦ let kept = release_missing k s l n in inl (ground arith)
    | inr (j, q) ↦ inr (ground arith)
  ]

  IsLinked-delete : (k : String) (s : Store R) → IsLinked s → IsLinked (delete k s).0
  IsLinked-delete k s l = elim (state-delete k s l) [
    | inl q ↦ rw q l
    | inr q ↦ rw q (IsLinked-discard k s l)
  ]

  Watches-delete :
      (k i : String) (e : ℕ) (s : Store R) → IsLinked s → Watches i e s → Watches i e (delete k s).0
  Watches-delete k i e s l w = elim (state-delete k s l) [
    | inl q ↦ rw q w
    | inr q ↦ rw q (Watches-discard k i e s w)
  ]

  -- A poll changes nothing beyond the purge.
  state-start_wait :
      (now : ℕ) (k : String) (s : Store R) → IsLinked s → (start_wait now k s).0 ≡ purge now s
  unfolding start_wait
  state-start_wait now k s l = elim (Option-cases (find_job k (purge now s).jobs)) [
    | inl n ↦ ground arith
    | inr (j, q) ↦
        let (m, p) = find_job-Has k (purge now s).jobs j q in
        let (e, same, _) = event_for_held k (purge now s) j (IsLinked-purge now s l) m p in
        ground arith
  ]

  -- A poll that waits holds the event of its job, and the job is unfinished.
  Watches-start_wait :
      (now : ℕ) (k : String) (e : ℕ) (s : Store R)
      → IsLinked s
      → (start_wait now k s).1 ≡ wait_on e
      → Watches k e (purge now s)
  unfolding start_wait
  Watches-start_wait now k e s l h = elim (Option-cases (find_job k (purge now s).jobs)) [
    | inl n ↦ absurd (ground arith)
    | inr (j, q) ↦
        let (m, p) = find_job-Has k (purge now s).jobs j q in
        let (d, same, found) = event_for_held k (purge now s) j (IsLinked-purge now s l) m p in
        let r : d ≡ e = ground arith in inl (found ∙ ap some r)
  ]

  IsLinked-apply : (c : Call R) (s : Store R) → IsLinked s → IsLinked (apply c s)
  unfolding apply get list
  IsLinked-apply (put_call now j) s l = IsLinked-put now j s l
  IsLinked-apply (get_call now k) s l = IsLinked-purge now s l
  IsLinked-apply (list_call now st limit) s l = IsLinked-purge now s l
  IsLinked-apply (delete_call k) s l = IsLinked-delete k s l
  IsLinked-apply (wait_call now k) s l = rw (state-start_wait now k s l) (IsLinked-purge now s l)

  Watches-apply :
      (c : Call R) (k : String) (e : ℕ) (s : Store R)
      → IsLinked s
      → Watches k e s
      → Watches k e (apply c s)
  unfolding apply get list
  Watches-apply (put_call now j) k e s l w = Watches-put now j k e s w
  Watches-apply (get_call now i) k e s l w = Watches-purge now k e s w
  Watches-apply (list_call now st limit) k e s l w = Watches-purge now k e s w
  Watches-apply (delete_call i) k e s l w = Watches-delete i k e s l w
  Watches-apply (wait_call now i) k e s l w =
      rw (state-start_wait now i s l) (Watches-purge now k e s w)

  apply_all_keeps :
      (cs : List (Call R)) (k : String) (e : ℕ) (s : Store R)
      → IsLinked s
      → Watches k e s
      → IsLinked (apply_all cs s) × Watches k e (apply_all cs s)
  unfolding apply_all
  apply_all_keeps [] k e s l w = (l, w)
  apply_all_keeps (c ∷ cs) k e s l w =
      apply_all_keeps cs k e (apply c s) (IsLinked-apply c s l) (Watches-apply c k e s l w)

  IsLinked-run : (cs : List (Call R)) (s : Store R) → IsLinked s → IsLinked (apply_all cs s)
  unfolding apply_all
  IsLinked-run [] s l = l
  IsLinked-run (c ∷ cs) s l = IsLinked-run cs (apply c s) (IsLinked-apply c s l)

  -- Any calls on a fresh store keep its jobs unique, every job with an event, the events of finished
  -- jobs set, and no event without its job.
  pub IsLinked-apply_all :
      (cs : List (Call R)) (retention max_jobs : ℕ)
      → IsLinked (apply_all cs (init retention max_jobs))
  IsLinked-apply_all cs retention max_jobs = IsLinked-run cs _ (IsLinked-init retention max_jobs)

  -- The job `k` is held and unfinished.
  abbrev pub IsPending : String → Store R → Type 0
  IsPending k s = (j : Job R) × (find_job k s.jobs ≡ some j) × (is_terminal j.status ≡ false)

  -- No lost wake-up: in a store whose events are linked to its jobs, a poll that waits on an
  -- event, whatever calls the other tasks then make, has its event set once its job is no longer
  -- held unfinished: finished, expired, evicted or deleted.
  pub start_wait_wakes :
      (now : ℕ) (k : String) (e : ℕ) (s : Store R) (cs : List (Call R))
      → IsLinked s
      → (start_wait now k s).1 ≡ wait_on e
      → ¬ IsPending k (apply_all cs (start_wait now k s).0)
      → Has e (apply_all cs (start_wait now k s).0).fired
  start_wait_wakes now k e s cs l h over =
      let start = state-start_wait now k s l in
      let (l', w) =
        apply_all_keeps cs k e (start_wait now k s).0 (rw start (IsLinked-purge now s l))
          (rw start (Watches-start_wait now k e s l h)) in
      elim w [
        | inl q ↦
            let (j, m, p) = l'.keyed k e q in
            let found : find_job k (apply_all cs (start_wait now k s).0).jobs ≡ some j =
              ap (λ x. find_job x (apply_all cs (start_wait now k s).0).jobs) (sym p)
              ∙ Has-find_job _ j l'.unique m in
            elim (Bool-cases (is_terminal j.status)) [
              | inl t ↦
                  l'.finished j e m t
                    (ap (λ x. find_event x (apply_all cs (start_wait now k s).0).settled) p ∙ q)
              | inr f ↦ absurd (over (j, found, f))
            ]
        | inr f ↦ f
      ]
