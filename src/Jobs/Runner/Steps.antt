-- ===== src/Jobs/Runner/Steps.antt =====
-- What may happen to a `JobRunner` between two suspensions, as a relation.
use web_search_api.Prelude.{ℕ, ◌<◌, String, ◌≡◌, ◌≢◌, true, false, Option, All, Has}
use web_search_api.Jobs.Base.{JobStatus}
use web_search_api.Jobs.Store.{init as init_store}
use web_search_api.Jobs.Runner.{
  Task, Runner, Outcome, waiting, working, ended, init, submit, begin, complete, abandon, reap,
  cancel, get_job, list_jobs, start_poll, close,
}

-- `uuid4` gives an id that nothing has.
abbrev pub IsFresh : {R : Type 0} → String → Runner R → Type 0
IsFresh id r = All (λ t. t.job.id ≢ id) r.tasks × All (λ j. j.id ≢ id) r.store.jobs

-- `begun` waits for a free slot of the semaphore, and a task that is being cancelled never begins; the
-- work itself may end in any way, also after `task.cancel()`, which it can catch.
pub data Step {R : Type 0} : Runner R → Runner R → Type 0 where
  submitted :
      (created now : ℕ) (id kind : String) (retention : Option ℕ) (r : Runner R)
      → IsFresh id r
      → Step r (submit created now id kind retention r).0
  begun :
      (started now : ℕ) (t : Task R) (r : Runner R)
      → Has t r.tasks
      → t.phase ≡ waiting
      → t.cancelling ≡ false
      → 0 < r.free
      → Step r (begin started now t r)
  completed :
      (finished now : ℕ) (o : Outcome R) (t : Task R) (r : Runner R)
      → Has t r.tasks
      → t.phase ≡ working
      → Step r (complete finished now o t r)
  abandoned :
      (t : Task R) (r : Runner R)
      → Has t r.tasks
      → t.phase ≡ waiting
      → t.cancelling ≡ true
      → Step r (abandon t r)
  reaped : (t : Task R) (r : Runner R) → Has t r.tasks → t.phase ≡ ended → Step r (reap t r)
  cancel_called :
      (looked finished now : ℕ) (k : String) (r : Runner R)
      → Step r (cancel looked finished now k r).0
  get_called : (now : ℕ) (k : String) (r : Runner R) → Step r (get_job now k r).0
  list_called :
      (now : ℕ) (status : Option JobStatus) (limit : ℕ) (r : Runner R)
      → Step r (list_jobs now status limit r).0
  poll_called :
      (now then_now : ℕ) (k : String) (timeout : ℕ) (r : Runner R)
      → Step r (start_poll now then_now k timeout r).0
  close_called : (r : Runner R) → Step r (close r)

-- The runners that a new one over an empty store can become.
pub data Reaches {R : Type 0} (retention max_jobs max_concurrent : ℕ) : Runner R → Type 0 where
  start :
      Reaches retention max_jobs max_concurrent
        (init (init_store retention max_jobs) max_concurrent)
  next :
      {r r' : Runner R}
      → Reaches retention max_jobs max_concurrent r
      → Step r r'
      → Reaches retention max_jobs max_concurrent r'
