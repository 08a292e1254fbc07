-- ===== src/Jobs/Runner.antt =====
-- app/services/jobs/runner.py: `JobRunner`. The event loop runs one task at a time and switches at an
-- await that suspends. The store's lock is never held across a suspension, so `store.put` and
-- `store.get` do not suspend, and what lies between two suspensions of `_execute` is one function.
-- A job is an object that the store and its task share: `write` changes both. Clock readings and the
-- new id are arguments.
pub mod Steps
pub mod Slots
pub mod Saving
pub mod Flags
pub mod Sound
pub mod Turns
pub mod Runs
pub mod Stops
use web_search_api.Prelude.{
  ℕ, ◌+◌, ◌-◌, String, Bool, true, false, not, ◌||◌, Option, none, some, List, [], ◌∷◌, ◌++◌, map,
  filter, if◌then◌else◌, str_eq, format, length, leb,
}
use web_search_api.Core.Errors.{
  DomainError, ErrorPayload, make_error, not_found_error, to_error_payload,
}
use web_search_api.Core.Result.{Result, ok, err}
use web_search_api.Jobs.Base.{
  Job, JobStatus, running, succeeded, failed, cancelled, is_terminal, create,
}
use web_search_api.Jobs.Store.{
  Store, Wait, unknown, settled_now, wait_on, init as init_store, put, get, list, start_wait,
}

-- Where the task of a job is: before the semaphore, inside it, or at its end.
pub data Phase : Type 0 where
  waiting working ended : Phase

-- `cancelling` is set by `task.cancel()`.
pub record Task (R : Type 0) : Type 0 where
  pub job : Job R
  pub phase : Phase
  pub cancelling : Bool

-- How `await work()` ends.
pub data Outcome (R : Type 0) : Type 0 where
  returned : R → Outcome R
  raised : DomainError → Outcome R
  crashed interrupted : Outcome R

-- `free` is what the semaphore has left.
pub record Runner (R : Type 0) : Type 0 where
  pub store : Store R
  pub tasks : List (Task R)
  pub free : ℕ

-- What a poll gives at once, or the event that it waits for.
pub data Poll (R : Type 0) : Type 0 where
  answered : Result (Job R) → Poll R
  parked : ℕ → Poll R

abbrev pub internal_error : ErrorPayload
internal_error = record {
  code = "internal_error";
  title = "Internal server error";
  detail = "The job failed unexpectedly.";
}

unfoldable pub unknown_job : String → DomainError
unknown_job k =
    make_error not_found_error "Unknown job"
      (some (format ("No job with id '" ∷ k ∷ "' - it may have expired." ∷ []))) none

module _ {R : Type 0} where
  unfoldable pub init : Store R → ℕ → Runner R
  init store max_concurrent = record { store = store; tasks = []; free = max_concurrent }

  unfoldable pub in_flight : Runner R → ℕ
  in_flight r = length r.tasks

  -- The object of job `j` as others see it.
  unfoldable pub aliased : Job R → Job R → Job R
  aliased j i = if str_eq i.id j.id then j else i

  unfoldable pub write_task : Job R → Task R → Task R
  write_task j t = record t { job = aliased j t.job }

  unfoldable pub write_store : Job R → Store R → Store R
  write_store j s = record s { jobs = map (aliased j) s.jobs }

  -- The fields of the shared object change, then `await self._store.put(job)`.
  unfoldable pub save : ℕ → Job R → Runner R → Runner R
  save now j r = record r {
    store = put now j (write_store j r.store);
    tasks = map (write_task j) r.tasks;
  }

  unfoldable pub settle : ℕ → JobStatus → Option R → Option ErrorPayload → Job R → Job R
  settle now status result error j = record j {
    status = status;
    finished_at = some now;
    result = result;
    error = error;
  }

  -- `_finish`: one reading for `finished_at`, one inside the store.
  unfoldable pub finish :
      ℕ → ℕ → Job R → JobStatus → Option R → Option ErrorPayload → Runner R → Runner R
  finish finished now j status result error r = save now (settle finished status result error j) r

  unfoldable pub move_task : String → Phase → Task R → Task R
  move_task k p t = if str_eq t.job.id k then record t { phase = p } else t

  unfoldable pub move : String → Phase → Runner R → Runner R
  move k p r = record r { tasks = map (move_task k p) r.tasks }

  unfoldable pub submit : ℕ → ℕ → String → String → Option ℕ → Runner R → Runner R × Job R
  submit created now id kind retention r =
      let j = create id kind created retention in
      (
        record r {
          store = put now j r.store;
          tasks = r.tasks ++ record { job = j; phase = waiting; cancelling = false } ∷ [];
        },
        j,
      )

  unfoldable pub start_job : ℕ → Job R → Job R
  start_job started j = record j { status = running; started_at = some started }

  -- `_execute` up to `await work()`.
  unfoldable pub begin : ℕ → ℕ → Task R → Runner R → Runner R
  begin started now t r =
      move t.job.id working (save now (start_job started t.job) (record r { free = r.free - 1 }))

  unfoldable pub conclude : ℕ → ℕ → Outcome R → Job R → Runner R → Runner R
  conclude finished now (returned v) j r = finish finished now j succeeded (some v) none r
  conclude finished now (raised e) j r =
      finish finished now j failed none (some (to_error_payload e)) r
  conclude finished now crashed j r = finish finished now j failed none (some internal_error) r
  conclude finished now interrupted j r = finish finished now j cancelled none none r

  -- `_execute` from the end of `work()` on; leaving the semaphore frees a slot.
  unfoldable pub complete : ℕ → ℕ → Outcome R → Task R → Runner R → Runner R
  complete finished now o t r =
      move t.job.id ended (conclude finished now o t.job (record r { free = r.free + 1 }))

  -- A cancellation that arrives before the semaphore is entered records nothing.
  unfoldable pub abandon : Task R → Runner R → Runner R
  abandon t r = move t.job.id ended r

  -- The done callback: `self._tasks.pop(job.id, None)`.
  unfoldable pub reap : Task R → Runner R → Runner R
  reap t r = record r { tasks = filter (λ u. not (str_eq u.job.id t.job.id)) r.tasks }

  -- `task.cancel()`, which a task that has ended ignores.
  unfoldable pub flag : Task R → Task R
  flag t = elim t.phase [
    | ended ↦ t
    | waiting ↦ record t { cancelling = true }
    | working ↦ record t { cancelling = true }
  ]

  unfoldable pub flag_task : String → Task R → Task R
  flag_task k t = if str_eq t.job.id k then flag t else t

  unfoldable pub withdraw : ℕ → ℕ → String → Job R → Runner R → Runner R
  withdraw finished now k j r =
      finish finished now j cancelled none none (record r { tasks = map (flag_task k) r.tasks })

  unfoldable pub cancel : ℕ → ℕ → ℕ → String → Runner R → Runner R × Result (Job R)
  cancel looked finished now k r =
      let (s, found) = get looked k r.store in
      elim found [
        | none ↦ (record r { store = s }, err (unknown_job k))
        | some j ↦ if is_terminal j.status then (record r { store = s }, ok j) else (
          withdraw finished now k j (record r { store = s }),
          ok (settle finished cancelled none none j),
        )
      ]

  abbrev found_or_unknown : String → Option (Job R) → Result (Job R)
  found_or_unknown k none = err (unknown_job k)
  found_or_unknown k (some j) = ok j

  unfoldable pub get_job : ℕ → String → Runner R → Runner R × Result (Job R)
  get_job now k r =
      let (s, found) = get now k r.store in (record r { store = s }, found_or_unknown k found)

  unfoldable pub list_jobs : ℕ → Option JobStatus → ℕ → Runner R → Runner R × List (Job R)
  list_jobs now status limit r =
      let (s, js) = list now status limit r.store in (record r { store = s }, js)

  abbrev poll_of : String → Wait R → Poll R
  poll_of k unknown = answered (err (unknown_job k))
  poll_of k (settled_now j) = answered (ok j)
  poll_of k (wait_on e) = parked e

  -- `wait_for_terminal` up to its suspension; what follows is `get_job`.
  unfoldable pub start_poll : ℕ → ℕ → String → ℕ → Runner R → Runner R × Poll R
  start_poll now then_now k timeout r = elim (get now k r.store).1 [
    | none ↦ (record r { store = (get now k r.store).0 }, answered (err (unknown_job k)))
    | some j ↦
        if is_terminal j.status || leb timeout 0
        then (record r { store = (get now k r.store).0 }, answered (ok j))
        else (
          record r { store = (start_wait then_now k (get now k r.store).0).0 },
          poll_of k (start_wait then_now k (get now k r.store).0).1,
        )
  ]

  unfoldable pub close : Runner R → Runner R
  close r = record r { tasks = map flag r.tasks }
