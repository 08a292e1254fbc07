-- ===== src/Tests/Runner.antt =====
-- A runner with one slot: a job that is submitted, begins and returns, and one that is cancelled.
use web_search_api.Prelude.{ℕ, ◌≤◌, ◌≡◌, refl, inl, false, none, filter, length, arith}
use web_search_api.Core.Errors.{DomainError, not_found_error}
use web_search_api.Core.Result.{ok, err}
use web_search_api.Jobs.Base.{Job, create}
use web_search_api.Jobs.Store.{find_job, init as init_store}
use web_search_api.Jobs.Runner.{
  Task, Runner, returned, waiting, working, init, submit, begin, complete, cancel, start_job, save,
  write_task, aliased, move, move_task,
}
use web_search_api.Jobs.Runner.Steps.{Reaches, start, next, submitted, begun, completed}
use web_search_api.Jobs.Runner.Sound.{IsSound}
use web_search_api.Jobs.Runner.Runs.{IsSound-Reaches}
use web_search_api.Jobs.Runner.Stops.{IsStopped, is_running, running_bounded, cancel-IsStopped}

abbrev fresh : Runner ℕ
fresh = init (init_store 100 10) 1

abbrev new_job : Job ℕ
new_job = create "a" "scrape" 1 none

abbrev new_task : Task ℕ
new_task = record { job = new_job; phase = waiting; cancelling = false }

abbrev holding : Runner ℕ
holding = (submit 1 1 "a" "scrape" none fresh).0

abbrev busy_task : Task ℕ
busy_task = record { job = start_job 2 new_job; phase = working; cancelling = false }

abbrev at_work : Runner ℕ
at_work = begin 2 2 new_task holding

abbrev idle : Runner ℕ
idle = complete 5 5 (returned 42) busy_task at_work

holding_reached : Reaches 100 10 1 holding
unfolding init init_store
holding_reached = next start (submitted 1 1 "a" "scrape" none fresh (tt, tt))

at_work_reached : Reaches 100 10 1 at_work
unfolding init init_store submit
at_work_reached =
    next holding_reached (begun 2 2 new_task holding (inl refl) refl refl (omega arith))

idle_reached : Reaches 100 10 1 idle
unfolding init init_store submit create start_job begin move save write_task aliased move_task
idle_reached = next at_work_reached (completed 5 5 (returned 42) busy_task at_work (inl refl) refl)

IsSound-Reaches_example : IsSound 1 at_work
IsSound-Reaches_example = IsSound-Reaches 1 100 10 at_work at_work_reached

running_bounded_example : length (filter is_running at_work.store.jobs) ≤ 1
running_bounded_example = running_bounded 100 10 1 at_work at_work_reached

cancel-IsStopped_example :
    ((j : Job ℕ)
      → (cancel 3 3 3 "a" at_work).1 ≡ ok j
      → IsStopped "a" j (cancel 3 3 3 "a" at_work).0)
    × ((e : DomainError)
        → (cancel 3 3 3 "a" at_work).1 ≡ err e
        → (e.kind ≡ not_found_error)
          × (find_job "a" (cancel 3 3 3 "a" at_work).0.store.jobs ≡ none))
cancel-IsStopped_example = cancel-IsStopped 100 10 1 3 3 3 "a" at_work at_work_reached
