-- ===== src/Tests/Core.antt =====
-- The tables and the cache at concrete values, and a text that is cut at a word.
use web_search_api.Prelude.{ℕ, ◌+◌, ◌⊎◌, ◌≤◌, ◌≡◌, refl, Bool, some, [], ◌∷◌, arith, ◌==◌}
use web_search_api.Core.Result.{ok}
use web_search_api.Core.Cache.{TtlCache, Caller, peek, queue, queue_single_flight}
use web_search_api.Core.Concurrency.{
  Gather, queued, running, init, Step, acquire, Runs, start, then, results,
}
use web_search_api.Core.Concurrency.Gathering.{in_flight, gather_results}
use web_search_api.Text.Truncate.{truncate}
use web_search_api.Text.Truncate.Bounds.{IsCut, truncate-IsCut}

abbrev cache : TtlCache ℕ
cache = record { ttl = 10; value = some 7; stored_at = 100 }

abbrev first : Caller ℕ
first = record { looked_at = 120; made = ok 8; done_at = 125 }

abbrev second : Caller ℕ
second = record { looked_at = 126; made = ok 9; done_at = 127 }

queue_single_flight_example :
    ((queue (first ∷ second ∷ []) cache).1 ≡ ok 8 ∷ ok 8 ∷ [])
    × ((queue (first ∷ second ∷ []) cache).2 ≡ 1)
unfolding peek
queue_single_flight_example =
    queue_single_flight first (second ∷ []) cache 8 refl refl (omega arith) (omega arith, tt)

abbrev is_blank : ℕ → Bool
is_blank c = c == b' '

truncate-IsCut_example :
    IsCut is_blank
      (97 ∷ 98 ∷ 99 ∷ 100 ∷ b' ' ∷ 101 ∷ [])
      5
      (truncate is_blank (97 ∷ 98 ∷ 99 ∷ 100 ∷ b' ' ∷ 101 ∷ []) 5)
truncate-IsCut_example = truncate-IsCut is_blank (97 ∷ 98 ∷ 99 ∷ 100 ∷ b' ' ∷ 101 ∷ []) 5

abbrev both_queued : Gather ℕ
both_queued = record { slots = queued 7 ∷ queued 8 ∷ []; free = 1 }

abbrev first_running : Gather ℕ
first_running = record { slots = running 7 ∷ queued 8 ∷ []; free = 0 }

first_step : Runs 1 (init 1 (7 ∷ 8 ∷ [])) first_running
unfolding init
first_step =
    then 0 both_queued both_queued first_running (start both_queued)
      (acquire [] (queued 8 ∷ []) 7 0)

gather_results_example :
    (in_flight first_running.slots ≤ 1)
    × (1 ≤ 2 + 2)
    × ((results first_running.slots ≡ some (7 ∷ 8 ∷ [])) ⊎ ((h : Gather ℕ) × Step first_running h))
gather_results_example = gather_results 1 (7 ∷ 8 ∷ []) 1 first_running (omega arith) first_step
