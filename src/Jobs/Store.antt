-- ===== src/Jobs/Store.antt =====
-- app/services/jobs/memory.py: `InMemoryJobStore`. `_jobs` is the list of its values in insertion
-- order, each under its own `id`; `_settled` maps an id to an `asyncio.Event`, which is a number, and
-- `fired` lists the events that are set. No method awaits while it holds the lock, so each is one
-- step; `now` is what `self._clock()` returns in it. `sorted` is the stable insertion sort.
pub mod Jobs
pub mod Eviction
pub mod Capacity
pub mod Reads
pub mod Waiting
pub mod Links
pub mod Events
use web_search_api.Prelude.{
  ℕ, ◌+◌, ◌-◌, String, Bool, true, false, not, ◌&&◌, Option, none, some, List, [], ◌∷◌, ◌++◌, map,
  leb, ltb, ◌==◌, if◌then◌else◌, length, take, filter, str_eq, or_else,
}
use web_search_api.Jobs.Base.{JobStatus, Job, is_terminal, same_status, finish_time}

pub record Store (R : Type 0) : Type 0 where
  pub retention : ℕ
  pub max_jobs : ℕ
  pub jobs : List (Job R)
  pub settled : List (String × ℕ)
  pub fired : List ℕ
  pub next_event : ℕ

-- What the first part of `wait_for_terminal` finds: no job, a job to return at once, or an event to
-- wait for.
pub data Wait (R : Type 0) : Type 0 where
  unknown : Wait R
  settled_now : Job R → Wait R
  wait_on : ℕ → Wait R

module _ {R : Type 0} where
  unfoldable pub init : ℕ → ℕ → Store R
  init retention max_jobs = record {
    retention = retention;
    max_jobs = max_jobs;
    jobs = [];
    settled = [];
    fired = [];
    next_event = 0;
  }

  -- `self._jobs.get(job_id)`
  unfoldable pub find_job : String → List (Job R) → Option (Job R)
  find_job k [] = none
  find_job k (j ∷ js) = if str_eq j.id k then some j else find_job k js

  -- `self._jobs[job.id] = job`
  unfoldable pub set_job : Job R → List (Job R) → List (Job R)
  set_job j [] = j ∷ []
  set_job j (i ∷ js) = if str_eq i.id j.id then j ∷ js else i ∷ set_job j js

  -- `del self._jobs[job_id]`
  unfoldable pub drop_job : String → List (Job R) → List (Job R)
  drop_job k js = filter (λ j. not (str_eq j.id k)) js

unfoldable pub find_event : String → List (String × ℕ) → Option ℕ
find_event k [] = none
find_event k ((i, e) ∷ es) = if str_eq i k then some e else find_event k es

unfoldable pub drop_event : String → List (String × ℕ) → List (String × ℕ)
drop_event k [] = []
drop_event k ((i, e) ∷ es) =
    let rest = drop_event k es in if str_eq i k then rest else (i, e) ∷ rest

module _ {R : Type 0} where
  -- `_release`
  unfoldable pub release : String → Store R → Store R
  release k s = elim (find_event k s.settled) [
    | none ↦ s
    | some e ↦ record s { settled = drop_event k s.settled; fired = e ∷ s.fired }
  ]

  -- `del self._jobs[job_id]` and `_release`
  unfoldable pub discard : String → Store R → Store R
  discard k s = release k (record s { jobs = drop_job k s.jobs })

  -- `self._settled.setdefault(job_id, asyncio.Event())`
  unfoldable pub event_for : String → Store R → Store R × ℕ
  event_for k s = elim (find_event k s.settled) [
    | none ↦ (
      record s { settled = s.settled ++ (k, s.next_event) ∷ []; next_event = s.next_event + 1 },
      s.next_event,
    )
    | some e ↦ (s, e)
  ]

  unfoldable pub retention_of : Store R → Job R → ℕ
  retention_of s j = or_else j.retention_seconds s.retention

  -- `_expired`
  unfoldable pub expired : ℕ → Store R → Job R → Bool
  expired now s j =
      if not (is_terminal j.status)
      then false
      else if leb (retention_of s j) 0
      then false
      else leb (retention_of s j) (now - finish_time j)

  unfoldable pub discard_all : List String → Store R → Store R
  discard_all [] s = s
  discard_all (k ∷ ks) s = discard_all ks (discard k s)

  -- `_purge_locked`
  unfoldable pub purge : ℕ → Store R → Store R
  purge now s = discard_all (map (λ j. j.id) (filter (expired now s) s.jobs)) s

  -- Stable insertion: `sorted(..., key=created_at)`.
  unfoldable pub insert_oldest : Job R → List (Job R) → List (Job R)
  insert_oldest j [] = j ∷ []
  insert_oldest j (i ∷ js) =
      if leb j.created_at i.created_at then j ∷ i ∷ js else i ∷ insert_oldest j js

  unfoldable pub sort_oldest : List (Job R) → List (Job R)
  sort_oldest [] = []
  sort_oldest (j ∷ js) = insert_oldest j (sort_oldest js)

  -- The loop of `_evict_locked`; its first test is the early return.
  unfoldable pub evict_loop : List (Job R) → Store R → Store R
  evict_loop [] s = s
  evict_loop (j ∷ js) s =
      let rest = evict_loop js (discard j.id s) in
      if leb (length s.jobs) s.max_jobs then s else rest

  unfoldable pub evict : Store R → Store R
  evict s = evict_loop (sort_oldest (filter (λ j. is_terminal j.status) s.jobs)) s

  unfoldable pub fire : ℕ → Store R → Store R
  fire e s = record s { fired = e ∷ s.fired }

  -- the body of `put` between the purge and the eviction
  unfoldable pub enter : Job R → Store R → Store R
  enter j s =
      let (s', e) = event_for j.id (record s { jobs = set_job j s.jobs }) in
      if is_terminal j.status then fire e s' else s'

  unfoldable pub put : ℕ → Job R → Store R → Store R
  put now j s = evict (enter j (purge now s))

  unfoldable pub get : ℕ → String → Store R → Store R × Option (Job R)
  get now k s = (purge now s, find_job k (purge now s).jobs)

  -- `sort(key=created_at, reverse=True)` is stable as well.
  unfoldable pub insert_newest : Job R → List (Job R) → List (Job R)
  insert_newest j [] = j ∷ []
  insert_newest j (i ∷ js) =
      if leb i.created_at j.created_at then j ∷ i ∷ js else i ∷ insert_newest j js

  unfoldable pub sort_newest : List (Job R) → List (Job R)
  sort_newest [] = []
  sort_newest (j ∷ js) = insert_newest j (sort_newest js)

  abbrev pub wanted : Option JobStatus → Job R → Bool
  wanted none j = true
  wanted (some st) j = same_status j.status st

  unfoldable pub list : ℕ → Option JobStatus → ℕ → Store R → Store R × List (Job R)
  list now st limit s =
      (purge now s, take limit (sort_newest (filter (wanted st) (purge now s).jobs)))

  unfoldable pub delete : String → Store R → Store R × Bool
  delete k s = elim (find_job k s.jobs) [
    | none ↦ (release k s, false)
    | some _ ↦ (discard k s, true)
  ]

  -- The part of `wait_for_terminal` under the first lock. What follows the wait is `get`.
  unfoldable pub start_wait : ℕ → String → Store R → Store R × Wait R
  start_wait now k s =
      let s' = purge now s in
      elim (find_job k s'.jobs) [
        | none ↦ (s', unknown)
        | some j ↦
            let (s'', e) = event_for k s' in
            if is_terminal j.status then (s'', settled_now j) else (s'', wait_on e)
      ]
