-- ===== src/Jobs/Base.antt =====
-- app/services/jobs/base.py. Times are numbers of clock ticks; a job's result is of any type `R`.
use web_search_api.Prelude.{ℕ, String, Bool, true, false, Option, none, or_else}
use web_search_api.Core.Errors.{ErrorPayload}

pub data JobStatus : Type 0 where
  queued running succeeded failed cancelled : JobStatus

abbrev pub is_terminal : JobStatus → Bool
is_terminal queued = false
is_terminal running = false
is_terminal succeeded = true
is_terminal failed = true
is_terminal cancelled = true

abbrev pub same_status : JobStatus → JobStatus → Bool
same_status queued queued = true
same_status running running = true
same_status succeeded succeeded = true
same_status failed failed = true
same_status cancelled cancelled = true
same_status _ _ = false

pub record Job (R : Type 0) : Type 0 where
  pub id : String
  pub kind : String
  pub status : JobStatus
  pub created_at : ℕ
  pub started_at : Option ℕ
  pub finished_at : Option ℕ
  pub result : Option R
  pub error : Option ErrorPayload
  pub retention_seconds : Option ℕ

-- `Job.create`: `uuid4().hex` is the argument `id`, and `now` is always given by the runner.
unfoldable pub create : {R : Type 0} → String → String → ℕ → Option ℕ → Job R
create id kind now retention = record {
  id = id;
  kind = kind;
  status = queued;
  created_at = now;
  started_at = none;
  finished_at = none;
  result = none;
  error = none;
  retention_seconds = retention;
}

-- `finished_at if finished_at is not None else created_at`.
abbrev pub finish_time : {R : Type 0} → Job R → ℕ
finish_time j = or_else j.finished_at j.created_at
