-- ===== src/Jobs/Leases.antt =====
-- backend/eval_triage/execution/jobs.py: the calls on a job that a worker holds, the cancelling of
-- queued jobs and the recovery of expired leases.
use Prim.Native.String.{◌++◌ as str_append}
use evalai.Base.{
  ℕ, ◌+◌, ◌-◌, String, Bool, true, false, not, ◌&&◌, ◌||◌, Option, none, some, List, ltb, ◌==◌,
  nat_eq, string_eq, if◌then◌else◌, filter, count, map,
}
use evalai.Base.Table.{get, set}
use evalai.Base.Json.{Json, null, str, Fields, end, field}
use evalai.Enums.{JobStatus, JobKind, job_queued, job_running}
use evalai.Jobs.{Job, key, kind_asked}

-- `job.lease_owner == worker_id`
abbrev pub owned_by : String → Job → Bool
owned_by w j = elim j.lease_owner [ none ↦ false | some o ↦ o == w ]

unfoldable pub heartbeat : ℕ → String → ℕ → ℕ → List Job → Bool × List Job
heartbeat id worker lease clock q = elim (get key id q) [
  | none ↦ (false, q)
  | some job ↦ if not (job_running job.status) || not (owned_by worker job) then (false, q) else (
    true,
    set key (record job { heartbeat_at = some clock; lease_expires_at = some (clock + lease) }) q,
  )
]

-- `result or {}`
abbrev or_empty : Option Fields → Fields
or_empty none = end
or_empty (some fs) = fs

unfoldable pub completed : Option Fields → ℕ → Job → Job
completed result clock job = record job {
  status = JobStatus.succeeded;
  result = some (or_empty result);
  finished_at = some clock;
  lease_expires_at = none;
}

unfoldable pub complete : ℕ → String → Option Fields → ℕ → List Job → Bool × List Job
complete id worker result clock q = elim (get key id q) [
  | none ↦ (false, q)
  | some job ↦
      if not (owned_by worker job) || not (job_running job.status)
      then (false, q)
      else (true, set key (completed result clock job) q)
]

-- The strings that `fail` returns.
pub data FailReply : Type 0 where
  lost requeued failed : FailReply

-- `retry_delay is not None and job.attempts < job.max_attempts`, with the delay for the requeue
abbrev retry_after : Option ℕ → Job → Option ℕ
retry_after none job = none
retry_after (some delay) job = if ltb job.attempts job.max_attempts then some delay else none

unfoldable pub failed_job : Fields → Option ℕ → ℕ → Job → FailReply × Job
failed_job error retry_delay clock job =
    let job' = record job { error = some error; lease_owner = none; lease_expires_at = none } in
    elim (retry_after retry_delay job) [
      | some delay ↦ (
        FailReply.requeued,
        record job' { status = JobStatus.queued; next_available_at = clock + delay },
      )
      | none ↦
          (FailReply.failed, record job' { status = JobStatus.failed; finished_at = some clock })
    ]

unfoldable pub fail : ℕ → String → Fields → Option ℕ → ℕ → List Job → FailReply × List Job
unfolding failed_job
fail id worker error retry_delay clock q = elim (get key id q) [
  | none ↦ (FailReply.lost, q)
  | some job ↦
      if not (owned_by worker job)
      then (FailReply.lost, q)
      else let (reply, job') = failed_job error retry_delay clock job in (reply, set key job' q)
]

-- `max(0, job.attempts - 1)` is the truncated subtraction.
unfoldable pub deferred : ℕ → String → ℕ → Job → Job
deferred delay note clock job = record job {
  status = JobStatus.queued;
  attempts = job.attempts - 1;
  lease_owner = none;
  lease_expires_at = none;
  next_available_at = clock + delay;
  result = some (field "deferred" (str note) end);
}

unfoldable pub defer : ℕ → String → ℕ → String → ℕ → List Job → List Job
defer id worker delay note clock q = elim (get key id q) [
  | none ↦ q
  | some job ↦ if not (owned_by worker job) then q else set key (deferred delay note clock job) q
]

-- The rows that `cancel_queued` selects.
unfoldable pub cancels : ℕ → Option (List JobKind) → Job → Bool
cancels run kinds j =
    (elim j.run_id [ none ↦ false | some r ↦ r == run ])
    && job_queued j.status
    && kind_asked kinds j.kind

unfoldable pub cancel_row : ℕ → Option (List JobKind) → ℕ → Job → Job
cancel_row run kinds clock j =
    if cancels run kinds j
    then record j { status = JobStatus.cancelled; finished_at = some clock }
    else j

unfoldable pub cancel_queued : ℕ → Option (List JobKind) → ℕ → List Job → ℕ × List Job
cancel_queued run kinds clock q = (count (cancels run kinds) q, map (cancel_row run kinds clock) q)

-- SQL's `lease_expires_at < now` is not true of a null.
unfoldable pub lease_expired : ℕ → Job → Bool
lease_expired now j =
    job_running j.status && (elim j.lease_expires_at [ none ↦ false | some t ↦ ltb t now ])

-- How an f-string prints the owner, and how it stands in the error.
abbrev owner_text : Option String → String
owner_text none = "None"
owner_text (some o) = o

abbrev owner_json : Option String → Json
owner_json none = null
owner_json (some o) = str o

unfoldable pub lease_error : Option String → Fields
lease_error owner = field "code" (str "lease_expired") (
    field "message"
      (str (str_append "worker " (str_append (owner_text owner) " stopped heartbeating")))
      (field "previous_owner" (owner_json owner) end))

unfoldable pub recovered : ℕ → Job → Job
recovered now job =
    let job' = record job {
      error = some (lease_error job.lease_owner);
      lease_owner = none;
      lease_expires_at = none;
    } in
    if ltb job.attempts job.max_attempts
    then record job' { status = JobStatus.queued; next_available_at = now }
    else record job' { status = JobStatus.failed; finished_at = some now }

unfoldable pub recover_row : ℕ → Job → Job
recover_row now j = if lease_expired now j then recovered now j else j

unfoldable pub recover_expired : ℕ → List Job → List ℕ × List Job
recover_expired now q = (map key (filter (lease_expired now) q), map (recover_row now) q)
