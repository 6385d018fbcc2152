-- ===== src/Runs/Cancel.antt =====
-- backend/eval_triage/execution/runs.py: `cancel_run`; backend/eval_triage/worker.py: `_after_job`.
use evalai.Base.{ℕ, ◌&&◌, Option, none, some, [], ◌∷◌, ◌==◌, nat_eq, if◌then◌else◌, map}
use evalai.Base.Table.{get, set}
use evalai.Base.Json.{str, end, field}
use evalai.Enums.{RunStatus, TrialStatus, JobKind, run_terminal, trial_pending}
use evalai.Jobs.{Job}
use evalai.Jobs.Leases.{cancel_queued}
use evalai.Runs.{Database, Run, Trial, EventType, emit, run_key}
use evalai.Runs.Finalize.{maybe_finalize, maybe_finalize_grading}

-- A trial of the run that has not started ends with the run.
unfoldable pub cancel_trial : ℕ → ℕ → Trial → Trial
cancel_trial clock run t =
    if t.run_id == run && trial_pending t.status
    then record t {
      status = TrialStatus.cancelled;
      error = some (
          field "code" (str "cancelled")
            (field "message" (str "run cancelled before this trial started") end));
      finished_at = some clock;
    }
    else t

abbrev pub cancelling_row : ℕ → Run → Run
cancelling_row clock run = record run {
  cancel_requested_at = elim run.cancel_requested_at [ none ↦ some clock | some c ↦ some c ];
  status = RunStatus.cancelling;
}

-- What `cancel_run` writes before it tries to complete the run.
unfoldable pub request_cancel : ℕ → Run → Database → Database
request_cancel clock run db =
    emit run.id EventType.run_progress run.id (field "status" (str "cancelling") end) (record db {
      runs = set run_key (cancelling_row clock run) db.runs;
      jobs = (cancel_queued run.id (some (JobKind.trial ∷ [])) clock db.jobs).1;
      trials = map (cancel_trial clock run.id) db.trials;
    })

-- The row returned is the session's, which shows what the completion wrote.
unfoldable pub cancel_run : ℕ → ℕ → Database → Option Run × Database
cancel_run clock run_id db = elim (get run_key run_id db.runs) [
  | none ↦ (none, db)
  | some run ↦
      if run_terminal run.status
      then (some run, db)
      else let db' = (maybe_finalize clock run_id (request_cancel clock run db)).1 in
        (get run_key run_id db'.runs, db')
]

-- `_after_job`
unfoldable pub after_job : ℕ → Job → Database → Database
after_job clock j db =
    let db1 : Database = elim j.payload.grading_run_id [
      | none ↦ db
      | some g ↦ (maybe_finalize_grading clock g db).1
    ] in
    elim j.run_id [ none ↦ db1 | some r ↦ (maybe_finalize clock r db1).1 ]
