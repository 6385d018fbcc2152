-- ===== src/Runs/Finalize.antt =====
-- backend/eval_triage/execution/finalize.py: when a grading run and a run are complete.
use evalai.Base.{
  ℕ, String, Bool, true, false, not, ◌&&◌, ◌||◌, Option, none, some, List, [], ◌∷◌, ◌==◌, nat_eq,
  if◌then◌else◌, count, filter, map, any, contains,
}
use evalai.Base.Table.{get, set}
use evalai.Base.Json.{str, uuid, end, field}
use evalai.Enums.{
  RunStatus, TrialStatus, Verdict, JobKind, run_terminal, trial_terminal, job_terminal, same_kind,
}
use evalai.Jobs.{Job}
use evalai.Runs.{
  Database, Run, Trial, GradingRun, GradingSource, GradeRow, EventType, emit, trial_count,
  trial_counts, run_key, grading_key,
}

-- `Job.status.in_(OPEN_JOBS)`: queued or running
abbrev pub open_job : Job → Bool
open_job j = not (job_terminal j.status)

abbrev pub open_grade_job : ℕ → Job → Bool
open_grade_job gid j =
    same_kind j.kind JobKind.grade
    && open_job j
    && (elim j.payload.grading_run_id [ none ↦ false | some g ↦ g == gid ])

abbrev pub open_trial : ℕ → Trial → Bool
open_trial run t = t.run_id == run && not (trial_terminal t.status)

abbrev is_initial : GradingSource → Bool
is_initial GradingSource.initial = true
is_initial GradingSource.regrade = false

unfoldable pub grading_blocked : GradingRun → Database → Bool
grading_blocked g db =
    not (count (open_grade_job g.id) db.jobs == 0)
    || (is_initial g.source && not (count (open_trial g.run_id) db.trials == 0))

unfoldable pub maybe_finalize_grading : ℕ → ℕ → Database → Bool × Database
maybe_finalize_grading clock gid db = elim (get grading_key gid db.gradings) [
  | none ↦ (false, db)
  | some g ↦ if g.completed then (false, db) else if grading_blocked g db then (false, db) else (
    true,
    emit g.run_id EventType.grading_finished gid (field "grading_run_id" (uuid gid) end)
        (record db {
          gradings =
              set grading_key (record g { completed = true; finished_at = some clock }) db.gradings;
        }),
  )
]

unfoldable pub finalize_gradings : ℕ → List ℕ → Database → Database
finalize_gradings clock [] db = db
finalize_gradings clock (g ∷ gs) db =
    finalize_gradings clock gs (maybe_finalize_grading clock g db).1

abbrev pub job_of_run : ℕ → Job → Bool
job_of_run run j = (elim j.run_id [ none ↦ false | some r ↦ r == run ]) && open_job j

-- `any(counts.get(s, 0) for s in PROBLEM_STATUSES)`
unfoldable pub has_problem : ℕ → Database → Bool
has_problem run db =
    any (λ s. not (trial_count run s db == 0))
      (TrialStatus.provider_error ∷ TrialStatus.timeout ∷ TrialStatus.unsupported
        ∷ TrialStatus.indeterminate ∷ TrialStatus.skipped ∷ [])

abbrev pub grading_ids : ℕ → Database → List ℕ
grading_ids run db = map grading_key (filter (λ (g : GradingRun). g.run_id == run) db.gradings)

abbrev is_error : Verdict → Bool
is_error Verdict.error = true
is_error _ = false

-- The count of error grades in the grading runs of the run; with no grading run there are none.
unfoldable pub grade_errors : ℕ → Database → ℕ
grade_errors run db =
    count (λ (g : GradeRow). contains (grading_ids run db) g.grading_run_id && is_error g.verdict)
      db.grades

abbrev pub requested : Option ℕ → Bool
requested none = false
requested (some _) = true

unfoldable pub final_status : Run → Database → RunStatus
final_status run db =
    if requested run.cancel_requested_at
    then RunStatus.cancelled
    else if has_problem run.id db || not (grade_errors run.id db == 0)
    then RunStatus.completed_with_errors
    else RunStatus.completed

abbrev pub final_event : Run → EventType
final_event run =
    if requested run.cancel_requested_at then EventType.run_cancelled else EventType.run_finished

abbrev run_text : RunStatus → String
run_text RunStatus.queued = "queued"
run_text RunStatus.running = "running"
run_text RunStatus.cancelling = "cancelling"
run_text RunStatus.completed = "completed"
run_text RunStatus.completed_with_errors = "completed_with_errors"
run_text RunStatus.cancelled = "cancelled"
run_text RunStatus.failed = "failed"

-- A trial that has not ended, or a job of the run that has not: the run stays open.
unfoldable pub run_blocked : ℕ → Database → Bool
run_blocked run db =
    not (trial_count run TrialStatus.pending db == 0)
    || not (trial_count run TrialStatus.running db == 0)
    || not (count (job_of_run run) db.jobs == 0)

-- The end of `maybe_finalize`, once nothing is open.
unfoldable pub close_run : ℕ → Run → Database → Database
close_run clock run db =
    let graded = finalize_gradings clock (grading_ids run.id db) db in
    let s = final_status run graded in
    emit run.id (final_event run) run.id
      (field "status" (str (run_text s)) (field "counts" (trial_counts run.id db) end))
      (record graded {
        runs = set run_key (record run { status = s; finished_at = some clock }) graded.runs;
      })

unfoldable pub maybe_finalize : ℕ → ℕ → Database → Bool × Database
maybe_finalize clock run_id db = elim (get run_key run_id db.runs) [
  | none ↦ (false, db)
  | some run ↦
      if run_terminal run.status
      then (false, db)
      else if run_blocked run_id db
      then (false, db)
      else (true, close_run clock run db)
]
