-- ===== src/Runs/Finished.antt =====
-- What the transaction that finishes a trial promises.
use evalai.Base.{ℕ, Bool, true, some, List, [], ◌∷◌, ◌++◌, ◌≡◌, nat_eq, string_eq, if◌then◌else◌}
use evalai.Base.Table.{get, set}
use evalai.Enums.{JobKind, JobStatus, attempt_terminal}
use evalai.Jobs.{Job}
use evalai.Runs.{Database, Run, Trial, Attempt}
use evalai.Runs.Finish.{Prepared, ExecutionOutcome, Recording, attempt_key, finish_primary}

-- The attempt is in the table, and ended if the flag is set.
abbrev pub IsThere : ℕ → Bool → List Attempt → Type 0
IsThere id used attempts =
    (a : Attempt) × (get attempt_key id attempts ≡ some a)
    × (used ≡ true → attempt_terminal a.status ≡ true)

-- The one job that `db'` has more than `db` waits to grade the trial in the grading run.
abbrev pub QueuesGrade : Trial → ℕ → Database → Database → Type 0
QueuesGrade trial grading db db' =
    (job : Job) × (db'.jobs ≡ db.jobs ++ job ∷ [])
    × (job.kind ≡ JobKind.grade)
    × (job.status ≡ JobStatus.queued)
    × (job.run_id ≡ some trial.run_id)
    × (job.payload.trial_id ≡ some trial.id)
    × (job.payload.grading_run_id ≡ some grading)

module _ (clock new_job : ℕ) (new_attempt : ℕ → ℕ) where
  settled_attempts : Prepared → ExecutionOutcome → Attempt → Recording → List Attempt
  settled_attempts prep outcome primary w =
      if w.primary_used
      then w.db.attempts
      else set attempt_key (finish_primary clock new_job new_attempt prep outcome primary)
          w.db.attempts
