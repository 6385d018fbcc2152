-- ===== src/Runs/Reconcile.antt =====
-- backend/eval_triage/execution/finalize.py: `reconcile_failed_jobs`. `new_job` is what `new_id` gives for
-- the grade job queued in place of a failed job, and `order` the order in which Python visits a set; a
-- payload without the grading run is the exception, which rolls the transaction back.
pub mod Steps
pub mod Again
pub mod Closing
use evalai.Base.{
  ℕ, String, Bool, true, false, not, ◌&&◌, ◌||◌, Option, none, some, List, [], ◌∷◌, leb, ◌==◌,
  nat_eq, if◌then◌else◌, filter, map, contains,
}
use evalai.Base.Table.{get}
use evalai.Base.Json.{
  Json, null, bool, int, str, arr, obj, nil, Fields, end, field, get_field, set_field,
}
use evalai.Enums.{TrialStatus, AttemptStatus, JobStatus, JobKind, trial_terminal, same_kind}
use evalai.Jobs.{Job}
use evalai.Runs.{Database, Trial, Attempt, trial_key}
use evalai.Runs.Finalize.{maybe_finalize}
use evalai.Runs.Trials.{terminate, running_of}

-- The truth of a JSON value in a condition
abbrev truthy : Json → Bool
truthy null = false
truthy (bool b) = b
truthy (int n) = not (n == 0)
truthy (str String.[]) = false
truthy (arr nil) = false
truthy (obj end) = false
truthy _ = true

abbrev is_set : Option Json → Bool
is_set none = false
is_set (some v) = truthy v

-- `job.result or {}`
abbrev pub or_end : Option Fields → Fields
or_end none = end
or_end (some fs) = fs

-- `(job.result or {}).get("reconciled")`
unfoldable pub is_reconciled : Job → Bool
is_reconciled j = is_set (get_field "reconciled" (or_end j.result))

abbrev pub is_failed : JobStatus → Bool
is_failed JobStatus.failed = true
is_failed _ = false

abbrev pub failed_work : Job → Bool
failed_work j =
    is_failed j.status && (same_kind j.kind JobKind.trial || same_kind j.kind JobKind.grade)

abbrev pub marked : Job → Job
marked j = record j { result = some (set_field "reconciled" (bool true) (or_end j.result)) }

-- The flush of `job.result`, an UPDATE of the rows with the id of the job
abbrev pub mark : ℕ → Job → Job
mark id j = if j.id == id then marked j else j

-- An attempt that the failed job left running.
unfoldable pub interrupt_failed : ℕ → ℕ → Attempt → Attempt
interrupt_failed clock trial a =
    if running_of trial a
    then record a {
      finished_at = some clock;
      error =
          some
            (field "code" (str "interrupted") (field "message" (str "execution job failed") end));
      status = AttemptStatus.interrupted;
    }
    else a

-- `(job.error or {}).get("message", ...)`
unfoldable pub message_of : Job → Json
message_of j = elim (get_field "message" (or_end j.error)) [
  | none ↦ str "execution job failed repeatedly"
  | some v ↦ v
]

abbrev pub add : ℕ → List ℕ → List ℕ
add run touched = if contains touched run then touched else run ∷ touched

abbrev insert_sorted : ℕ → List ℕ → List ℕ
insert_sorted n [] = n ∷ []
insert_sorted n (m ∷ ms) = if leb n m then n ∷ m ∷ ms else m ∷ insert_sorted n ms

abbrev pub sorted : List ℕ → List ℕ
sorted [] = []
sorted (n ∷ ns) = insert_sorted n (sorted ns)

abbrev pub trial_of : Job → List Trial → Option Trial
trial_of j trials = elim j.payload.trial_id [ none ↦ none | some id ↦ get trial_key id trials ]

module _ (order : List ℕ → List ℕ) (clock : ℕ) (new_job : ℕ → ℕ) where
  -- A trial that its failed job left open ends as a provider error, and is graded.
  unfoldable pub close_trial : Job → Trial → List ℕ × Database → Option (List ℕ × Database)
  close_trial j t (touched, db) = elim j.payload.grading_run_id [
    | none ↦ none
    | some gid ↦ some (
      add t.run_id touched,
      terminate (new_job j.id) clock t TrialStatus.provider_error
          (some (field "code" (str "execution_failed") (field "message" (message_of j) end))) gid
          (record db { attempts = map (interrupt_failed clock t.id) db.attempts }),
    )
  ]

  unfoldable pub reconcile_trial :
      Job → Option Trial → List ℕ × Database → Option (List ℕ × Database)
  reconcile_trial j none state = some state
  reconcile_trial j (some t) state =
      if trial_terminal t.status then some state else close_trial j t state

  abbrev touch : Option ℕ → List ℕ × Database → List ℕ × Database
  touch none state = state
  touch (some run) (touched, db) = (add run touched, db)

  unfoldable pub reconcile_job : Job → List ℕ × Database → Option (List ℕ × Database)
  reconcile_job j (touched, db) =
      if is_reconciled j
      then some (touched, db)
      else (let db1 = record db { jobs = map (mark j.id) db.jobs } in
          if same_kind j.kind JobKind.trial
          then reconcile_trial j (trial_of j db1.trials) (touched, db1)
          else some (touch j.run_id (touched, db1)))

  unfoldable pub reconcile_jobs : List Job → List ℕ × Database → Option (List ℕ × Database)
  reconcile_jobs [] state = some state
  reconcile_jobs (j ∷ js) state = elim (reconcile_job j state) [
    | none ↦ none
    | some state' ↦ reconcile_jobs js state'
  ]

  unfoldable pub finalize_runs : List ℕ → Database → Database
  finalize_runs [] db = db
  finalize_runs (r ∷ rs) db = finalize_runs rs (maybe_finalize clock r db).1

  abbrev pub finish : List ℕ × Database → List ℕ × Database
  finish (touched, db) = (sorted touched, finalize_runs (order touched) db)

  unfoldable pub reconcile_failed_jobs : Database → Option (List ℕ × Database)
  reconcile_failed_jobs db = elim (reconcile_jobs (filter failed_work db.jobs) ([], db)) [
    | none ↦ none
    | some state ↦ some (finish state)
  ]
