-- ===== src/Runs.antt =====
-- The rows of backend/eval_triage/db/models.py that the life of a run changes, and the database that
-- holds them; backend/eval_triage/execution/events.py: the run events.
pub mod Finalize
pub mod Trials
pub mod Completion
pub mod Ended
pub mod Cancel
pub mod Cancelled
pub mod Ending
pub mod Starting
pub mod Reconcile
pub mod Finish
pub mod Finished
pub mod Plan
pub mod Validate
pub mod Slots
pub mod Create
pub mod Planned
pub mod Created
use evalai.Base.{
  ℕ, zero, suc, String, Bool, true, false, Option, none, some, List, [], ◌∷◌, ◌++◌, ◌&&◌, ◌==◌,
  nat_eq, string_eq, if◌then◌else◌, count, any,
}
use evalai.Base.Json.{Json, str, int, obj, Fields, end, field}
use evalai.Enums.{RunStatus, TrialStatus, AttemptStatus, Verdict, RepeatMode, Pack, same_trial}
use evalai.Jobs.{Job}

-- What of a run's manifest the execution reads, its defaults filled in.
pub record Manifest : Type 0 where
  pub repeat_mode : RepeatMode
  pub restart_interrupted_episodes : Bool
  pub max_target_calls : Option ℕ

pub record Run : Type 0 where
  pub id : ℕ
  pub scenario_id : ℕ
  pub manifest : Manifest
  pub status : RunStatus
  pub planned_trial_count : ℕ
  pub started_at : Option ℕ
  pub finished_at : Option ℕ
  pub cancel_requested_at : Option ℕ

pub record Trial : Type 0 where
  pub id : ℕ
  pub run_id : ℕ
  pub case_id : ℕ
  pub candidate_key : String
  pub repeat_index : ℕ
  pub status : TrialStatus
  pub error : Option Fields
  pub started_at : Option ℕ
  pub finished_at : Option ℕ

pub record Attempt : Type 0 where
  pub id : ℕ
  pub trial_id : ℕ
  pub stage : String
  pub attempt_index : ℕ
  pub status : AttemptStatus
  pub worker_id : Option String
  pub mutation_outcome_known : Bool
  pub error : Option Fields
  pub finished_at : Option ℕ

pub data GradingSource : Type 0 where
  initial regrade : GradingSource

pub record GradingRun : Type 0 where
  pub id : ℕ
  pub run_id : ℕ
  pub source : GradingSource
  pub completed : Bool
  pub finished_at : Option ℕ

pub record GradeRow : Type 0 where
  pub grading_run_id : ℕ
  pub trial_id : ℕ
  pub verdict : Verdict

-- The closed set EVENT_TYPES: `emit` raises for no other caller.
pub data EventType : Type 0 where
  run_queued run_started trial_started attempt_finished artifact_created grade_created run_progress
        run_finished run_cancelled run_error grading_started grading_finished :
      EventType

pub record Event : Type 0 where
  pub run_id : ℕ
  pub type : EventType
  pub entity_id : ℕ
  pub payload : Fields

pub record Database : Type 0 where
  pub jobs : List Job
  pub runs : List Run
  pub trials : List Trial
  pub attempts : List Attempt
  pub gradings : List GradingRun
  pub grades : List GradeRow
  pub events : List Event

abbrev pub run_key : Run → ℕ
run_key r = r.id

abbrev pub trial_key : Trial → ℕ
trial_key t = t.id

abbrev pub grading_key : GradingRun → ℕ
grading_key g = g.id

abbrev allowed_payload_keys : List String
allowed_payload_keys =
    "status" ∷ "trial_status" ∷ "verdict" ∷ "grader" ∷ "case" ∷ "candidate" ∷ "repeat" ∷ "attempt"
    ∷ "stage" ∷ "reason" ∷ "counts" ∷ "planned" ∷ "terminal" ∷ "kind" ∷ "hash" ∷ "grading_run_id"
    ∷ "outcome" ∷ "message" ∷ "retryable" ∷ []

abbrev pub allowed : String → Bool
allowed k = any (λ a. a == k) allowed_payload_keys

-- `value[:n]`
abbrev pub prefix : ℕ → String → String
prefix zero s = String.[]
prefix (suc n) String.[] = String.[]
prefix (suc n) (String.◌∷◌ c s) = String.◌∷◌ c (prefix n s)

abbrev pub shorten : Json → Json
shorten (str s) = str (prefix 200 s)
shorten v = v

unfoldable pub sanitize : Fields → Fields
sanitize end = end
sanitize (field k v fs) =
    let rest = sanitize fs in if allowed k then field k (shorten v) rest else rest

-- `emit`: the event is appended, and the sequence number is its place in the table.
unfoldable pub emit : ℕ → EventType → ℕ → Fields → Database → Database
emit run type entity payload db = record db {
  events =
      db.events
      ++ record { run_id = run; type = type; entity_id = entity; payload = sanitize payload } ∷ [];
}

-- `counts.get(status, 0)` of `trial_counts`
abbrev pub in_status : ℕ → TrialStatus → Trial → Bool
in_status run s t = t.run_id == run && same_trial t.status s

unfoldable pub trial_count : ℕ → TrialStatus → Database → ℕ
trial_count run s db = count (in_status run s) db.trials

abbrev pub trial_text : TrialStatus → String
trial_text TrialStatus.pending = "pending"
trial_text TrialStatus.running = "running"
trial_text TrialStatus.success = "success"
trial_text TrialStatus.provider_error = "provider_error"
trial_text TrialStatus.timeout = "timeout"
trial_text TrialStatus.cancelled = "cancelled"
trial_text TrialStatus.invalid_output = "invalid_output"
trial_text TrialStatus.unsupported = "unsupported"
trial_text TrialStatus.skipped = "skipped"
trial_text TrialStatus.indeterminate = "indeterminate"

abbrev all_statuses : List TrialStatus
all_statuses =
    TrialStatus.pending ∷ TrialStatus.running ∷ TrialStatus.success ∷ TrialStatus.provider_error
    ∷ TrialStatus.timeout ∷ TrialStatus.cancelled ∷ TrialStatus.invalid_output
    ∷ TrialStatus.unsupported ∷ TrialStatus.skipped ∷ TrialStatus.indeterminate ∷ []

-- The rows of the GROUP BY, which gives no row to a status without trials.
count_rows : ℕ → Database → List TrialStatus → Fields
count_rows run db [] = end
count_rows run db (s ∷ ss) =
    let rest = count_rows run db ss in
    let n = trial_count run s db in if n == 0 then rest else field (trial_text s) (int n) rest

unfoldable pub trial_counts : ℕ → Database → Json
unfolding count_rows
trial_counts run db = obj (count_rows run db all_statuses)
