-- ===== src/Enums.antt =====
-- backend/eval_triage/domain/enums.py: the closed vocabularies. Membership in one of the module's
-- frozen sets, and equality with one member, are Boolean tests.
use evalai.Base.{ℕ, Bool, true, false, ◌==◌, nat_eq}

pub data RunStatus : Type 0 where
  queued running cancelling completed completed_with_errors cancelled failed : RunStatus

abbrev pub run_terminal : RunStatus → Bool
run_terminal RunStatus.completed = true
run_terminal RunStatus.completed_with_errors = true
run_terminal RunStatus.cancelled = true
run_terminal RunStatus.failed = true
run_terminal _ = false

pub data TrialStatus : Type 0 where
  pending running success provider_error timeout cancelled invalid_output unsupported skipped
        indeterminate :
      TrialStatus

abbrev pub trial_terminal : TrialStatus → Bool
trial_terminal TrialStatus.pending = false
trial_terminal TrialStatus.running = false
trial_terminal _ = true

-- Trials whose output exists and can be graded.
abbrev pub trial_has_output : TrialStatus → Bool
trial_has_output TrialStatus.success = true
trial_has_output TrialStatus.invalid_output = true
trial_has_output _ = false

pub data AttemptStatus : Type 0 where
  running success provider_error timeout cancelled invalid_output unsupported interrupted
        indeterminate :
      AttemptStatus

abbrev pub attempt_terminal : AttemptStatus → Bool
attempt_terminal AttemptStatus.running = false
attempt_terminal _ = true

pub data Verdict : Type 0 where
  pass fail abstain error unavailable : Verdict

pub data JobStatus : Type 0 where
  queued running succeeded failed cancelled : JobStatus

abbrev pub job_terminal : JobStatus → Bool
job_terminal JobStatus.succeeded = true
job_terminal JobStatus.failed = true
job_terminal JobStatus.cancelled = true
job_terminal _ = false

abbrev pub job_queued : JobStatus → Bool
job_queued JobStatus.queued = true
job_queued _ = false

abbrev pub job_running : JobStatus → Bool
job_running JobStatus.running = true
job_running _ = false

pub data JobKind : Type 0 where
  trial grade connection_test calibration_fit export import promptfoo inspect_run : JobKind

-- The place of a kind in the enumeration, by which two kinds are compared.
abbrev kind_index : JobKind → ℕ
kind_index JobKind.trial = 0
kind_index JobKind.grade = 1
kind_index JobKind.connection_test = 2
kind_index JobKind.calibration_fit = 3
kind_index JobKind.export = 4
kind_index JobKind.import = 5
kind_index JobKind.promptfoo = 6
kind_index JobKind.inspect_run = 7

abbrev pub same_kind : JobKind → JobKind → Bool
same_kind a b = kind_index a == kind_index b

-- The place of a trial's status in the enumeration, by which two are compared.
abbrev trial_index : TrialStatus → ℕ
trial_index TrialStatus.pending = 0
trial_index TrialStatus.running = 1
trial_index TrialStatus.success = 2
trial_index TrialStatus.provider_error = 3
trial_index TrialStatus.timeout = 4
trial_index TrialStatus.cancelled = 5
trial_index TrialStatus.invalid_output = 6
trial_index TrialStatus.unsupported = 7
trial_index TrialStatus.skipped = 8
trial_index TrialStatus.indeterminate = 9

abbrev pub same_trial : TrialStatus → TrialStatus → Bool
same_trial a b = trial_index a == trial_index b

abbrev pub trial_pending : TrialStatus → Bool
trial_pending TrialStatus.pending = true
trial_pending _ = false

abbrev pub run_cancelling : RunStatus → Bool
run_cancelling RunStatus.cancelling = true
run_cancelling RunStatus.cancelled = true
run_cancelling _ = false

abbrev pub run_queued : RunStatus → Bool
run_queued RunStatus.queued = true
run_queued _ = false

pub data RepeatMode : Type 0 where
  full_episode frozen_context : RepeatMode

pub data Pack : Type 0 where
  exact_classification structured_extraction reference_answer rag memory_lifecycle tool_agent
        robustness_security pairwise_preference probability_calibration :
      Pack
