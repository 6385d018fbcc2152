-- ===== src/Tests/Finish.antt =====
-- The end of a stateless trial that was called twice, and a late second result for it.
use evalai.Base.{ℕ, ◌+◌, true, false, Option, none, some, List, [], ◌∷◌, ◌≡◌, refl}
use evalai.Enums.{RunStatus, TrialStatus, AttemptStatus, RepeatMode}
use evalai.Runs.{Database, Run, Trial, Attempt, GradingSource, emit}
use evalai.Runs.Trials.{terminate, enqueue_grade}
use evalai.Runs.Finish.{
  Prepared, ExecutionOutcome, attempt_status, finish_attempt, record_call, record_calls, conclude,
  finish_open, finish,
}

abbrev a_run : Run
a_run = record {
  id = 1;
  scenario_id = 2;
  manifest = record {
    repeat_mode = RepeatMode.full_episode;
    restart_interrupted_episodes = true;
    max_target_calls = none;
  };
  status = RunStatus.running;
  planned_trial_count = 1;
  started_at = some 9;
  finished_at = none;
  cancel_requested_at = none;
}

abbrev a_trial : Trial
a_trial = record {
  id = 5;
  run_id = 1;
  case_id = 3;
  candidate_key = "c";
  repeat_index = 0;
  status = TrialStatus.running;
  error = none;
  started_at = some 10;
  finished_at = none;
}

abbrev first_attempt : Attempt
first_attempt = record {
  id = 20;
  trial_id = 5;
  stage = "target";
  attempt_index = 0;
  status = AttemptStatus.running;
  worker_id = some "a";
  mutation_outcome_known = true;
  error = none;
  finished_at = none;
}

abbrev executed : Database
executed = record {
  jobs = [];
  runs = a_run ∷ [];
  trials = a_trial ∷ [];
  attempts = first_attempt ∷ [];
  gradings =
      record {
        id = 6;
        run_id = 1;
        source = GradingSource.initial;
        completed = false;
        finished_at = none;
      }
      ∷ [];
  grades = [];
  events = [];
}

abbrev prepared : Prepared
prepared = record {
  trial_id = 5;
  run_id = 1;
  attempt_id = 20;
  stage = "target";
  grading_run_id = 6;
}

abbrev retried : ExecutionOutcome
retried = record {
  status = TrialStatus.success;
  error = none;
  attempts =
      ("target", 0, record { status = TrialStatus.timeout; error = none; retryable = true })
      ∷ ("target", 1, record { status = TrialStatus.success; error = none; retryable = false })
      ∷ [];
  has_evidence = true;
  episode_status = none;
}

abbrev late : ExecutionOutcome
late = record {
  status = TrialStatus.provider_error;
  error = none;
  attempts = [];
  has_evidence = false;
  episode_status = none;
}

abbrev statuses : List Attempt → List (ℕ × AttemptStatus)
statuses [] = []
statuses (a ∷ rest) = (a.attempt_index, a.status) ∷ statuses rest

abbrev attempts_of : Option Database → List Attempt
attempts_of none = []
attempts_of (some db) = db.attempts

abbrev fresh_id : ℕ → ℕ
fresh_id n = n + 21

two_attempts :
    statuses (attempts_of (finish 40 30 fresh_id prepared retried executed))
    ≡ (0, AttemptStatus.timeout) ∷ (1, AttemptStatus.success) ∷ []
unfolding finish finish_open conclude record_calls record_call finish_attempt attempt_status
    terminate emit enqueue_grade
two_attempts = refl
