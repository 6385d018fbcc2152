-- ===== src/Tests/Runs.antt =====
-- The life of a run: a run of one memory episode, at its start, interrupted, and at its end.
use evalai.Base.{
  ◌==◌, nat_eq, ℕ, String, true, false, ◌||◌, none, some, [], ◌∷◌, ◌≡◌, refl, nat_eq, string_eq,
  count, any,
}
use evalai.Jobs.{enqueue, enqueued}
use evalai.Jobs.Leases.{cancels}
use evalai.Base.Table.{get}
use evalai.Base.Json.{end}
use evalai.Base.Int.{ℤ}
use evalai.Enums.{
  JobKind, RunStatus, TrialStatus, AttemptStatus, Verdict, RepeatMode, Pack, run_terminal,
  trial_terminal, run_cancelling,
}
use evalai.Runs.{Database, Run, Trial, Attempt, GradingSource, run_key, trial_key, trial_count}
use evalai.Runs.Finalize.{
  maybe_finalize, run_blocked, final_status, requested, has_problem, grade_errors,
}
use evalai.Runs.Ended.{unfinished, live_job, maybe_finalize-closes}
use evalai.Runs.Trials.{
  Scenario, Prep, Ready, prepare, prepare_live, freeze, start, started, stop, exhausted,
  target_calls, running_of, interrupt, is_agentic, stage_of, announce,
}
use evalai.Runs.Cancel.{cancel_run}
use evalai.Runs.Cancelled.{
  CancelFacts, RowFacts, active_trial_job, trial_kind, cancel_run-settles, cancel_run-stuck,
}
use evalai.Runs.Starting.{prepare-ready}

abbrev episodes : ℕ → Scenario
episodes _ = record { pack = Pack.memory_lifecycle; has_tools = false }

abbrev names : ℕ → String
names _ = "a case"

abbrev run_row : Run
run_row = record {
  id = 1;
  scenario_id = 2;
  manifest = record {
    repeat_mode = RepeatMode.full_episode;
    restart_interrupted_episodes = true;
    max_target_calls = some 1;
  };
  status = RunStatus.running;
  planned_trial_count = 1;
  started_at = some 9;
  finished_at = none;
  cancel_requested_at = none;
}

abbrev trial_row : Trial
trial_row = record {
  id = 5;
  run_id = 1;
  case_id = 3;
  candidate_key = "c";
  repeat_index = 0;
  status = TrialStatus.running;
  error = none;
  started_at = some 10;
  finished_at = none;
}

-- The attempt of a worker that died.
abbrev left_over : Attempt
left_over = record {
  id = 20;
  trial_id = 5;
  stage = "episode";
  attempt_index = 0;
  status = AttemptStatus.running;
  worker_id = some "a";
  mutation_outcome_known = false;
  error = none;
  finished_at = none;
}

abbrev interrupted : Database
interrupted = record {
  jobs = [];
  runs = run_row ∷ [];
  trials = trial_row ∷ [];
  attempts = left_over ∷ [];
  gradings =
      record {
        id = 6;
        run_id = 1;
        source = GradingSource.initial;
        completed = false;
        finished_at = none;
      }
      ∷ [];
  grades = [];
  events = [];
}

-- The same run once its trial has ended and one of its grades is an error.
abbrev graded : Database
graded = record interrupted {
  trials = record trial_row { status = TrialStatus.success; finished_at = some 30 } ∷ [];
  grades = record { grading_run_id = 6; trial_id = 5; verdict = Verdict.error } ∷ [];
}

graded_ends : (maybe_finalize 40 1 graded).0 ≡ true
unfolding maybe_finalize run_blocked trial_count
graded_ends = refl

graded_status : final_status run_row graded ≡ RunStatus.completed_with_errors
unfolding final_status has_problem grade_errors trial_count
graded_status = refl

abbrev Closed : Type 0
Closed =
    let db' = (maybe_finalize 40 1 graded).1 in
    (run' : Run) × (get run_key 1 db'.runs ≡ some run')
    × (run_terminal run'.status ≡ true)
    × (run'.status ≡ RunStatus.completed_with_errors)
    × (any (unfinished 1) graded.trials ≡ false)
    × (any (live_job 1) graded.jobs ≡ false)
    × (db'.trials ≡ graded.trials)
    × (db'.jobs ≡ graded.jobs)
    × (maybe_finalize 50 1 db' ≡ (false, db'))

maybe_finalize-closes_example : Closed
maybe_finalize-closes_example = maybe_finalize-closes 40 50 1 graded run_row refl graded_ends

abbrev stopped : Database
stopped = (stop episodes names 40 30 21 6 "b" trial_row TrialStatus.skipped none interrupted).1

abbrev second_start : Database
second_start = (prepare episodes names 40 30 21 6 "b" 5 interrupted).1

abbrev second : Ready
second = record { attempt_id = 21; attempt_index = 1; stage = "episode"; frozen_source = none }

second_starts :
    prepare episodes names 40 30 21 6 "b" 5 interrupted ≡ (Prep.ready second, second_start)
unfolding prepare prepare_live freeze start stage_of is_agentic target_calls interrupt announce
second_starts = refl

prepare-ready_example :
    (trial_terminal trial_row.status ≡ false)
    × ((run_cancelling run_row.status || requested run_row.cancel_requested_at) ≡ false)
    × (exhausted run_row interrupted ≡ false)
    × (count (running_of 5) second_start.attempts ≡ 1)
    × (get trial_key 5 second_start.trials ≡ some (started episodes names 40 30 21 6 "b" trial_row))
prepare-ready_example =
    prepare-ready episodes names 40 30 21 6 "b" trial_row run_row interrupted second_start second
      refl refl second_starts

-- The job of the interrupted trial waits for its second attempt.
abbrev between_attempts : Database
between_attempts = record interrupted {
  jobs =
      enqueue 40 10
        (record {
          kind = JobKind.trial;
          payload = record { trial_id = some 5; grading_run_id = some 6; other = end };
          run_id = some 1;
          concurrency_key = "memoryai";
          concurrency_limit = 1;
          priority = ℤ.pos 0;
          max_attempts = 3;
          delay_seconds = 0;
        })
        [];
}

abbrev after_cancel : Database
after_cancel = (cancel_run 40 1 between_attempts).1

cancel_run-settles_example : CancelFacts 1 between_attempts after_cancel × RowFacts 1 after_cancel
cancel_run-settles_example = cancel_run-settles 40 1 between_attempts run_row refl refl

one_is_running : (trial_count 1 TrialStatus.running between_attempts == 0) ≡ false
unfolding trial_count
one_is_running = refl

none_is_held : count (active_trial_job 1) between_attempts.jobs ≡ 0
unfolding enqueue enqueued
none_is_held = refl

cancel_run-stuck_example :
    ((r : Run) × (get run_key 1 after_cancel.runs ≡ some r) × (r.status ≡ RunStatus.cancelling))
    × (count (cancels 1 trial_kind) after_cancel.jobs ≡ 0)
    × (count (active_trial_job 1) after_cancel.jobs ≡ 0)
    × (run_blocked 1 after_cancel ≡ true)
    × (maybe_finalize 50 1 after_cancel ≡ (false, after_cancel))
cancel_run-stuck_example =
    cancel_run-stuck 40 50 1 between_attempts run_row refl refl one_is_running none_is_held
