-- ===== src/Tests/Reconcile.antt =====
-- A run whose one trial job failed for good: its trial is ended, and a second call finds nothing.
use evalai.Base.{ℕ, ◌+◌, true, false, Option, none, some, List, [], ◌∷◌, ◌≡◌, refl}
use evalai.Base.Json.{str, end, field}
use evalai.Base.Int.{ℤ}
use evalai.Enums.{JobKind, JobStatus, RunStatus, TrialStatus, AttemptStatus, RepeatMode}
use evalai.Jobs.{Job}
use evalai.Runs.{Database, GradingSource}
use evalai.Runs.Reconcile.{
  trial_of, is_reconciled, close_trial, reconcile_trial, reconcile_job, reconcile_jobs,
  reconcile_failed_jobs,
}
use evalai.Runs.Reconcile.Closing.{reconcile_failed_jobs-closes}
use evalai.Runs.Reconcile.Steps.{has_ended}
use mathlib.Core.List.{Memᴰ}
use evalai.Runs.Reconcile.Again.{reconcile_failed_jobs-again}

abbrev failed_job : Job
failed_job = record {
  id = 11;
  kind = JobKind.trial;
  payload = record { trial_id = some 5; grading_run_id = some 6; other = end };
  run_id = some 1;
  concurrency_key = "demo";
  concurrency_limit = 1;
  priority = ℤ.pos 0;
  status = JobStatus.failed;
  lease_owner = none;
  lease_expires_at = none;
  heartbeat_at = none;
  attempts = 3;
  max_attempts = 3;
  next_available_at = 0;
  result = none;
  error = some (field "message" (str "lost") end);
  created_at = 0;
  finished_at = some 20;
}

abbrev failed_run : Database
failed_run = record {
  jobs = failed_job ∷ [];
  runs =
      record {
        id = 1;
        scenario_id = 2;
        manifest = record {
          repeat_mode = RepeatMode.full_episode;
          restart_interrupted_episodes = true;
          max_target_calls = none;
        };
        status = RunStatus.running;
        planned_trial_count = 1;
        started_at = some 9;
        finished_at = none;
        cancel_requested_at = none;
      }
      ∷ [];
  trials =
      record {
        id = 5;
        run_id = 1;
        case_id = 3;
        candidate_key = "c";
        repeat_index = 0;
        status = TrialStatus.running;
        error = none;
        started_at = some 10;
        finished_at = none;
      }
      ∷ [];
  attempts =
      record {
        id = 20;
        trial_id = 5;
        stage = "target";
        attempt_index = 0;
        status = AttemptStatus.running;
        worker_id = some "a";
        mutation_outcome_known = true;
        error = none;
        finished_at = none;
      }
      ∷ [];
  gradings =
      record {
        id = 6;
        run_id = 1;
        source = GradingSource.initial;
        completed = false;
        finished_at = none;
      }
      ∷ [];
  grades = [];
  events = [];
}

abbrev visit : List ℕ → List ℕ
visit runs = runs

abbrev fresh : ℕ → ℕ
fresh id = id + 100

abbrev or_same : Option (List ℕ × Database) → List ℕ × Database
or_same none = ([], failed_run)
or_same (some r) = r

abbrev after : List ℕ × Database
after = or_same (reconcile_failed_jobs visit 30 fresh failed_run)

succeeds : reconcile_failed_jobs visit 30 fresh failed_run ≡ some (after.0, after.1)
unfolding reconcile_failed_jobs reconcile_jobs reconcile_job reconcile_trial close_trial
    is_reconciled
succeeds = refl

one_run : after.0 ≡ 1 ∷ []
unfolding reconcile_failed_jobs reconcile_jobs reconcile_job reconcile_trial close_trial
    is_reconciled
one_run = refl

reconcile_failed_jobs-again_example :
    reconcile_failed_jobs visit 50 fresh after.1 ≡ some ([], after.1)
reconcile_failed_jobs-again_example =
    reconcile_failed_jobs-again visit 30 50 fresh fresh failed_run after.1 after.0 refl succeeds

reconcile_failed_jobs-closes_example : has_ended (trial_of failed_job after.1.trials) ≡ true
unfolding is_reconciled
reconcile_failed_jobs-closes_example =
    reconcile_failed_jobs-closes visit 30 fresh failed_run after.1 after.0 failed_job succeeds
      (Memᴰ.head refl) refl refl
