-- ===== src/Runs/Finish.antt =====
-- backend/eval_triage/execution/trial_runner.py: `_finish` and `_finish_attempt`, the transaction that records
-- what a trial's execution gave. Left out are the artifacts, and the columns of usage, cost, latency and
-- output. `new_attempt` is what `new_id` gives for each further attempt; `none` is the exception on a row
-- that is missing, which rolls the transaction back.
use evalai.Base.{
  ℕ, ◌+◌, String, Bool, true, false, not, ◌&&◌, Option, none, some, List, [], ◌∷◌, ◌++◌, ◌==◌,
  nat_eq, string_eq, if◌then◌else◌, count,
}
use evalai.Base.Assoc.{lookup, insert}
use evalai.Base.Table.{get, set}
use evalai.Base.Json.{str, int, bool, Fields, end, field}
use evalai.Enums.{TrialStatus, AttemptStatus, trial_terminal}
use evalai.Episode.Run.{EpisodeStatus}
use evalai.Runs.{Database, Run, Trial, Attempt, EventType, emit, run_key, trial_key}
use evalai.Runs.Trials.{terminate}

-- What `_prepare` gave of the trial
pub record Prepared : Type 0 where
  pub trial_id : ℕ
  pub run_id : ℕ
  pub attempt_id : ℕ
  pub stage : String
  pub grading_run_id : ℕ

pub record CallResult : Type 0 where
  pub status : TrialStatus
  pub error : Option Fields
  pub retryable : Bool

pub record ExecutionOutcome : Type 0 where
  pub status : TrialStatus
  pub error : Option Fields
  -- each call of the target: its stage, its index and its result
  pub attempts : List (String × ℕ × CallResult)
  -- there is an output, or a partial one
  pub has_evidence : Bool
  pub episode_status : Option EpisodeStatus

abbrev pub attempt_key : Attempt → ℕ
attempt_key a = a.id

-- `_ATTEMPT_STATUS.get(status, PROVIDER_ERROR)`
unfoldable pub attempt_status : TrialStatus → AttemptStatus
attempt_status TrialStatus.success = AttemptStatus.success
attempt_status TrialStatus.timeout = AttemptStatus.timeout
attempt_status TrialStatus.invalid_output = AttemptStatus.invalid_output
attempt_status TrialStatus.unsupported = AttemptStatus.unsupported
attempt_status TrialStatus.cancelled = AttemptStatus.cancelled
attempt_status TrialStatus.indeterminate = AttemptStatus.indeterminate
attempt_status TrialStatus.skipped = AttemptStatus.cancelled
attempt_status _ = AttemptStatus.provider_error

unfoldable pub episode_attempt : Option EpisodeStatus → AttemptStatus
episode_attempt (some EpisodeStatus.ok) = AttemptStatus.success
episode_attempt (some EpisodeStatus.indeterminate) = AttemptStatus.indeterminate
episode_attempt _ = AttemptStatus.provider_error

-- `outcome.get("episode_status") != "indeterminate"`
abbrev outcome_known : Option EpisodeStatus → Bool
outcome_known (some EpisodeStatus.indeterminate) = false
outcome_known _ = true

abbrev attempt_text : AttemptStatus → String
attempt_text AttemptStatus.running = "running"
attempt_text AttemptStatus.success = "success"
attempt_text AttemptStatus.provider_error = "provider_error"
attempt_text AttemptStatus.timeout = "timeout"
attempt_text AttemptStatus.cancelled = "cancelled"
attempt_text AttemptStatus.invalid_output = "invalid_output"
attempt_text AttemptStatus.unsupported = "unsupported"
attempt_text AttemptStatus.interrupted = "interrupted"
attempt_text AttemptStatus.indeterminate = "indeterminate"

-- The variables of the loop over the calls; `made` counts the new attempts.
pub record Recording : Type 0 where
  pub db : Database
  pub primary_used : Bool
  pub next_index : List (String × ℕ)
  pub made : ℕ

module _ (clock new_job : ℕ) (new_attempt : ℕ → ℕ) where
  -- `_finish_attempt`
  unfoldable pub finish_attempt : CallResult → Attempt → Attempt
  finish_attempt r a = record a {
    finished_at = some clock;
    error = r.error;
    status = attempt_status r.status;
  }

  abbrev told : Prepared → String → ℕ → CallResult → Attempt → Database → Database
  told prep stage index r a db =
      emit prep.run_id EventType.attempt_finished a.id
        (field "stage" (str stage) (
          field "attempt" (int index) (
            field "status" (str (attempt_text a.status))
              (field "retryable" (bool r.retryable) end))))
        db

  -- `next_index[stage]`, counted at the first use of the stage
  abbrev index_of : Prepared → String → Recording → ℕ
  index_of prep stage w = elim (lookup stage w.next_index) [
    | some n ↦ n
    | none ↦ count (λ (a : Attempt). a.trial_id == prep.trial_id && a.stage == stage) w.db.attempts
  ]

  abbrev further : Prepared → String → ℕ → Recording → Attempt
  further prep stage n w = record {
    id = new_attempt w.made;
    trial_id = prep.trial_id;
    stage = stage;
    attempt_index = n;
    status = AttemptStatus.running;
    worker_id = none;
    mutation_outcome_known = true;
    error = none;
    finished_at = none;
  }

  -- The first call of a stateless trial is its primary attempt; each other call is a new one.
  unfoldable pub record_call : Prepared → Attempt → String × ℕ × CallResult → Recording → Recording
  record_call prep primary (stage, index, r) w =
      if (prep.stage == "target" && stage == "target") && not w.primary_used
      then (let a = finish_attempt r primary in
          record w {
            db =
                told prep stage index r a
                  (record w.db { attempts = set attempt_key a w.db.attempts });
            primary_used = true;
          })
      else (let n = index_of prep stage w in
          let a = finish_attempt r (further prep stage n w) in
          record w {
            db = told prep stage index r a (record w.db { attempts = w.db.attempts ++ a ∷ [] });
            next_index = insert stage (n + 1) w.next_index;
            made = w.made + 1;
          })

  unfoldable pub record_calls :
      Prepared → Attempt → List (String × ℕ × CallResult) → Recording → Recording
  record_calls prep primary [] w = w
  record_calls prep primary (c ∷ cs) w = record_calls prep primary cs (record_call prep primary c w)

  -- The primary attempt, where no call stands for it
  unfoldable pub finish_primary : Prepared → ExecutionOutcome → Attempt → Attempt
  finish_primary prep outcome a =
      if prep.stage == "episode"
      then record a {
        error = outcome.error;
        finished_at = some clock;
        mutation_outcome_known = outcome_known outcome.episode_status;
        status = episode_attempt outcome.episode_status;
      }
      else record a {
        error = outcome.error;
        finished_at = some clock;
        status = attempt_status outcome.status;
      }

  unfoldable pub conclude : Prepared → ExecutionOutcome → Attempt → Recording → Database
  conclude prep outcome primary w =
      let settled : Database = if w.primary_used then w.db else record w.db {
        attempts = set attempt_key (finish_primary prep outcome primary) w.db.attempts;
      } in
      if outcome.has_evidence
      then emit prep.run_id EventType.artifact_created prep.trial_id
          (field "kind" (str "trial_output") end) settled
      else settled

  abbrev pub fresh : Database → Recording
  fresh db = record { db = db; primary_used = false; next_index = []; made = 0 }

  unfoldable pub finish_open : Prepared → ExecutionOutcome → Trial → Attempt → Database → Database
  finish_open prep outcome trial primary db =
      terminate new_job clock trial outcome.status outcome.error prep.grading_run_id
        (conclude prep outcome primary (record_calls prep primary outcome.attempts (fresh db)))

  abbrev with_primary :
      Prepared → ExecutionOutcome → Trial → Option Run → Option Attempt → Database → Option Database
  with_primary prep outcome trial (some run) (some primary) db =
      some (finish_open prep outcome trial primary db)
  with_primary prep outcome trial (some run) none db = none
  with_primary prep outcome trial none primary db = none

  unfoldable pub finish : Prepared → ExecutionOutcome → Database → Option Database
  finish prep outcome db = elim (get trial_key prep.trial_id db.trials) [
    | none ↦ none
    | some trial ↦
        if trial_terminal trial.status
        then some db
        else with_primary prep outcome trial (get run_key prep.run_id db.runs)
            (get attempt_key prep.attempt_id db.attempts) db
  ]
