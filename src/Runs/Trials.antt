-- ===== src/Runs/Trials.antt =====
-- backend/eval_triage/execution/trial_runner.py: how a trial job starts (`_prepare`) and how a trial
-- ends (`terminate`). `new_job` and `new_attempt` are what the column default `new_id` gives.
use evalai.Base.Text.{str_append, decimal}
use evalai.Base.{
  ℕ, String, Bool, true, false, not, ◌&&◌, ◌||◌, Option, none, some, List, [], ◌∷◌, ◌++◌, leb, ltb,
  ◌==◌, nat_eq, string_eq, if◌then◌else◌, count, any, map,
}
use evalai.Base.Table.{get, set}
use evalai.Base.Int.{ℤ}
use evalai.Base.Json.{str, int, Fields, end, field}
use evalai.Enums.{
  RunStatus, TrialStatus, AttemptStatus, JobKind, RepeatMode, Pack, trial_terminal, trial_pending,
  attempt_terminal, run_cancelling, run_queued,
}
use evalai.Jobs.{Request, enqueue}
use evalai.Runs.{
  Database, Run, Trial, Attempt, EventType, emit, trial_counts, trial_text, run_key, trial_key,
}
use evalai.Runs.Finalize.{maybe_finalize, requested}

abbrev pub grading_concurrency : ℕ
grading_concurrency = 4

abbrev pub grade_request : Trial → ℕ → Request
grade_request t gid = record {
  kind = JobKind.grade;
  payload = record { trial_id = some t.id; grading_run_id = some gid; other = end };
  run_id = some t.run_id;
  concurrency_key = "grading";
  concurrency_limit = grading_concurrency;
  priority = ℤ.negsuc 0;
  max_attempts = 3;
  delay_seconds = 0;
}

unfoldable pub enqueue_grade : ℕ → ℕ → Trial → ℕ → Database → Database
enqueue_grade new_job clock t gid db = record db {
  jobs = enqueue new_job clock (grade_request t gid) db.jobs;
}

abbrev pub ended : TrialStatus → Option Fields → ℕ → Trial → Trial
ended s error clock t = record t { error = error; finished_at = some clock; status = s }

unfoldable pub terminate : ℕ → ℕ → Trial → TrialStatus → Option Fields → ℕ → Database → Database
terminate new_job clock t s error gid db =
    let written = record db { trials = set trial_key (ended s error clock t) db.trials } in
    let queued = enqueue_grade new_job clock t gid written in
    emit t.run_id EventType.run_progress t.id
      (field "trial_status" (str (trial_text s))
        (field "counts" (trial_counts t.run_id queued) end))
      queued

-- `{"code": code, "message": message}`
abbrev error_of : String → String → Option Fields
error_of code message = some (field "code" (str code) (field "message" (str message) end))

-- What of a scenario's definition the start of a trial reads; definitions never change.
pub record Scenario : Type 0 where
  pub pack : Pack
  pub has_tools : Bool

abbrev pub is_memory : Scenario → Bool
is_memory s = elim s.pack [ Pack.memory_lifecycle ↦ true | _ ↦ false ]

unfoldable pub is_agentic : Scenario → Bool
is_agentic s = elim s.pack [
  | Pack.tool_agent ↦ true
  | Pack.robustness_security ↦ s.has_tools
  | _ ↦ false
]

unfoldable pub stage_of : Scenario → String
stage_of s = if is_memory s then "episode" else if is_agentic s then "execution" else "target"

abbrev pub umbrella : String → Bool
umbrella stage = if stage == "episode" then true else stage == "execution"

abbrev pub running_of : ℕ → Attempt → Bool
running_of trial a = a.trial_id == trial && not (attempt_terminal a.status)

-- An attempt that a dead worker left running.
unfoldable pub interrupt : ℕ → Bool → ℕ → Attempt → Attempt
interrupt trial memory clock a =
    if running_of trial a
    then record a {
      finished_at = some clock;
      mutation_outcome_known = not memory;
      error = error_of "interrupted" "worker stopped before this attempt finished";
      status = AttemptStatus.interrupted;
    }
    else a

-- The join of the attempts with the trials of the run, less the umbrella stages.
abbrev pub is_target_call : ℕ → Database → Attempt → Bool
is_target_call run db a =
    (elim (get trial_key a.trial_id db.trials) [ none ↦ false | some t ↦ t.run_id == run ])
    && not (umbrella a.stage)

unfoldable pub target_calls : ℕ → Database → ℕ
target_calls run db = count (is_target_call run db) db.attempts

abbrev pub is_source : Trial → Trial → Bool
is_source t u =
    u.run_id == t.run_id
    && u.case_id == t.case_id
    && u.candidate_key == t.candidate_key
    && u.repeat_index == 0

-- `session.scalars(...).first()`
unfoldable pub first_trial : (Trial → Bool) → List Trial → Option Trial
first_trial p [] = none
first_trial p (u ∷ us) = if p u then some u else first_trial p us

pub record Ready : Type 0 where
  pub attempt_id : ℕ
  pub attempt_index : ℕ
  pub stage : String
  pub frozen_source : Option ℕ

-- What `_prepare` returns. `broken` is the exception on a trial whose run is missing, which rolls the
-- transaction back.
pub data Prep : Type 0 where
  skipped broken : Prep
  deferred : String → Prep
  ready : Ready → Prep

abbrev pub waiting_note : String
waiting_note = "waiting for repeat 0 to capture the frozen context"

abbrev pub is_frozen : RepeatMode → Bool
is_frozen RepeatMode.frozen_context = true
is_frozen RepeatMode.full_episode = false

abbrev pub is_success : TrialStatus → Bool
is_success TrialStatus.success = true
is_success _ = false

limit_text : Run → String
unfolding decimal
limit_text run = elim run.manifest.max_target_calls [ none ↦ "None" | some n ↦ decimal n ]

-- `used >= max_calls`
abbrev pub exhausted : Run → Database → Bool
exhausted run db = elim run.manifest.max_target_calls [
  | none ↦ false
  | some limit ↦ leb limit (target_calls run.id db)
]

-- `scenario_of` and `external_id` read the immutable tables of scenario versions and of cases.
module _ (scenario_of : ℕ → Scenario) (external_id : ℕ → String) (clock new_job new_attempt gid : ℕ)
    (worker : String) where
  -- `terminate`, `maybe_finalize`, `return None`
  unfoldable pub stop : Trial → TrialStatus → Option Fields → Database → Prep × Database
  stop t s error db =
      (Prep.skipped, (maybe_finalize clock t.run_id (terminate new_job clock t s error gid db)).1)

  -- `if run.status == QUEUED: ...` and the event of a trial that was pending.
  unfoldable pub announce : Run → Trial → Database → Database
  announce run t db =
      let db1 =
        if run_queued run.status
        then emit run.id EventType.run_started run.id
            (field "planned" (int run.planned_trial_count) end)
            (record db {
              runs =
                  set run_key (record run { status = RunStatus.running; started_at = some clock })
                    db.runs;
            })
        else db in
      if trial_pending t.status
      then emit run.id EventType.trial_started t.id
          (field "case" (str (external_id t.case_id))
            (field "candidate" (str t.candidate_key) (field "repeat" (int t.repeat_index) end)))
          db1
      else db1

  abbrev pub started : Trial → Trial
  started t = record t {
    status = TrialStatus.running;
    started_at = elim t.started_at [ none ↦ some clock | some s ↦ some s ];
  }

  unfoldable pub start : Run → Trial → Option ℕ → Database → Prep × Database
  unfolding announce
  start run t source db =
      let stage = stage_of (scenario_of run.scenario_id) in
      let prior = count (λ (a : Attempt). a.trial_id == t.id && a.stage == stage) db.attempts in
      let db1 = announce run t db in
      (
        Prep.ready (record {
          attempt_id = new_attempt;
          attempt_index = prior;
          stage = stage;
          frozen_source = source;
        }),
        record db1 {
          trials = set trial_key (started t) db1.trials;
          attempts =
              db1.attempts
              ++ record {
                id = new_attempt;
                trial_id = t.id;
                stage = stage;
                attempt_index = prior;
                status = AttemptStatus.running;
                worker_id = some worker;
                mutation_outcome_known = not (stage == "episode");
                error = none;
                finished_at = none;
              }
                ∷ [];
        },
      )

  -- A later repeat of a frozen context starts from the episode that repeat 0 captured.
  unfoldable pub freeze : Run → Trial → Database → Prep × Database
  freeze run t db =
      if is_frozen run.manifest.repeat_mode && ltb 0 t.repeat_index
      then elim (first_trial (is_source t) db.trials) [
        | none ↦ (Prep.deferred waiting_note, db)
        | some source ↦
            if not (trial_terminal source.status)
            then (Prep.deferred waiting_note, db)
            else if not (is_success source.status)
            then stop t TrialStatus.skipped
                (error_of "no_frozen_context"
                  (str_append "repeat 0 ended " (trial_text source.status)))
                db
            else start run t (some source.id) db
      ]
      else start run t none db

  unfoldable pub prepare_live : Run → Trial → Database → Prep × Database
  unfolding limit_text
  prepare_live run t db =
      let memory = is_memory (scenario_of run.scenario_id) in
      let db1 = record db { attempts = map (interrupt t.id memory clock) db.attempts } in
      if (any (running_of t.id) db.attempts && memory)
        && not run.manifest.restart_interrupted_episodes
      then stop t TrialStatus.indeterminate
          (error_of "interrupted_episode"
            "an episode was interrupted mid-mutation and restart is disabled")
          db1
      else if exhausted run db1
      then stop t TrialStatus.skipped
          (error_of "budget_exhausted"
            (str_append "max_target_calls (" (str_append (limit_text run) ") reached")))
          db1
      else freeze run t db1

  unfoldable pub prepare : ℕ → Database → Prep × Database
  prepare trial_id db = elim (get trial_key trial_id db.trials) [
    | none ↦ (Prep.skipped, db)
    | some t ↦
        if trial_terminal t.status
        then (Prep.skipped, db)
        else elim (get run_key t.run_id db.runs) [
          | none ↦ (Prep.broken, db)
          | some run ↦
              if run_cancelling run.status || requested run.cancel_requested_at
              then stop t TrialStatus.cancelled
                  (error_of "cancelled" "run cancelled before this trial started") db
              else prepare_live run t db
        ]
  ]
