-- ===== src/Runs/Create.antt =====
-- backend/eval_triage/execution/runs.py: `schedule_order`, `_concurrency` and `create_run`. The hash of a
-- slot under a seed and that of a request's body are arguments, and so are the ids that new rows get. Of the
-- response it is kept which run and plan it tells of; the name, the budget and the hashes of the run are left out.
use evalai.Base.{
  ℕ, suc, String, Bool, false, ◌&&◌, Option, none, some, List, [], ◌∷◌, ◌++◌, ◌==◌, nat_eq,
  string_eq, if◌then◌else◌, map, leb,
}
use evalai.Base.Int.{pos}
use evalai.Base.Json.{int, end, field}
use evalai.Base.Results.{Result, ok, err}
use evalai.Base.Text.{str_append}
use evalai.Enums.{RunStatus, TrialStatus, JobKind}
use evalai.Jobs.{Request, enqueue}
use evalai.Retry.{range_from}
use evalai.Runs.{Database, Run, Trial, GradingRun, GradingSource, EventType, emit}
use evalai.Runs.Plan.{
  Case, TargetConfig, RunRequest, RunRefusal, PlannedCandidate, Plan, Surroundings, Catalogue,
}
use evalai.Runs.Validate.{validate_run}

pub record RunCandidate : Type 0 where
  pub run_id : ℕ
  pub candidate_key : String
  pub target_config_id : ℕ
  pub ordinal : ℕ

pub record Response : Type 0 where
  pub run_id : ℕ
  pub status : RunStatus
  pub plan : Plan

pub record IdempotencyKey : Type 0 where
  pub key : String
  pub request_hash : String
  pub status_code : ℕ
  pub response : Response

-- The tables that a creation changes
pub record Site : Type 0 where
  pub db : Database
  pub run_candidates : List RunCandidate
  pub keys : List IdempotencyKey

-- A planned trial, with the configuration of its candidate: `configs[key]`, where the keys are unique.
pub record Slot : Type 0 where
  pub case_id : ℕ
  pub candidate : PlannedCandidate
  pub repeat : ℕ

-- `for r in range(repeats)`
abbrev pub repeat_slots : ℕ → PlannedCandidate → List ℕ → List Slot
repeat_slots case c [] = []
repeat_slots case c (r ∷ rs) =
    record { case_id = case; candidate = c; repeat = r } ∷ repeat_slots case c rs

abbrev pub candidate_slots : ℕ → List PlannedCandidate → List ℕ → List Slot
candidate_slots case [] rs = []
candidate_slots case (c ∷ cs) rs = repeat_slots case c rs ++ candidate_slots case cs rs

abbrev pub case_slots : List Case → List PlannedCandidate → List ℕ → List Slot
case_slots [] cs rs = []
case_slots (k ∷ ks) cs rs = candidate_slots k.id cs rs ++ case_slots ks cs rs

unfoldable pub slots_of : Plan → ℕ → List Slot
slots_of plan repeats = case_slots plan.cases plan.candidates (range_from 0 repeats)

abbrev pub same_slot : Slot → Slot → Bool
same_slot s t =
    (s.case_id == t.case_id && s.candidate.key == t.candidate.key) && s.repeat == t.repeat

module _ (digest : Slot → ℕ) where
  abbrev insert_slot : Slot → List Slot → List Slot
  insert_slot s [] = s ∷ []
  insert_slot s (t ∷ ts) =
      let rest = insert_slot s ts in if leb (digest s) (digest t) then s ∷ t ∷ ts else t ∷ rest

  -- `sorted(keys, key=...)`
  unfoldable pub ranked : List Slot → List Slot
  ranked [] = []
  ranked (s ∷ ss) = insert_slot s (ranked ss)

abbrev place : Slot → List Slot → ℕ
place s [] = 0
place s (t ∷ ts) = let rest = place s ts in if same_slot t s then 0 else suc rest

-- `schedule_order`: the place of each slot
unfoldable pub schedule_order : (Slot → ℕ) → List Slot → Slot → ℕ
schedule_order digest slots s = place s (ranked digest slots)

abbrev or_two : Option ℕ → ℕ
or_two none = 2
or_two (some n) = if n == 0 then 2 else n

-- `_concurrency`
unfoldable pub concurrency : (ℕ → String) → TargetConfig → Option ℕ → String × ℕ
concurrency id_text c requested =
    if c.adapter == "memoryai"
    then ("memoryai", 1)
    else (str_append "target:" (id_text c.id), or_two requested)

-- `if idempotency_key:`
abbrev pub given_key : Option String → Option String
given_key none = none
given_key (some k) = if k == "" then none else some k

abbrev pub find_key : String → List IdempotencyKey → Option IdempotencyKey
find_key k [] = none
find_key k (row ∷ rows) = if row.key == k then some row else find_key k rows

-- What the columns' defaults give to the rows of one run
pub record NewIds : Type 0 where
  pub run : ℕ
  pub grading : ℕ
  pub trial : ℕ → ℕ
  pub job : ℕ → ℕ

module _ (env : Surroundings) (digest : ℕ → Slot → ℕ) (body_hash : RunRequest → String) where
  module _ (clock : ℕ) (ids : NewIds) (req : RunRequest) where
    abbrev pub new_run : Plan → Run
    new_run plan = record {
      id = ids.run;
      scenario_id = req.scenario_id;
      manifest = record {
        repeat_mode = req.repeat_mode;
        restart_interrupted_episodes = req.restart_interrupted_episodes;
        max_target_calls = req.max_target_calls;
      };
      status = RunStatus.queued;
      planned_trial_count = plan.planned_trials;
      started_at = none;
      finished_at = none;
      cancel_requested_at = none;
    }

    abbrev pub new_grading : GradingRun
    new_grading = record {
      id = ids.grading;
      run_id = ids.run;
      source = GradingSource.initial;
      completed = false;
      finished_at = none;
    }

    abbrev pub new_trial : ℕ → Slot → Trial
    new_trial i s = record {
      id = ids.trial i;
      run_id = ids.run;
      case_id = s.case_id;
      candidate_key = s.candidate.key;
      repeat_index = s.repeat;
      status = TrialStatus.pending;
      error = none;
      started_at = none;
      finished_at = none;
    }

    abbrev pub trial_request : (Slot → ℕ) → ℕ → Slot → Request
    trial_request order i s =
        let (key, limit) = concurrency env.id_text s.candidate.config req.max_concurrency in
        record {
          kind = JobKind.trial;
          payload = record {
            trial_id = some (ids.trial i);
            grading_run_id = some ids.grading;
            other = end;
          };
          run_id = some ids.run;
          concurrency_key = key;
          concurrency_limit = limit;
          priority = pos (order s);
          max_attempts = 3;
          delay_seconds = 0;
        }

    -- The loop over the keys: `i` trials of the run are made.
    unfoldable pub add_trials : (Slot → ℕ) → ℕ → List Slot → Database → Database
    add_trials order i [] db = db
    add_trials order i (s ∷ ss) db = add_trials order (suc i) ss (record db {
      trials = db.trials ++ new_trial i s ∷ [];
      jobs = enqueue (ids.job i) clock (trial_request order i s) db.jobs;
    })

    abbrev new_candidate : PlannedCandidate → RunCandidate
    new_candidate c = record {
      run_id = ids.run;
      candidate_key = c.key;
      target_config_id = c.config.id;
      ordinal = c.ordinal;
    }

    abbrev pub new_key : String → Response → IdempotencyKey
    new_key k r = record { key = k; request_hash = body_hash req; status_code = 201; response = r }

    abbrev pub with_key : Option String → Response → List IdempotencyKey → List IdempotencyKey
    with_key none r keys = keys
    with_key (some k) r keys = keys ++ new_key k r ∷ []

    -- What the transaction writes for a plan
    unfoldable pub write_run : Plan → Database → Database
    write_run plan db =
        let slots = slots_of plan req.repeats in
        emit ids.run EventType.run_queued ids.run (field "planned" (int plan.planned_trials) end) (
          add_trials (schedule_order (digest req.schedule_seed) slots) 0 slots (record db {
            runs = db.runs ++ new_run plan ∷ [];
            gradings = db.gradings ++ new_grading ∷ [];
          }))

    abbrev pub response_of : Plan → Response
    response_of plan = record { run_id = ids.run; status = RunStatus.queued; plan = plan }

    unfoldable pub created : Option String → Plan → Site → Site
    created key plan site = record {
      db = write_run plan site.db;
      run_candidates = site.run_candidates ++ map new_candidate plan.candidates;
      keys = with_key key (response_of plan) site.keys;
    }

    abbrev pub create_new :
        Option String → Result RunRefusal Plan → Site → Result RunRefusal (ℕ × Response) × Site
    create_new key (err refusal) site = (err refusal, site)
    create_new key (ok plan) site = (ok (201, response_of plan), created key plan site)

    abbrev pub conflict : RunRefusal
    conflict = record {
      errors = record { at = "Idempotency-Key"; code = "conflict" } ∷ [];
      status = 409;
    }

    abbrev pub replay : IdempotencyKey → Site → Result RunRefusal (ℕ × Response) × Site
    replay row site =
        if row.request_hash == body_hash req
        then (ok (row.status_code, row.response), site)
        else (err conflict, site)

    abbrev pub known : Option String → List IdempotencyKey → Option IdempotencyKey
    known none rows = none
    known (some k) rows = find_key k rows

    unfoldable pub create_run :
        Option String → Catalogue → Site → Result RunRefusal (ℕ × Response) × Site
    create_run idempotency_key cat site =
        let key = given_key idempotency_key in
        elim (known key site.keys) [
          | some row ↦ replay row site
          | none ↦ create_new key (validate_run env cat req) site
        ]
