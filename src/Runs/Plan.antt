-- ===== src/Runs/Plan.antt =====
-- The tables and the request that `validate_run` of backend/eval_triage/execution/runs.py reads, and the plan
-- that it gives. An error keeps its field and its code; the messages, the warnings, the manifest and the
-- estimates of cost are left out.
use evalai.Base.{ℕ, String, Bool, Option, List, nat_eq, string_eq}
use evalai.Enums.{Pack, RepeatMode}

pub record Project : Type 0 where
  pub id : ℕ

pub record Scenario : Type 0 where
  pub id : ℕ
  pub project_id : ℕ
  pub pack : Pack
  pub grader_refs : List ℕ

-- `mandatory_graders` of the pass rule
pub record Dataset : Type 0 where
  pub id : ℕ
  pub project_id : ℕ
  pub scenario_id : ℕ
  pub mandatory_graders : List String

-- `actions` are those of the episode's steps.
pub record Case : Type 0 where
  pub id : ℕ
  pub dataset_id : ℕ
  pub ordinal : ℕ
  pub external_id : String
  pub actions : List String

-- The keys of the parameters; of a capability its state, which can be missing; of the memory configuration
-- its backend and whether it names a configuration that generates.
pub record TargetConfig : Type 0 where
  pub id : ℕ
  pub project_id : ℕ
  pub adapter : String
  pub model : String
  pub parameters : List String
  pub capabilities : List (String × Option String)
  pub experimental : Bool
  pub memory_backend : Option String
  pub has_generation_target : Bool
  pub credential_ref : Option String

pub record GraderVersion : Type 0 where
  pub id : ℕ
  pub project_id : ℕ
  pub name : String
  pub kind : String
  pub judge_config_id : Option ℕ

-- The tables that the validation reads
pub record Catalogue : Type 0 where
  pub projects : List Project
  pub scenarios : List Scenario
  pub datasets : List Dataset
  pub cases : List Case
  pub configs : List TargetConfig
  pub graders : List GraderVersion

pub record CandidateSpec : Type 0 where
  pub key : String
  pub target_config_id : ℕ

-- `RunRequest` with its `ExecutionSpec` and `LimitsSpec`; of a monetary cap it is kept that there is one.
pub record RunRequest : Type 0 where
  pub project_id : ℕ
  pub scenario_id : ℕ
  pub dataset_id : ℕ
  pub candidates : List CandidateSpec
  pub grader_ids : Option (List ℕ)
  pub case_ids : Option (List String)
  pub repeats : ℕ
  pub max_concurrency : Option ℕ
  pub repeat_mode : RepeatMode
  pub cache_outputs : Bool
  pub schedule_seed : ℕ
  pub restart_interrupted_episodes : Bool
  pub max_target_calls : Option ℕ
  pub max_judge_calls : Option ℕ
  pub has_max_cost : Bool

pub record PlanError : Type 0 where
  pub at : String
  pub code : String

-- `RunValidationError`
pub record RunRefusal : Type 0 where
  pub errors : List PlanError
  pub status : ℕ

pub record PlannedCandidate : Type 0 where
  pub key : String
  pub config : TargetConfig
  pub ordinal : ℕ

pub record Plan : Type 0 where
  pub cases : List Case
  pub candidates : List PlannedCandidate
  pub graders : List GraderVersion
  pub planned_trials : ℕ
  pub stage_calls : ℕ
  pub target_calls : ℕ
  pub judge_calls : ℕ

pub record Surroundings : Type 0 where
  pub id_text : ℕ → String
  pub credential_set : String → Bool
  pub memoryai_ready : Bool
  pub has_price : String → String → Bool
