-- ===== src/Runs/Validate.antt =====
-- backend/eval_triage/execution/runs.py: `validate_run` and `_stage_calls`, and the table of
-- adapters/base.py that names the capability behind a parameter. Whether a credential is set in the environment,
-- whether MemoryAI is installed and whether a model has a price are given by the surroundings.
use evalai.Base.{
  ℕ, suc, ◌*◌, String, Bool, true, false, not, ◌&&◌, ◌||◌, Option, none, some, List, [], ◌∷◌, ◌++◌,
  ◌==◌, nat_eq, string_eq, if◌then◌else◌, filter, any, all, count, length, contains, ltb, leb,
}
use evalai.Base.Results.{Result, ok, err}
use evalai.Base.Table.{get}
use evalai.Base.Assoc.{lookup}
use evalai.Base.Text.{str_append, decimal}
use evalai.Enums.{Pack, RepeatMode}
use evalai.Runs.Plan.{
  Project, Scenario, Dataset, Case, TargetConfig, GraderVersion, Catalogue, CandidateSpec,
  RunRequest, PlanError, RunRefusal, PlannedCandidate, Plan, Surroundings,
}

abbrev problem : String → String → PlanError
problem at code = record { at = at; code = code }

-- `if test: errors.append(e)`
abbrev pub when : Bool → PlanError → List PlanError
when test e = if test then e ∷ [] else []

abbrev pub scenario_missing : Option Scenario → Option Project → Bool
scenario_missing none p = true
scenario_missing (some s) none = false
scenario_missing (some s) (some p) = not (s.project_id == p.id)

abbrev pub dataset_missing : Option Dataset → Option Project → Bool
dataset_missing none p = true
dataset_missing (some d) none = false
dataset_missing (some d) (some p) = not (d.project_id == p.id)

abbrev pub project_missing : Option Project → Bool
project_missing none = true
project_missing (some p) = false

abbrev pub mismatched : Option Scenario → Option Dataset → Bool
mismatched (some s) (some d) = not (d.scenario_id == s.id)
mismatched none d = false
mismatched (some s) none = false

-- The checks before the first raise
unfoldable pub opening_errors :
    RunRequest → Option Project → Option Scenario → Option Dataset → List PlanError
opening_errors req p s d =
    when (project_missing p) (problem "project_id" "not_found")
    ++ (when (scenario_missing s p) (problem "scenario_id" "not_found")
        ++ (when (dataset_missing d p) (problem "dataset_id" "not_found")
            ++ (when (mismatched s d) (problem "dataset_id" "mismatch")
                ++ when req.cache_outputs (problem "execution.cache_outputs" "unsupported"))))

abbrev insert_case : Case → List Case → List Case
insert_case c [] = c ∷ []
insert_case c (d ∷ ds) =
    let rest = insert_case c ds in if leb c.ordinal d.ordinal then c ∷ d ∷ ds else d ∷ rest

-- `order_by(Case.ordinal)`
abbrev by_ordinal : List Case → List Case
by_ordinal [] = []
by_ordinal (c ∷ cs) = insert_case c (by_ordinal cs)

abbrev wanted : (ℕ → String) → Option (List String) → Case → Bool
wanted id_text none c = true
wanted id_text (some ids) c = contains ids (id_text c.id) || contains ids c.external_id

unfoldable pub chosen_cases : Surroundings → Catalogue → RunRequest → Dataset → List Case
chosen_cases env cat req d =
    filter (wanted env.id_text req.case_ids)
      (by_ordinal (filter (λ c. c.dataset_id == d.id) cat.cases))

abbrev is_empty {ℓ} : {A : Type ℓ} → List A → Bool
is_empty [] = true
is_empty (a ∷ rest) = false

abbrev is_given {ℓ} : {A : Type ℓ} → Option A → Bool
is_given none = false
is_given (some a) = true

abbrev is_memory : Pack → Bool
is_memory Pack.memory_lifecycle = true
is_memory _ = false

abbrev is_agent : Pack → Bool
is_agent Pack.tool_agent = true
is_agent _ = false

abbrev is_frozen : RepeatMode → Bool
is_frozen RepeatMode.frozen_context = true
is_frozen RepeatMode.full_episode = false

unfoldable pub case_errors : RunRequest → Pack → List Case → List PlanError
case_errors req pack cases =
    when (is_given req.case_ids && is_empty cases) (problem "case_ids" "invalid")
    ++ when (is_frozen req.repeat_mode && not (is_memory pack))
        (problem "execution.repeat_mode" "invalid")

abbrev larger : ℕ → ℕ → ℕ
larger m n = if ltb m n then n else m

abbrev generate_steps : Case → ℕ
generate_steps c = count (λ a. a == "generate") c.actions

abbrev most_generate_steps : List Case → ℕ
most_generate_steps [] = 0
most_generate_steps (c ∷ cs) = larger (generate_steps c) (most_generate_steps cs)

-- `_stage_calls`
unfoldable pub stage_calls_of : Pack → List Case → ℕ
stage_calls_of pack cases =
    if is_memory pack then most_generate_steps cases else if is_agent pack then 3 else 1

abbrev pub adapter_parameters : List String
adapter_parameters =
    "profile" ∷ "delay_ms" ∷ "max_tokens" ∷ "max_output_tokens" ∷ "system" ∷ "stop" ∷ "reasoning"
    ∷ "max_turns" ∷ "effort" ∷ "max_completion_tokens" ∷ []

abbrev parameter_capabilities : List (String × String)
parameter_capabilities =
    ("temperature", "temperature")
    ∷ ("top_p", "top_p")
    ∷ ("seed", "seed")
    ∷ ("logprobs", "token_logprobs")
    ∷ ("top_logprobs", "token_logprobs")
    ∷ []

-- `(caps.get(name) or {}).get("state")`
abbrev pub state_of : List (String × Option String) → String → Option String
state_of caps name = elim (lookup name caps) [ none ↦ none | some state ↦ state ]

abbrev or_unknown : Option String → String
or_unknown none = "unknown"
or_unknown (some state) = state

abbrev pub parameter_state : List (String × Option String) → String → String
parameter_state caps param = elim (lookup param parameter_capabilities) [
  | none ↦ "unknown"
  | some name ↦ or_unknown (state_of caps name)
]

unfoldable pub parameter_errors : String → TargetConfig → String → List PlanError
parameter_errors at c param =
    let state = parameter_state c.capabilities param in
    let here = str_append at (str_append ".parameters." param) in
    if contains adapter_parameters param
    then []
    else if state == "unsupported"
    then problem here "capability_conflict" ∷ []
    else when (state == "unknown" && not c.experimental) (problem here "capability_unknown")

unfoldable pub parameters_errors : String → TargetConfig → List String → List PlanError
parameters_errors at c [] = []
parameters_errors at c (param ∷ ps) = parameter_errors at c param ++ parameters_errors at c ps

abbrev has_state : String → Option String → Bool
has_state state none = false
has_state state (some s) = s == state

abbrev is_real : Option String → Bool
is_real none = true
is_real (some backend) = backend == "real"

abbrev credential_missing : Surroundings → Option String → Bool
credential_missing env none = false
credential_missing env (some name) = not (name == "") && not (env.credential_set name)

-- What the loop over the candidates appends for a configuration that it found
unfoldable pub config_errors :
    Surroundings → Pack → List Case → String → TargetConfig → List PlanError
config_errors env pack cases field c =
    let at = str_append field ".target_config_id" in
    parameters_errors field c c.parameters
    ++ (when (is_memory pack && not (has_state "supported" (state_of c.capabilities "episodes")))
          (problem at "capability_conflict")
        ++ (when (is_agent pack && has_state "unsupported" (state_of c.capabilities "tools"))
              (problem at "capability_conflict")
            ++ (when
                  (c.adapter == "memoryai" && (is_real c.memory_backend && not env.memoryai_ready))
                  (problem at "prerequisite_missing")
                ++ (when
                      (c.adapter == "memoryai"
                        && (any (λ (k : Case). any (λ a. a == "generate") k.actions) cases
                            && not c.has_generation_target))
                      (problem at "generation_target_missing")
                    ++ when (credential_missing env c.credential_ref)
                        (problem at "credential_missing")))))

abbrev pub config_key : TargetConfig → ℕ
config_key c = c.id

-- `session.get(TargetConfigVersion, id)`, in the project
unfoldable pub config_in : List TargetConfig → ℕ → ℕ → Option TargetConfig
config_in configs project id = elim (get config_key id configs) [
  | none ↦ none
  | some c ↦ if c.project_id == project then some c else none
]

abbrev pub candidate_field : ℕ → String
candidate_field index = str_append "candidates[" (str_append (decimal index) "]")

-- The loop over the candidates, from the place `index` on
unfoldable pub plan_candidates :
    Surroundings
    → List TargetConfig
    → ℕ
    → Pack
    → List Case
    → ℕ
    → List CandidateSpec
    → List PlanError × List PlannedCandidate
plan_candidates env configs project pack cases index [] = ([], [])
plan_candidates env configs project pack cases index (spec ∷ specs) =
    let rest = plan_candidates env configs project pack cases (suc index) specs in
    let field = candidate_field index in
    elim (config_in configs project spec.target_config_id) [
      | none ↦ (problem (str_append field ".target_config_id") "not_found" ∷ rest.0, rest.1)
      | some c ↦ (
        config_errors env pack cases field c ++ rest.0,
        record { key = spec.key; config = c; ordinal = index } ∷ rest.1,
      )
    ]

abbrev grader_key : GraderVersion → ℕ
grader_key g = g.id

unfoldable pub grader_in : List GraderVersion → ℕ → ℕ → Option GraderVersion
grader_in graders project id = elim (get grader_key id graders) [
  | none ↦ none
  | some g ↦ if g.project_id == project then some g else none
]

unfoldable pub plan_graders : List GraderVersion → ℕ → List ℕ → List PlanError × List GraderVersion
plan_graders graders project [] = ([], [])
plan_graders graders project (id ∷ ids) =
    let rest = plan_graders graders project ids in
    elim (grader_in graders project id) [
      | none ↦ (problem "grader_ids" "not_found" ∷ rest.0, rest.1)
      | some g ↦ (rest.0, g ∷ rest.1)
    ]

abbrev pub has_name : List GraderVersion → String → Bool
has_name gs name = any (λ (g : GraderVersion). g.name == name) gs

abbrev pub is_judge : GraderVersion → Bool
is_judge g = (g.kind == "model" || g.kind == "pairwise") && is_given g.judge_config_id

abbrev pub above : Option ℕ → ℕ → Bool
above none n = false
above (some limit) n = ltb limit n

-- The checks after the loops
unfoldable pub plan_errors : Surroundings → RunRequest → Dataset → Plan → List PlanError
plan_errors env req d plan =
    when (not (all (has_name plan.graders) d.mandatory_graders)) (problem "grader_ids" "pass_rule")
    ++ (when (above req.max_target_calls plan.target_calls)
          (problem "limits.max_target_calls" "limit")
        ++ (when (above req.max_judge_calls plan.judge_calls)
              (problem "limits.max_judge_calls" "limit")
            ++ when
                (req.has_max_cost
                  && any
                      (λ (c : PlannedCandidate).
                        not (env.has_price c.config.adapter c.config.model))
                      plan.candidates)
                (problem "limits.max_cost" "pricing_unknown")))

abbrev or_default : Option (List ℕ) → List ℕ → List ℕ
or_default none ids = ids
or_default (some ids) defaults = ids

module _ (env : Surroundings) (cat : Catalogue) (req : RunRequest) where
  abbrev pub planned_candidates :
      Project → Scenario → Dataset → List PlanError × List PlannedCandidate
  planned_candidates p s d =
      plan_candidates env cat.configs p.id s.pack (chosen_cases env cat req d) 0 req.candidates

  abbrev pub planned_graders : Project → Scenario → List PlanError × List GraderVersion
  planned_graders p s = plan_graders cat.graders p.id (or_default req.grader_ids s.grader_refs)

  unfoldable pub plan_of : Project → Scenario → Dataset → Plan
  plan_of p s d =
      let cases = chosen_cases env cat req d in
      let trials = (length cases * length req.candidates) * req.repeats in
      let stage_calls = stage_calls_of s.pack cases in
      let graders = (planned_graders p s).1 in
      record {
        cases = cases;
        candidates = (planned_candidates p s d).1;
        graders = graders;
        planned_trials = trials;
        stage_calls = stage_calls;
        target_calls = trials * stage_calls;
        judge_calls = trials * count is_judge graders;
      }

  unfoldable pub all_errors : Project → Scenario → Dataset → List PlanError
  all_errors p s d =
      case_errors req s.pack (chosen_cases env cat req d)
      ++ ((planned_candidates p s d).0
          ++ ((planned_graders p s).0 ++ plan_errors env req d (plan_of p s d)))

  abbrev pub or_refuse : List PlanError → Plan → Result RunRefusal Plan
  or_refuse [] plan = ok plan
  or_refuse (e ∷ es) plan = err (record { errors = e ∷ es; status = 422 })

  abbrev not_found : PlanError → Bool
  not_found e = e.code == "not_found"

  -- Without an opening error all three rows are there, so that the last clause is not met.
  abbrev pub plan_for :
      List PlanError → Option Project → Option Scenario → Option Dataset → Result RunRefusal Plan
  plan_for (e ∷ es) p s d =
      err (record { errors = e ∷ es; status = if all not_found (e ∷ es) then 404 else 422 })
  plan_for [] (some p) (some s) (some d) = or_refuse (all_errors p s d) (plan_of p s d)
  plan_for [] none s d = err (record { errors = []; status = 404 })
  plan_for [] (some p) none d = err (record { errors = []; status = 404 })
  plan_for [] (some p) (some s) none = err (record { errors = []; status = 404 })

  abbrev pub project_row : Option Project
  project_row = get (λ (r : Project). r.id) req.project_id cat.projects

  abbrev pub scenario_row : Option Scenario
  scenario_row = get (λ (r : Scenario). r.id) req.scenario_id cat.scenarios

  abbrev pub dataset_row : Option Dataset
  dataset_row = get (λ (r : Dataset). r.id) req.dataset_id cat.datasets

  unfoldable pub validate_run : Result RunRefusal Plan
  validate_run =
      plan_for (opening_errors req project_row scenario_row dataset_row) project_row scenario_row
        dataset_row
