-- ===== src/Tests/Create.antt =====
-- A run of two cases with one candidate, each twice.
use evalai.Base.{ℕ, String, true, false, none, some, [], ◌∷◌, ◌≡◌, refl, map, nat_eq, string_eq}
use evalai.Base.Results.{Result, ok}
use evalai.Base.Text.{decimal}
use evalai.Enums.{Pack, RepeatMode}
use evalai.Runs.{Trial, emit}
use evalai.Runs.Plan.{Case, TargetConfig, Catalogue, RunRequest, RunRefusal, Plan, Surroundings}
use evalai.Runs.Validate.{
  opening_errors, chosen_cases, case_errors, stage_calls_of, parameter_errors, parameters_errors,
  config_errors, config_in, plan_candidates, grader_in, plan_graders, plan_errors, plan_of,
  all_errors, validate_run,
}
use evalai.Runs.Planned.{IsPlanned, validate_run-IsPlanned}
use evalai.Runs.Create.{
  Slot, Site, NewIds, Response, create_run, response_of, slots_of, add_trials, write_run, created,
}
use evalai.Runs.Created.{IsCreated, create_run-IsCreated, create_run-again}

abbrev surroundings : Surroundings
surroundings = record {
  id_text = decimal;
  credential_set = λ name. true;
  memoryai_ready = false;
  has_price = λ adapter model. false;
}

abbrev config : TargetConfig
config = record {
  id = 7;
  project_id = 1;
  adapter = "openai";
  model = "small";
  parameters = "temperature" ∷ "max_tokens" ∷ [];
  capabilities = ("temperature", some "supported") ∷ [];
  experimental = false;
  memory_backend = none;
  has_generation_target = false;
  credential_ref = some "KEY";
}

abbrev case_row : ℕ → ℕ → String → Case
case_row id ordinal name = record {
  id = id;
  dataset_id = 3;
  ordinal = ordinal;
  external_id = name;
  actions = [];
}

abbrev catalogue : Catalogue
catalogue = record {
  projects = record { id = 1 } ∷ [];
  scenarios =
      record { id = 2; project_id = 1; pack = Pack.reference_answer; grader_refs = 9 ∷ [] } ∷ [];
  datasets =
      record { id = 3; project_id = 1; scenario_id = 2; mandatory_graders = "exact" ∷ [] } ∷ [];
  cases = case_row 5 2 "b" ∷ case_row 4 1 "a" ∷ [];
  configs = config ∷ [];
  graders =
      record {
        id = 9;
        project_id = 1;
        name = "exact";
        kind = "deterministic";
        judge_config_id = none;
      }
      ∷ [];
}

abbrev request : RunRequest
request = record {
  project_id = 1;
  scenario_id = 2;
  dataset_id = 3;
  candidates = record { key = "base"; target_config_id = 7 } ∷ [];
  grader_ids = none;
  case_ids = none;
  repeats = 2;
  max_concurrency = none;
  repeat_mode = RepeatMode.full_episode;
  cache_outputs = false;
  schedule_seed = 42;
  restart_interrupted_episodes = true;
  max_target_calls = some 4;
  max_judge_calls = none;
  has_max_cost = false;
}

abbrev plan : Plan
plan = record {
  cases = case_row 4 1 "a" ∷ case_row 5 2 "b" ∷ [];
  candidates = record { key = "base"; config = config; ordinal = 0 } ∷ [];
  graders = catalogue.graders;
  planned_trials = 4;
  stage_calls = 1;
  target_calls = 4;
  judge_calls = 0;
}

accepted : validate_run surroundings catalogue request ≡ ok plan
unfolding validate_run opening_errors chosen_cases case_errors stage_calls_of parameter_errors
    parameters_errors config_errors config_in plan_candidates grader_in plan_graders plan_errors
    plan_of all_errors
accepted = refl

validate_run-IsPlanned_example : IsPlanned surroundings catalogue request plan
validate_run-IsPlanned_example = validate_run-IsPlanned surroundings catalogue request plan accepted

abbrev digest : ℕ → Slot → ℕ
digest seed s = s.repeat

abbrev hash_of : RunRequest → String
hash_of r = decimal r.repeats

abbrev new_ids : NewIds
new_ids = record { run = 10; grading = 11; trial = λ i. i; job = λ i. i }

abbrev empty_site : Site
empty_site = record {
  db = record {
    jobs = [];
    runs = [];
    trials = [];
    attempts = [];
    gradings = [];
    grades = [];
    events = [];
  };
  run_candidates = [];
  keys = [];
}

abbrev made : Result RunRefusal (ℕ × Response) × Site
made = create_run surroundings digest hash_of 100 new_ids request (some "k") catalogue empty_site

create_run-IsCreated_example :
    (made.0 ≡ ok (201, response_of surroundings digest hash_of 100 new_ids request plan))
    × IsCreated surroundings digest hash_of 100 new_ids request plan empty_site.db made.1.db
create_run-IsCreated_example =
    create_run-IsCreated surroundings digest hash_of 100 new_ids request (some "k") catalogue
      empty_site plan refl accepted

create_run-again_example :
    create_run surroundings digest hash_of 200 new_ids request (some "k") catalogue made.1
    ≡ (ok (201, response_of surroundings digest hash_of 100 new_ids request plan), made.1)
unfolding decimal
create_run-again_example =
    create_run-again surroundings digest hash_of 100 new_ids request (some "k") "k" catalogue
      empty_site plan 200 new_ids request catalogue refl refl accepted

-- The trials come by case and repeat; the jobs of the first repeats come first.
the_trials :
    map {B = ℕ × ℕ} (λ (t : Trial). (t.case_id, t.repeat_index)) made.1.db.trials
    ≡ (4, 0) ∷ (4, 1) ∷ (5, 0) ∷ (5, 1) ∷ []
unfolding create_run validate_run opening_errors chosen_cases case_errors stage_calls_of
    parameter_errors parameters_errors config_errors config_in plan_candidates grader_in
    plan_graders plan_errors plan_of all_errors created write_run add_trials slots_of emit
the_trials = refl
