-- ===== src/Runs/Planned.antt =====
-- What a plan that `validate_run` of execution/runs.py lets through has.
use evalai.Base.{
  ℕ, suc, ◌*◌, String, Bool, true, false, not, Option, none, some, List, [], ◌∷◌, ◌++◌, ◌≡◌, ◌≢◌,
  refl, sym, ap, subst, ◌∙◌, inl, inr, arith, All, ◌==◌, nat_eq, string_eq, Bool-cases,
  Option-cases, map, all, count, length, contains, eq_iff,
}
use evalai.Base.Results.{ok}
use evalai.Base.Predicates.{length-map}
use evalai.Base.Table.{get}
use evalai.Runs.Plan.{
  Project, Scenario, Dataset, Case, TargetConfig, Catalogue, CandidateSpec, RunRequest, PlanError,
  PlannedCandidate, Plan, Surroundings,
}
use evalai.Runs.Validate.{
  when, scenario_missing, dataset_missing, mismatched, opening_errors, chosen_cases,
  parameter_state, parameter_errors, parameters_errors, config_errors, config_in, candidate_field,
  plan_candidates, has_name, above, plan_errors, plan_of, all_errors, or_refuse, plan_for,
  validate_run, planned_candidates, planned_graders, config_key, case_errors, is_judge,
  stage_calls_of, adapter_parameters, project_row, scenario_row, dataset_row,
}
use evalai.Enums.{Pack}

append-nil_inv : {A : Type 0} (xs ys : List A) → xs ++ ys ≡ [] → (xs ≡ []) × (ys ≡ [])
append-nil_inv [] ys h = (refl, h)
append-nil_inv (x ∷ xs) ys h = absurd (cc)

when-nil : (b : Bool) (e : PlanError) → when b e ≡ [] → b ≡ false
when-nil true e h = absurd (cc)
when-nil false e h = refl

-- The checks after the loops, when none fails
plan_errors-ok :
    (env : Surroundings) (req : RunRequest) (d : Dataset) (plan : Plan)
    → plan_errors env req d plan ≡ []
    → (all (has_name plan.graders) d.mandatory_graders ≡ true)
      × (above req.max_target_calls plan.target_calls ≡ false)
      × (above req.max_judge_calls plan.judge_calls ≡ false)
unfolding plan_errors
plan_errors-ok env req d plan h =
    let (m1, q1) =
      append-nil_inv (when (not (all (has_name plan.graders) d.mandatory_graders)) _) _ h in
    let (m2, q2) = append-nil_inv (when (above req.max_target_calls plan.target_calls) _) _ q1 in
    let (m3, q3) = append-nil_inv (when (above req.max_judge_calls plan.judge_calls) _) _ q2 in
    let named = when-nil (not (all (has_name plan.graders) d.mandatory_graders)) _ m1 in
    (
      ground (arith, named),
      when-nil (above req.max_target_calls plan.target_calls) _ m2,
      when-nil (above req.max_judge_calls plan.judge_calls) _ m3,
    )

-- Every parameter that the adapter does not read itself has a capability that is not unsupported, and that is
-- known unless the configuration is experimental.
abbrev pub IsUsable : TargetConfig → String → Type 0
IsUsable c param =
    contains adapter_parameters param ≡ false
    → (parameter_state c.capabilities param ≢ "unsupported")
      × (parameter_state c.capabilities param ≡ "unknown" → c.experimental ≡ true)

parameter-IsUsable :
    (field : String) (c : TargetConfig) (param : String)
    → parameter_errors field c param ≡ []
    → IsUsable c param
unfolding parameter_errors
parameter-IsUsable field c param h own =
    let k = rw (parameter_errors, own) at h in
    elim (Bool-cases (parameter_state c.capabilities param == "unsupported")) [
      | inl t ↦ (let no = rw t at k in absurd (cc))
      | inr f ↦
          let w = when-nil _ _ (rw f at k) in
          (
            (λ e.
                let t = (eq_iff (parameter_state c.capabilities param) "unsupported").1 e in
                ground (arith, f, t)),
            λ e.
                let t = (eq_iff (parameter_state c.capabilities param) "unknown").1 e in
                ground (arith, w, t),
          )
    ]

parameters-IsUsable :
    (field : String) (c : TargetConfig) (params : List String)
    → parameters_errors field c params ≡ []
    → All (IsUsable c) params
unfolding parameters_errors
parameters-IsUsable field c [] h = tt
parameters-IsUsable field c (param ∷ params) h =
    let (k, r) =
      append-nil_inv (parameter_errors field c param) (parameters_errors field c params) h in
    (parameter-IsUsable field c param k, parameters-IsUsable field c params r)

module _ (env : Surroundings) (cat : Catalogue) where
  -- A candidate of the plan: its configuration is one of the project, and can be used.
  pub record IsCandidate (project : ℕ) (c : PlannedCandidate) : Type 0 where
    pub owned : c.config.project_id ≡ project
    pub usable : All (IsUsable c.config) c.config.parameters

  config_in-owned :
      (project id : ℕ) (c : TargetConfig)
      → config_in cat.configs project id ≡ some c
      → c.project_id ≡ project
  unfolding config_in
  config_in-owned project id c h = elim (Option-cases (get config_key id cat.configs)) [
    | inl e ↦ (let no = rw (config_in, e) at h in absurd (cc))
    | inr (x, e) ↦ elim (Bool-cases (x.project_id == project)) [
      | inl t ↦
          (let k : some x ≡ some c = rw (config_in, e, t) at h in
            let same : x ≡ c = cc in rw (← same) ((nat_eq.is_same_iff x.project_id project).0 t))
      | inr f ↦ (let no = rw (config_in, e, f) at h in absurd (cc))
    ]
  ]

  plan_candidates-ok :
      (project : ℕ) (pack : Pack) (cases : List Case) (index : ℕ) (specs : List CandidateSpec)
      → let r = plan_candidates env cat.configs project pack cases index specs in
        r.0 ≡ []
        → (map (λ (c : PlannedCandidate). c.key) r.1 ≡ map (λ (c : CandidateSpec). c.key) specs)
          × All (IsCandidate project) r.1
  unfolding plan_candidates config_in config_errors
  plan_candidates-ok project pack cases index [] h = (refl, tt)
  plan_candidates-ok project pack cases index (spec ∷ specs) h =
      elim (Option-cases (config_in cat.configs project spec.target_config_id)) [
        | inl e ↦ (let no = rw (plan_candidates, e) at h in absurd (cc))
        | inr (c, e) ↦
            let (own, later) =
              append-nil_inv (config_errors env pack cases (candidate_field index) c) _
                (rw (plan_candidates, e) at h) in
            let (keys, candidates) =
              plan_candidates-ok project pack cases (suc index) specs later in
            let (params, others) =
              append-nil_inv (parameters_errors (candidate_field index) c c.parameters) _ own in
            rw (plan_candidates, e)
              (
                ap (λ l. spec.key ∷ l) keys,
                (
                  record {
                    owned = config_in-owned project spec.target_config_id c e;
                    usable = parameters-IsUsable (candidate_field index) c c.parameters params;
                  },
                  candidates,
                ),
              )
      ]

  -- What a plan has of the request and of the rows that the request names.
  pub record IsPlanned (req : RunRequest) (plan : Plan) : Type 0 where
    pub project : Project
    pub scenario : Scenario
    pub dataset : Dataset
    pub project_found : get (λ (r : Project). r.id) req.project_id cat.projects ≡ some project
    pub scenario_found : get (λ (r : Scenario). r.id) req.scenario_id cat.scenarios ≡ some scenario
    pub dataset_found : get (λ (r : Dataset). r.id) req.dataset_id cat.datasets ≡ some dataset
    pub same_project : (scenario.project_id ≡ project.id) × (dataset.project_id ≡ project.id)
    pub same_scenario : dataset.scenario_id ≡ scenario.id
    pub cases : plan.cases ≡ chosen_cases env cat req dataset
    pub keys :
        map (λ (c : PlannedCandidate). c.key) plan.candidates
        ≡ map (λ (c : CandidateSpec). c.key) req.candidates
    pub candidates : All (IsCandidate project.id) plan.candidates
    pub mandatory : all (has_name plan.graders) dataset.mandatory_graders ≡ true
    pub trials : plan.planned_trials ≡ (length plan.cases * length plan.candidates) * req.repeats
    pub estimates :
        (plan.target_calls ≡ plan.planned_trials * stage_calls_of scenario.pack plan.cases)
        × (plan.judge_calls ≡ plan.planned_trials * count is_judge plan.graders)
    pub target_calls :
        above req.max_target_calls (plan.planned_trials * stage_calls_of scenario.pack plan.cases)
        ≡ false
    pub judge_calls :
        above req.max_judge_calls (plan.planned_trials * count is_judge plan.graders) ≡ false

  opening_ok :
      (req : RunRequest) (p : Project) (s : Scenario) (d : Dataset)
      → opening_errors req (some p) (some s) (some d) ≡ []
      → ((s.project_id ≡ p.id) × (d.project_id ≡ p.id)) × (d.scenario_id ≡ s.id)
  unfolding opening_errors
  opening_ok req p s d h =
      let (k1, r1) = append-nil_inv (when (scenario_missing (some s) (some p)) _) _ h in
      let (k2, r2) = append-nil_inv (when (dataset_missing (some d) (some p)) _) _ r1 in
      let (k3, r3) = append-nil_inv (when (mismatched (some s) (some d)) _) _ r2 in
      let a = when-nil _ _ k1 in
      let b = when-nil _ _ k2 in
      let c = when-nil _ _ k3 in ((ground (arith, a), ground (arith, b)), ground (arith, c))

  module _ (req : RunRequest) where
    accepted :
        (es : List PlanError) (plan plan' : Plan)
        → or_refuse env cat req es plan ≡ ok plan'
        → (es ≡ []) × (plan ≡ plan')
    accepted [] plan plan' h = (refl, cc)
    accepted (e ∷ es) plan plan' h = absurd (cc)

    -- The rows that a plan was made of
    abbrev IsMadeOf :
        List PlanError → Option Project → Option Scenario → Option Dataset → Plan → Type 0
    IsMadeOf es op os od plan =
        (p : Project) × (s : Scenario) × (d : Dataset) × (es ≡ [])
        × (op ≡ some p)
        × (os ≡ some s)
        × (od ≡ some d)
        × (all_errors env cat req p s d ≡ [])
        × (plan_of env cat req p s d ≡ plan)

    plan_for-ok :
        (es : List PlanError) (op : Option Project) (os : Option Scenario) (od : Option Dataset)
        (plan : Plan)
        → plan_for env cat req es op os od ≡ ok plan
        → IsMadeOf es op os od plan
    plan_for-ok (e ∷ es) op os od plan h = absurd (cc)
    plan_for-ok [] none os od plan h = absurd (cc)
    plan_for-ok [] (some p) none od plan h = absurd (cc)
    plan_for-ok [] (some p) (some s) none plan h = absurd (cc)
    plan_for-ok [] (some p) (some s) (some d) plan h =
        let (k, e) = accepted (all_errors env cat req p s d) (plan_of env cat req p s d) plan h in
        (p, s, d, refl, refl, refl, refl, k, e)

    plan_of-IsPlanned :
        (p : Project) (s : Scenario) (d : Dataset)
        → (project_row env cat req ≡ some p)
          × (scenario_row env cat req ≡ some s)
          × (dataset_row env cat req ≡ some d)
        → opening_errors req (some p) (some s) (some d) ≡ []
        → all_errors env cat req p s d ≡ []
        → IsPlanned req (plan_of env cat req p s d)
    unfolding plan_of all_errors
    plan_of-IsPlanned p s d rows opening none_left =
        let (k1, r1) =
          append-nil_inv (case_errors req s.pack (chosen_cases env cat req d)) _ none_left in
        let (k2, r2) = append-nil_inv (planned_candidates env cat req p s d).0 _ r1 in
        let (k3, r3) = append-nil_inv (planned_graders env cat req p s).0 _ r2 in
        let (named, within, judged) = plan_errors-ok env req d (plan_of env cat req p s d) r3 in
        let (keys, candidates) =
          plan_candidates-ok p.id s.pack (chosen_cases env cat req d) 0 req.candidates k2 in
        let (same_project, same_scenario) = opening_ok req p s d opening in
        record {
          project = p;
          scenario = s;
          dataset = d;
          project_found = rows.0;
          scenario_found = rows.1;
          dataset_found = rows.2;
          same_project = same_project;
          same_scenario = same_scenario;
          cases = refl;
          keys = keys;
          candidates = candidates;
          mandatory = named;
          trials =
              ap (λ n. (length (chosen_cases env cat req d) * n) * req.repeats)
                (sym (length-map (λ (c : CandidateSpec). c.key) req.candidates)
                  ∙ ap length (sym keys)
                  ∙ length-map (λ (c : PlannedCandidate). c.key)
                      (planned_candidates env cat req p s d).1);
          estimates = (refl, refl);
          target_calls = within;
          judge_calls = judged;
        }

    -- Where the validation of a request gives a plan, the project, scenario and dataset that the
    -- request names are there and belong together; the cases are those chosen of that dataset; the candidates have the
    -- request's keys in its order, with configurations of the project of which no parameter is
    -- unsupported, or unknown outside the experimental mode, unless the adapter reads it itself;
    -- the graders include every mandatory one of that dataset; the number of trials is that of cases times
    -- candidates times repeats; and the calls of targets and of judges that it estimates are
    -- within the limits given.
    pub validate_run-IsPlanned :
        (plan : Plan) → validate_run env cat req ≡ ok plan → IsPlanned req plan
    unfolding validate_run
    validate_run-IsPlanned plan h =
        let (p, s, d, opening, ep, es, ed, errors, made) =
          plan_for-ok
            (opening_errors req (project_row env cat req) (scenario_row env cat req)
              (dataset_row env cat req))
            (project_row env cat req) (scenario_row env cat req) (dataset_row env cat req) plan h in
        subst (IsPlanned req) made (
          plan_of-IsPlanned p s d (ep, es, ed)
            (sym (λ i. opening_errors req (ep i) (es i) (ed i)) ∙ opening) errors)
