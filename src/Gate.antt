-- ===== src/Gate.antt =====
-- backend/eval_triage/statistics/bootstrap.py: `evaluate_gate`, the release decision. Floats belong
-- to the language: a section takes their type with the operations that the gate calls. The text of a
-- reason is a constructor with the values that the source formats.
pub mod Rule
pub mod Verdict
use evalai.Base.{
  ℕ, ◌+◌, String, Bool, true, false, not, ◌&&◌, ◌||◌, Option, none, some, List, [], ◌∷◌, ◌++◌, ltb,
  leb, ◌==◌, nat_eq, string_eq, if◌then◌else◌, filter, any, map, count,
}
use evalai.Base.Text.{str_append}
use evalai.Base.Assoc.{lookup}

-- The operations on floats; a comparison with a NaN is false, so `ge` is not the negation of `lt`.
pub record FloatOps (F : Type 0) : Type 0 where
  pub one : F
  pub neg : F → F
  pub mul : F → F → F
  pub lt : F → F → Bool
  pub ge : F → F → Bool

-- `from_dict` refuses any other text.
pub data Direction : Type 0 where
  higher_is_better lower_is_better : Direction

pub record GateMetric (F : Type 0) : Type 0 where
  pub name : String
  pub direction : Direction
  pub margin : F
  pub required : Bool

-- What the gate reads of `ReleasePolicyConfig`.
pub record Policy (F : Type 0) : Type 0 where
  pub metrics : List (GateMetric F)
  pub critical_invariants : List String
  pub min_paired_coverage : F
  pub min_independent_clusters : ℕ

-- What the gate reads of the result of a paired bootstrap.
pub record MetricResult (F : Type 0) : Type 0 where
  pub lower : Option F
  pub upper : Option F
  pub clusters : ℕ
  pub reason : Option String

pub data GateStatus : Type 0 where
  clear blocked inconclusive advisory : GateStatus

pub data Reason (F : Type 0) : Type 0 where
  no_violation : Reason F
  violations : ℕ → Reason F
  problem : String → Reason F
  low_coverage : F → F → Reason F
  no_interval : String → ℕ → Reason F
  few_clusters : ℕ → ℕ → Reason F
  non_inferior : F → F → Reason F
  regression : F → F → Reason F
  crosses : F → F → F → Reason F

-- A line of the decision's reasons: a check's name with its reason, or that the policy has no metric.
pub data ReasonLine (F : Type 0) : Type 0 where
  of_check : String → Reason F → ReasonLine F
  no_metrics : ReasonLine F

-- The copies of the metric and of its delta that an entry also carries are left out.
pub record Check (F : Type 0) : Type 0 where
  pub check : String
  pub status : GateStatus
  pub reason : Reason F
  pub adjusted : Option (F × F)

pub data GateVerdict : Type 0 where
  ready blocked inconclusive : GateVerdict

pub record Decision (F : Type 0) : Type 0 where
  pub verdict : GateVerdict
  pub reasons : List (ReasonLine F)
  pub checks : List (Check F)
  -- more than one required gate is evaluated
  pub multiplicity : Bool

abbrev pub is_blocked : GateStatus → Bool
is_blocked GateStatus.blocked = true
is_blocked _ = false

abbrev pub is_inconclusive : GateStatus → Bool
is_inconclusive GateStatus.inconclusive = true
is_inconclusive _ = false

abbrev is_clear : GateStatus → Bool
is_clear GateStatus.clear = true
is_clear _ = false

-- `failures.get(name, 0)`
abbrev pub failures_of : List (String × ℕ) → String → ℕ
failures_of failures name = elim (lookup name failures) [ none ↦ 0 | some n ↦ n ]

abbrev pub is_empty : {A : Type 0} → List A → Bool
is_empty [] = true
is_empty (x ∷ xs) = false

module _ {F : Type 0} (float : FloatOps F) where
  unfoldable pub invariant_check : List (String × ℕ) → String → Check F
  invariant_check failures name =
      let n = failures_of failures name in
      if n == 0
      then record {
        check = str_append "invariant:" name;
        status = GateStatus.clear;
        reason = Reason.no_violation;
        adjusted = none;
      }
      else record {
        check = str_append "invariant:" name;
        status = GateStatus.blocked;
        reason = Reason.violations n;
        adjusted = none;
      }

  unfoldable pub problem_check : String → Check F
  problem_check text = record {
    check = "experiment";
    status = GateStatus.inconclusive;
    reason = Reason.problem text;
    adjusted = none;
  }

  unfoldable pub coverage_checks : F → Option F → List (Check F)
  coverage_checks least none = []
  coverage_checks least (some c) =
      if float.lt c least
      then record {
        check = "paired_coverage";
        status = GateStatus.inconclusive;
        reason = Reason.low_coverage c least;
        adjusted = none;
      }
        ∷ []
      else []

  abbrev pub sign : Direction → F
  sign Direction.higher_is_better = float.one
  sign Direction.lower_is_better = float.neg float.one

  -- `sorted((a, b))`
  abbrev pub sorted_pair : F → F → F × F
  sorted_pair a b = if float.lt b a then (b, a) else (a, b)

  -- The last `else`: an interval is there, from enough clusters.
  unfoldable pub interval_check : GateMetric F → F → F → Check F
  interval_check m lower upper =
      let s = sign m.direction in
      let (low, high) = sorted_pair (float.mul s lower) (float.mul s upper) in
      let name = str_append "metric:" m.name in
      if float.ge low (float.neg m.margin)
      then record {
        check = name;
        status = GateStatus.clear;
        reason = Reason.non_inferior low m.margin;
        adjusted = some (low, high);
      }
      else if float.lt high (float.neg m.margin)
      then record {
        check = name;
        status = GateStatus.blocked;
        reason = Reason.regression high m.margin;
        adjusted = some (low, high);
      }
      else record {
        check = name;
        status = GateStatus.inconclusive;
        reason = Reason.crosses low high m.margin;
        adjusted = some (low, high);
      }

  abbrev unavailable : GateMetric F → Reason F → Check F
  unavailable m why = record {
    check = str_append "metric:" m.name;
    status = GateStatus.inconclusive;
    reason = why;
    adjusted = none;
  }

  -- `(result or {}).get("reason") or ...`, with the clusters of the result
  abbrev no_bounds : Option String → ℕ → Reason F
  no_bounds none clusters = Reason.no_interval "no paired cases with binary grades" clusters
  no_bounds (some why) clusters =
      if why == ""
      then Reason.no_interval "no paired cases with binary grades" clusters
      else Reason.no_interval why clusters

  abbrev bounded_check : ℕ → GateMetric F → MetricResult F → Option F → Option F → Check F
  bounded_check least m r (some lower) (some upper) =
      if ltb r.clusters least
      then unavailable m (Reason.few_clusters r.clusters least)
      else interval_check m lower upper
  bounded_check least m r (some lower) none = unavailable m (no_bounds r.reason r.clusters)
  bounded_check least m r none upper = unavailable m (no_bounds r.reason r.clusters)

  unfoldable pub metric_check : ℕ → GateMetric F → Option (MetricResult F) → Check F
  metric_check least m none = unavailable m (no_bounds none 0)
  metric_check least m (some r) = bounded_check least m r r.lower r.upper

  -- A metric that is not required advises.
  unfoldable pub relax : Bool → Check F → Check F
  relax required c =
      if not required && not (is_clear c.status)
      then record c { status = GateStatus.advisory }
      else c

  unfoldable pub gate_checks :
      Policy F
      → List (String × MetricResult F)
      → List (String × ℕ)
      → Option F
      → List String
      → List (Check F)
  gate_checks policy results failures coverage problems =
      map (invariant_check failures) policy.critical_invariants
      ++ (map problem_check problems
          ++ (coverage_checks policy.min_paired_coverage coverage
              ++ map
                  (λ (m : GateMetric F).
                    relax m.required
                      (metric_check policy.min_independent_clusters m (lookup m.name results)))
                  policy.metrics))

  unfoldable pub verdict_of : Bool → List (Check F) → GateVerdict
  verdict_of bare checks =
      if any (λ (c : Check F). is_blocked c.status) checks
      then GateVerdict.blocked
      else if any (λ (c : Check F). is_inconclusive c.status) checks || bare
      then GateVerdict.inconclusive
      else GateVerdict.ready

  -- `not policy.metrics`
  abbrev pub lacks_metrics : Policy F → Bool
  lacks_metrics policy = is_empty policy.metrics

  unfoldable pub reasons_of : Bool → List (Check F) → List (ReasonLine F)
  reasons_of bare checks =
      map (λ (c : Check F). ReasonLine.of_check c.check c.reason)
        (filter (λ (c : Check F). is_blocked c.status || is_inconclusive c.status) checks)
      ++ (if bare then ReasonLine.no_metrics ∷ [] else [])

  unfoldable pub evaluate_gate :
      Policy F
      → List (String × MetricResult F)
      → List (String × ℕ)
      → Option F
      → List String
      → Decision F
  evaluate_gate policy results failures coverage problems =
      let checks = gate_checks policy results failures coverage problems in
      record {
        verdict = verdict_of (lacks_metrics policy) checks;
        reasons = reasons_of (lacks_metrics policy) checks;
        checks = checks;
        multiplicity = ltb 1 (count (λ (m : GateMetric F). m.required) policy.metrics);
      }
