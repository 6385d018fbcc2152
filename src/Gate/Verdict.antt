-- ===== src/Gate/Verdict.antt =====
-- What the release gate decides, against the rule that its documentation states.
use evalai.Base.{
  ℕ, String, Bool, false, not, ◌&&◌, ◌||◌, Option, none, some, List, [], ◌∷◌, ◌++◌, ◌≡◌, refl, ◌∙◌,
  inl, inr, arith, nat_eq, string_eq, if◌then◌else◌, any, all, map, filter, Bool-cases,
}
use evalai.Base.Predicates.{any-append, any-map, any-false}
use evalai.Base.Assoc.{lookup}
use evalai.Gate.Rule.{
  is_ready, says_blocked, violated, has_any, blocks, leaves_open, low_coverage, clears, all-clears,
  metric-blocks, metric-leaves_open,
}
use evalai.Gate.{
  is_empty, FloatOps, GateMetric, Policy, MetricResult, ReasonLine, Check, is_blocked,
  is_inconclusive, invariant_check, problem_check, coverage_checks, metric_check, relax,
  gate_checks, verdict_of, lacks_metrics, reasons_of, evaluate_gate,
}

is_empty-any : {A : Type 0} (xs : List A) → is_empty xs ≡ not (has_any xs)
is_empty-any [] = refl
is_empty-any (x ∷ xs) = refl

module _ {F : Type 0} (float : FloatOps F) where
  any-or :
      (xs : List (Check F))
      → any (λ (k : Check F). is_blocked k.status || is_inconclusive k.status) xs ≡ (
          any (λ (k : Check F). is_blocked k.status) xs
          || any (λ (k : Check F). is_inconclusive k.status) xs)
  any-or [] = refl
  any-or (x ∷ xs) = ground (arith, any-or xs)

  has_any-filter :
      (p : Check F → Bool) (xs : List (Check F)) (zs : List (ReasonLine F))
      → has_any (map (λ (k : Check F). ReasonLine.of_check k.check k.reason) (filter p xs) ++ zs)
        ≡ (any p xs || has_any zs)
  has_any-filter p [] zs = refl
  has_any-filter p (x ∷ xs) zs = elim (Bool-cases (p x)) [
    | inl t ↦ rw t refl
    | inr t ↦ rw t (has_any-filter p xs zs)
  ]

  reasons-any :
      (bare : Bool) (xs : List (Check F))
      → has_any (reasons_of float bare xs) ≡ not (is_ready (verdict_of float bare xs))
  unfolding reasons_of verdict_of
  reasons-any bare xs =
      has_any-filter (λ (k : Check F). is_blocked k.status || is_inconclusive k.status) xs
        (if bare then ReasonLine.no_metrics ∷ [] else [])
      ∙ rw (any-or xs) (ground arith)

  lacks-any : (policy : Policy F) → lacks_metrics float policy ≡ not (has_any policy.metrics)
  lacks-any policy = is_empty-any policy.metrics

  ready-both :
      (bare : Bool) (xs : List (Check F))
      → is_ready (verdict_of float bare xs) ≡ (
          not (any (λ (k : Check F). is_blocked k.status) xs)
          && (not (any (λ (k : Check F). is_inconclusive k.status) xs) && not bare))
  unfolding verdict_of
  ready-both bare xs = ground arith

  invariant-blocked :
      (failures : List (String × ℕ)) (name : String)
      → is_blocked (invariant_check float failures name).status ≡ violated failures name
  unfolding invariant_check
  invariant-blocked failures name = ground arith

  invariant-decided :
      (failures : List (String × ℕ)) (name : String)
      → is_inconclusive (invariant_check float failures name).status ≡ false
  unfolding invariant_check
  invariant-decided failures name = ground arith

  coverage-blocked :
      (least : F) (c : Option F)
      → any (λ (k : Check F). is_blocked k.status) (coverage_checks float least c) ≡ false
  unfolding coverage_checks
  coverage-blocked least none = refl
  coverage-blocked least (some c) = ground arith

  coverage-inconclusive :
      (least : F) (c : Option F)
      → any (λ (k : Check F). is_inconclusive k.status) (coverage_checks float least c)
        ≡ low_coverage float least c
  unfolding coverage_checks
  coverage-inconclusive least none = refl
  coverage-inconclusive least (some c) = ground arith

  problems-blocked :
      (ps : List String)
      → any (λ (k : Check F). is_blocked k.status) (map (problem_check float) ps) ≡ false
  unfolding problem_check
  problems-blocked [] = refl
  problems-blocked (p ∷ ps) = problems-blocked ps

  problems-inconclusive :
      (ps : List String)
      → any (λ (k : Check F). is_inconclusive k.status) (map (problem_check float) ps) ≡ has_any ps
  unfolding problem_check
  problems-inconclusive [] = refl
  problems-inconclusive (p ∷ ps) = refl

  any-four :
      (p : Check F → Bool) (a b c d : List (Check F))
      → any p (a ++ (b ++ (c ++ d))) ≡ (any p a || (any p b || (any p c || any p d)))
  any-four p a b c d = rw (any-append p a _, any-append p b _, any-append p c d) refl

  checks-blocked :
      (policy : Policy F) (results : List (String × MetricResult F)) (failures : List (String × ℕ))
      (coverage : Option F) (problems : List String)
      → any
          (λ (k : Check F). is_blocked k.status)
          (gate_checks float policy results failures coverage problems)
        ≡ (any (violated failures) policy.critical_invariants
            || any (blocks float policy results) policy.metrics)
  unfolding gate_checks
  checks-blocked policy results failures coverage problems =
      any-four (λ (k : Check F). is_blocked k.status)
        (map (invariant_check float failures) policy.critical_invariants)
        (map (problem_check float) problems)
        (coverage_checks float policy.min_paired_coverage coverage)
        (map
          (λ (m : GateMetric F).
            relax float m.required
              (metric_check float policy.min_independent_clusters m (lookup m.name results)))
          policy.metrics)
      ∙ rw
          (
            any-map (λ (k : Check F). is_blocked k.status) (violated failures)
                (invariant_check float failures) policy.critical_invariants
                (invariant-blocked failures),
            problems-blocked problems,
            coverage-blocked policy.min_paired_coverage coverage,
            any-map (λ (k : Check F). is_blocked k.status) (blocks float policy results)
                (λ m.
                  relax float m.required
                    (metric_check float policy.min_independent_clusters m (lookup m.name results)))
                policy.metrics (metric-blocks float policy results),
          )
          refl

  checks-inconclusive :
      (policy : Policy F) (results : List (String × MetricResult F)) (failures : List (String × ℕ))
      (coverage : Option F) (problems : List String)
      → any
          (λ (k : Check F). is_inconclusive k.status)
          (gate_checks float policy results failures coverage problems)
        ≡ (has_any problems
            || (low_coverage float policy.min_paired_coverage coverage
                || any (leaves_open float policy results) policy.metrics))
  unfolding gate_checks
  checks-inconclusive policy results failures coverage problems =
      any-four (λ (k : Check F). is_inconclusive k.status)
        (map (invariant_check float failures) policy.critical_invariants)
        (map (problem_check float) problems)
        (coverage_checks float policy.min_paired_coverage coverage)
        (map
          (λ (m : GateMetric F).
            relax float m.required
              (metric_check float policy.min_independent_clusters m (lookup m.name results)))
          policy.metrics)
      ∙ rw
          (
            any-map (λ (k : Check F). is_inconclusive k.status) (λ _. false)
                (invariant_check float failures) policy.critical_invariants
                (invariant-decided failures),
            any-false (λ (_ : String). false) policy.critical_invariants (λ _. refl),
            problems-inconclusive problems,
            coverage-inconclusive policy.min_paired_coverage coverage,
            any-map (λ (k : Check F). is_inconclusive k.status) (leaves_open float policy results)
                (λ m.
                  relax float m.required
                    (metric_check float policy.min_independent_clusters m (lookup m.name results)))
                policy.metrics (metric-leaves_open float policy results),
          )
          refl

  -- The gate is blocked exactly if a critical invariant was violated or the whole interval of a
  -- required metric, which has both bounds and at least the clusters that the policy asks for, lies
  -- below minus its margin once it is counted as an improvement: as it is where higher is better, and
  -- negated where lower is.
  pub evaluate_gate-blocked :
      (policy : Policy F) (results : List (String × MetricResult F)) (failures : List (String × ℕ))
      (coverage : Option F) (problems : List String)
      → says_blocked (evaluate_gate float policy results failures coverage problems).verdict ≡ (
          any (violated failures) policy.critical_invariants
          || any (blocks float policy results) policy.metrics)
  unfolding evaluate_gate verdict_of
  evaluate_gate-blocked policy results failures coverage problems =
      let b = checks-blocked policy results failures coverage problems in ground arith

  -- The gate is ready exactly if no critical invariant was violated, the experiment has no problem and
  -- enough paired coverage, and the policy has metrics of which every required one is cleared by its
  -- interval.
  pub evaluate_gate-ready :
      (policy : Policy F) (results : List (String × MetricResult F)) (failures : List (String × ℕ))
      (coverage : Option F) (problems : List String)
      → is_ready (evaluate_gate float policy results failures coverage problems).verdict ≡ (
          not (any (violated failures) policy.critical_invariants)
          && (not (has_any problems)
              && (not (low_coverage float policy.min_paired_coverage coverage)
                  && (has_any policy.metrics && all (clears float policy results) policy.metrics))))
  unfolding evaluate_gate verdict_of
  evaluate_gate-ready policy results failures coverage problems =
      ready-both (lacks_metrics float policy)
        (gate_checks float policy results failures coverage problems)
      ∙ rw
          (
            checks-blocked policy results failures coverage problems,
            checks-inconclusive policy results failures coverage problems,
            lacks-any policy,
            all-clears float policy results policy.metrics,
          )
          (ground arith)

  -- The reasons are empty exactly if the gate is ready: a verdict that withholds a release is explained.
  evaluate_gate-explained :
      (policy : Policy F) (results : List (String × MetricResult F)) (failures : List (String × ℕ))
      (coverage : Option F) (problems : List String)
      → let d = evaluate_gate float policy results failures coverage problems in
        has_any d.reasons ≡ not (is_ready d.verdict)
  unfolding evaluate_gate
  evaluate_gate-explained policy results failures coverage problems =
      reasons-any (lacks_metrics float policy)
        (gate_checks float policy results failures coverage problems)
