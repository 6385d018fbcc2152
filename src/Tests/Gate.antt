-- ===== src/Tests/Gate.antt =====
-- The release gate over integers in place of floats.
use evalai.Base.{
  zero, suc, ◌*◌, String, true, not, none, some, List, [], ◌∷◌, ◌≡◌, refl, nat_eq, string_eq,
}
use evalai.Base.Int.{ℤ, pos, negsuc, ltb_ℤ}
use evalai.Gate.{
  FloatOps, Direction, Policy, MetricResult, GateVerdict, evaluate_gate, gate_checks, verdict_of,
  invariant_check, problem_check, coverage_checks, metric_check, interval_check, relax,
}
use evalai.Gate.Rule.{is_ready, says_blocked}
use evalai.Gate.Verdict.{evaluate_gate-blocked, evaluate_gate-ready}

abbrev negated : ℤ → ℤ
negated (pos zero) = pos 0
negated (pos (suc n)) = negsuc n
negated (negsuc n) = pos (suc n)

abbrev times : ℤ → ℤ → ℤ
times (pos m) (pos n) = pos (m * n)
times (pos m) (negsuc n) = negated (pos (m * suc n))
times (negsuc m) (pos n) = negated (pos (suc m * n))
times (negsuc m) (negsuc n) = pos (suc m * suc n)

abbrev integers : FloatOps ℤ
integers = record {
  one = pos 1;
  neg = negated;
  mul = times;
  lt = ltb_ℤ;
  ge = λ a b. not (ltb_ℤ a b);
}

abbrev policy : Policy ℤ
policy = record {
  metrics =
      record {
        name = "pass_rate";
        direction = Direction.higher_is_better;
        margin = pos 5;
        required = true;
      }
      ∷ record {
        name = "latency";
        direction = Direction.lower_is_better;
        margin = pos 9;
        required = true;
      }
      ∷ [];
  critical_invariants = "no_sensitive_leak" ∷ [];
  min_paired_coverage = pos 90;
  min_independent_clusters = 20;
}

abbrev results : List (String × MetricResult ℤ)
results =
    (
      "pass_rate",
      record { lower = some (negsuc 2); upper = some (pos 4); clusters = 25; reason = none },
    )
    ∷ (
      "latency",
      record { lower = some (negsuc 0); upper = some (pos 7); clusters = 25; reason = none },
    )
    ∷ []

is_ready_here :
    (evaluate_gate integers policy results [] (some (pos 95)) []).verdict ≡ GateVerdict.ready
unfolding evaluate_gate gate_checks verdict_of invariant_check problem_check coverage_checks
    metric_check interval_check relax
is_ready_here = refl

violation_blocks :
    (evaluate_gate integers policy results
      (("no_sensitive_leak", 2) ∷ [])
      (some (pos 95))
      []).verdict
    ≡ GateVerdict.blocked
unfolding evaluate_gate gate_checks verdict_of invariant_check problem_check coverage_checks
    metric_check interval_check relax
violation_blocks = refl

-- The latency is higher by ten at least, where nine are allowed.
abbrev slower : List (String × MetricResult ℤ)
slower =
    (
      "latency",
      record { lower = some (pos 10); upper = some (pos 12); clusters = 25; reason = none },
    )
    ∷ []

evaluate_gate-blocked_example :
    says_blocked (evaluate_gate integers policy slower [] none []).verdict ≡ true
evaluate_gate-blocked_example = evaluate_gate-blocked integers policy slower [] none []

evaluate_gate-ready_example :
    is_ready (evaluate_gate integers policy results [] (some (pos 95)) []).verdict ≡ true
evaluate_gate-ready_example = evaluate_gate-ready integers policy results [] (some (pos 95)) []
