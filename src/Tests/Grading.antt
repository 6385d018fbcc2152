-- ===== src/Tests/Grading.antt =====
-- The pass rule and the combination of checks.
use evalai.Base.{String, none, some, List, [], ◌∷◌, ◌≡◌, refl, true, false}
use evalai.Base.Json.{end, nil}
use evalai.Enums.{Verdict}
use evalai.Grading.{CheckResult}
use evalai.Grading.Outcome.{Grade, OutcomeKind, settle, trial_outcome}
use evalai.Grading.PassRule.{trial_outcome-rule, rule, verdicts}

abbrev grades : List (String × Grade)
grades =
    ("exact", record { verdict = Verdict.pass; reason = none })
    ∷ ("state", record { verdict = Verdict.unavailable; reason = some "not_applicable" })
    ∷ ("judge", record { verdict = Verdict.error; reason = some "grader_exception" })
    ∷ []

blocked_text :
    (trial_outcome grades ("exact" ∷ "state" ∷ "judge" ∷ "lost" ∷ [])).reason
    ≡ "judge: error (grader_exception); lost: not graded"
unfolding trial_outcome settle
blocked_text = refl

trial_outcome-rule_example :
    (trial_outcome grades ("exact" ∷ "state" ∷ [])).outcome
    ≡ rule (verdicts grades ("exact" ∷ "state" ∷ []))
trial_outcome-rule_example = trial_outcome-rule grades ("exact" ∷ "state" ∷ [])

passes : (trial_outcome grades ("exact" ∷ "state" ∷ [])).outcome ≡ OutcomeKind.pass
unfolding trial_outcome settle
passes = refl

abbrev leak_check : CheckResult
leak_check = record {
  name = "leaks";
  applicable = true;
  passed = some false;
  detail = "";
  evidence = nil;
  metrics = end;
  binary = true;
  unavailable_reason = none;
  invariants = ("no_sensitive_leak", "fail") ∷ [];
}

abbrev clean_check : CheckResult
clean_check = record leak_check {
  passed = some true;
  invariants = ("no_sensitive_leak", "pass") ∷ [];
}
