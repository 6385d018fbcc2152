-- ===== src/Checks/Steps.antt =====
-- backend/eval_triage/graders/deterministic.py: the checks of single steps, and of the answer against a
-- reference. A detail that prints what was compared is left empty.
use evalai.Base.{
  ℕ, String, Bool, true, false, not, Option, none, some, List, [], leb, ◌==◌, string_eq,
  if◌then◌else◌, any, filter,
}
use evalai.Base.Json.{
  Json, bool, int, str, arr, obj, Items, nil, cons, Fields, end, field, get_field,
}
use evalai.Base.Text.{append}
use evalai.Grading.{CheckResult}
use evalai.Episode.{Action}
use evalai.Episode.Calls.{StepRecord}
use evalai.Checks.{
  TextOps, Outcome, GradingContext, skip, unavailable, decided, no_expectation, is_empty,
  answer_text, step_record,
}
use evalai.Checks.Memory.{is_ok}

-- A number of a recall's output, an integer by `RecallOutput`
abbrev pub number_at : String → Fields → Option ℕ
number_at k fs = elim (get_field k fs) [ some (int n) ↦ some n | _ ↦ none ]

-- The output of the step, if it completed
abbrev pub completed : String → List StepRecord → Option Fields
completed id steps = elim (step_record id steps) [
  | none ↦ none
  | some r ↦ if is_ok r.status then some r.output else none
]

abbrev pub within_budget : Option ℕ → Option ℕ → CheckResult
within_budget (some used) (some budget) = record (decided "recall_budget" (leb used budget) "" []) {
  metrics = field "used" (int used) (field "budget" (int budget) end);
}
within_budget _ _ = unavailable "recall_budget" "recall output does not report used/budget"

unfoldable pub check_recall_budget : GradingContext → CheckResult
check_recall_budget ctx = elim ctx.expected.recall_budget [
  | none ↦ skip "recall_budget" no_expectation
  | some id ↦ elim (completed id ctx.steps) [
    | none ↦ unavailable "recall_budget" (append "recall step " (append id " did not complete"))
    | some output ↦ within_budget (number_at "used" output) (number_at "budget" output)
  ]
]

abbrev name : String
name = "classification_outcome"

-- `verdict.get("outcome") == spec["outcome"]`
abbrev has_outcome : String → Fields → Bool
has_outcome outcome verdict = elim (get_field "outcome" verdict) [
  | some (str o) ↦ o == outcome
  | _ ↦ false
]

-- The verdict on small talk, by its truth: a missing or empty one is none.
abbrev smalltalk : Fields → Option Fields
smalltalk output = elim (get_field "smalltalk" output) [
  | some (obj (field k v fs)) ↦ some (field k v fs)
  | _ ↦ none
]

abbrev pub of_smalltalk : Outcome → Option Fields → CheckResult
of_smalltalk spec none = unavailable name "no small-talk verdict was recorded"
of_smalltalk spec (some verdict) = decided name (has_outcome spec.outcome verdict) "" []

unfoldable pub check_classification_outcome : GradingContext → CheckResult
check_classification_outcome ctx = elim ctx.expected.classification_outcome [
  | none ↦ skip name no_expectation
  | some spec ↦ elim (completed spec.step ctx.steps) [
    | none ↦ unavailable name (append "step " (append spec.step " did not complete"))
    | some output ↦ of_smalltalk spec (smalltalk output)
  ]
]

abbrev is_assert : StepRecord → Bool
is_assert r = elim r.action [ Action.assert_state checks ↦ true | _ ↦ false ]

-- `not c.get("passed")`
abbrev pub is_failed : Json → Bool
is_failed (obj fs) = elim (get_field "passed" fs) [ some (bool b) ↦ not b | _ ↦ true ]
is_failed v = true

abbrev pub any_failed : Items → Bool
any_failed nil = false
any_failed (cons c cs) = if is_failed c then true else any_failed cs

abbrev pub step_failed : StepRecord → Bool
step_failed r = elim (get_field "checks" r.output) [ some (arr cs) ↦ any_failed cs | _ ↦ false ]

unfoldable pub check_state_checks : GradingContext → CheckResult
check_state_checks ctx =
    let asserts = filter is_assert ctx.steps in
    if is_empty asserts
    then skip "state_checks" "episode has no assert_state steps"
    else if any (λ (r : StepRecord). not (is_ok r.status)) asserts
    then unavailable "state_checks" "assert_state steps did not complete"
    else decided "state_checks" (not (any step_failed asserts)) "" []

unfoldable pub check_exact_match : GradingContext → CheckResult
check_exact_match ctx = elim ctx.expected.reference [
  | none ↦ skip "exact_match" no_expectation
  | some reference ↦
      decided "exact_match" (answer_text ctx == reference) "byte-for-byte UTF-8 equality" []
]

unfoldable pub check_normalized_match : TextOps → GradingContext → CheckResult
check_normalized_match ops ctx = elim ctx.expected.reference [
  | none ↦ skip "normalized_match" no_expectation
  | some reference ↦
      decided "normalized_match" (ops.fold (answer_text ctx) == ops.fold reference)
        "casefold + NFKC + whitespace collapse (not semantic equivalence)" []
]
