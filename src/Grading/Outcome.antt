-- ===== src/Grading/Outcome.antt =====
-- backend/eval_triage/graders/runner.py: `trial_outcome`, the dataset's pass rule.
use evalai.Base.{
  String, Bool, true, false, not, ◌&&◌, Option, none, some, List, [], ◌∷◌, ◌++◌, ◌==◌, string_eq,
  if◌then◌else◌,
}
use evalai.Base.Text.{str_append, join}
use evalai.Base.Assoc.{lookup}
use evalai.Enums.{Verdict}
use evalai.Grading.{not_applicable, is_empty}

pub record Grade : Type 0 where
  pub verdict : Verdict
  pub reason : Option String

pub data OutcomeKind : Type 0 where
  pass fail unresolved : OutcomeKind

pub record TrialOutcome : Type 0 where
  pub outcome : OutcomeKind
  pub reason : String
  pub mandatory : List String

abbrev verdict_text : Verdict → String
verdict_text Verdict.pass = "pass"
verdict_text Verdict.fail = "fail"
verdict_text Verdict.abstain = "abstain"
verdict_text Verdict.error = "error"
verdict_text Verdict.unavailable = "unavailable"

abbrev pub is_pass : Verdict → Bool
is_pass Verdict.pass = true
is_pass _ = false

abbrev pub is_fail : Verdict → Bool
is_fail Verdict.fail = true
is_fail _ = false

abbrev is_unavailable : Verdict → Bool
is_unavailable Verdict.unavailable = true
is_unavailable _ = false

-- `verdict == Verdict.UNAVAILABLE and reason == NOT_APPLICABLE`
abbrev pub is_not_applicable : Grade → Bool
is_not_applicable g =
    is_unavailable g.verdict && (elim g.reason [ none ↦ false | some r ↦ r == not_applicable ])

-- f"{name}: {verdict}" + (f" ({reason})" if reason else ""): an empty reason is left out too.
abbrev pub blocker_text : String → Grade → String
blocker_text name g = str_append name (
    str_append ": " (
      str_append (verdict_text g.verdict) (elim g.reason [
        | none ↦ ""
        | some r ↦ if r == "" then "" else str_append " (" (str_append r ")")
      ])))

-- What follows the loop.
unfoldable pub settle : List String → List String → List String → TrialOutcome
settle mandatory applied blockers =
    if not (is_empty blockers)
    then record {
      outcome = OutcomeKind.unresolved;
      reason = join "; " blockers;
      mandatory = mandatory;
    }
    else if is_empty applied
    then record {
      outcome = OutcomeKind.unresolved;
      reason = "no mandatory grader applies to this case";
      mandatory = mandatory;
    }
    else record {
      outcome = OutcomeKind.pass;
      reason = "all applicable mandatory graders passed";
      mandatory = mandatory;
    }

abbrev failed_outcome : String → List String → TrialOutcome
failed_outcome name mandatory = record {
  outcome = OutcomeKind.fail;
  reason = str_append "mandatory grader " (str_append name " failed");
  mandatory = mandatory;
}

-- The loop over the mandatory graders, with the lists `applied` and `blockers`.
unfoldable pub outcome_loop :
    List (String × Grade) → List String → List String → List String → List String → TrialOutcome
outcome_loop grades mandatory applied blockers [] = settle mandatory applied blockers
outcome_loop grades mandatory applied blockers (name ∷ names) = elim (lookup name grades) [
  | none ↦
      outcome_loop grades mandatory applied (blockers ++ str_append name ": not graded" ∷ []) names
  | some g ↦ elim (is_not_applicable g) [
    | true ↦ outcome_loop grades mandatory applied blockers names
    | false ↦ elim (is_fail g.verdict) [
      | true ↦ failed_outcome name mandatory
      | false ↦
          outcome_loop grades mandatory (applied ++ name ∷ [])
            (if is_pass g.verdict then blockers else blockers ++ blocker_text name g ∷ []) names
    ]
  ]
]

unfoldable pub trial_outcome : List (String × Grade) → List String → TrialOutcome
unfolding outcome_loop
trial_outcome grades mandatory = outcome_loop grades mandatory [] [] mandatory
