-- ===== src/Grading.antt =====
-- backend/eval_triage/graders/base.py: check results and how a deterministic grader combines them.
pub mod Aggregate
pub mod Outcome
pub mod PassRule
pub mod Invariants
use evalai.Base.{
  String, Bool, true, false, not, ◌&&◌, Option, none, some, List, [], ◌∷◌, ◌≡◌, ◌==◌, string_eq,
  if◌then◌else◌, filter, any, map,
}
use evalai.Base.Json.{Fields, Items}
use evalai.Base.Text.{str_append, join, text_or_none}
use evalai.Base.Assoc.{lookup, insert}
use evalai.Enums.{Verdict}

abbrev pub not_applicable : String
not_applicable = "not_applicable"

abbrev pub not_a_binary_verdict : String
not_a_binary_verdict = "not_a_binary_verdict"

pub record CheckResult : Type 0 where
  pub name : String
  pub applicable : Bool
  pub passed : Option Bool
  pub detail : String
  pub evidence : Items
  pub metrics : Fields
  pub binary : Bool
  pub unavailable_reason : Option String
  pub invariants : List (String × String)

-- `c.passed is False`, `c.passed is None`
abbrev pub passed_false : CheckResult → Bool
passed_false c = elim c.passed [ some false ↦ true | _ ↦ false ]

abbrev pub passed_none : CheckResult → Bool
passed_none c = elim c.passed [ none ↦ true | _ ↦ false ]

-- `CheckResult.status`
unfoldable pub status : CheckResult → String
status c =
    if not c.applicable
    then not_applicable
    else if not c.binary
    then "measured"
    else elim c.passed [ none ↦ "unavailable" | some true ↦ "pass" | some false ↦ "fail" ]

abbrev pub is_empty {ℓ} : {A : Type ℓ} → List A → Bool
is_empty [] = true
is_empty (x ∷ xs) = false

-- f"{c.name}: {c.unavailable_reason}"
abbrev missing_text : CheckResult → String
missing_text c = str_append c.name (str_append ": " (text_or_none c.unavailable_reason))

unfoldable pub aggregate : List CheckResult → Verdict × Option String
aggregate checks =
    let applicable = filter (λ (c : CheckResult). c.applicable) checks in
    let binary = filter (λ (c : CheckResult). c.binary) applicable in
    let missing = filter passed_none binary in
    if is_empty applicable
    then (Verdict.unavailable, some not_applicable)
    else if is_empty binary
    then (Verdict.unavailable, some not_a_binary_verdict)
    else if any passed_false binary
    then (Verdict.fail, none)
    else if not (is_empty missing)
    then (Verdict.unavailable, some (join "; " (map missing_text missing)))
    else (Verdict.pass, none)

-- `GradeResult.invariant_results`: the loops over the checks and over each one's invariants.
unfoldable pub merge_invariants :
    List (String × String) → List (String × String) → List (String × String)
merge_invariants merged [] = merged
merge_invariants merged ((name, s) ∷ rest) =
    merge_invariants
      (if (elim (lookup name merged) [ none ↦ false | some t ↦ t == "fail" ])
        then merged
        else insert name s merged)
      rest

unfoldable pub invariant_results :
    List (String × String) → List CheckResult → List (String × String)
invariant_results merged [] = merged
invariant_results merged (c ∷ cs) = invariant_results (merge_invariants merged c.invariants) cs
