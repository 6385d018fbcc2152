-- ===== src/Checks/Memory.antt =====
-- backend/eval_triage/graders/deterministic.py: the checks of the final memory state and of recalls. A
-- detail that prints a list is left empty.
use evalai.Base.{
  String, Bool, true, false, not, ◌&&◌, ◌||◌, Option, none, some, List, [], ◌∷◌, ◌++◌, ◌==◌,
  string_eq, if◌then◌else◌, any, filter,
}
use evalai.Base.Json.{str, arr, obj, Items, nil, cons, Fields, get_field}
use evalai.Base.Text.{append, has_text}
use evalai.Grading.{CheckResult}
use evalai.Episode.{Action}
use evalai.Episode.Calls.{StepRecord, StepStatus}
use evalai.Checks.{
  TextOps, FactSpec, MemoryFact, Exclusion, Correction, GradingContext, skip, unavailable, decided,
  no_expectation, is_empty, claim_matches, matcher_of, store_for_step, state_of, is_active,
  active_facts, step_record,
}

-- The state that a fact's specification is about.
abbrev pub spec_state : GradingContext → FactSpec → Option (List MemoryFact)
spec_state ctx spec = state_of ctx (store_for_step ctx spec.source_step)

abbrev pub is_some {ℓ} : {A : Type ℓ} → Option A → Bool
is_some none = false
is_some (some a) = true

-- `not a or not b or a == b`, for two optional texts that are not empty
abbrev pub same_source : Option String → Option String → Bool
same_source none found = true
same_source (some s) none = true
same_source (some s) (some t) = t == s

abbrev pub is_ok : StepStatus → Bool
is_ok StepStatus.ok = true
is_ok _ = false

abbrev is_rebuild : Action → Bool
is_rebuild Action.rebuild = true
is_rebuild _ = false

-- A step's output text, `output.get(key, "")`
abbrev text_at : String → Fields → String
text_at k fs = elim (get_field k fs) [ some (str s) ↦ s | _ ↦ "" ]

module _ (ops : TextOps) where
  abbrev pub supports : FactSpec → MemoryFact → Bool
  supports spec f =
      is_active f
      && (claim_matches ops f.claim (matcher_of spec) && same_source spec.source_step f.source_step)

  abbrev pub offends : FactSpec → MemoryFact → Bool
  offends spec f = is_active f && claim_matches ops f.claim (matcher_of spec)

  -- The loop over the required facts; it returns at the first state that was not captured.
  unfoldable pub missing_facts : GradingContext → List FactSpec → Option (List FactSpec)
  missing_facts ctx [] = some []
  missing_facts ctx (spec ∷ specs) =
      let rest = missing_facts ctx specs in
      elim (spec_state ctx spec) [
        | none ↦ none
        | some facts ↦ elim rest [
          | none ↦ none
          | some missing ↦ if any (supports spec) facts then some missing else some (spec ∷ missing)
        ]
      ]

  abbrev no_state : String
  no_state = "no final memory state was captured"

  abbrev pub of_missing : {A : Type 0} → String → Option (List A) → CheckResult
  of_missing name none = unavailable name no_state
  of_missing name (some found) = decided name (is_empty found) "" []

  unfoldable pub check_required_facts : GradingContext → CheckResult
  check_required_facts ctx =
      if is_empty ctx.expected.required_facts
      then skip "required_facts" no_expectation
      else of_missing "required_facts" (missing_facts ctx ctx.expected.required_facts)

  -- The loop over the forbidden facts
  unfoldable pub offending_facts : GradingContext → List FactSpec → Option (List MemoryFact)
  offending_facts ctx [] = some []
  offending_facts ctx (spec ∷ specs) =
      let rest = offending_facts ctx specs in
      elim (spec_state ctx spec) [
        | none ↦ none
        | some facts ↦ elim rest [
          | none ↦ none
          | some more ↦ some (filter (offends spec) facts ++ more)
        ]
      ]

  unfoldable pub check_forbidden_current_facts : GradingContext → CheckResult
  check_forbidden_current_facts ctx =
      if is_empty ctx.expected.forbidden_current_facts
      then skip "forbidden_current_facts" no_expectation
      else of_missing "forbidden_current_facts"
          (offending_facts ctx ctx.expected.forbidden_current_facts)

  unfoldable pub check_no_durable_fact : GradingContext → CheckResult
  check_no_durable_fact ctx =
      if not ctx.expected.no_durable_fact
      then skip "no_durable_fact" no_expectation
      else elim (state_of ctx "main") [
        | none ↦ unavailable "no_durable_fact" no_state
        | some facts ↦ decided "no_durable_fact" (is_empty (active_facts facts)) "" []
      ]

  -- The recall's context, if its step completed
  abbrev pub recalled : GradingContext → String → Option String
  recalled ctx id = elim (step_record id ctx.steps) [
    | none ↦ none
    | some r ↦ if is_ok r.status then some (text_at "context" r.output) else none
  ]

  unfoldable pub check_exclusions : GradingContext → Bool → List Exclusion → CheckResult
  check_exclusions ctx leaked [] = decided "recall_excludes" (not leaked) "" []
  check_exclusions ctx leaked (x ∷ xs) = elim (recalled ctx x.step) [
    | none ↦
        unavailable "recall_excludes" (append "recall step " (append x.step " did not complete"))
    | some context ↦
        check_exclusions ctx (leaked || has_text (ops.fold x.text) (ops.fold context)) xs
  ]

  unfoldable pub check_recall_excludes : GradingContext → CheckResult
  check_recall_excludes ctx =
      if is_empty ctx.expected.recall_excludes
      then skip "recall_excludes" no_expectation
      else check_exclusions ctx false ctx.expected.recall_excludes

  -- `[u for u in unresolved if fold(claim) in fold(u.get("text", ""))]` is not empty
  mentions : String → Items → Bool
  mentions claim nil = false
  mentions claim (cons (obj u) us) =
      has_text (ops.fold claim) (ops.fold (text_at "text" u)) || mentions claim us
  mentions claim (cons _ us) = mentions claim us

  abbrev unresolved_in : String → Fields → Bool
  unresolved_in claim output = elim (get_field "unresolved" output) [
    | some (arr us) ↦ mentions claim us
    | _ ↦ false
  ]

  unfoldable pub reported_unresolved : String → List StepRecord → Bool
  unfolding mentions
  reported_unresolved claim steps =
      any (λ (r : StepRecord). is_rebuild r.action && unresolved_in claim r.output) steps

  -- An active fact that contains the corrected claim
  abbrev pub reinstated : String → List MemoryFact → Bool
  reinstated claim facts =
      any
        (λ f.
          claim_matches ops f.claim
            (record { any_words = []; all_words = claim ∷ []; affirmative = false }))
        (active_facts facts)

  abbrev pub of_correction : GradingContext → Correction → Option (List MemoryFact) → CheckResult
  of_correction ctx c none = unavailable "correction" no_state
  of_correction ctx c (some facts) =
      if not (reinstated c.claim_contains facts)
      then decided "correction" true "corrected fact is not active after rebuild" []
      else if reported_unresolved c.claim_contains ctx.steps
      then decided "correction" true
          "correction reported unresolved by rebuild (explicit, not silent)" []
      else decided "correction" false "corrected fact silently reinstated" []

  unfoldable pub check_correction : GradingContext → CheckResult
  check_correction ctx = elim ctx.expected.correction [
    | none ↦ skip "correction" no_expectation
    | some c ↦ of_correction ctx c (state_of ctx (store_for_step ctx (some c.step)))
  ]
