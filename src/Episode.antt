-- ===== src/Episode.antt =====
-- backend/eval_triage/domain/episode.py: the actions of an episode and the checks on it as a whole.
-- The values are those that the schemas have validated: an id or a store is a text of its pattern, a
-- reference is kept as `parse_ref` reads it, and a timeout is in milliseconds.
pub mod Rules
pub mod Calls
pub mod Run
pub mod Records
pub mod Status
pub mod Lost
pub mod Outputs
pub mod Depends
use evalai.Base.{
  ℕ, ◌+◌, String, Bool, true, false, not, ◌&&◌, ◌||◌, Option, none, some, List, [], ◌∷◌, ◌++◌, ◌==◌,
  nat_eq, string_eq, if◌then◌else◌, map, any,
}
use evalai.Base.Assoc.{lookup, insert}
use evalai.Base.Json.{Fields}
use evalai.Refs.{Ref}

pub data Actor : Type 0 where
  user assistant system : Actor

pub data AssertStatus : Type 0 where
  candidate approved : AssertStatus

pub data Level : Type 0 where
  low mid high : Level

pub data FactState : Type 0 where
  active historical rejected withdrawn invalidated : FactState

pub data CheckKind : Type 0 where
  fact_present fact_absent queue_empty fact_count : CheckKind

pub record StateCheck : Type 0 where
  pub kind : CheckKind
  pub claim_contains : Option String
  pub state : Option FactState
  pub equals : Option ℕ

pub data Action : Type 0 where
  remember : String → Actor → Action
  assert : String → AssertStatus → Action
  approve : String → Action
  reject : String → Action
  wrong : String → Option String → Action
  forget : String → Action
  rebuild : Action
  recall : String → Level → ℕ → Action
  generate : String → Option Ref → Option String → Action
  tool_call : String → Fields → Action
  inspect_state : Action
  assert_state : List StateCheck → Action

pub record Step : Type 0 where
  pub id : String
  pub store : String
  pub timeout_ms : Option ℕ
  pub action : Action

-- `step.action in MUTATING_ACTIONS`
abbrev pub mutating : Action → Bool
mutating Action.rebuild = true
mutating (Action.recall query level budget) = false
mutating (Action.generate question context prompt) = false
mutating Action.inspect_state = false
mutating (Action.assert_state checks) = false
mutating _ = true

default_timeout : Action → ℕ
default_timeout (Action.remember text actor) = 180000
default_timeout (Action.assert text s) = 180000
default_timeout (Action.approve t) = 180000
default_timeout (Action.reject t) = 30000
default_timeout (Action.wrong t claim) = 120000
default_timeout (Action.forget t) = 120000
default_timeout Action.rebuild = 600000
default_timeout (Action.recall query level budget) = 90000
default_timeout (Action.generate question context prompt) = 180000
default_timeout (Action.tool_call tool arguments) = 30000
default_timeout Action.inspect_state = 60000
default_timeout (Action.assert_state checks) = 60000

unfoldable pub step_timeout : Step → ℕ
unfolding default_timeout
step_timeout step = elim step.timeout_ms [ none ↦ default_timeout step.action | some t ↦ t ]

-- `getattr(step.args, "step", None)`
abbrev pub target_of : Action → Option String
target_of (Action.approve t) = some t
target_of (Action.reject t) = some t
target_of (Action.wrong t claim) = some t
target_of (Action.forget t) = some t
target_of _ = none

-- `step_references`
abbrev pub references : Action → List Ref
references (Action.generate question (some ref) prompt) = ref ∷ []
references _ = []

abbrev to_list : Option String → List String
to_list none = []
to_list (some s) = s ∷ []

-- `step_dependencies`: a set, of which the callers use the members.
abbrev pub dependencies : Action → List String
dependencies a = map (λ (r : Ref). r.step) (references a) ++ to_list (target_of a)

abbrev pub is_candidate : Action → Bool
is_candidate (Action.assert text AssertStatus.candidate) = true
is_candidate _ = false

abbrev pub is_written : Action → Bool
is_written (Action.remember text actor) = true
is_written (Action.assert text s) = true
is_written _ = false

-- `step.action in ("approve", "reject")`, `step.action in ("wrong", "forget")`
abbrev pub decides : Action → Bool
decides (Action.approve t) = true
decides (Action.reject t) = true
decides _ = false

abbrev pub retracts : Action → Bool
retracts (Action.wrong t claim) = true
retracts (Action.forget t) = true
retracts _ = false

-- An error's place and case; the number is the index of the step.
pub data EpisodeError : Type 0 where
  duplicate_id : ℕ → String → EpisodeError
  not_earlier : ℕ → String → EpisodeError
  not_candidate : ℕ → EpisodeError
  not_written : ℕ → EpisodeError
  other_store : ℕ → String → EpisodeError
  unknown_reference : ℕ → String → EpisodeError

abbrev pub has {ℓ} : {V : Type ℓ} → String → List (String × V) → Bool
has k d = elim (lookup k d) [ none ↦ false | some v ↦ true ]

abbrev pub when : Bool → EpisodeError → List EpisodeError
when true e = e ∷ []
when false e = []

-- `seen.setdefault(step.id, step)`
abbrev pub set_default : Step → List (String × Step) → List (String × Step)
set_default step seen = if has step.id seen then seen else insert step.id step seen

unfoldable pub prior_errors : ℕ → Step → String → Option Step → List EpisodeError
prior_errors i step target none = EpisodeError.not_earlier i target ∷ []
prior_errors i step target (some prior) =
    when (decides step.action && not (is_candidate prior.action)) (EpisodeError.not_candidate i)
    ++ (when (retracts step.action && not (is_written prior.action)) (EpisodeError.not_written i)
        ++ when (not (prior.store == step.store)) (EpisodeError.other_store i target))

unfoldable pub target_errors : ℕ → Step → List (String × Step) → List EpisodeError
target_errors i step seen = elim (target_of step.action) [
  | none ↦ []
  | some target ↦ prior_errors i step target (lookup target seen)
]

unfoldable pub reference_errors : ℕ → List (String × Step) → List Ref → List EpisodeError
reference_errors i seen [] = []
reference_errors i seen (ref ∷ refs) =
    when (not (has ref.step seen)) (EpisodeError.unknown_reference i ref.step)
    ++ reference_errors i seen refs

unfoldable pub step_errors : ℕ → List (String × Step) → Step → List EpisodeError
step_errors i seen step =
    when (has step.id seen) (EpisodeError.duplicate_id i step.id)
    ++ (target_errors i step seen ++ reference_errors i seen (references step.action))

unfoldable pub errors_from : ℕ → List (String × Step) → List Step → List EpisodeError
errors_from i seen [] = []
errors_from i seen (step ∷ steps) =
    step_errors i seen step ++ errors_from (i + 1) (set_default step seen) steps

unfoldable pub episode_errors : List Step → List EpisodeError
episode_errors steps = errors_from 0 [] steps
