-- ===== src/Episode/Calls.antt =====
-- backend/eval_triage/execution/episode.py: what the runner of an episode records, and the calls that it
-- makes. What the memory backend and the generation adapter hold is one state, which the calls of a
-- `Backend` thread. The time that a step took is left out, and an error's dictionary is a constructor
-- with what it holds.
use Prim.Native.String.{compare}
use Prim.Native.Nat.{Ordering}
use evalai.Base.{ℕ, String, Bool, true, false, Option, none, some, List, [], ◌∷◌, string_eq}
use evalai.Base.Json.{Json, int, arr, Items, nil, cons, Fields, end, field, get_field}
use evalai.Base.Results.{Result}
use evalai.Refs.{Ref, RefError, resolve_ref}
use evalai.Episode.{Step, Action}

pub data StepError : Type 0 where
  mutation_timeout timed_out no_generation_target : StepError
  call_failed : String → Option Fields → StepError
  reference : RefError → StepError
  raised : String → String → StepError
  state_capture_failed : String → StepError

-- What a step is resolved to before it is executed.
pub record Resolved : Type 0 where
  pub target_event_id : Option ℕ
  pub target_step : Option String
  pub context : Option Json

-- What awaiting a backend's call within its time gives.
pub data Reply : Type 0 where
  done : Fields → Reply
  timed_out : Reply
  raised : String → String → Reply

-- What awaiting the generation call gives; any status but success is not answered.
pub data Generated : Type 0 where
  answered : Json → Json → Json → Generated
  not_answered : String → Option Fields → Generated
  timed_out : Generated
  raised : String → String → Generated

pub data Inspected : Type 0 where
  snapshot : Json → Inspected
  raised : String → Inspected

-- The backend and the generation adapter, which the episode only calls. `execute_action` has the
-- step's timeout, and `generate` the question, the context and the system prompt of its messages.
pub record Backend (S : Type 0) : Type 0 where
  pub handles_generate : Bool
  pub prepare : List String → S
  pub execute_action : ℕ → Step → Resolved → S → Reply × S
  pub generate : Option (String → String → Option Json → Option String → S → Generated × S)
  pub inspect_state : String → S → Inspected × S
  pub close : S → Json

pub data StepStatus : Type 0 where
  ok error skipped timeout indeterminate : StepStatus

pub data SkipReason : Type 0 where
  unknown_outcome : SkipReason
  failed_dependencies : List String → SkipReason

pub record StepRecord : Type 0 where
  pub step_id : String
  pub action : Action
  pub store : String
  pub status : StepStatus
  pub output : Fields
  pub new_event_ids : List ℕ
  pub error : Option StepError
  pub skip_reason : Option SkipReason

-- The variables of the loop; `stopped` is the error of the status `indeterminate`.
pub record Progress (S : Type 0) : Type 0 where
  pub session : S
  pub outputs : List (String × Fields)
  pub event_ids : List (String × List ℕ)
  pub failed : List String
  pub records : List StepRecord
  pub stopped : Option StepError

-- The end of a `try` block.
pub data Tried : Type 0 where
  completed : Fields → Tried
  timed_out : Tried
  failure : StepError → Tried

-- `sorted` of a set of texts
insert_sorted : String → List String → List String
insert_sorted s [] = s ∷ []
insert_sorted s (t ∷ ts) =
    let more = insert_sorted s ts in
    elim (compare s t) [ Ordering.lt ↦ s ∷ t ∷ ts | Ordering.eq ↦ t ∷ ts | Ordering.gt ↦ t ∷ more ]

unfoldable pub sorted_set : List String → List String
unfolding insert_sorted
sorted_set [] = []
sorted_set (s ∷ ss) = insert_sorted s (sorted_set ss)

-- `list(out.get("new_event_ids", []))`, by a backend's contract a list of numbers
numbers : Items → List ℕ
numbers nil = []
numbers (cons (int n) xs) = n ∷ numbers xs
numbers (cons _ xs) = numbers xs

unfoldable pub new_ids : Fields → List ℕ
unfolding numbers
new_ids out = elim (get_field "new_event_ids" out) [ some (arr xs) ↦ numbers xs | _ ↦ [] ]

abbrev pub first : List ℕ → Option ℕ
first [] = none
first (n ∷ ns) = some n

abbrev pub ids_of : Option (List ℕ) → Option ℕ
ids_of none = none
ids_of (some ids) = first ids

abbrev pub blank : Step → StepRecord
blank step = record {
  step_id = step.id;
  action = step.action;
  store = step.store;
  status = StepStatus.ok;
  output = end;
  new_event_ids = [];
  error = none;
  skip_reason = none;
}

abbrev pub is_empty {ℓ} : {A : Type ℓ} → List A → Bool
is_empty [] = true
is_empty (x ∷ xs) = false

-- `resolve_ref(ref, outputs) if ref else None`
unfoldable pub context_of : Option Ref → List (String × Fields) → Result RefError (Option Json)
context_of none outputs = Result.ok none
context_of (some ref) outputs = elim (resolve_ref ref outputs) [
  | Result.ok v ↦ Result.ok (some v)
  | Result.err e ↦ Result.err e
]

abbrev pub of_reply : {S : Type 0} → Reply × S → Tried × S
of_reply (Reply.done out, s) = (Tried.completed out, s)
of_reply (Reply.timed_out, s) = (Tried.timed_out, s)
of_reply (Reply.raised kind message, s) = (Tried.failure (StepError.raised kind message), s)

abbrev pub of_generated : {S : Type 0} → Generated × S → Tried × S
of_generated (Generated.answered text model request, s) = (
  Tried.completed (field "text" text (field "actual_model" model (field "request_id" request end))),
  s,
)
of_generated (Generated.not_answered status details, s) =
    (Tried.failure (StepError.call_failed status details), s)
of_generated (Generated.timed_out, s) = (Tried.timed_out, s)
of_generated (Generated.raised kind message, s) = (Tried.failure (StepError.raised kind message), s)
