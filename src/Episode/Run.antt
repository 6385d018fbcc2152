-- ===== src/Episode/Run.antt =====
-- backend/eval_triage/execution/episode.py: the loop over the steps of an episode, and its result.
use evalai.Base.{
  ℕ, String, Bool, true, false, ◌&&◌, Option, none, some, List, [], ◌∷◌, ◌++◌, string_eq,
  if◌then◌else◌, map, filter, contains,
}
use evalai.Base.Assoc.{lookup, insert}
use evalai.Base.Json.{Json, null, Fields, get_field}
use evalai.Base.Results.{Result}
use evalai.Refs.{RefError}
use evalai.Episode.{Step, Action, mutating, step_timeout, target_of, dependencies}
use evalai.Episode.Calls.{
  StepError, Resolved, Inspected, Backend, StepStatus, SkipReason, StepRecord, Progress, Tried,
  sorted_set, new_ids, ids_of, blank, is_empty, context_of, of_reply, of_generated,
}

module _ {S : Type 0} (backend : Backend S) where
  -- The branch of a generation that the backend does not handle itself.
  abbrev pub answer : Step → String → Option String → Result RefError (Option Json) → S → Tried × S
  answer step question prompt (Result.err e) s = (Tried.failure (StepError.reference e), s)
  answer step question prompt (Result.ok context) s = elim backend.generate [
    | none ↦ (Tried.failure StepError.no_generation_target, s)
    | some call ↦ of_generated (call step.id question context prompt s)
  ]

  abbrev pub execute : Step → Resolved → Result RefError (Option Json) → S → Tried × S
  execute step resolved (Result.err e) s = (Tried.failure (StepError.reference e), s)
  execute step resolved (Result.ok context) s =
      of_reply
        (backend.execute_action (step_timeout step) step (record resolved { context = context }) s)

  -- The `try` block: what the step gives, and the state after it.
  unfoldable pub attempt : Action → Step → Resolved → List (String × Fields) → S → Tried × S
  attempt (Action.generate question context prompt) step resolved outputs s =
      if backend.handles_generate
      then execute step resolved (context_of context outputs) s
      else answer step question prompt (context_of context outputs) s
  attempt _ step resolved outputs s = execute step resolved (Result.ok none) s

  abbrev pub resolve_target : Step → Progress S → Resolved
  resolve_target step p = elim (target_of step.action) [
    | none ↦ record { target_event_id = none; target_step = none; context = none }
    | some t ↦ record {
      target_event_id = ids_of (lookup t p.event_ids);
      target_step = some t;
      context = none;
    }
  ]

  -- The `except` clauses, and the records of the loop after them.
  unfoldable pub settle : Step → Progress S → Tried × S → Progress S
  settle step p (Tried.completed out, s) = record p {
    session = s;
    outputs = insert step.id out p.outputs;
    event_ids = insert step.id (new_ids out) p.event_ids;
    records = p.records ++ record (blank step) { output = out; new_event_ids = new_ids out } ∷ [];
  }
  settle step p (Tried.timed_out, s) =
      if mutating step.action
      then record p {
        session = s;
        failed = step.id ∷ p.failed;
        records =
            p.records
            ++ record (blank step) {
              status = StepStatus.indeterminate;
              error = some StepError.mutation_timeout;
            }
              ∷ [];
        stopped = some StepError.mutation_timeout;
      }
      else record p {
        session = s;
        failed = step.id ∷ p.failed;
        records =
            p.records
            ++ record (blank step) { status = StepStatus.timeout; error = some StepError.timed_out }
              ∷ [];
      }
  settle step p (Tried.failure e, s) = record p {
    session = s;
    failed = step.id ∷ p.failed;
    records = p.records ++ record (blank step) { status = StepStatus.error; error = some e } ∷ [];
  }

  -- `step_dependencies(step) & failed`
  abbrev pub blocking : Step → Progress S → List String
  blocking step p = filter (λ d. contains p.failed d) (dependencies step.action)

  abbrev pub skip : Step → SkipReason → StepRecord
  skip step why = record (blank step) { status = StepStatus.skipped; skip_reason = some why }

  -- A step that the episode has not been stopped before.
  unfoldable pub run_live : Step → Progress S → Progress S
  run_live step p =
      if is_empty (blocking step p)
      then settle step p (attempt step.action step (resolve_target step p) p.outputs p.session)
      else record p {
        failed = step.id ∷ p.failed;
        records =
            p.records
            ++ skip step (SkipReason.failed_dependencies (sorted_set (blocking step p))) ∷ [];
      }

  unfoldable pub run_step : Step → Progress S → Progress S
  run_step step p = elim p.stopped [
    | none ↦ run_live step p
    | some e ↦ record p { records = p.records ++ skip step SkipReason.unknown_outcome ∷ [] }
  ]

  unfoldable pub run_steps : List Step → Progress S → Progress S
  run_steps [] p = p
  run_steps (step ∷ steps) p = run_steps steps (run_step step p)

  abbrev or_else : Option StepError → StepError → Option StepError
  or_else none e = some e
  or_else (some d) e = some d

  -- The final states: a store whose inspection fails has none.
  unfoldable pub capture :
      List String → S → Option StepError → List (String × Option Json) × Option StepError × S
  capture [] s e = ([], e, s)
  capture (store ∷ stores) s e =
      let (found, s') = backend.inspect_state store s in
      elim found [
        | Inspected.snapshot v ↦
            let rest = capture stores s' e in ((store, some v) ∷ rest.0, rest.1, rest.2)
        | Inspected.raised message ↦
            let rest = capture stores s' (or_else e (StepError.state_capture_failed message)) in
            ((store, none) ∷ rest.0, rest.1, rest.2)
      ]

abbrev pub is_problem : StepStatus → Bool
is_problem StepStatus.error = true
is_problem StepStatus.timeout = true
is_problem _ = false

abbrev pub is_ok : StepStatus → Bool
is_ok StepStatus.ok = true
is_ok _ = false

abbrev is_generate : Action → Bool
is_generate (Action.generate question context prompt) = true
is_generate _ = false

-- `output.get("text")`
abbrev text_of : Fields → Json
text_of output = elim (get_field "text" output) [ none ↦ null | some v ↦ v ]

unfoldable pub answers : List StepRecord → List Json
answers records =
    map (λ (r : StepRecord). text_of r.output)
      (filter (λ (r : StepRecord). is_generate r.action && is_ok r.status) records)

-- `answers[-1] if answers else None`
unfoldable pub last : List Json → Json
last [] = null
last (x ∷ []) = x
last (x ∷ y ∷ ys) = last (y ∷ ys)

pub data EpisodeStatus : Type 0 where
  ok error indeterminate : EpisodeStatus

pub record EpisodeResult : Type 0 where
  pub status : EpisodeStatus
  pub error : Option StepError
  pub steps : List StepRecord
  pub stores : List (String × Option Json)
  pub text : Json
  pub event_ids : List (String × List ℕ)
  pub close : Json

-- `sorted({s.store for s in steps}) or ["main"]`
unfoldable pub stores_of : List Step → List String
stores_of [] = "main" ∷ []
stores_of (s ∷ ss) = sorted_set (map (λ (t : Step). t.store) (s ∷ ss))

abbrev problems : List StepRecord → List StepRecord
problems records = filter (λ (r : StepRecord). is_problem r.status) records

-- The status and the error, once the states are captured without an unknown outcome.
unfoldable pub conclude : Option StepError → List StepRecord → EpisodeStatus × Option StepError
conclude e [] = (EpisodeStatus.ok, e)
conclude none (r ∷ rs) = (EpisodeStatus.error, r.error)
conclude (some e) (r ∷ rs) = (EpisodeStatus.error, some e)

module _ {S : Type 0} (backend : Backend S) where
  abbrev pub start : List Step → Progress S
  start steps = record {
    session = backend.prepare (stores_of steps);
    outputs = [];
    event_ids = [];
    failed = [];
    records = [];
    stopped = none;
  }

  -- What follows the loop.
  unfoldable pub finish : List String → Progress S → EpisodeResult
  finish stores p = elim p.stopped [
    | some e ↦ record {
      status = EpisodeStatus.indeterminate;
      error = some e;
      steps = p.records;
      stores = [];
      text = last (answers p.records);
      event_ids = p.event_ids;
      close = backend.close p.session;
    }
    | none ↦
        let captured = capture backend stores p.session none in
        let decided = conclude captured.1 (problems p.records) in
        record {
          status = decided.0;
          error = decided.1;
          steps = p.records;
          stores = captured.0;
          text = last (answers p.records);
          event_ids = p.event_ids;
          close = backend.close captured.2;
        }
  ]

  unfoldable pub run_episode : List Step → EpisodeResult
  run_episode steps = finish (stores_of steps) (run_steps backend steps (start steps))
