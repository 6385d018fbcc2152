-- ===== src/Tests/Episode.antt =====
-- Episodes against a backend that counts its calls and never answers the tool `slow`.
use evalai.Base.{
  ℕ, ◌+◌, ◌≤◌, ◌<◌, length, String, true, false, Option, none, some, List, [], ◌∷◌, ◌++◌, ◌≡◌, refl,
  nat_eq, string_eq, any, map, if◌then◌else◌, ◌==◌,
}
use evalai.Base.Json.{null, int, str, end, field}
use evalai.Base.Text.{append}
use evalai.Refs.Tokens.{is_step_id}
use evalai.Refs.Grammar.{Spells, parse_ref-Spells}
use evalai.Refs.{
  size, Ref, Segment, resolve_ref, walk, select, parse_ref, match_step, parse_segments, span,
  match_segment, match_name, bounded,
}
use evalai.Episode.{
  Step, Action, Actor, Level, step_timeout, episode_errors, errors_from, step_errors, target_errors,
  reference_errors, prior_errors,
}
use evalai.Episode.Calls.{StepError, Backend, Reply, Inspected, new_ids, sorted_set, context_of}
use evalai.Episode.Run.{
  run_episode, run_steps, run_step, run_live, settle, attempt, finish, start, stores_of, conclude,
  capture, answers, last, EpisodeStatus,
}
use evalai.Base.Results.{Result}
use evalai.Episode.Rules.{is_empty, well_formed, episode_errors-none}
use evalai.Episode.Records.{skipped, run_episode-stopped}
use evalai.Episode.Status.{status_rule, run_episode-status}
use evalai.Episode.Lost.{lost_record}
use evalai.Episode.Depends.{all_due, run_episode-depends}

abbrev reply_to : Action → Reply
reply_to (Action.tool_call tool arguments) =
    if tool == "slow" then Reply.timed_out else Reply.done end
reply_to (Action.recall query level budget) = Reply.done (field "context" (str "likes tea") end)
reply_to (Action.generate question context prompt) = Reply.done (field "text" (str "tea") end)
reply_to _ = Reply.done end

abbrev memory : Backend ℕ
memory = record {
  handles_generate = true;
  prepare = λ stores. 0;
  execute_action = λ limit step resolved calls. (reply_to step.action, calls + 1);
  generate = none;
  inspect_state = λ store calls. (Inspected.snapshot null, calls);
  close = λ calls. int calls;
}

abbrev step : String → Action → Step
step id action = record { id = id; store = "main"; timeout_ms = none; action = action }

abbrev context : Ref
context = record { step = "r1"; segments = Segment.name "context" ∷ [] }

abbrev opening : List Step
opening =
    step "m1" (Action.remember "I like tea" Actor.user)
    ∷ step "r1" (Action.recall "drink" Level.mid 400)
    ∷ step "g1" (Action.generate "What do I drink?" (some context) none)
    ∷ []

abbrev breaking : List Step
breaking = opening ++ step "t1" (Action.tool_call "slow" end) ∷ []

abbrev closing : List Step
closing = step "f1" (Action.forget "m1") ∷ []

answered : (run_episode memory opening).text ≡ str "tea"
unfolding run_episode run_steps run_step run_live settle attempt finish stores_of conclude capture
    answers last new_ids sorted_set context_of resolve_ref walk select step_timeout
answered = refl

abbrev no_digits : ℕ → Option ℕ
no_digits c = none

parses : parse_ref no_digits "r1.context" ≡ Result.ok context
unfolding parse_ref match_step parse_segments span match_segment match_name bounded
parses = refl

parse_ref-Spells_example :
    (rest : String) × ("r1.context" ≡ append "r1" rest)
    × (is_step_id "r1" ≡ true)
    × (size "r1" ≤ 64)
    × Spells no_digits (Segment.name "context" ∷ []) rest
    × (0 < length (Segment.name "context" ∷ []))
    × (length (Segment.name "context" ∷ []) ≤ 16)
    × (size "r1.context" ≤ 300)
parse_ref-Spells_example = parse_ref-Spells no_digits "r1.context" context parses

no_errors : is_empty (episode_errors (breaking ++ closing)) ≡ true
unfolding episode_errors errors_from step_errors target_errors reference_errors prior_errors
no_errors = refl

stops :
    (run_steps memory breaking (start memory (breaking ++ closing))).stopped
    ≡ some StepError.mutation_timeout
unfolding run_steps run_step run_live settle attempt new_ids context_of resolve_ref walk select
    step_timeout
stops = refl

episode_errors-none_example :
    is_empty (episode_errors (breaking ++ closing)) ≡ well_formed [] (breaking ++ closing)
episode_errors-none_example = episode_errors-none (breaking ++ closing)

run_episode-stopped_example :
    let p = run_steps memory breaking (start memory (breaking ++ closing)) in
    let r = run_episode memory (breaking ++ closing) in
    (r.status ≡ EpisodeStatus.indeterminate)
    × (r.error ≡ some StepError.mutation_timeout)
    × (r.close ≡ int p.session)
    × (r.steps ≡ p.records ++ map (skipped memory) closing)
run_episode-stopped_example =
    run_episode-stopped memory breaking closing StepError.mutation_timeout stops

run_episode-status_example :
    (run_episode memory (breaking ++ closing)).status
    ≡ status_rule (run_episode memory (breaking ++ closing)).steps
run_episode-status_example = run_episode-status memory (breaking ++ closing)

run_episode-depends_example :
    (all_due [] (run_episode memory (breaking ++ closing)).steps ≡ true)
    × (any lost_record (run_episode memory (breaking ++ closing)).steps ≡ false)
run_episode-depends_example = run_episode-depends memory (breaking ++ closing) no_errors
