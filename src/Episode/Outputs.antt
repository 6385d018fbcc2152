-- ===== src/Episode/Outputs.antt =====
-- In an episode without errors a step never lacks the output of the step that it refers to.
use evalai.Base.{
  String, Bool, true, false, ◌||◌, Option, none, List, [], ◌∷◌, ◌++◌, ◌≡◌, refl, sym, ap, ◌∙◌, inl,
  inr, arith, string_eq, eq_iff, map, filter, any, all, contains, Bool-cases, Option-cases,
}
use evalai.Base.Predicates.{any-append}
use evalai.Base.Assoc.{lookup-insert}
use evalai.Base.Json.{Json, Fields}
use evalai.Base.Results.{Result}
use evalai.Refs.{Ref, RefError}
use evalai.Episode.{Step, Action, mutating, references, has, episode_errors}
use evalai.Episode.Calls.{Backend, Progress, Tried, Resolved, context_of, is_empty}
use evalai.Episode.Run
use evalai.Episode.Run.{
  attempt, settle, blocking, run_live, run_step, run_steps, run_episode, start, resolve_target,
}
use evalai.Episode.Rules
use evalai.Episode.Rules.{id_is, fits, well_formed, episode_errors-none}
use evalai.Episode.Records.{run_step-stopped, run_step-live, finish-steps}
use evalai.Episode.Lost.{
  lost_result, lost_tried, lost_record, context-lost, of_reply-lost, of_generated-lost,
}

-- A step with this id has an output or has failed.
abbrev covered : {S : Type 0} → Progress S → String → Bool
covered p k = has k p.outputs || contains p.failed k

module _ {S : Type 0} (backend : Backend S) where
  execute-lost :
      (step : Step) (resolved : Resolved) (c : Result RefError (Option Json)) (s : S)
      → lost_result c ≡ false
      → lost_tried (Run.execute backend step resolved c s).0 ≡ false
  execute-lost step resolved (Result.ok c) s h = of_reply-lost _
  execute-lost step resolved (Result.err e) s h = h

  answer-lost :
      (step : Step) (q : String) (prompt : Option String) (c : Result RefError (Option Json))
      (s : S)
      → lost_result c ≡ false
      → lost_tried (Run.answer backend step q prompt c s).0 ≡ false
  answer-lost step q prompt (Result.ok c) s h = elim (Option-cases backend.generate) [
    | inl n ↦ rw n refl
    | inr (call, n) ↦ rw n (of_generated-lost (call step.id q c prompt s))
  ]
  answer-lost step q prompt (Result.err e) s h = h

  attempt-lost :
      (a : Action) (step : Step) (resolved : Resolved) (outputs : List (String × Fields)) (s : S)
      → all (λ (r : Ref). has r.step outputs) (references a) ≡ true
      → lost_tried (attempt backend a step resolved outputs s).0 ≡ false
  unfolding attempt
  attempt-lost (Action.generate q c prompt) step resolved outputs s h =
      let found : lost_result (context_of c outputs) ≡ false =
        context-lost c outputs (elim (Option-cases c) [
          | inl n ↦ rw n refl
          | inr (r, n) ↦ rw n (let k = rw n at h in ground arith)
        ]) in
      elim (Bool-cases backend.handles_generate) [
        | inl t ↦ rw t (execute-lost step resolved _ s found)
        | inr t ↦ rw t (answer-lost step q prompt _ s found)
      ]
  attempt-lost _ step resolved outputs s h = of_reply-lost _

  settle-lost :
      (step : Step) (p : Progress S) (t : Tried × S)
      → any lost_record p.records ≡ false
      → lost_tried t.0 ≡ false
      → any lost_record (settle backend step p t).records ≡ false
  unfolding settle
  settle-lost step p (Tried.completed out, s) h k = rw (any-append lost_record p.records, h) refl
  settle-lost step p (Tried.timed_out, s) h k = elim (Bool-cases (mutating step.action)) [
    | inl t ↦ rw t (rw (any-append lost_record p.records, h) refl)
    | inr t ↦ rw t (rw (any-append lost_record p.records, h) refl)
  ]
  settle-lost step p (Tried.failure e, s) h k = rw (any-append lost_record p.records, h, k) refl

  settle-covered :
      (step : Step) (p : Progress S) (t : Tried × S) (k : String)
      → covered p k ≡ true
      → covered (settle backend step p t) k ≡ true
  unfolding settle
  settle-covered step p (Tried.completed out, s) k h =
      ground (arith, lookup-insert step.id k out p.outputs)
  settle-covered step p (Tried.timed_out, s) k h = ground arith
  settle-covered step p (Tried.failure e, s) k h = ground arith

  settle-own :
      (step : Step) (p : Progress S) (t : Tried × S)
      → covered (settle backend step p t) step.id ≡ true
  unfolding settle
  settle-own step p (Tried.completed out, s) =
      ground (arith, lookup-insert step.id step.id out p.outputs, eq_iff step.id step.id)
  settle-own step p (Tried.timed_out, s) = ground (arith, eq_iff step.id step.id)
  settle-own step p (Tried.failure e, s) = ground (arith, eq_iff step.id step.id)

  run_live-covered :
      (step : Step) (p : Progress S) (k : String)
      → covered p k ≡ true
      → covered (run_live backend step p) k ≡ true
  unfolding run_live
  run_live-covered step p k h = elim (Bool-cases (is_empty (blocking backend step p))) [
    | inl t ↦ rw t (settle-covered step p _ k h)
    | inr t ↦ rw t (ground arith)
  ]

  run_live-own : (step : Step) (p : Progress S) → covered (run_live backend step p) step.id ≡ true
  unfolding run_live
  run_live-own step p = elim (Bool-cases (is_empty (blocking backend step p))) [
    | inl t ↦ rw t (settle-own step p _)
    | inr t ↦ rw t (ground (arith, eq_iff step.id step.id))
  ]

  abbrev all_covered : Progress S → List Step → Bool
  all_covered p earlier = all (λ (e : Step). covered p e.id) earlier

  all_covered-next :
      (step : Step) (p : Progress S) (es : List Step)
      → all_covered p es ≡ true
      → all_covered (run_live backend step p) (es ++ step ∷ []) ≡ true
  all_covered-next step p [] h = rw (run_live-own step p) refl
  all_covered-next step p (e ∷ es) h = elim (Bool-cases (covered p e.id)) [
    | inl t ↦ rw (run_live-covered step p e.id t) (all_covered-next step p es (rw t at h))
    | inr t ↦ let k : false ≡ true = rw t at h in cc k
  ]

  covered-earlier :
      (p : Progress S) (k : String) (es : List Step)
      → all_covered p es ≡ true
      → any (id_is k) es ≡ true
      → covered p k ≡ true
  covered-earlier p k [] h m = cc
  covered-earlier p k (e ∷ es) h m = ground (arith, covered-earlier p k es, eq_iff e.id k)

  -- No reference of a step that nothing blocks lacks its output.
  refs-found :
      (p : Progress S) (es : List Step) (ts : List String) (rs : List Ref)
      → all_covered p es ≡ true
      → all (λ (r : Ref). any (id_is r.step) es) rs ≡ true
      → is_empty (filter (λ d. contains p.failed d) (map (λ (r : Ref). r.step) rs ++ ts)) ≡ true
      → all (λ (r : Ref). has r.step p.outputs) rs ≡ true
  refs-found p es ts [] h m b = refl
  refs-found p es ts (r ∷ rs) h m b =
      ground (arith, covered-earlier p r.step es, refs-found p es ts rs)

  run_live-lost :
      (step : Step) (p : Progress S) (es : List Step)
      → fits es step ≡ true
      → all_covered p es ≡ true
      → any lost_record p.records ≡ false
      → any lost_record (run_live backend step p).records ≡ false
  unfolding run_live
  run_live-lost step p es f c h = elim (Bool-cases (is_empty (blocking backend step p))) [
    | inl t ↦
        let known : all (λ (r : Ref). any (id_is r.step) es) (references step.action) ≡ true =
          ground arith in
        let found = refs-found p es _ (references step.action) c known t in
        rw t (
          settle-lost step p _ h (
            attempt-lost step.action step (resolve_target backend step p) p.outputs p.session
              found))
    | inr t ↦ rw t (rw (any-append lost_record p.records, h) refl)
  ]

  run_steps-lost :
      (ss es : List Step) (p : Progress S)
      → well_formed es ss ≡ true
      → any lost_record p.records ≡ false
      → (p.stopped ≡ none → all_covered p es ≡ true)
      → any lost_record (run_steps backend ss p).records ≡ false
  unfolding run_steps
  run_steps-lost [] es p w h c = h
  run_steps-lost (step ∷ ss) es p w h c = elim (Option-cases p.stopped) [
    | inl n ↦
        let now : fits es step ≡ true = ground arith in
        let later : well_formed (es ++ step ∷ []) ss ≡ true = ground arith in
        ap (λ (q : Progress S). any lost_record (run_steps backend ss q).records)
          (run_step-live backend step p n)
        ∙ (run_steps-lost ss (es ++ step ∷ []) (run_live backend step p) later
            (run_live-lost step p es now (c n) h) (λ _. all_covered-next step p es (c n)))
    | inr (e, n) ↦
        let later : well_formed (es ++ step ∷ []) ss ≡ true = ground arith in
        ap (λ (q : Progress S). any lost_record (run_steps backend ss q).records)
          (run_step-stopped backend step e p n)
        ∙ (run_steps-lost ss (es ++ step ∷ []) _ later
            (rw (any-append lost_record p.records, h) refl) (λ m. cc (sym n ∙ m)))
  ]

  -- In an episode without errors no step fails because the step that it refers to has no output.
  pub run_episode-references :
      (steps : List Step)
      → Rules.is_empty (episode_errors steps) ≡ true
      → any lost_record (run_episode backend steps).steps ≡ false
  unfolding run_episode
  run_episode-references steps v = rw (finish-steps backend _ _) (
      run_steps-lost steps [] (start backend steps) (sym (episode_errors-none steps) ∙ v) refl
        (λ _. refl))
