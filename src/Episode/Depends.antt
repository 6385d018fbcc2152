-- ===== src/Episode/Depends.antt =====
-- A step of an episode runs only behind the success of what it depends on.
use evalai.Base.{
  String, Bool, true, false, ◌&&◌, ◌||◌, none, some, List, [], ◌∷◌, ◌++◌, ◌≡◌, refl, sym, ap, ◌∙◌,
  inl, inr, arith, ◌==◌, string_eq, eq_iff, filter, any, all, contains, Bool-cases, Option-cases,
}
use mathlib.Core.List.{append_assoc, append-nil}
use evalai.Base.Predicates.{any-append}
use evalai.Refs.{Ref}
use evalai.Episode.{Step, Action, mutating, references, target_of, dependencies, episode_errors}
use evalai.Episode.Calls.{Backend, StepStatus, StepRecord, Progress, Tried, is_empty}
use evalai.Episode.Run.{
  attempt, settle, blocking, run_live, run_steps, run_episode, start, resolve_target,
}
use evalai.Episode.Rules
use evalai.Episode.Rules.{id_is, fits, well_formed, target_fits, may_target, episode_errors-none}
use evalai.Episode.Lost.{lost_record}
use evalai.Episode.Outputs.{run_episode-references}
use evalai.Episode.Records.{run_step-stopped, run_step-live, finish-steps}

-- The steps that an action works on: the one whose output it reads, or the one that it decides on,
-- corrects or takes back.
abbrev pub needed : Action → List String
needed (Action.generate question (some ref) prompt) = ref.step ∷ []
needed (Action.approve t) = t ∷ []
needed (Action.reject t) = t ∷ []
needed (Action.wrong t claim) = t ∷ []
needed (Action.forget t) = t ∷ []
needed _ = []

abbrev was_skipped : StepStatus → Bool
was_skipped StepStatus.skipped = true
was_skipped _ = false

abbrev succeeded : StepStatus → Bool
succeeded StepStatus.ok = true
succeeded _ = false

-- A record says that the step with this id succeeded.
abbrev pub is_done : List StepRecord → String → Bool
is_done rs k = any (λ (r : StepRecord). r.step_id == k && succeeded r.status) rs

-- The record is of a skipped step, or what its action works on succeeded before it.
abbrev pub is_due : List StepRecord → StepRecord → Bool
is_due earlier r = was_skipped r.status || all (is_done earlier) (needed r.action)

-- Each record but the first ones is due behind those before it.
abbrev pub all_due : List StepRecord → List StepRecord → Bool
all_due earlier [] = true
all_due earlier (r ∷ rs) = is_due earlier r && all_due (earlier ++ r ∷ []) rs

all_due-append :
    (es rs : List StepRecord) (r : StepRecord)
    → all_due es rs ≡ true
    → is_due (es ++ rs) r ≡ true
    → all_due es (rs ++ r ∷ []) ≡ true
all_due-append es [] r h d = let k = rw (append-nil es) at d in rw k refl
all_due-append es (x ∷ rs) r h d =
    let now : is_due es x ≡ true = ground arith in
    let later : all_due (es ++ x ∷ []) rs ≡ true = ground arith in
    rw now (all_due-append (es ++ x ∷ []) rs r later (rw (append_assoc es (x ∷ []) rs) d))

needed_lem : (a : Action) → dependencies a ≡ needed a
needed_lem (Action.generate question none prompt) = refl
needed_lem (Action.generate question (some ref) prompt) = refl
needed_lem (Action.approve t) = refl
needed_lem (Action.reject t) = refl
needed_lem (Action.wrong t claim) = refl
needed_lem (Action.forget t) = refl
needed_lem _ = refl

any_of-both :
    (t : String) (q : Step → Bool) (es : List Step)
    → any (λ (e : Step). e.id == t && q e) es ≡ true
    → any (id_is t) es ≡ true
any_of-both t q [] h = cc
any_of-both t q (e ∷ es) h = ground (arith, any_of-both t q es)

-- What a fitting step works on is among the earlier steps.
needed-known :
    (es : List Step) (s : Step) (a : Action)
    → target_fits es s (target_of a) ≡ true
    → all (λ (r : Ref). any (id_is r.step) es) (references a) ≡ true
    → all (λ k. any (id_is k) es) (needed a) ≡ true
needed-known es s (Action.generate question none prompt) t r = refl
needed-known es s (Action.generate question (some ref) prompt) t r = r
needed-known es s (Action.approve k) t r = rw (any_of-both k (may_target s) es t) refl
needed-known es s (Action.reject k) t r = rw (any_of-both k (may_target s) es t) refl
needed-known es s (Action.wrong k claim) t r = rw (any_of-both k (may_target s) es t) refl
needed-known es s (Action.forget k) t r = rw (any_of-both k (may_target s) es t) refl
needed-known es s _ t r = refl

is_done-append :
    (rs ys : List StepRecord) (k : String) → is_done (rs ++ ys) k ≡ (is_done rs k || is_done ys k)
is_done-append rs ys k = any-append _ rs ys

-- The step with this id succeeded, or it counts as failed.
abbrev settled : {S : Type 0} → Progress S → String → Bool
settled p k = is_done p.records k || contains p.failed k

abbrev all_settled : {S : Type 0} → Progress S → List Step → Bool
all_settled p es = all (λ (e : Step). settled p e.id) es

settled-earlier :
    {S : Type 0} (p : Progress S) (k : String) (es : List Step)
    → all_settled p es ≡ true
    → any (id_is k) es ≡ true
    → settled p k ≡ true
settled-earlier p k [] h m = cc
settled-earlier p k (e ∷ es) h m = ground (arith, settled-earlier p k es, eq_iff e.id k)

needed-done :
    {S : Type 0} (p : Progress S) (es : List Step) (ks : List String)
    → all_settled p es ≡ true
    → all (λ k. any (id_is k) es) ks ≡ true
    → is_empty (filter (λ k. contains p.failed k) ks) ≡ true
    → all (is_done p.records) ks ≡ true
needed-done p es [] h m b = refl
needed-done p es (k ∷ ks) h m b = ground (arith, settled-earlier p k es, needed-done p es ks)

module _ {S : Type 0} (backend : Backend S) where
  settle-records :
      (step : Step) (p : Progress S) (t : Tried × S)
      → (r : StepRecord) × ((settle backend step p t).records ≡ p.records ++ r ∷ [])
        × (r.action ≡ step.action)
  unfolding settle
  settle-records step p (Tried.completed out, s) = (_, refl, refl)
  settle-records step p (Tried.timed_out, s) = elim (Bool-cases (mutating step.action)) [
    | inl t ↦ rw t (_, refl, refl)
    | inr t ↦ rw t (_, refl, refl)
  ]
  settle-records step p (Tried.failure e, s) = (_, refl, refl)

  settle-settled :
      (step : Step) (p : Progress S) (t : Tried × S) (k : String)
      → settled p k ≡ true
      → settled (settle backend step p t) k ≡ true
  unfolding settle
  settle-settled step p (Tried.completed out, s) k h =
      rw (is_done-append p.records _ k) (ground arith)
  settle-settled step p (Tried.timed_out, s) k h = elim (Bool-cases (mutating step.action)) [
    | inl t ↦ rw t (rw (is_done-append p.records _ k) (ground arith))
    | inr t ↦ rw t (rw (is_done-append p.records _ k) (ground arith))
  ]
  settle-settled step p (Tried.failure e, s) k h = rw (is_done-append p.records _ k) (ground arith)

  settle-own :
      (step : Step) (p : Progress S) (t : Tried × S)
      → settled (settle backend step p t) step.id ≡ true
  unfolding settle
  settle-own step p (Tried.completed out, s) =
      rw (is_done-append p.records) (ground (arith, eq_iff step.id step.id))
  settle-own step p (Tried.timed_out, s) = ground (arith, eq_iff step.id step.id)
  settle-own step p (Tried.failure e, s) = ground (arith, eq_iff step.id step.id)

  run_live-settled :
      (step : Step) (p : Progress S) (k : String)
      → settled p k ≡ true
      → settled (run_live backend step p) k ≡ true
  unfolding run_live
  run_live-settled step p k h = elim (Bool-cases (is_empty (blocking backend step p))) [
    | inl t ↦ rw t (settle-settled step p _ k h)
    | inr t ↦ rw t (rw (is_done-append p.records _ k) (ground arith))
  ]

  run_live-own : (step : Step) (p : Progress S) → settled (run_live backend step p) step.id ≡ true
  unfolding run_live
  run_live-own step p = elim (Bool-cases (is_empty (blocking backend step p))) [
    | inl t ↦ rw t (settle-own step p _)
    | inr t ↦ rw t (ground (arith, eq_iff step.id step.id))
  ]

  all_settled_next :
      (step : Step) (p : Progress S) (es : List Step)
      → all_settled p es ≡ true
      → all_settled (run_live backend step p) (es ++ step ∷ []) ≡ true
  all_settled_next step p [] h = rw (run_live-own step p) refl
  all_settled_next step p (e ∷ es) h = elim (Bool-cases (settled p e.id)) [
    | inl t ↦ rw (run_live-settled step p e.id t) (all_settled_next step p es (rw t at h))
    | inr t ↦ let k : false ≡ true = rw t at h in cc k
  ]

  -- A step that nothing blocks has a record that is due.
  run_live-due :
      (step : Step) (p : Progress S) (es : List Step)
      → fits es step ≡ true
      → all_settled p es ≡ true
      → all_due [] p.records ≡ true
      → all_due [] (run_live backend step p).records ≡ true
  unfolding run_live
  run_live-due step p es f c h = elim (Bool-cases (is_empty (blocking backend step p))) [
    | inl t ↦
        let target : target_fits es step (target_of step.action) ≡ true = ground arith in
        let known : all (λ (r : Ref). any (id_is r.step) es) (references step.action) ≡ true =
          ground arith in
        let free = rw (needed_lem step.action) at t in
        let met =
          needed-done p es (needed step.action) c (needed-known es step step.action target known)
            free in
        let (r, made, same) =
          settle-records step p (
            attempt backend step.action step (resolve_target backend step p) p.outputs p.session) in
        let due : is_due p.records r ≡ true = rw same (or_true (was_skipped r.status) met) in
        rw t (rw made (all_due-append [] p.records r h due))
    | inr t ↦ rw t (all_due-append [] p.records _ h refl)
  ]
    where
      or_true : (a : Bool) {b : Bool} → b ≡ true → (a || b) ≡ true
      or_true true e = refl
      or_true false e = e

  run_steps-due :
      (ss es : List Step) (p : Progress S)
      → well_formed es ss ≡ true
      → all_due [] p.records ≡ true
      → (p.stopped ≡ none → all_settled p es ≡ true)
      → all_due [] (run_steps backend ss p).records ≡ true
  unfolding run_steps
  run_steps-due [] es p w h c = h
  run_steps-due (step ∷ ss) es p w h c = elim (Option-cases p.stopped) [
    | inl n ↦
        let now : fits es step ≡ true = ground arith in
        let later : well_formed (es ++ step ∷ []) ss ≡ true = ground arith in
        ap (λ (q : Progress S). all_due [] (run_steps backend ss q).records)
          (run_step-live backend step p n)
        ∙ (run_steps-due ss (es ++ step ∷ []) (run_live backend step p) later
            (run_live-due step p es now (c n) h) (λ _. all_settled_next step p es (c n)))
    | inr (e, n) ↦
        let later : well_formed (es ++ step ∷ []) ss ≡ true = ground arith in
        ap (λ (q : Progress S). all_due [] (run_steps backend ss q).records)
          (run_step-stopped backend step e p n)
        ∙ (run_steps-due ss (es ++ step ∷ []) _ later (all_due-append [] p.records _ h refl)
            (λ m. cc (sym n ∙ m)))
  ]

  -- In an episode without errors, a step that is not skipped runs behind a record of success for each
  -- step that it works on: the one whose output it reads, or the one that it approves, rejects, marks
  -- as wrong or forgets; and no step fails because the step that it refers to has no output.
  pub run_episode-depends :
      (steps : List Step)
      → Rules.is_empty (episode_errors steps) ≡ true
      → (all_due [] (run_episode backend steps).steps ≡ true)
        × (any lost_record (run_episode backend steps).steps ≡ false)
  unfolding run_episode
  run_episode-depends steps v = (
    (rw (finish-steps backend _ _) (
        run_steps-due steps [] (start backend steps) (sym (episode_errors-none steps) ∙ v) refl
          (λ _. refl))),
    run_episode-references backend steps v,
  )
