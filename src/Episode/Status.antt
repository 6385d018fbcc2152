-- ===== src/Episode/Status.antt =====
-- The status of an episode, by its records.
use evalai.Base.{
  String, Bool, true, false, Option, none, some, List, [], ◌∷◌, ◌≡◌, refl, sym, ap, ◌∙◌, inl, inr,
  string_eq, if◌then◌else◌, filter, any, Bool-cases, Option-cases,
}
use evalai.Base.Predicates.{any-append}
use evalai.Episode.{Step, mutating}
use evalai.Episode.Calls.{StepError, Backend, StepStatus, StepRecord, Progress, Tried, is_empty}
use evalai.Episode.Run.{
  settle, blocking, run_live, run_step, run_steps, EpisodeStatus, start, finish, conclude,
  stores_of, run_episode, is_problem, capture,
}
use evalai.Episode.Records.{run_step-stopped, finish-steps, finish-stopped}

abbrev pub is_indeterminate : StepStatus → Bool
is_indeterminate StepStatus.indeterminate = true
is_indeterminate _ = false

abbrev unknown : StepRecord → Bool
unknown r = is_indeterminate r.status

abbrev problem : StepRecord → Bool
problem r = is_problem r.status

-- The status of an episode by its records.
abbrev pub status_rule : List StepRecord → EpisodeStatus
status_rule records =
    if any unknown records
    then EpisodeStatus.indeterminate
    else if any problem records
    then EpisodeStatus.error
    else EpisodeStatus.ok

abbrev is_stopped : Option StepError → Bool
is_stopped none = false
is_stopped (some e) = true

module _ {S : Type 0} (backend : Backend S) where
  settle-unknown :
      (step : Step) (p : Progress S) (t : Tried × S)
      → p.stopped ≡ none
      → any unknown p.records ≡ false
      → is_stopped (settle backend step p t).stopped ≡ any unknown (settle backend step p t).records
  unfolding settle
  settle-unknown step p (Tried.completed out, s) n h = rw (any-append unknown p.records, h, n) refl
  settle-unknown step p (Tried.timed_out, s) n h = elim (Bool-cases (mutating step.action)) [
    | inl t ↦ rw t (rw (any-append unknown p.records, h) refl)
    | inr t ↦ rw t (rw (any-append unknown p.records, h, n) refl)
  ]
  settle-unknown step p (Tried.failure e, s) n h = rw (any-append unknown p.records, h, n) refl

  run_step-unknown :
      (step : Step) (p : Progress S)
      → is_stopped p.stopped ≡ any unknown p.records
      → is_stopped (run_step backend step p).stopped ≡ any unknown (run_step backend step p).records
  unfolding run_step run_live
  run_step-unknown step p h = elim (Option-cases p.stopped) [
    | inl n ↦
        let clear : any unknown p.records ≡ false = sym h ∙ ap is_stopped n in
        rw (n, run_step)
          (elim (Bool-cases (is_empty (blocking backend step p))) [
            | inl t ↦ rw t (settle-unknown step p _ n clear)
            | inr t ↦ rw t (rw (any-append unknown p.records, clear, n) refl)
          ])
    | inr (e, n) ↦
        let set : any unknown p.records ≡ true = sym h ∙ ap is_stopped n in
        ap (λ (q : Progress S). is_stopped q.stopped) (run_step-stopped backend step e p n)
        ∙ ap is_stopped n
        ∙ sym (
            ap (λ (q : Progress S). any unknown q.records) (run_step-stopped backend step e p n)
            ∙ rw (any-append unknown p.records, set) refl)
  ]

  run_steps-unknown :
      (steps : List Step) (p : Progress S)
      → is_stopped p.stopped ≡ any unknown p.records
      → is_stopped (run_steps backend steps p).stopped
        ≡ any unknown (run_steps backend steps p).records
  unfolding run_steps
  run_steps-unknown [] p h = h
  run_steps-unknown (step ∷ steps) p h =
      run_steps-unknown steps (run_step backend step p) (run_step-unknown step p h)

  conclude-rule :
      (e : Option StepError) (records : List StepRecord)
      → (conclude e (filter problem records)).0
        ≡ (if any problem records then EpisodeStatus.error else EpisodeStatus.ok)
  unfolding conclude
  conclude-rule e [] = refl
  conclude-rule e (r ∷ rs) = elim (Bool-cases (problem r)) [
    | inl t ↦ rw t (elim (Option-cases e) [ inl n ↦ rw n refl | inr (d, n) ↦ rw n refl ])
    | inr t ↦ rw t (conclude-rule e rs)
  ]

  finish-status :
      (stores : List String) (p : Progress S)
      → p.stopped ≡ none
      → (finish backend stores p).status
        ≡ (if any problem p.records then EpisodeStatus.error else EpisodeStatus.ok)
  unfolding finish
  finish-status stores p n =
      rw (n, finish) (conclude-rule (capture backend stores p.session none).1 p.records)

  -- An episode is indeterminate exactly if the outcome of a step is, else in error exactly if a step ended
  -- in an error or a timeout, and else ok; a skipped step decides nothing.
  pub run_episode-status :
      (steps : List Step)
      → (run_episode backend steps).status ≡ status_rule (run_episode backend steps).steps
  unfolding run_episode
  run_episode-status steps =
      let stores = stores_of steps in
      let p = run_steps backend steps (start backend steps) in
      let u = run_steps-unknown steps (start backend steps) refl in
      rw (finish-steps backend stores p) (elim (Option-cases p.stopped) [
        | inl n ↦
            let clear : any unknown p.records ≡ false = sym u ∙ ap is_stopped n in
            rw clear (finish-status stores p n)
        | inr (e, n) ↦
            let set : any unknown p.records ≡ true = sym u ∙ ap is_stopped n in
            rw set (finish-stopped backend stores e p n).0
      ])
