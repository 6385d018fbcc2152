-- ===== src/Episode/Records.antt =====
-- The records of an episode: one for each step, and nothing is executed once the outcome of a mutation
-- is unknown.
use evalai.Base.{
  String, Option, none, some, List, [], ◌∷◌, ◌++◌, ◌≡◌, refl, sym, ap, ◌∙◌, inl, inr, string_eq,
  map, Bool-cases, Option-cases,
}
use mathlib.Core.List.{append_assoc, append-nil, map-append}
use evalai.Episode.{Step, mutating}
use evalai.Episode.Calls.{StepError, Backend, SkipReason, StepRecord, Progress, Tried, is_empty}
use evalai.Episode.Run.{
  settle, blocking, skip, run_live, run_step, run_steps, EpisodeStatus, start, finish, stores_of,
  run_episode,
}

abbrev pub record_id : StepRecord → String
record_id r = r.step_id

abbrev pub step_id : Step → String
step_id s = s.id

module _ {S : Type 0} (backend : Backend S) where
  settle-id :
      (step : Step) (p : Progress S) (t : Tried × S)
      → map record_id (settle backend step p t).records ≡ map record_id p.records ++ step.id ∷ []
  unfolding settle
  settle-id step p (Tried.completed out, s) = map-append record_id p.records _
  settle-id step p (Tried.timed_out, s) = elim (Bool-cases (mutating step.action)) [
    | inl t ↦ rw t (map-append record_id p.records _)
    | inr t ↦ rw t (map-append record_id p.records _)
  ]
  settle-id step p (Tried.failure e, s) = map-append record_id p.records _

  run_step-id :
      (step : Step) (p : Progress S)
      → map record_id (run_step backend step p).records ≡ map record_id p.records ++ step.id ∷ []
  unfolding run_step run_live
  run_step-id step p = elim (Option-cases p.stopped) [
    | inl n ↦
        rw (n, run_step)
          (elim (Bool-cases (is_empty (blocking backend step p))) [
            | inl t ↦ rw t (settle-id step p _)
            | inr t ↦ rw t (map-append record_id p.records _)
          ])
    | inr (e, n) ↦ rw (n, run_step) (map-append record_id p.records _)
  ]

  run_steps-ids :
      (steps : List Step) (p : Progress S)
      → map record_id (run_steps backend steps p).records
        ≡ map record_id p.records ++ map step_id steps
  unfolding run_steps
  run_steps-ids [] p = sym (append-nil _)
  run_steps-ids (step ∷ steps) p =
      run_steps-ids steps (run_step backend step p)
      ∙ rw (run_step-id step p)
          (append_assoc (map record_id p.records) (step.id ∷ []) (map step_id steps))

  pub finish-steps :
      (stores : List String) (p : Progress S) → (finish backend stores p).steps ≡ p.records
  unfolding finish
  finish-steps stores p = elim (Option-cases p.stopped) [
    | inl n ↦ rw (n, finish) refl
    | inr (e, n) ↦ rw (n, finish) refl
  ]

  -- A run of an episode leaves one record for each step, in the order of the steps.
  run_episode-ids :
      (steps : List Step) → map record_id (run_episode backend steps).steps ≡ map step_id steps
  unfolding run_episode
  run_episode-ids steps =
      ap (map record_id) (finish-steps (stores_of steps) _)
      ∙ run_steps-ids steps (start backend steps)

  abbrev pub skipped : Step → StepRecord
  skipped step = skip backend step SkipReason.unknown_outcome

  pub run_step-stopped :
      (step : Step) (e : StepError) (p : Progress S)
      → p.stopped ≡ some e
      → run_step backend step p ≡ record p { records = p.records ++ skipped step ∷ [] }
  unfolding run_step
  run_step-stopped step e p h =
      ap
        (λ (o : Option StepError).
          let next : Progress S = elim o [
            | none ↦ run_live backend step p
            | some d ↦ record p { records = p.records ++ skipped step ∷ [] }
          ] in
          next)
        h

  pub run_step-live :
      (step : Step) (p : Progress S)
      → p.stopped ≡ none
      → run_step backend step p ≡ run_live backend step p
  unfolding run_step
  run_step-live step p h =
      ap
        (λ (o : Option StepError).
          let next : Progress S = elim o [
            | none ↦ run_live backend step p
            | some d ↦ record p { records = p.records ++ skipped step ∷ [] }
          ] in
          next)
        h

  -- What follows a step with an unknown outcome is skipped, and nothing else changes.
  stopped-run :
      (steps : List Step) (e : StepError) (p : Progress S)
      → p.stopped ≡ some e
      → run_steps backend steps p ≡ record p { records = p.records ++ map skipped steps }
  unfolding run_steps
  stopped-run [] e p h = ap (λ rs. record p { records = rs }) (sym (append-nil p.records))
  stopped-run (step ∷ steps) e p h =
      ap (run_steps backend steps) (run_step-stopped step e p h)
      ∙ stopped-run steps e (record p { records = p.records ++ skipped step ∷ [] }) h
      ∙ ap (λ rs. record p { records = rs })
          (append_assoc p.records (skipped step ∷ []) (map skipped steps))

  run_steps-append :
      (xs ys : List Step) (p : Progress S)
      → run_steps backend (xs ++ ys) p ≡ run_steps backend ys (run_steps backend xs p)
  unfolding run_steps
  run_steps-append [] ys p = refl
  run_steps-append (x ∷ xs) ys p = run_steps-append xs ys (run_step backend x p)

  pub finish-stopped :
      (stores : List String) (e : StepError) (p : Progress S)
      → p.stopped ≡ some e
      → let r = finish backend stores p in
        (r.status ≡ EpisodeStatus.indeterminate)
        × (r.error ≡ some e)
        × (r.close ≡ backend.close p.session)
  unfolding finish
  finish-stopped stores e p h = rw (h, finish) (refl, refl, refl)

  -- Once a step's outcome is unknown, each later step is skipped and the backend gets no further call but
  -- the one that closes it; the episode ends as indeterminate with the error of that step.
  pub run_episode-stopped :
      (done rest : List Step) (e : StepError)
      → let p = run_steps backend done (start backend (done ++ rest)) in
        p.stopped ≡ some e
        → let r = run_episode backend (done ++ rest) in
          (r.status ≡ EpisodeStatus.indeterminate)
          × (r.error ≡ some e)
          × (r.close ≡ backend.close p.session)
          × (r.steps ≡ p.records ++ map skipped rest)
  unfolding run_episode
  run_episode-stopped done rest e h =
      let stores = stores_of (done ++ rest) in
      let p = run_steps backend done (start backend (done ++ rest)) in
      let q : Progress S = record p { records = p.records ++ map skipped rest } in
      let same : run_steps backend (done ++ rest) (start backend (done ++ rest)) ≡ q =
        run_steps-append done rest _ ∙ stopped-run rest e p h in
      let f = finish-stopped stores e q h in rw same (f.0, f.1, f.2, finish-steps stores q)
