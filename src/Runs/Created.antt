-- ===== src/Runs/Created.antt =====
-- What the creation of a run by execution/runs.py leaves.
use native.Mathlib.Nat.{mul_assoc}
use mathlib.Core.List.{append_assoc, append-nil}
use evalai.Base.{
  ℕ, suc, ◌+◌, ◌*◌, String, Bool, ◌&&◌, Option, none, some, List, [], ◌∷◌, ◌++◌, ◌≡◌, refl, sym, ap,
  subst, ◌∙◌, inl, inr, ◌==◌, nat_eq, string_eq, if◌then◌else◌, Bool-cases, count, length, ltb,
  eq_iff,
}
use evalai.Base.Results.{ok, err}
use evalai.Enums.{TrialStatus, JobStatus, JobKind}
use evalai.Jobs.{Job, enqueue, enqueued}
use evalai.Retry.{range_from}
use evalai.Runs.{Database, Trial, emit}
use evalai.Runs.Plan.{RunRequest, Plan, Surroundings, Catalogue}
use evalai.Runs.Validate.{validate_run}
use evalai.Runs.Planned.{IsPlanned, validate_run-IsPlanned}
use evalai.Runs.Create.{
  Slot, slots_of, schedule_order, NewIds, Site, IdempotencyKey, new_run, new_trial, trial_request,
  add_trials, write_run, response_of, created, create_run, given_key, find_key, known, replay,
  new_key, conflict,
}
use evalai.Runs.Slots.{
  length-range, count-repeats, length-case_slots, count-case_slots, is_slot, is_case,
  is_candidate_key,
}

-- A queued job that executes the trial
pub record IsQueuedFor (run grading : ℕ) (t : Trial) (j : Job) : Type 0 where
  pub trial : (t.status ≡ TrialStatus.pending) × (t.run_id ≡ run)
  pub job : (j.status ≡ JobStatus.queued) × (j.kind ≡ JobKind.trial)
  pub payload : (j.payload.trial_id ≡ some t.id) × (j.payload.grading_run_id ≡ some grading)
  pub owner : j.run_id ≡ some run

-- The two lists correspond, element by element.
abbrev pub Paired : (Trial → Job → Type 0) → List Trial → List Job → Type 0
Paired R [] [] = Unit
Paired R [] (j ∷ js) = ⊥
Paired R (t ∷ ts) [] = ⊥
Paired R (t ∷ ts) (j ∷ js) = R t j × Paired R ts js

abbrev pub is_trial : ℕ → String → ℕ → Trial → Bool
is_trial k c r t = (t.case_id == k && t.candidate_key == c) && t.repeat_index == r

module _ (env : Surroundings) (digest : ℕ → Slot → ℕ) (body_hash : RunRequest → String) (clock : ℕ)
    (ids : NewIds) (req : RunRequest) where
  abbrev trials_from : ℕ → List Slot → List Trial
  trials_from i [] = []
  trials_from i (s ∷ ss) = new_trial env digest body_hash clock ids req i s ∷ trials_from (suc i) ss

  abbrev jobs_from : (Slot → ℕ) → ℕ → List Slot → List Job
  jobs_from order i [] = []
  jobs_from order i (s ∷ ss) =
      enqueued (ids.job i) clock (trial_request env digest body_hash clock ids req order i s)
      ∷ jobs_from order (suc i) ss

  -- The tables after the loop over the keys
  record IsFilled (order : Slot → ℕ) (i : ℕ) (ss : List Slot) (db db' : Database) : Type 0 where
    trials : db'.trials ≡ db.trials ++ trials_from i ss
    jobs : db'.jobs ≡ db.jobs ++ jobs_from order i ss
    runs : db'.runs ≡ db.runs

  add_trials-IsFilled :
      (order : Slot → ℕ) (i : ℕ) (ss : List Slot) (db : Database)
      → IsFilled order i ss db (add_trials env digest body_hash clock ids req order i ss db)
  unfolding add_trials enqueue
  add_trials-IsFilled order i [] db = record {
    trials = sym (append-nil db.trials);
    jobs = sym (append-nil db.jobs);
    runs = refl;
  }
  add_trials-IsFilled order i (s ∷ ss) db =
      let h = add_trials-IsFilled order (suc i) ss _ in
      record {
        trials =
            h.trials
            ∙ append_assoc db.trials (new_trial env digest body_hash clock ids req i s ∷ [])
                (trials_from (suc i) ss);
        jobs = h.jobs ∙ append_assoc db.jobs _ (jobs_from order (suc i) ss);
        runs = h.runs;
      }

  length-trials_from : (i : ℕ) (ss : List Slot) → length (trials_from i ss) ≡ length ss
  length-trials_from i [] = refl
  length-trials_from i (s ∷ ss) = ap suc (length-trials_from (suc i) ss)

  count-trials_from :
      (k : ℕ) (c : String) (r i : ℕ) (ss : List Slot)
      → count (is_trial k c r) (trials_from i ss) ≡ count (is_slot k c r) ss
  count-trials_from k c r i [] = refl
  count-trials_from k c r i (s ∷ ss) =
      ap (λ n. (if is_slot k c r s then 1 else 0) + n) (count-trials_from k c r (suc i) ss)

  trials_from-Paired :
      (order : Slot → ℕ) (i : ℕ) (ss : List Slot)
      → Paired (IsQueuedFor ids.run ids.grading) (trials_from i ss) (jobs_from order i ss)
  unfolding enqueued
  trials_from-Paired order i [] = tt
  trials_from-Paired order i (s ∷ ss) = (
    record { trial = (refl, refl); job = (refl, refl); payload = (refl, refl); owner = refl },
    trials_from-Paired order (suc i) ss,
  )

  pub record IsCreated (plan : Plan) (db db' : Database) : Type 0 where
    pub new : List Trial
    pub queue : List Job
    pub trials : db'.trials ≡ db.trials ++ new
    pub jobs : db'.jobs ≡ db.jobs ++ queue
    pub runs : db'.runs ≡ db.runs ++ new_run env digest body_hash clock ids req plan ∷ []
    pub size : length new ≡ plan.planned_trials
    pub once :
        (k : ℕ) (c : String) (r : ℕ)
        → count (is_trial k c r) new
          ≡ count (is_case k) plan.cases
            * (count (is_candidate_key c) plan.candidates * (if ltb r req.repeats then 1 else 0))
    pub queued : Paired (IsQueuedFor ids.run ids.grading) new queue

  write_run-IsCreated :
      (cat : Catalogue) (plan : Plan) (db : Database)
      → IsPlanned env cat req plan
      → IsCreated plan db (write_run env digest body_hash clock ids req plan db)
  unfolding write_run emit slots_of
  write_run-IsCreated cat plan db h =
      let slots = slots_of plan req.repeats in
      let order = schedule_order (digest req.schedule_seed) slots in
      let filled = add_trials-IsFilled order 0 slots _ in
      let rs = range_from 0 req.repeats in
      record {
        new = trials_from 0 slots;
        queue = jobs_from order 0 slots;
        trials = filled.trials;
        jobs = filled.jobs;
        runs = filled.runs;
        size =
            length-trials_from 0 slots
            ∙ length-case_slots plan.cases plan.candidates rs
            ∙ ap (λ n. length plan.cases * (length plan.candidates * n))
                (length-range 0 req.repeats)
            ∙ sym (mul_assoc (length plan.cases) (length plan.candidates) req.repeats)
            ∙ sym h.trials;
        once = λ k c r.
            count-trials_from k c r 0 slots
            ∙ count-case_slots k c r plan.cases plan.candidates rs
            ∙ ap
                (λ n.
                  count (is_case k) plan.cases * (count (is_candidate_key c) plan.candidates * n))
                (count-repeats r req.repeats);
        queued = trials_from-Paired order 0 slots;
      }

  -- Where the idempotency key is not known, or none is given, and the request is valid with a
  -- plan, the creation answers 201 with that plan. It adds the queued run, as many pending trials
  -- as planned, and one queued trial job for each of them, in the same order, with the trial's and
  -- the grading run's ids. A repeat below the number of repeats of a case with a candidate has one
  -- trial for each time that the plan lists the case and the candidate, any other repeat none.
  pub create_run-IsCreated :
      (key : Option String) (cat : Catalogue) (site : Site) (plan : Plan)
      → known env digest body_hash clock ids req (given_key key) site.keys ≡ none
      → validate_run env cat req ≡ ok plan
      → let r = create_run env digest body_hash clock ids req key cat site in
        (r.0 ≡ ok (201, response_of env digest body_hash clock ids req plan))
        × IsCreated plan site.db r.1.db
  unfolding create_run created
  create_run-IsCreated key cat site plan new accepted =
      rw (create_run, new, accepted)
        (
          refl,
          write_run-IsCreated cat plan site.db (validate_run-IsPlanned env cat req plan accepted),
        )

  find_key-append :
      (k : String) (row : IdempotencyKey) (rows : List IdempotencyKey)
      → row.key ≡ k
      → find_key k rows ≡ none
      → find_key k (rows ++ row ∷ []) ≡ some row
  find_key-append k row [] e h = rw ((eq_iff row.key k).1 e) refl
  find_key-append k row (x ∷ rows) e h = elim (Bool-cases (x.key == k)) [
    | inl t ↦ (let no = rw t at h in absurd (cc))
    | inr f ↦ rw f (find_key-append k row rows e (rw f at h))
  ]

  -- After a valid request has created a run under a new idempotency key, each further request
  -- under that key changes nothing: it gets the same answer if its body has the same hash, and is
  -- refused with 409 otherwise.
  pub create_run-again :
      (key : Option String) (k : String) (cat : Catalogue) (site : Site) (plan : Plan) (clock' : ℕ)
      (ids' : NewIds) (req' : RunRequest) (cat' : Catalogue)
      → given_key key ≡ some k
      → find_key k site.keys ≡ none
      → validate_run env cat req ≡ ok plan
      → let site' = (create_run env digest body_hash clock ids req key cat site).1 in
        create_run env digest body_hash clock' ids' req' key cat' site' ≡ (
          if body_hash req == body_hash req'
              then ok (201, response_of env digest body_hash clock ids req plan)
              else err (conflict env digest body_hash clock ids req),
          site',
        )
  unfolding create_run created
  create_run-again key k cat site plan clock' ids' req' cat' given new accepted =
      let site' = created env digest body_hash clock ids req (some k) plan site in
      let row =
        new_key env digest body_hash clock ids req k
          (response_of env digest body_hash clock ids req plan) in
      let first : (create_run env digest body_hash clock ids req key cat site).1 ≡ site' =
        rw (create_run, given, new, accepted) (rw given refl) in
      let found : find_key k site'.keys ≡ some row = find_key-append k row site.keys refl new in
      let second : create_run env digest body_hash clock' ids' req' key cat' site'
          ≡ replay env digest body_hash clock' ids' req' row site' =
        rw (create_run, given, found) refl in
      subst
        (λ x. create_run env digest body_hash clock' ids' req' key cat' x ≡ (
          if body_hash req == body_hash req'
              then ok (201, response_of env digest body_hash clock ids req plan)
              else err (conflict env digest body_hash clock ids req),
          x,
        ))
        (sym first)
        (second ∙ elim (Bool-cases (body_hash req == body_hash req')) [
          | inl t ↦ rw t refl
          | inr f ↦ rw f refl
        ])
