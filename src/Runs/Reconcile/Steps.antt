-- ===== src/Runs/Reconcile/Steps.antt =====
-- What one failed job leaves, and what the loop over the failed jobs goes through.
use evalai.Base.{
  ℕ, Bool, true, false, not, ◌&&◌, Option, none, some, List, [], ◌∷◌, ◌++◌, ◌≡◌, refl, sym, ◌∙◌,
  inl, inr, arith, nat_eq, string_eq, if◌then◌else◌, filter, map, All, Bool-cases, Option-cases,
}
use mathlib.Core.List.{Memᴰ}
use evalai.Base.Predicates.{All-imp}
use evalai.Base.Table.{get, set}
use evalai.Base.Json.{Fields}
use evalai.Enums.{TrialStatus, JobKind, trial_terminal, same_kind}
use evalai.Jobs.{Job, enqueue, enqueued}
use evalai.Runs.{Database, Trial, Attempt, emit, run_key, trial_key}
use evalai.Runs.Finalize.{maybe_finalize}
use evalai.Runs.Completion.{close_run-trials, close_run-jobs}
use evalai.Runs.Trials.{terminate, enqueue_grade, grade_request, ended}
use evalai.Runs.Reconcile.{
  is_reconciled, failed_work, mark, trial_of, close_trial, reconcile_trial, reconcile_job,
  reconcile_jobs, finalize_runs,
}

-- Failed work that is not yet reconciled
abbrev pub to_do : Job → Bool
to_do j = failed_work j && not (is_reconciled j)

maybe_finalize-trials :
    (clock run_id : ℕ) (db : Database) → (maybe_finalize clock run_id db).1.trials ≡ db.trials
unfolding maybe_finalize
maybe_finalize-trials clock run_id db = elim (Option-cases (get run_key run_id db.runs)) [
  | inl e ↦ rw (e, maybe_finalize) refl
  | inr (run, e) ↦ rw (e, maybe_finalize) (ground (arith, close_run-trials clock run db))
]

maybe_finalize-jobs :
    (clock run_id : ℕ) (db : Database) → (maybe_finalize clock run_id db).1.jobs ≡ db.jobs
unfolding maybe_finalize
maybe_finalize-jobs clock run_id db = elim (Option-cases (get run_key run_id db.runs)) [
  | inl e ↦ rw (e, maybe_finalize) refl
  | inr (run, e) ↦ rw (e, maybe_finalize) (ground (arith, close_run-jobs clock run db))
]

-- What is known of a result, if there is one.
abbrev pub Yields : {A : Type 0} → (A → Type 0) → Option A → Type 0
Yields P none = Unit
Yields P (some a) = P a

pub Yields-then :
    {A : Type 0} (P Q : A → Type 0) (o : Option A) (f : A → Option A)
    → ((a : A) → P a → Yields Q (f a))
    → Yields P o
    → Yields Q (elim o [ none ↦ none | some a ↦ f a ])
Yields-then P Q none f g h = tt
Yields-then P Q (some a) f g h = g a h

-- There is no such trial, or it has ended.
abbrev pub has_ended : Option Trial → Bool
has_ended none = true
has_ended (some t) = trial_terminal t.status

module _ (order : List ℕ → List ℕ) (clock : ℕ) (new_job : ℕ → ℕ) where
  pub finalize_runs-jobs :
      (rs : List ℕ) (db : Database) → (finalize_runs order clock new_job rs db).jobs ≡ db.jobs
  unfolding finalize_runs
  finalize_runs-jobs [] db = refl
  finalize_runs-jobs (r ∷ rs) db = finalize_runs-jobs rs _ ∙ maybe_finalize-jobs clock r db

  pub finalize_runs-trials :
      (rs : List ℕ) (db : Database) → (finalize_runs order clock new_job rs db).trials ≡ db.trials
  unfolding finalize_runs
  finalize_runs-trials [] db = refl
  finalize_runs-trials (r ∷ rs) db = finalize_runs-trials rs _ ∙ maybe_finalize-trials clock r db

  -- A rule for what one job leaves: nothing changes, or the job is marked, or also its trial ends.
  pub job-Yields :
      (Q : List ℕ × Database → Type 0) (j : Job) (touched : List ℕ) (db : Database)
      → (is_reconciled j ≡ true → Q (touched, db))
      → ((same_kind j.kind JobKind.trial ≡ true → has_ended (trial_of j db.trials) ≡ true)
          → (touched' : List ℕ) → Q (touched', record db { jobs = map (mark j.id) db.jobs }))
      → ((t : Trial) (touched' : List ℕ) (gid : ℕ) (attempts : List Attempt) (error : Fields)
          → trial_of j db.trials ≡ some t
          → Q (
            touched',
            terminate
                (new_job j.id)
                clock
                t
                TrialStatus.provider_error
                (some error)
                gid
                (record db { jobs = map (mark j.id) db.jobs; attempts = attempts }),
          ))
      → Yields Q (reconcile_job order clock new_job j (touched, db))
  unfolding reconcile_job reconcile_trial close_trial
  job-Yields Q j touched db same only ends = elim (Bool-cases (is_reconciled j)) [
    | inl t ↦ rw t (same t)
    | inr f ↦ elim (Bool-cases (same_kind j.kind JobKind.trial)) [
      | inr g ↦
          rw (f, g)
            (elim (Option-cases j.run_id) [
              | inl r ↦ rw r (only (λ k. cc (sym g ∙ k)) touched)
              | inr (run, r) ↦ rw r (only (λ k. cc (sym g ∙ k)) _)
            ])
      | inl g ↦ elim (Option-cases (trial_of j db.trials)) [
        | inl n ↦ rw (f, g, n) (only (λ k. rw n refl) touched)
        | inr (t, n) ↦ elim (Bool-cases (trial_terminal t.status)) [
          | inl e ↦ rw (f, g, n, e) (only (λ k. rw (n, e) refl) touched)
          | inr e ↦ elim (Option-cases j.payload.grading_run_id) [
            | inl m ↦ rw (f, g, n, e, m) tt
            | inr (gid, m) ↦ rw (f, g, n, e, m) (ends t _ gid _ _ n)
          ]
        ]
      ]
    ]
  ]

  pub jobs-Yields :
      (P : List Job → List ℕ × Database → Type 0)
      → ((j : Job) (js : List Job) (st : List ℕ × Database)
          → P (j ∷ js) st
          → Yields (P js) (reconcile_job order clock new_job j st))
      → (js : List Job) (st : List ℕ × Database) → P js st
      → Yields (P []) (reconcile_jobs order clock new_job js st)
  unfolding reconcile_jobs
  jobs-Yields P step [] st h = h
  jobs-Yields P step (j ∷ js) st h =
      Yields-then (P js) (P []) (reconcile_job order clock new_job j st)
        (λ st'. reconcile_jobs order clock new_job js st') (λ st' k. jobs-Yields P step js st' k)
        (step j js st h)

  pub terminate-jobs :
      (id : ℕ) (t : Trial) (s : TrialStatus) (error : Option Fields) (gid : ℕ) (db : Database)
      → (terminate id clock t s error gid db).jobs
        ≡ db.jobs ++ enqueued id clock (grade_request t gid) ∷ []
  unfolding terminate enqueue_grade enqueue emit
  terminate-jobs id t s error gid db = refl

  pub terminate-trials :
      (id : ℕ) (t : Trial) (s : TrialStatus) (error : Option Fields) (gid : ℕ) (db : Database)
      → (terminate id clock t s error gid db).trials
        ≡ set trial_key (ended s error clock t) db.trials
  unfolding terminate enqueue_grade emit
  terminate-trials id t s error gid db = refl

-- The work left to do is among the given jobs.
abbrev pub IsLeft : List Job → List Job → Type 0
IsLeft js jobs = All (λ (r : Job). to_do r ≡ true → Memᴰ r js) jobs

pub filter-IsLeft : (jobs : List Job) → IsLeft (filter failed_work jobs) jobs
filter-IsLeft [] = tt
filter-IsLeft (j ∷ jobs) = keep (filter-IsLeft jobs) (failed_work j) refl
  where
    keep :
        IsLeft (filter failed_work jobs) jobs
        → (b : Bool) → failed_work j ≡ b
        → IsLeft (if b then j ∷ filter failed_work jobs else filter failed_work jobs) (j ∷ jobs)
    keep ih true t = (
      (λ d. Memᴰ.head refl),
      All-imp (λ (r : Job). to_do r ≡ true → Memᴰ r (filter failed_work jobs))
          (λ (r : Job). to_do r ≡ true → Memᴰ r (j ∷ filter failed_work jobs)) jobs
          (λ r p d. Memᴰ.tail (p d)) ih,
    )
    keep ih false f = ((λ d. let k : false ≡ true = rw f at d in cc k), ih)
