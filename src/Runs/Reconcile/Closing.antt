-- ===== src/Runs/Reconcile/Closing.antt =====
-- A reconciliation ends the trials whose jobs have failed.
use evalai.Base.{
  ℕ, true, Option, some, List, [], ◌∷◌, ◌≡◌, refl, sym, subst, ◌∙◌, ◌⊎◌, inl, inr, arith, ◌==◌,
  nat_eq, string_eq, filter, All, Bool-cases, Option-cases,
}
use mathlib.Core.List.{Memᴰ}
use evalai.Base.Predicates.{All-imp, All-Memᴰ}
use evalai.Base.Table.{get, set, get-set_self, key-get}
use evalai.Base.Json.{Fields}
use evalai.Enums.{TrialStatus, JobKind, trial_terminal, same_kind}
use evalai.Jobs.{Job}
use evalai.Runs.{Database, Trial, trial_key}
use evalai.Runs.Trials.{ended}
use evalai.Runs.Reconcile.{
  failed_work, trial_of, reconcile_job, reconcile_jobs, finish, reconcile_failed_jobs,
}
use evalai.Runs.Reconcile.Steps.{
  to_do, Yields, Yields-then, has_ended, job-Yields, jobs-Yields, finalize_runs-trials,
  terminate-trials, IsLeft, filter-IsLeft,
}

set-ended :
    (i : ℕ) (x : Trial) (trials : List Trial)
    → trial_terminal x.status ≡ true
    → has_ended (get trial_key i trials) ≡ true
    → has_ended (get trial_key i (set trial_key x trials)) ≡ true
set-ended i x [] t h = refl
set-ended i x (y ∷ trials) t h = elim (Bool-cases (y.id == x.id)) [
  | inl e ↦ rw e (elim (Bool-cases (x.id == i)) [ inl k ↦ rw k t | inr k ↦ rw k (ground arith) ])
  | inr e ↦ rw e (elim (Bool-cases (y.id == i)) [
    | inl k ↦ rw k (rw k at h)
    | inr k ↦ rw k (set-ended i x trials t (rw k at h))
  ])
]

-- What a job that is to do promises of its trial, once it is done.
abbrev pub IsClosed : Job → List Trial → Type 0
IsClosed j trials =
    to_do j ≡ true → same_kind j.kind JobKind.trial ≡ true → has_ended (trial_of j trials) ≡ true

-- Each of the jobs is done or among those to come.
abbrev IsDone : List Job → List Job → List Trial → Type 0
IsDone all js trials = All (λ (r : Job). IsClosed r trials ⊎ Memᴰ r js) all

advance :
    (all js : List Job) (j : Job) (old new : List Trial)
    → ((r : Job) → IsClosed r old → IsClosed r new)
    → IsClosed j new
    → IsDone all (j ∷ js) old
    → IsDone all js new
advance all js j old new keep now h =
    All-imp (λ (r : Job). IsClosed r old ⊎ Memᴰ r (j ∷ js))
      (λ (r : Job). IsClosed r new ⊎ Memᴰ r js) all step h
  where
    step : (r : Job) → IsClosed r old ⊎ Memᴰ r (j ∷ js) → IsClosed r new ⊎ Memᴰ r js
    step r (inl c) = inl (keep r c)
    step r (inr (Memᴰ.head e)) = inl (subst (λ x. IsClosed x new) (sym e) now)
    step r (inr (Memᴰ.tail m)) = inr m

ended-IsClosed :
    (t : Trial) (s : TrialStatus) (error : Option Fields) (clock : ℕ) (j : Job)
    (trials : List Trial)
    → trial_terminal s ≡ true
    → trial_of j trials ≡ some t
    → IsClosed j (set trial_key (ended s error clock t) trials)
ended-IsClosed t s error clock j trials e h d k = elim (Option-cases j.payload.trial_id) [
  | inl n ↦ rw n refl
  | inr (id, n) ↦
      let found : get trial_key id trials ≡ some t = rw n at h in
      let own : t.id ≡ id = key-get trial_key id trials t found in
      let row =
        get-set_self trial_key (ended s error clock t) trials t
          (subst (λ i. get trial_key i trials ≡ some t) (sym own) found) in
      rw n (
        rw
          (subst
            (λ i.
              get trial_key i (set trial_key (ended s error clock t) trials)
              ≡ some (ended s error clock t))
            own row)
          e)
]

set-IsClosed :
    (x : Trial) (j : Job) (trials : List Trial)
    → trial_terminal x.status ≡ true
    → IsClosed j trials
    → IsClosed j (set trial_key x trials)
set-IsClosed x j trials e h d k = elim (Option-cases j.payload.trial_id) [
  | inl n ↦ rw n refl
  | inr (id, n) ↦ let old = rw n at (h d k) in rw n (set-ended id x trials e old)
]

module _ (order : List ℕ → List ℕ) (clock : ℕ) (new_job : ℕ → ℕ) where
  job-IsDone :
      (all : List Job) (j : Job) (js : List Job) (st : List ℕ × Database)
      → IsDone all (j ∷ js) st.1.trials
      → Yields
          (λ (st' : List ℕ × Database). IsDone all js st'.1.trials)
          (reconcile_job order clock new_job j st)
  job-IsDone all j js (touched, db) h =
      job-Yields order clock new_job (λ (st : List ℕ × Database). IsDone all js st.1.trials) j
        touched db (λ t. advance all js j db.trials db.trials (λ r c. c) (λ d k. ground arith) h)
        (λ known touched'. advance all js j db.trials db.trials (λ r c. c) (λ d k. known k) h)
        (λ t touched' gid attempts error e.
          subst (IsDone all js)
            (sym (
              terminate-trials order clock new_job (new_job j.id) t TrialStatus.provider_error
                (some error) gid _))
            (advance all js j db.trials _
              (λ r c.
                set-IsClosed (ended TrialStatus.provider_error (some error) clock t) r db.trials
                  refl c)
              (ended-IsClosed t TrialStatus.provider_error (some error) clock j db.trials refl e)
              h))

  start-IsDone :
      (jobs : List Job) (trials : List Trial) (js : List Job)
      → IsLeft js jobs
      → IsDone jobs js trials
  start-IsDone jobs trials js h =
      All-imp (λ (r : Job). to_do r ≡ true → Memᴰ r js) (λ (r : Job). IsClosed r trials ⊎ Memᴰ r js)
        jobs sort h
    where
      sort : (r : Job) → (to_do r ≡ true → Memᴰ r js) → IsClosed r trials ⊎ Memᴰ r js
      sort r p = elim (Bool-cases (to_do r)) [
        | inl t ↦ inr (p t)
        | inr f ↦ inl (λ d k. cc (sym f ∙ d))
      ]

  end-IsClosed :
      (jobs : List Job) (trials : List Trial)
      → IsDone jobs [] trials
      → All (λ (j : Job). IsClosed j trials) jobs
  end-IsClosed jobs trials h =
      All-imp (λ (r : Job). IsClosed r trials ⊎ Memᴰ r []) (λ (r : Job). IsClosed r trials) jobs
        only h
    where
      only : (r : Job) → IsClosed r trials ⊎ Memᴰ r [] → IsClosed r trials
      only r (inl c) = c
      only r (inr m) = elim m [ ]

  reconcile_failed_jobs-IsClosed :
      (db : Database)
      → Yields
          (λ (r : List ℕ × Database). All (λ (j : Job). IsClosed j r.1.trials) db.jobs)
          (reconcile_failed_jobs order clock new_job db)
  unfolding reconcile_failed_jobs
  reconcile_failed_jobs-IsClosed db =
      let js = filter failed_work db.jobs in
      Yields-then (λ (st : List ℕ × Database). IsDone db.jobs [] st.1.trials)
        (λ (r : List ℕ × Database). All (λ (j : Job). IsClosed j r.1.trials) db.jobs)
        (reconcile_jobs order clock new_job js ([], db))
        (λ st. some (finish order clock new_job st))
        (λ st k.
          subst (λ trials. All (λ (j : Job). IsClosed j trials) db.jobs)
            (sym (finalize_runs-trials order clock new_job (order st.0) st.1))
            (end-IsClosed db.jobs st.1.trials k))
        (jobs-Yields order clock new_job (λ rest st. IsDone db.jobs rest st.1.trials)
          (job-IsDone db.jobs) js ([], db)
          (start-IsDone db.jobs db.trials js (filter-IsLeft db.jobs)))

  -- After a reconciliation the trial of every job that had failed and was not reconciled yet has ended, if
  -- there is such a trial.
  pub reconcile_failed_jobs-closes :
      (db db' : Database) (touched : List ℕ) (j : Job)
      → reconcile_failed_jobs order clock new_job db ≡ some (touched, db')
      → Memᴰ j db.jobs
      → to_do j ≡ true
      → same_kind j.kind JobKind.trial ≡ true
      → has_ended (trial_of j db'.trials) ≡ true
  reconcile_failed_jobs-closes db db' touched j h m =
      let closed =
        subst (Yields (λ (r : List ℕ × Database). All (λ (k : Job). IsClosed k r.1.trials) db.jobs))
          h (reconcile_failed_jobs-IsClosed db) in
      All-Memᴰ (λ (k : Job). IsClosed k db'.trials) m closed
