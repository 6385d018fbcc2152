-- ===== src/Runs/Reconcile/Again.antt =====
-- A second reconciliation finds nothing to do.
use evalai.Base.{
  ℕ, String, true, some, List, [], ◌∷◌, ◌++◌, ◌≡◌, refl, sym, ap, subst, ◌∙◌, ◌≢◌, inl, inr, arith,
  ◌==◌, nat_eq, string_eq, eq_iff, filter, map, All, Bool-cases,
}
use mathlib.Core.List.{Memᴰ}
use evalai.Base.Predicates.{All-imp, All-append}
use evalai.Base.Json.{Json, bool, Fields, end, field, get_field, set_field}
use evalai.Enums.{TrialStatus}
use evalai.Jobs.{Job, enqueued}
use evalai.Runs.{Database, Trial}
use evalai.Runs.Trials.{grade_request}
use evalai.Runs.Reconcile.{
  is_reconciled, failed_work, marked, mark, or_end, reconcile_job, reconcile_jobs, finalize_runs,
  finish, reconcile_failed_jobs,
}
use evalai.Runs.Reconcile.Steps.{
  to_do, Yields, Yields-then, job-Yields, jobs-Yields, finalize_runs-jobs, terminate-jobs, IsLeft,
  filter-IsLeft,
}

get-set_field : (k : String) (v : Json) (fs : Fields) → get_field k (set_field k v fs) ≡ some v
get-set_field k v end = rw ((eq_iff k k).1 refl) refl
get-set_field k v (field j w fs) = elim (Bool-cases (j == k)) [
  | inl t ↦ rw t (rw t refl)
  | inr f ↦ rw f (rw f (get-set_field k v fs))
]

marked-reconciled : (j : Job) → is_reconciled (marked j) ≡ true
unfolding is_reconciled
marked-reconciled j = rw (get-set_field "reconciled" (bool true) (or_end j.result)) refl

mark-IsLeft :
    (j : Job) (js jobs : List Job) → IsLeft (j ∷ js) jobs → IsLeft js (map (mark j.id) jobs)
mark-IsLeft j js [] h = tt
mark-IsLeft j js (r ∷ jobs) h = (row, mark-IsLeft j js jobs h.1)
  where
    other : r.id ≢ j.id → Memᴰ r (j ∷ js) → Memᴰ r js
    other n (Memᴰ.head e) = absurd (n (ap (λ (x : Job). x.id) e))
    other n (Memᴰ.tail m) = m

    row : to_do (mark j.id r) ≡ true → Memᴰ (mark j.id r) js
    row = elim (Bool-cases (r.id == j.id)) [
      | inl t ↦ rw (mark, t) (λ d. let k = marked-reconciled r in ground arith)
      | inr f ↦ rw (mark, f) (λ d. other (ground arith) (h.0 d))
    ]

skip-IsLeft :
    (j : Job) (js jobs : List Job) → is_reconciled j ≡ true → IsLeft (j ∷ js) jobs → IsLeft js jobs
skip-IsLeft j js jobs t h =
    All-imp (λ (r : Job). to_do r ≡ true → Memᴰ r (j ∷ js))
      (λ (r : Job). to_do r ≡ true → Memᴰ r js) jobs (λ r p d. other r d (p d)) h
  where
    other : (r : Job) → to_do r ≡ true → Memᴰ r (j ∷ js) → Memᴰ r js
    other r d (Memᴰ.head e) =
        let k : is_reconciled r ≡ true = ap is_reconciled e ∙ t in ground arith
    other r d (Memᴰ.tail m) = m

module _ (order : List ℕ → List ℕ) (clock : ℕ) (new_job : ℕ → ℕ) where
  queued-IsLeft :
      (js jobs : List Job) (id : ℕ) (t : Trial) (gid : ℕ)
      → IsLeft js jobs
      → IsLeft js (jobs ++ enqueued id clock (grade_request t gid) ∷ [])
  unfolding enqueued
  queued-IsLeft js jobs id t gid h =
      All-append (λ (r : Job). to_do r ≡ true → Memᴰ r js) jobs _ h ((λ d. cc d), tt)

  job-IsLeft :
      (j : Job) (js : List Job) (st : List ℕ × Database)
      → IsLeft (j ∷ js) st.1.jobs
      → Yields
          (λ (st' : List ℕ × Database). IsLeft js st'.1.jobs)
          (reconcile_job order clock new_job j st)
  job-IsLeft j js (touched, db) h =
      job-Yields order clock new_job (λ (st : List ℕ × Database). IsLeft js st.1.jobs) j touched db
        (λ t. skip-IsLeft j js db.jobs t h) (λ k touched'. mark-IsLeft j js db.jobs h)
        (λ t touched' gid attempts error e.
          subst (IsLeft js)
            (sym (
              terminate-jobs order clock new_job (new_job j.id) t TrialStatus.provider_error
                (some error) gid _))
            (queued-IsLeft js _ (new_job j.id) t gid (mark-IsLeft j js db.jobs h)))

  reconcile_jobs-idle :
      (js : List Job) (st : List ℕ × Database)
      → All (λ r. is_reconciled r ≡ true) js
      → reconcile_jobs order clock new_job js st ≡ some st
  unfolding reconcile_jobs reconcile_job
  reconcile_jobs-idle [] st h = refl
  reconcile_jobs-idle (j ∷ js) st h = rw (reconcile_jobs, h.0) (reconcile_jobs-idle js st h.1)

  none_left :
      (jobs : List Job)
      → IsLeft [] jobs
      → All (λ r. is_reconciled r ≡ true) (filter failed_work jobs)
  none_left [] h = tt
  none_left (j ∷ jobs) h = elim (Bool-cases (failed_work j)) [
    | inl t ↦ rw t (elim (Bool-cases (is_reconciled j)) [
      | inl d ↦ (d, none_left jobs h.1)
      | inr d ↦ elim (h.0 (rw (to_do, t, d) refl)) [ ]
    ])
    | inr f ↦ rw f (none_left jobs h.1)
  ]

  reconcile_failed_jobs-idle :
      (db : Database)
      → order [] ≡ []
      → IsLeft [] db.jobs
      → reconcile_failed_jobs order clock new_job db ≡ some ([], db)
  unfolding reconcile_failed_jobs finalize_runs
  reconcile_failed_jobs-idle db o h =
      rw
        (
          reconcile_failed_jobs,
          reconcile_jobs-idle (filter failed_work db.jobs) ([], db) (none_left db.jobs h),
          o,
        )
        refl

  reconcile_failed_jobs-IsLeft :
      (db : Database)
      → Yields
          (λ (r : List ℕ × Database). IsLeft [] r.1.jobs)
          (reconcile_failed_jobs order clock new_job db)
  unfolding reconcile_failed_jobs
  reconcile_failed_jobs-IsLeft db =
      Yields-then (λ (st : List ℕ × Database). IsLeft [] st.1.jobs)
        (λ (r : List ℕ × Database). IsLeft [] r.1.jobs)
        (reconcile_jobs order clock new_job (filter failed_work db.jobs) ([], db))
        (λ st. some (finish order clock new_job st))
        (λ st k.
          subst (IsLeft []) (sym (finalize_runs-jobs order clock new_job (order st.0) st.1)) k)
        (jobs-Yields order clock new_job (λ js st. IsLeft js st.1.jobs) job-IsLeft
          (filter failed_work db.jobs) ([], db) (filter-IsLeft db.jobs))

-- Once the failed jobs are reconciled, another call at any time finds none, touches no run and changes
-- nothing, if a visit of the empty set has no element.
pub reconcile_failed_jobs-again :
    (order : List ℕ → List ℕ) (clock clock' : ℕ) (new_job new_job' : ℕ → ℕ) (db db' : Database)
    (touched : List ℕ)
    → order [] ≡ []
    → reconcile_failed_jobs order clock new_job db ≡ some (touched, db')
    → reconcile_failed_jobs order clock' new_job' db' ≡ some ([], db')
reconcile_failed_jobs-again order clock clock' new_job new_job' db db' touched o h =
    reconcile_failed_jobs-idle order clock' new_job' db' o (
      subst (Yields (λ (r : List ℕ × Database). IsLeft [] r.1.jobs)) h
        (reconcile_failed_jobs-IsLeft order clock new_job db))
