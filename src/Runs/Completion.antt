-- ===== src/Runs/Completion.antt =====
-- What the completion of a run promises.
use evalai.Base.{
  ℕ, true, false, some, List, [], ◌∷◌, ◌≡◌, refl, sym, ap, subst, ◌∙◌, inl, inr, arith, ◌==◌,
  nat_eq, if◌then◌else◌, filter, map, Bool-cases, Option-cases,
}
use evalai.Base.Table.{get, set, get-set_self, key-get}
use evalai.Enums.{run_terminal}
use evalai.Runs.{Database, Run, GradingRun, emit, trial_count, run_key, grading_key}
use evalai.Runs.Finalize.{
  maybe_finalize_grading, grading_blocked, finalize_gradings, close_run, final_status, has_problem,
  grade_errors, grading_ids, maybe_finalize, run_blocked,
}

-- The tables of `db'` that a call leaves as they are in `db`, and the grading runs of each run.
pub record IsFrame (db db' : Database) : Type 0 where
  pub same_jobs : db'.jobs ≡ db.jobs
  pub same_runs : db'.runs ≡ db.runs
  pub same_trials : db'.trials ≡ db.trials
  pub same_grades : db'.grades ≡ db.grades
  pub same_gradings : (run : ℕ) → grading_ids run db' ≡ grading_ids run db

set-grading_ids :
    (run : ℕ) (g g' : GradingRun) (gs : List GradingRun)
    → get grading_key g'.id gs ≡ some g
    → g'.run_id ≡ g.run_id
    → map grading_key (filter (λ (x : GradingRun). x.run_id == run) (set grading_key g' gs))
      ≡ map grading_key (filter (λ (x : GradingRun). x.run_id == run) gs)
set-grading_ids run g g' [] e same = cc
set-grading_ids run g g' (x ∷ gs) e same = elim (Bool-cases (x.id == g'.id)) [
  | inl t ↦
      let found : x ≡ g = ground arith in
      let ids : x.id ≡ g'.id = ground arith in
      let runs : x.run_id ≡ g'.run_id = ground arith in
      rw t (elim (Bool-cases (g'.run_id == run)) [
        | inl y ↦
            let z : (x.run_id == run) ≡ true = ground arith in
            rw (y, z)
              (ap (λ i. i ∷ map grading_key (filter (λ (v : GradingRun). v.run_id == run) gs))
                (sym ids))
        | inr y ↦ let z : (x.run_id == run) ≡ false = ground arith in rw (y, z) refl
      ])
  | inr f ↦
      let ih = set-grading_ids run g g' gs (ground arith) same in
      rw f (elim (Bool-cases (x.run_id == run)) [
        | inl y ↦ rw y (ap (λ l. x.id ∷ l) ih)
        | inr y ↦ rw y ih
      ])
]

IsFrame-refl : (db : Database) → IsFrame db db
IsFrame-refl db = record {
  same_jobs = refl;
  same_runs = refl;
  same_trials = refl;
  same_grades = refl;
  same_gradings = λ run. refl;
}

IsFrame-trans : (a b c : Database) → IsFrame a b → IsFrame b c → IsFrame a c
IsFrame-trans a b c f g = record {
  same_jobs = g.same_jobs ∙ f.same_jobs;
  same_runs = g.same_runs ∙ f.same_runs;
  same_trials = g.same_trials ∙ f.same_trials;
  same_grades = g.same_grades ∙ f.same_grades;
  same_gradings = λ run. g.same_gradings run ∙ f.same_gradings run;
}

pub maybe_finalize_grading-IsFrame :
    (clock gid : ℕ) (db : Database) → IsFrame db (maybe_finalize_grading clock gid db).1
unfolding maybe_finalize_grading emit grading_blocked
maybe_finalize_grading-IsFrame clock gid db =
    elim (Option-cases (get grading_key gid db.gradings)) [
      | inl e ↦ rw (e, maybe_finalize_grading) (IsFrame-refl db)
      | inr (g, e) ↦ elim (Bool-cases g.completed) [
        | inl t ↦ rw (e, maybe_finalize_grading) (rw t (IsFrame-refl db))
        | inr t ↦ elim (Bool-cases (grading_blocked g db)) [
          | inl b ↦ rw (e, maybe_finalize_grading) (rw (t, b) (IsFrame-refl db))
          | inr b ↦
              let own = key-get grading_key gid db.gradings g e in
              rw (e, maybe_finalize_grading)
                (rw (t, b)
                  (record {
                    same_jobs = refl;
                    same_runs = refl;
                    same_trials = refl;
                    same_grades = refl;
                    same_gradings = λ run.
                        set-grading_ids run g
                          (record g { completed = true; finished_at = some clock }) db.gradings
                          (subst (λ i. get grading_key i db.gradings ≡ some g) (sym own) e) refl;
                  }))
        ]
      ]
    ]

finalize_gradings-IsFrame :
    (clock : ℕ) (gs : List ℕ) (db : Database) → IsFrame db (finalize_gradings clock gs db)
unfolding finalize_gradings
finalize_gradings-IsFrame clock [] db = IsFrame-refl db
finalize_gradings-IsFrame clock (g ∷ gs) db =
    IsFrame-trans db (maybe_finalize_grading clock g db).1
      (finalize_gradings clock gs (maybe_finalize_grading clock g db).1)
      (maybe_finalize_grading-IsFrame clock g db)
      (finalize_gradings-IsFrame clock gs (maybe_finalize_grading clock g db).1)

-- The status that a run ends with looks at the same facts before and after the grading runs close.
frame_status :
    (run : Run) (db db' : Database) → IsFrame db db' → final_status run db' ≡ final_status run db
unfolding final_status has_problem grade_errors trial_count
frame_status run db db' f = rw (f.same_trials, f.same_grades, f.same_gradings run.id) refl

abbrev pub closed : ℕ → Run → Database → Run
closed clock run db = record run { status = final_status run db; finished_at = some clock }

pub final_status-terminal : (run : Run) (db : Database) → run_terminal (final_status run db) ≡ true
unfolding final_status
final_status-terminal run db = ground arith

pub close_run-row :
    (clock : ℕ) (run : Run) (db : Database)
    → get run_key run.id db.runs ≡ some run
    → get run_key run.id (close_run clock run db).runs ≡ some (closed clock run db)
unfolding close_run emit final_status has_problem trial_count grade_errors
close_run-row clock run db e =
    let graded = finalize_gradings clock (grading_ids run.id db) db in
    let f = finalize_gradings-IsFrame clock (grading_ids run.id db) db in
    rw (f.same_runs, frame_status run db graded f)
      (get-set_self run_key (closed clock run db) db.runs run e)

pub close_run-trials :
    (clock : ℕ) (run : Run) (db : Database) → (close_run clock run db).trials ≡ db.trials
unfolding close_run emit
close_run-trials clock run db =
    (finalize_gradings-IsFrame clock (grading_ids run.id db) db).same_trials

pub close_run-jobs :
    (clock : ℕ) (run : Run) (db : Database) → (close_run clock run db).jobs ≡ db.jobs
unfolding close_run emit
close_run-jobs clock run db = (finalize_gradings-IsFrame clock (grading_ids run.id db) db).same_jobs

-- A run that has not ended is closed exactly if none of its trials is pending or running and none of
-- its jobs is queued or running; a call that does not close it changes nothing.
pub maybe_finalize-decides :
    (clock run_id : ℕ) (db : Database) (run : Run)
    → get run_key run_id db.runs ≡ some run
    → run_terminal run.status ≡ false
    → maybe_finalize clock run_id db
      ≡ (if run_blocked run_id db then (false, db) else (true, close_run clock run db))
unfolding maybe_finalize
maybe_finalize-decides clock run_id db run e t = rw (e, maybe_finalize) (rw t refl)

pub frame_blocked :
    (run_id : ℕ) (db db' : Database)
    → db'.trials ≡ db.trials
    → db'.jobs ≡ db.jobs
    → run_blocked run_id db' ≡ run_blocked run_id db
unfolding run_blocked trial_count
frame_blocked run_id db db' t j = rw (t, j) refl

pub maybe_finalize-true :
    (clock run_id : ℕ) (db : Database) (run : Run)
    → get run_key run_id db.runs ≡ some run
    → (maybe_finalize clock run_id db).0 ≡ true
    → (run_blocked run_id db ≡ false)
      × (maybe_finalize clock run_id db ≡ (true, close_run clock run db))
unfolding maybe_finalize
maybe_finalize-true clock run_id db run e t = ground arith

pub ended-again :
    (clock run_id : ℕ) (db : Database) (run : Run)
    → get run_key run_id db.runs ≡ some run
    → run_terminal run.status ≡ true
    → maybe_finalize clock run_id db ≡ (false, db)
unfolding maybe_finalize
ended-again clock run_id db run e t = ground arith
