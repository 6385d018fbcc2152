-- ===== src/Runs/Ended.antt =====
-- When `maybe_finalize` of execution/finalize.py ends a run, and as what.
use evalai.Base.{
  ℕ, Bool, true, false, not, ◌&&◌, ◌||◌, none, some, List, [], ◌∷◌, ◌≡◌, refl, sym, subst, ◌∙◌, inl,
  inr, arith, ◌==◌, nat_eq, if◌then◌else◌, any, count, filter, map, contains, Bool-cases,
  Option-cases,
}
use evalai.Base.Table.{get, key-get}
use evalai.Enums.{RunStatus, TrialStatus, JobStatus, Verdict, run_terminal}
use evalai.Jobs.{Job}
use evalai.Runs.{
  Database, Run, Trial, GradingRun, GradeRow, run_key, grading_key, trial_count, in_status,
}
use evalai.Runs.Finalize.{
  maybe_finalize, run_blocked, close_run, final_status, has_problem, grade_errors, job_of_run,
}
use evalai.Runs.Completion.{
  closed, close_run-row, close_run-trials, close_run-jobs, final_status-terminal,
  maybe_finalize-true, ended-again,
}

abbrev is_unfinished : TrialStatus → Bool
is_unfinished TrialStatus.pending = true
is_unfinished TrialStatus.running = true
is_unfinished _ = false

-- A trial of the run that is pending or running.
abbrev pub unfinished : ℕ → Trial → Bool
unfinished run t = t.run_id == run && is_unfinished t.status

abbrev is_live : JobStatus → Bool
is_live JobStatus.queued = true
is_live JobStatus.running = true
is_live _ = false

-- A job of the run that is queued or running.
abbrev pub live_job : ℕ → Job → Bool
live_job run j = (elim j.run_id [ none ↦ false | some r ↦ r == run ]) && is_live j.status

abbrev went_wrong : TrialStatus → Bool
went_wrong TrialStatus.provider_error = true
went_wrong TrialStatus.timeout = true
went_wrong TrialStatus.unsupported = true
went_wrong TrialStatus.indeterminate = true
went_wrong TrialStatus.skipped = true
went_wrong _ = false

-- A trial of the run that ended by an error of its provider, late, unsupported, with an unknown
-- outcome, or skipped.
abbrev pub had_problem : ℕ → Trial → Bool
had_problem run t = t.run_id == run && went_wrong t.status

abbrev is_error : Verdict → Bool
is_error Verdict.error = true
is_error _ = false

-- A grade of the verdict error in a grading run of the run.
abbrev pub error_grade : ℕ → List GradingRun → GradeRow → Bool
error_grade run gradings g =
    any (λ (x : GradingRun). x.run_id == run && x.id == g.grading_run_id) gradings
    && is_error g.verdict

-- What a run ends as: cancelled if that was asked for, and else completed, with errors if a trial had a
-- problem or a grade is an error.
abbrev pub ending : Run → Database → RunStatus
ending run db = elim run.cancel_requested_at [
  | some at ↦ RunStatus.cancelled
  | none ↦
      if any (had_problem run.id) db.trials || any (error_grade run.id db.gradings) db.grades
      then RunStatus.completed_with_errors
      else RunStatus.completed
]

count-any : {A : Type 0} (p : A → Bool) (xs : List A) → not (count p xs == 0) ≡ any p xs
count-any p [] = refl
count-any p (x ∷ xs) = ground (arith, count-any p xs)

any-both :
    {A : Type 0} (p q : A → Bool) (xs : List A) → (any p xs || any q xs) ≡ any (λ x. p x || q x) xs
any-both p q [] = refl
any-both p q (x ∷ xs) = ground (arith, any-both p q xs)

any_same : {A : Type 0} (p q : A → Bool) (xs : List A) → ((x : A) → p x ≡ q x) → any p xs ≡ any q xs
any_same p q [] h = refl
any_same p q (x ∷ xs) h = rw (h x, any_same p q xs h) refl

unfinished_lem :
    (run : ℕ) (ts : List Trial)
    → (any (in_status run TrialStatus.pending) ts || any (in_status run TrialStatus.running) ts)
      ≡ any (unfinished run) ts
unfinished_lem run ts =
    any-both (in_status run TrialStatus.pending) (in_status run TrialStatus.running) ts
    ∙ any_same _ (unfinished run) ts (λ t. one t)
  where
    one :
        (t : Trial)
        → (in_status run TrialStatus.pending t || in_status run TrialStatus.running t)
          ≡ unfinished run t
    one t = ground arith

live_job_lem : (run : ℕ) (j : Job) → job_of_run run j ≡ live_job run j
live_job_lem run j = ground arith

-- A run is open exactly while one of its trials is unfinished or one of its jobs is live.
run_blocked_lem :
    (run : ℕ) (db : Database)
    → run_blocked run db ≡ (any (unfinished run) db.trials || any (live_job run) db.jobs)
unfolding run_blocked trial_count
run_blocked_lem run db =
    rw
      (
        count-any (in_status run TrialStatus.pending) db.trials,
        count-any (in_status run TrialStatus.running) db.trials,
        count-any (job_of_run run) db.jobs,
      )
      (ground (
        arith,
        unfinished_lem run db.trials,
        any_same (job_of_run run) (live_job run) db.jobs (live_job_lem run),
      ))

has_problem_lem : (run : ℕ) (db : Database) → has_problem run db ≡ any (had_problem run) db.trials
unfolding has_problem trial_count
has_problem_lem run db =
    rw
      (
        count-any (in_status run TrialStatus.provider_error) db.trials,
        count-any (in_status run TrialStatus.timeout) db.trials,
        count-any (in_status run TrialStatus.unsupported) db.trials,
        count-any (in_status run TrialStatus.indeterminate) db.trials,
        count-any (in_status run TrialStatus.skipped) db.trials,
      )
      (five db.trials)
  where
    five :
        (ts : List Trial)
        → (if any (in_status run TrialStatus.provider_error) ts
            then true
            else if any (in_status run TrialStatus.timeout) ts
            then true
            else if any (in_status run TrialStatus.unsupported) ts
            then true
            else if any (in_status run TrialStatus.indeterminate) ts
            then true
            else if any (in_status run TrialStatus.skipped) ts
            then true
            else false)
          ≡ any (had_problem run) ts
    five [] = refl
    five (t ∷ ts) = ground (arith, five ts)

of_run_lem :
    (run id : ℕ) (gs : List GradingRun)
    → contains (map grading_key (filter (λ (g : GradingRun). g.run_id == run) gs)) id
      ≡ any (λ (x : GradingRun). x.run_id == run && x.id == id) gs
of_run_lem run id [] = refl
of_run_lem run id (g ∷ gs) = elim (Bool-cases (g.run_id == run)) [
  | inl t ↦
      rw t
        (elim (Bool-cases (g.id == id)) [ inl y ↦ rw y refl | inr y ↦ rw y (of_run_lem run id gs) ])
  | inr t ↦ rw t (of_run_lem run id gs)
]

grade_errors_lem :
    (run : ℕ) (db : Database)
    → not (grade_errors run db == 0) ≡ any (error_grade run db.gradings) db.grades
unfolding grade_errors
grade_errors_lem run db =
    count-any _ db.grades
    ∙ any_same _ (error_grade run db.gradings) db.grades
        (λ g. ground (arith, of_run_lem run g.grading_run_id db.gradings))

final_status_lem : (run : Run) (db : Database) → final_status run db ≡ ending run db
unfolding final_status
final_status_lem run db =
    rw (has_problem_lem run.id db, grade_errors_lem run.id db)
      (elim (Option-cases run.cancel_requested_at) [ inl n ↦ rw n refl | inr (c, n) ↦ rw n refl ])

neither : (a b : Bool) → (a || b) ≡ false → (a ≡ false) × (b ≡ false)
neither a b h = (ground arith, ground arith)

-- Once a run is closed, none of its trials is pending or running and none of its jobs is queued or
-- running, nor was any before; the run has ended: cancelled if that was asked for, else completed, with
-- errors exactly if one of its trials ended by an error of its provider, late, unsupported, with an
-- unknown outcome or skipped, or if a grade in one of its grading runs is an error; and a later call
-- changes nothing.
pub maybe_finalize-closes :
    (clock clock' run_id : ℕ) (db : Database) (run : Run)
    → get run_key run_id db.runs ≡ some run
    → (maybe_finalize clock run_id db).0 ≡ true
    → let db' = (maybe_finalize clock run_id db).1 in
      (run' : Run) × (get run_key run_id db'.runs ≡ some run')
      × (run_terminal run'.status ≡ true)
      × (run'.status ≡ ending run db)
      × (any (unfinished run_id) db.trials ≡ false)
      × (any (live_job run_id) db.jobs ≡ false)
      × (db'.trials ≡ db.trials)
      × (db'.jobs ≡ db.jobs)
      × (maybe_finalize clock' run_id db' ≡ (false, db'))
maybe_finalize-closes clock clock' run_id db run e t =
    let (free, done) = maybe_finalize-true clock run_id db run e t in
    let own : run.id ≡ run_id = key-get run_key run_id db.runs run e in
    let db' = close_run clock run db in
    let row : get run_key run_id db'.runs ≡ some (closed clock run db) =
      subst (λ i. get run_key i db'.runs ≡ some (closed clock run db)) own
        (close_run-row clock run db (subst (λ i. get run_key i db.runs ≡ some run) (sym own) e)) in
    let ended = final_status-terminal run db in
    let (trials, jobs) =
      neither (any (unfinished run_id) db.trials) (any (live_job run_id) db.jobs)
        (sym (run_blocked_lem run_id db) ∙ free) in
    rw done (
      closed clock run db,
      row,
      ended,
      final_status_lem run db,
      trials,
      jobs,
      close_run-trials clock run db,
      close_run-jobs clock run db,
      ended-again clock' run_id db' (closed clock run db) row ended,
    )
