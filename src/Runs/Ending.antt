-- ===== src/Runs/Ending.antt =====
-- What the end of a trial that does not run promises.
use evalai.Base.{
  ℕ, String, Bool, true, false, Option, some, [], ◌∷◌, ◌≡◌, ap, ◌∙◌, arith, nat_eq, string_eq,
}
use evalai.Base.Predicates.{count-append}
use evalai.Base.Table.{get, get-set_self}
use evalai.Base.Json.{Fields}
use evalai.Enums.{TrialStatus}
use evalai.Jobs.{enqueue, enqueued}
use evalai.Runs.{Database, Trial, emit, trial_key}
use evalai.Runs.Finalize.{maybe_finalize, run_blocked, job_of_run}
use evalai.Runs.Trials.{Scenario, stop, terminate, ended, enqueue_grade, grade_request}

-- A run with a new grade job is open.
pub graded_blocked :
    (new_job clock : ℕ) (t : Trial) (s : TrialStatus) (error : Option Fields) (gid : ℕ)
    (db : Database)
    → run_blocked t.run_id (terminate new_job clock t s error gid db) ≡ true
unfolding run_blocked terminate enqueue_grade enqueue enqueued emit
graded_blocked new_job clock t s error gid db = ground (
  arith,
  count-append (job_of_run t.run_id) db.jobs (enqueued new_job clock (grade_request t gid) ∷ []),
)

pub blocked_unchanged :
    (clock run_id : ℕ) (db : Database)
    → run_blocked run_id db ≡ true
    → maybe_finalize clock run_id db ≡ (false, db)
unfolding maybe_finalize
blocked_unchanged clock run_id db b = ground arith

module _ (scenario_of : ℕ → Scenario) (external_id : ℕ → String) (clock new_job new_attempt gid : ℕ)
    (worker : String) where
  -- A trial that ends without running has the given status and error, and its run stays open until
  -- the grade job queued for it has ended: the completion tried in the same transaction does nothing.
  stop-terminate :
      (t old : Trial) (s : TrialStatus) (error : Option Fields) (db : Database)
      → get trial_key t.id db.trials ≡ some old
      → let db' =
          (stop scenario_of external_id clock new_job new_attempt gid worker t s error db).1 in
        (db' ≡ terminate new_job clock t s error gid db)
        × (get trial_key t.id db'.trials ≡ some (ended s error clock t))
        × (run_blocked t.run_id db' ≡ true)
  unfolding stop terminate enqueue_grade emit
  stop-terminate t old s error db e =
      let b = graded_blocked new_job clock t s error gid db in
      let same = blocked_unchanged clock t.run_id (terminate new_job clock t s error gid db) b in
      let same' = ap (λ (p : Bool × Database). p.1) same in
      (
        same',
        ap (λ (d : Database). get trial_key t.id d.trials) same'
            ∙ get-set_self trial_key (ended s error clock t) db.trials old e,
        ap (λ (d : Database). run_blocked t.run_id d) same' ∙ b,
      )
