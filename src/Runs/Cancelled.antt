-- ===== src/Runs/Cancelled.antt =====
-- What a cancellation promises.
use evalai.Base.{
  ℕ, Bool, true, false, ◌&&◌, Option, none, some, List, [], ◌∷◌, ◌≡◌, refl, sym, subst, ◌∙◌, inl,
  inr, arith, ◌==◌, nat_eq, if◌then◌else◌, count, Bool-cases, Option-cases,
}
use evalai.Base.Predicates.{count-map, count-none}
use evalai.Base.Table.{get, get-set_self, key-get}
use evalai.Enums.{RunStatus, TrialStatus, JobKind, run_terminal, job_running, same_kind}
use evalai.Jobs.{Job}
use evalai.Jobs.Leases.{cancel_queued, cancel_row, cancels}
use evalai.Runs.{Database, Run, Trial, emit, run_key, trial_count, in_status}
use evalai.Runs.Finalize.{maybe_finalize, run_blocked, close_run, final_status, requested}
use evalai.Runs.Completion.{
  closed, close_run-row, close_run-trials, close_run-jobs, maybe_finalize-decides, frame_blocked,
}
use evalai.Runs.Ending.{blocked_unchanged}
use evalai.Runs.Cancel.{cancel_trial, cancelling_row, request_cancel, cancel_run}

pending_gone :
    (clock run : ℕ) (t : Trial)
    → in_status run TrialStatus.pending (cancel_trial clock run t) ≡ false
unfolding cancel_trial
pending_gone clock run t = ground arith

running_kept :
    (clock run : ℕ) (t : Trial)
    → in_status run TrialStatus.running (cancel_trial clock run t)
      ≡ in_status run TrialStatus.running t
unfolding cancel_trial
running_kept clock run t = ground arith

queued_gone :
    (clock run : ℕ) (kinds : Option (List JobKind)) (j : Job)
    → cancels run kinds (cancel_row run kinds clock j) ≡ false
unfolding cancels cancel_row
queued_gone clock run kinds j = ground arith

-- A worker holds a trial job of the run.
abbrev pub active_trial_job : ℕ → Job → Bool
active_trial_job run j =
    (elim j.run_id [ none ↦ false | some r ↦ r == run ])
    && job_running j.status
    && same_kind j.kind JobKind.trial

active_kept :
    (clock run : ℕ) (kinds : Option (List JobKind)) (j : Job)
    → active_trial_job run (cancel_row run kinds clock j) ≡ active_trial_job run j
unfolding cancels cancel_row
active_kept clock run kinds j = ground arith

abbrev pub trial_kind : Option (List JobKind)
trial_kind = some (JobKind.trial ∷ [])

-- What holds of the tables of trials and jobs once the cancellation is written.
abbrev pub CancelFacts : ℕ → Database → Database → Type 0
CancelFacts run db db' =
    (trial_count run TrialStatus.pending db' ≡ 0)
    × (trial_count run TrialStatus.running db' ≡ trial_count run TrialStatus.running db)
    × (count (cancels run trial_kind) db'.jobs ≡ 0)
    × (count (active_trial_job run) db'.jobs ≡ count (active_trial_job run) db.jobs)

request_cancel-facts :
    (clock : ℕ) (run : Run) (db : Database) → CancelFacts run.id db (request_cancel clock run db)
unfolding request_cancel emit trial_count cancel_queued
request_cancel-facts clock run db = (
  count-none (in_status run.id TrialStatus.pending) (cancel_trial clock run.id) db.trials
      (pending_gone clock run.id),
  count-map (in_status run.id TrialStatus.running) (cancel_trial clock run.id) db.trials
      (running_kept clock run.id),
  count-none (cancels run.id trial_kind) (cancel_row run.id trial_kind clock) db.jobs
      (queued_gone clock run.id trial_kind),
  count-map (active_trial_job run.id) (cancel_row run.id trial_kind clock) db.jobs
      (active_kept clock run.id trial_kind),
)

request_cancel-row :
    (clock : ℕ) (run : Run) (db : Database)
    → get run_key run.id db.runs ≡ some run
    → get run_key run.id (request_cancel clock run db).runs ≡ some (cancelling_row clock run)
unfolding request_cancel emit
request_cancel-row clock run db e = get-set_self run_key (cancelling_row clock run) db.runs run e

facts_move :
    (run : ℕ) (db db1 db2 : Database)
    → db2.trials ≡ db1.trials
    → db2.jobs ≡ db1.jobs
    → CancelFacts run db db1
    → CancelFacts run db db2
unfolding trial_count
facts_move run db db1 db2 t j f = rw (t, j) f

cancel_requested :
    (clock : ℕ) (run : Run) → requested (cancelling_row clock run).cancel_requested_at ≡ true
cancel_requested clock run = elim (Option-cases run.cancel_requested_at) [
  | inl n ↦ rw n refl
  | inr (c, n) ↦ rw n refl
]

-- The row of a run whose cancellation was requested: open while something of the run is.
abbrev pub RowFacts : ℕ → Database → Type 0
RowFacts run db' =
    (run' : Run) × (get run_key run db'.runs ≡ some run')
    × (requested run'.cancel_requested_at ≡ true)
    × (run'.status ≡ (if run_blocked run db' then RunStatus.cancelling else RunStatus.cancelled))

cancelled_status :
    (row : Run) (db : Database)
    → requested row.cancel_requested_at ≡ true
    → final_status row db ≡ RunStatus.cancelled
unfolding final_status
cancelled_status row db q = rw q refl

settled :
    (clock : ℕ) (row : Run) (db : Database)
    → get run_key row.id db.runs ≡ some row
    → row.status ≡ RunStatus.cancelling
    → requested row.cancel_requested_at ≡ true
    → let db' = (maybe_finalize clock row.id db).1 in
      (db'.trials ≡ db.trials) × (db'.jobs ≡ db.jobs) × RowFacts row.id db'
settled clock row db e s q =
    let live : run_terminal row.status ≡ false = rw s refl in
    let done = maybe_finalize-decides clock row.id db row e live in
    elim (Bool-cases (run_blocked row.id db)) [
      | inl b ↦
          let same : maybe_finalize clock row.id db ≡ (false, db) = done ∙ rw b refl in
          rw same (refl, refl, (row, e, q, rw b s))
      | inr b ↦
          let db' = close_run clock row db in
          let same : maybe_finalize clock row.id db ≡ (true, db') = done ∙ rw b refl in
          let trials = close_run-trials clock row db in
          let jobs = close_run-jobs clock row db in
          let free = frame_blocked row.id db db' trials jobs ∙ b in
          rw same (
            trials,
            jobs,
            (
              closed clock row db,
              close_run-row clock row db e,
              q,
              rw free (cancelled_status row db q),
            ),
          )
    ]

cancel_live :
    (clock run_id : ℕ) (db : Database) (run : Run)
    → get run_key run_id db.runs ≡ some run
    → run_terminal run.status ≡ false
    → (cancel_run clock run_id db).1 ≡ (maybe_finalize clock run_id (request_cancel clock run db)).1
unfolding cancel_run
cancel_live clock run_id db run e t = rw (e, cancel_run) (rw t refl)

-- A cancellation of a run that has not ended leaves none of its trials pending and none of its trial
-- jobs queued, keeps the trials and the trial jobs that run, and records the request; the run is
-- cancelled at once exactly if nothing of it is open, and else it is cancelling.
pub cancel_run-settles :
    (clock run_id : ℕ) (db : Database) (run : Run)
    → get run_key run_id db.runs ≡ some run
    → run_terminal run.status ≡ false
    → let db' = (cancel_run clock run_id db).1 in CancelFacts run_id db db' × RowFacts run_id db'
cancel_run-settles clock run_id db run e t =
    let own : run.id ≡ run_id = key-get run_key run_id db.runs run e in
    let asked = request_cancel clock run db in
    let live = cancel_live clock run_id db run e t in
    let row = cancelling_row clock run in
    let there =
      request_cancel-row clock run db (subst (λ i. get run_key i db.runs ≡ some run) (sym own) e) in
    let end_facts : let db' = (maybe_finalize clock run.id asked).1 in
        CancelFacts run.id db db' × RowFacts run.id db' =
      let (trials, jobs, r) = settled clock row asked there refl (cancel_requested clock run) in
      (
        facts_move run.id db asked (maybe_finalize clock run.id asked).1 trials jobs
            (request_cancel-facts clock run db),
        r,
      ) in
    rw live (
      subst
        (λ i. let db' = (maybe_finalize clock i asked).1 in CancelFacts i db db' × RowFacts i db')
        own end_facts)

open_trial_blocks :
    (run : ℕ) (db : Database)
    → (trial_count run TrialStatus.running db == 0) ≡ false
    → run_blocked run db ≡ true
unfolding run_blocked
open_trial_blocks run db h = ground arith

-- If a trial of the run is running while no worker holds a trial job of the run, as between two
-- attempts of its job, the cancellation leaves the run cancelling with no trial job queued or held, and
-- a completion of the run changes nothing then.
pub cancel_run-stuck :
    (clock clock' run_id : ℕ) (db : Database) (run : Run)
    → get run_key run_id db.runs ≡ some run
    → run_terminal run.status ≡ false
    → (trial_count run_id TrialStatus.running db == 0) ≡ false
    → count (active_trial_job run_id) db.jobs ≡ 0
    → let db' = (cancel_run clock run_id db).1 in
      ((run' : Run) × (get run_key run_id db'.runs ≡ some run')
        × (run'.status ≡ RunStatus.cancelling))
      × (count (cancels run_id trial_kind) db'.jobs ≡ 0)
      × (count (active_trial_job run_id) db'.jobs ≡ 0)
      × (run_blocked run_id db' ≡ true)
      × (maybe_finalize clock' run_id db' ≡ (false, db'))
cancel_run-stuck clock clock' run_id db run e t going held =
    let db' = (cancel_run clock run_id db).1 in
    let ((none_pending, same_running, none_queued, same_held), (run', row, asked, status)) =
      cancel_run-settles clock run_id db run e t in
    let blocked = open_trial_blocks run_id db' (rw same_running going) in
    (
      (run', row, rw blocked at status),
      none_queued,
      same_held ∙ held,
      blocked,
      blocked_unchanged clock' run_id db' blocked,
    )
