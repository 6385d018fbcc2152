-- ===== src/Runs/Starting.antt =====
-- What the start of a trial promises.
use evalai.Base.{
  ℕ, ◌+◌, String, Bool, true, false, not, ◌&&◌, ◌||◌, Option, none, some, ◌≡◌, refl, sym, ap, subst,
  ◌∙◌, inl, inr, arith, ltb, leb, ◌==◌, nat_eq, string_eq, count, any, map, Bool-cases,
  Option-cases,
}
use evalai.Base.Predicates.{count-append, count-map, count-none}
use evalai.Base.Table.{get, get-set_self}
use evalai.Enums.{trial_terminal, trial_pending, run_queued, run_cancelling}
use evalai.Runs.{Database, Run, Trial, Attempt, emit, run_key, trial_key}
use evalai.Runs.Finalize.{requested}
use evalai.Runs.Trials.{
  Scenario, Prep, Ready, announce, started, start, stop, freeze, prepare_live, prepare, interrupt,
  running_of, target_calls, is_target_call, umbrella, exhausted, first_trial, is_memory, is_source,
  is_frozen, is_success,
}

module _ (scenario_of : ℕ → Scenario) (external_id : ℕ → String) (clock new_job new_attempt gid : ℕ)
    (worker : String) where
  interrupt-stops :
      (i : ℕ) (memory : Bool) (a : Attempt) → running_of i (interrupt i memory clock a) ≡ false
  unfolding interrupt
  interrupt-stops i memory a = ground arith

  abbrev is_call_of : ℕ → Database → ℕ → String → Bool
  is_call_of run db i stage =
      (elim (get trial_key i db.trials) [ none ↦ false | some t ↦ t.run_id == run ])
      && not (umbrella stage)

  interrupt-call :
      (run i : ℕ) (memory : Bool) (db : Database) (a : Attempt)
      → is_target_call run db (interrupt i memory clock a) ≡ is_target_call run db a
  unfolding interrupt
  interrupt-call run i memory db a =
      let trial : (interrupt i memory clock a).trial_id ≡ a.trial_id = ground arith in
      let stage : (interrupt i memory clock a).stage ≡ a.stage = ground arith in
      ap (λ j. is_call_of run db j (interrupt i memory clock a).stage) trial
      ∙ ap (λ g. is_call_of run db a.trial_id g) stage

  announce-frame :
      (run : Run) (t : Trial) (db : Database)
      → let db' = announce scenario_of external_id clock new_job new_attempt gid worker run t db in
        (db'.trials ≡ db.trials) × (db'.attempts ≡ db.attempts)
  unfolding announce emit
  announce-frame run t db = elim (Bool-cases (run_queued run.status)) [
    | inl q ↦ elim (Bool-cases (trial_pending t.status)) [
      | inl p ↦ rw (q, p) (refl, refl)
      | inr p ↦ rw (q, p) (refl, refl)
    ]
    | inr q ↦ elim (Bool-cases (trial_pending t.status)) [
      | inl p ↦ rw (q, p) (refl, refl)
      | inr p ↦ rw (q, p) (refl, refl)
    ]
  ]

  row_now : Trial → Trial
  row_now t = started scenario_of external_id clock new_job new_attempt gid worker t

  -- What the start of a trial leaves, if it starts.
  IsStarted : Trial → Database → Prep × Database → Type 0
  IsStarted t db (Prep.ready r, db') =
      (count (running_of t.id) db'.attempts ≡ count (running_of t.id) db.attempts + 1)
      × (get trial_key t.id db'.trials ≡ some (row_now t))
  IsStarted t db (Prep.skipped, db') = Unit
  IsStarted t db (Prep.broken, db') = Unit
  IsStarted t db (Prep.deferred n, db') = Unit

  start-IsStarted :
      (run : Run) (t old : Trial) (source : Option ℕ) (db : Database)
      → get trial_key t.id db.trials ≡ some old
      → IsStarted t db
          (start scenario_of external_id clock new_job new_attempt gid worker run t source db)
  unfolding start IsStarted row_now
  start-IsStarted run t old source db e =
      let (trials, attempts) = announce-frame run t db in
      let own : (t.id == t.id) ≡ true = ground arith in
      (
        rw attempts (count-append (running_of t.id) db.attempts _ ∙ rw own refl),
        rw trials (get-set_self trial_key (row_now t) db.trials old e),
      )

  freeze-IsStarted :
      (run : Run) (t old : Trial) (db : Database)
      → get trial_key t.id db.trials ≡ some old
      → IsStarted t db
          (freeze scenario_of external_id clock new_job new_attempt gid worker run t db)
  unfolding freeze stop IsStarted
  freeze-IsStarted run t old db e =
      let first = start-IsStarted run t old none db e in
      elim (Bool-cases (is_frozen run.manifest.repeat_mode && ltb 0 t.repeat_index)) [
        | inr f ↦ rw f first
        | inl f ↦ elim (Option-cases (first_trial (is_source t) db.trials)) [
          | inl n ↦ rw (f, n) tt
          | inr (source, n) ↦ elim (Bool-cases (trial_terminal source.status)) [
            | inr d ↦ rw (f, n, d) tt
            | inl d ↦ elim (Bool-cases (is_success source.status)) [
              | inr k ↦ rw (f, n, d, k) tt
              | inl k ↦ rw (f, n, d, k) (start-IsStarted run t old (some source.id) db e)
            ]
          ]
        ]
      ]

  -- The database after the attempts that a dead worker left running are closed.
  abbrev recovered : Run → Trial → Database → Database
  recovered run t db = record db {
    attempts = map (interrupt t.id (is_memory (scenario_of run.scenario_id)) clock) db.attempts;
  }

  recovered-exhausted :
      (run : Run) (t : Trial) (db : Database)
      → exhausted run (recovered run t db) ≡ exhausted run db
  unfolding target_calls
  recovered-exhausted run t db =
      let memory = is_memory (scenario_of run.scenario_id) in
      let calls =
        count-map (is_target_call run.id db) (interrupt t.id memory clock) db.attempts
          (interrupt-call run.id t.id memory db) in
      elim (Option-cases run.manifest.max_target_calls) [
        | inl n ↦ rw n refl
        | inr (limit, n) ↦ rw n (ap (leb limit) calls)
      ]

  IsPrepared : Run → Trial → Database → Prep × Database → Type 0
  IsPrepared run t db (Prep.ready r, db') =
      (exhausted run db ≡ false)
      × (count (running_of t.id) db'.attempts ≡ 1)
      × (get trial_key t.id db'.trials ≡ some (row_now t))
  IsPrepared run t db (Prep.skipped, db') = Unit
  IsPrepared run t db (Prep.broken, db') = Unit
  IsPrepared run t db (Prep.deferred n, db') = Unit

  started-IsPrepared :
      (run : Run) (t : Trial) (db db1 : Database) (x : Prep × Database)
      → exhausted run db ≡ false
      → count (running_of t.id) db1.attempts ≡ 0
      → IsStarted t db1 x
      → IsPrepared run t db x
  unfolding IsStarted IsPrepared
  started-IsPrepared run t db db1 (Prep.ready r, db') free none_left (one, row) =
      (free, omega arith, row)
  started-IsPrepared run t db db1 (Prep.skipped, db') free none_left s = tt
  started-IsPrepared run t db db1 (Prep.broken, db') free none_left s = tt
  started-IsPrepared run t db db1 (Prep.deferred n, db') free none_left s = tt

  prepare_live-IsPrepared :
      (run : Run) (t old : Trial) (db : Database)
      → get trial_key t.id db.trials ≡ some old
      → IsPrepared run t db
          (prepare_live scenario_of external_id clock new_job new_attempt gid worker run t db)
  unfolding prepare_live stop IsPrepared
  prepare_live-IsPrepared run t old db e =
      let memory = is_memory (scenario_of run.scenario_id) in
      elim (Bool-cases (
        (any (running_of t.id) db.attempts && memory)
        && not run.manifest.restart_interrupted_episodes)) [
          | inl b ↦ rw b tt
          | inr b ↦ elim (Bool-cases (exhausted run (recovered run t db))) [
            | inl x ↦ rw (b, x) tt
            | inr x ↦
                rw (b, x)
                  (started-IsPrepared run t db (recovered run t db)
                    (freeze scenario_of external_id clock new_job new_attempt gid worker run t
                      (recovered run t db))
                    (sym (recovered-exhausted run t db) ∙ x)
                    (count-none (running_of t.id) (interrupt t.id memory clock) db.attempts
                      (interrupt-stops t.id memory))
                    (freeze-IsStarted run t old (recovered run t db) e))
          ]
        ]

  -- If a trial starts, it had not ended, its run was neither being cancelled nor out of its budget
  -- of target calls, and then its row is running and exactly one of its attempts is, whatever a dead
  -- worker left.
  pub prepare-ready :
      (t : Trial) (run : Run) (db db' : Database) (r : Ready)
      → get trial_key t.id db.trials ≡ some t
      → get run_key t.run_id db.runs ≡ some run
      → prepare scenario_of external_id clock new_job new_attempt gid worker t.id db
        ≡ (Prep.ready r, db')
      → (trial_terminal t.status ≡ false)
        × ((run_cancelling run.status || requested run.cancel_requested_at) ≡ false)
        × (exhausted run db ≡ false)
        × (count (running_of t.id) db'.attempts ≡ 1)
        × (get trial_key t.id db'.trials
            ≡ some (started scenario_of external_id clock new_job new_attempt gid worker t))
  unfolding prepare stop IsPrepared row_now
  prepare-ready t run db db' r e f h =
      let live = prepare_live-IsPrepared run t t db e in
      let open_row : trial_terminal t.status ≡ false = ground arith in
      let wanted : (run_cancelling run.status || requested run.cancel_requested_at) ≡ false =
        ground arith in
      let result : prepare_live scenario_of external_id clock new_job new_attempt gid worker run t
            db
          ≡ (Prep.ready r, db') =
        ground arith in
      let (free, one, row) = subst (IsPrepared run t db) result live in
      (open_row, wanted, free, one, row)
