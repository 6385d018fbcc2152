-- ===== src/Jobs/Ownership.antt =====
-- Who may change a job: the worker that claimed it, and recovery once the lease has expired.
use evalai.Base.{
  ℕ, ◌<◌, String, true, false, Option, none, some, List, [], ◌∷◌, ◌≡◌, refl, subst, sym, ap, ◌∙◌,
  arith, All, ltb, if◌then◌else◌, string_eq, map, ◌==◌, ◌≢◌, eq_iff, Bool-cases, inl, inr,
}
use evalai.Base.Table.{get, set, get-set_self, key-get, get-map}
use evalai.Base.Json.{Fields}
use evalai.Base.Keys.{IsUnique}
use evalai.Enums.{JobStatus, JobKind, job_running}
use evalai.Jobs.{Job, key, claimed, claim_next}
use evalai.Jobs.Claim.{claim_next-IsReady}
use evalai.Jobs.Leases.{
  FailReply, owned_by, heartbeat, complete, completed, fail, failed_job, defer, lease_expired,
  recovered, recover_row, recover_expired,
}

-- Each call of the worker on the job is refused, and leaves the table as it is.
abbrev pub IsRefused :
    ℕ → ℕ → ℕ → ℕ → String → String → Option Fields → Fields → Option ℕ → List Job → Type 0
IsRefused id lease delay clock worker note result error retry_delay q =
    (heartbeat id worker lease clock q ≡ (false, q))
    × (complete id worker result clock q ≡ (false, q))
    × (fail id worker error retry_delay clock q ≡ (FailReply.lost, q))
    × (defer id worker delay note clock q ≡ q)

-- The worker's heartbeat and completion are taken, and its failure report is not lost.
abbrev pub IsServed : ℕ → ℕ → ℕ → String → Option Fields → Fields → Option ℕ → List Job → Type 0
IsServed id lease clock worker result error retry_delay q =
    ((heartbeat id worker lease clock q).0 ≡ true)
    × ((complete id worker result clock q).0 ≡ true)
    × ((fail id worker error retry_delay clock q).0 ≢ FailReply.lost)

-- A worker that does not own the lease of a job is told so by each call, and changes nothing.
not_owner-IsRefused :
    (id lease delay clock : ℕ) (worker note : String) (result : Option Fields) (error : Fields)
    (retry_delay : Option ℕ) (q : List Job) (j : Job)
    → get key id q ≡ some j
    → owned_by worker j ≡ false
    → IsRefused id lease delay clock worker note result error retry_delay q
unfolding heartbeat complete fail defer
not_owner-IsRefused id lease delay clock worker note result error retry_delay q j e o =
    (ground arith, ground arith, ground arith, ground arith)

owner-IsServed :
    (id lease clock : ℕ) (worker : String) (result : Option Fields) (error : Fields)
    (retry_delay : Option ℕ) (q : List Job) (j : Job)
    → get key id q ≡ some j
    → owned_by worker j ≡ true
    → job_running j.status ≡ true
    → IsServed id lease clock worker result error retry_delay q
unfolding heartbeat complete fail failed_job
owner-IsServed id lease clock worker result error retry_delay q j e o r =
    (ground arith, ground arith, λ h. absurd (ground arith))

unequal : (s t : String) → s ≢ t → (s == t) ≡ false
unequal s t apart = elim (Bool-cases (s == t)) [
  | inl y ↦ absurd (apart ((eq_iff s t).0 y))
  | inr n ↦ n
]

written :
    (id : ℕ) (q : List Job) (j j' : Job)
    → get key id q ≡ some j
    → key j' ≡ key j
    → get key id (set key j' q) ≡ some j'
written id q j j' e same =
    let at_id : key j' ≡ id = same ∙ key-get key id q j e in
    subst (λ i. get key i (set key j' q) ≡ some j') at_id
      (get-set_self key j' q j (subst (λ i. get key i q ≡ some j) (sym at_id) e))

-- The claim of a job gives its calls to the claimer alone: the claimer's heartbeat and completion are
-- taken and its failure report is not lost, while heartbeat, complete and fail of another worker are
-- refused and change nothing, and its defer changes nothing.
pub claim_next-exclusive :
    (lease lease' delay now clock : ℕ) (kinds : Option (List JobKind)) (worker other note : String)
    (result : Option Fields) (error : Fields) (retry_delay : Option ℕ) (q q' : List Job) (j : Job)
    → IsUnique key q
    → claim_next worker lease kinds now q ≡ (some j, q')
    → worker ≢ other
    → IsServed j.id lease' clock worker result error retry_delay q'
      × IsRefused j.id lease' delay clock other note result error retry_delay q'
unfolding claimed
claim_next-exclusive lease lease' delay now clock kinds worker other note result error retry_delay q
      q' j u h apart =
    let (old, got, ready, same, wrote) = claim_next-IsReady worker lease kinds now q j q' u h in
    let here : get key j.id q' ≡ some j = rw wrote (get-set_self key j q old got) in
    let mine : owned_by worker j ≡ true = rw same ((eq_iff worker worker).1 refl) in
    let runs : job_running j.status ≡ true = rw same refl in
    let not_theirs : owned_by other j ≡ false = rw same (unequal worker other apart) in
    (
      owner-IsServed j.id lease' clock worker result error retry_delay q' j here mine runs,
      not_owner-IsRefused j.id lease' delay clock other note result error retry_delay q' j here
          not_theirs,
    )

fail_of_owner :
    (id clock : ℕ) (worker : String) (error : Fields) (retry_delay : Option ℕ) (q : List Job)
    (j : Job)
    → get key id q ≡ some j
    → owned_by worker j ≡ true
    → fail id worker error retry_delay clock q ≡ (
      (failed_job error retry_delay clock j).0,
      set key (failed_job error retry_delay clock j).1 q,
    )
unfolding fail
fail_of_owner id clock worker error retry_delay q j e o = ground arith

complete_of_owner :
    (id clock : ℕ) (worker : String) (result : Option Fields) (q : List Job) (j : Job)
    → get key id q ≡ some j
    → owned_by worker j ≡ true
    → job_running j.status ≡ true
    → complete id worker result clock q ≡ (true, set key (completed result clock j) q)
unfolding complete
complete_of_owner id clock worker result q j e o r = ground arith

failed_job_lem :
    (error : Fields) (delay clock : ℕ) (j : Job)
    → ((failed_job error (some delay) clock j).0
        ≡ (if ltb j.attempts j.max_attempts then FailReply.requeued else FailReply.failed))
      × ((failed_job error (some delay) clock j).1.status
          ≡ (if ltb j.attempts j.max_attempts then JobStatus.queued else JobStatus.failed))
      × ((failed_job error (some delay) clock j).1.lease_owner ≡ none)
      × ((failed_job error (some delay) clock j).1.attempts ≡ j.attempts)
      × (key (failed_job error (some delay) clock j).1 ≡ key j)
unfolding failed_job
failed_job_lem error delay clock j =
    (ground arith, ground arith, ground arith, ground arith, ground arith)

-- The owner's failure report: the job waits again exactly if a delay was given and an attempt is
-- left, and has failed otherwise; either way its lease is gone.
pub fail_by_owner :
    (id delay clock : ℕ) (worker : String) (error : Fields) (q : List Job) (j : Job)
    → get key id q ≡ some j
    → owned_by worker j ≡ true
    → let (reply, q') = fail id worker error (some delay) clock q in
      (j' : Job) × (get key id q' ≡ some j')
      × (reply ≡ (if ltb j.attempts j.max_attempts then FailReply.requeued else FailReply.failed))
      × (j'.status ≡ (if ltb j.attempts j.max_attempts then JobStatus.queued else JobStatus.failed))
      × (j'.lease_owner ≡ none)
      × (j'.attempts ≡ j.attempts)
fail_by_owner id delay clock worker error q j e o =
    let (reply, status, owner, attempts, same) = failed_job_lem error delay clock j in
    rw (fail_of_owner id clock worker error (some delay) q j e o) (
      (failed_job error (some delay) clock j).1,
      written id q j (failed_job error (some delay) clock j).1 e same,
      reply,
      status,
      owner,
      attempts,
    )

recover_row-settles : (now : ℕ) (j : Job) → lease_expired now (recover_row now j) ≡ false
unfolding recover_row recovered lease_expired
recover_row-settles now j = ground arith

All-recovered :
    (now : ℕ) (q : List Job) → All (λ j. lease_expired now j ≡ false) (map (recover_row now) q)
All-recovered now [] = tt
All-recovered now (j ∷ q) = (recover_row-settles now j, All-recovered now q)

recover_row-key : (now : ℕ) (j : Job) → key (recover_row now j) ≡ key j
unfolding recover_row recovered
recover_row-key now j = ground arith

recovers : (now : ℕ) (j : Job) → lease_expired now j ≡ true → recover_row now j ≡ recovered now j
unfolding recover_row
recovers now j x = rw x

recovered_free : (now : ℕ) (worker : String) (j : Job) → owned_by worker (recovered now j) ≡ false
unfolding recovered
recovered_free now worker j = ground arith

refused :
    (id clock : ℕ) (worker : String) (result : Option Fields) (q : List Job) (j : Job)
    → get key id q ≡ some j
    → owned_by worker j ≡ false
    → complete id worker result clock q ≡ (false, q)
unfolding complete
refused id clock worker result q j e o = ground arith

-- After a recovery no lease is expired. A job whose lease had expired is the recovered row, and every
-- worker that then reports its completion, the old owner among them, is refused.
recover_expired_lem :
    (now id clock : ℕ) (q : List Job) (j : Job) (worker : String) (result : Option Fields)
    → get key id q ≡ some j
    → lease_expired now j ≡ true
    → let q' = (recover_expired now q).1 in
      All (λ k. lease_expired now k ≡ false) q'
      × (get key id q' ≡ some (recovered now j))
      × (complete id worker result clock q' ≡ (false, q'))
unfolding recover_expired
recover_expired_lem now id clock q j worker result e x =
    let here : get key id (map (recover_row now) q) ≡ some (recovered now j) =
      get-map key (recover_row now) id q j (recover_row-key now) e ∙ ap some (recovers now j x) in
    (
      All-recovered now q,
      here,
      refused id clock worker result (map (recover_row now) q) (recovered now j) here
          (recovered_free now worker j),
    )

-- A completed job keeps its owner, and `fail` asks for no more than the owner: a failure that the
-- worker reports after the completion, with a delay and an attempt left, queues the job again.
pub fail_after_complete :
    (id delay clock clock' : ℕ) (worker : String) (result : Option Fields) (error : Fields)
    (q : List Job) (j : Job)
    → get key id q ≡ some j
    → owned_by worker j ≡ true
    → job_running j.status ≡ true
    → j.attempts < j.max_attempts
    → let q' = (complete id worker result clock q).1 in
      let (reply, q'') = fail id worker error (some delay) clock' q' in
      (reply ≡ FailReply.requeued)
      × ((done : Job) × (get key id q' ≡ some done) × (done.status ≡ JobStatus.succeeded))
      × ((again : Job) × (get key id q'' ≡ some again) × (again.status ≡ JobStatus.queued))
unfolding completed
fail_after_complete id delay clock clock' worker result error q j e o r a =
    let done = completed result clock j in
    let q' = set key done q in
    let here : get key id q' ≡ some done = written id q j done e refl in
    let (reply, status, owner, attempts, same) = failed_job_lem error delay clock' done in
    rw (complete_of_owner id clock worker result q j e o r) (
      rw (fail_of_owner id clock' worker error (some delay) q' done here o) (
        (rw reply (ground arith)),
        (done, here, refl),
        (
          (failed_job error (some delay) clock' done).1,
          written id q' done (failed_job error (some delay) clock' done).1 here same,
          (rw status (ground arith)),
        ),
      ))
