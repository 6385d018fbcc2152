-- ===== src/Jobs/Valid.antt =====
-- What holds of each job between two calls, and what a call does to the one row that it writes.
use evalai.Base.{
  ℕ, ◌+◌, ◌≤◌, ◌<◌, String, Bool, true, false, Option, none, some, List, ◌≡◌, refl, arith, nat_eq,
  string_eq,
}
use evalai.Base.Json.{Fields}
use evalai.Enums.{JobKind, job_queued, job_running, job_terminal}
use evalai.Jobs.{Job, Request, claimed, enqueued, claimable, runs_under}
use evalai.Jobs.Leases.{
  completed, failed_job, deferred, cancel_row, cancels, recover_row, recovered, lease_expired,
}

abbrev pub is_some {ℓ} : {A : Type ℓ} → Option A → Bool
is_some none = false
is_some (some _) = true

-- A lease stands exactly while a job runs; a job that waits has an attempt left.
pub record IsValid (j : Job) : Type 0 where
  pub attempts_bounded : j.attempts ≤ j.max_attempts
  pub attempts_allowed : 0 < j.max_attempts
  pub attempt_left : job_queued j.status ≡ true → j.attempts < j.max_attempts
  pub attempt_counted : job_running j.status ≡ true → 0 < j.attempts
  pub lease_iff_running : is_some j.lease_expires_at ≡ job_running j.status
  pub owner_while_running : job_running j.status ≡ true → is_some j.lease_owner ≡ true
  pub free_while_queued : job_queued j.status ≡ true → is_some j.lease_owner ≡ false
  pub finished_when_terminal : job_terminal j.status ≡ true → is_some j.finished_at ≡ true

-- A write that starts no job: the row keeps its identity, its key and its limit, stays valid, and
-- runs only if it ran before.
pub record IsRelease (j j' : Job) : Type 0 where
  pub same_id : j'.id ≡ j.id
  pub same_key : j'.concurrency_key ≡ j.concurrency_key
  pub same_limit : j'.concurrency_limit ≡ j.concurrency_limit
  pub stays_valid : IsValid j → IsValid j'
  pub starts_nothing : (k : String) → runs_under k j' ≡ true → runs_under k j ≡ true

pub enqueued-IsValid :
    (id clock : ℕ) (r : Request) → 0 < r.max_attempts → IsValid (enqueued id clock r)
unfolding enqueued
enqueued-IsValid id clock r h = ground arith

pub claimed-IsValid :
    (worker : String) (lease now : ℕ) (kinds : Option (List JobKind)) (j : Job)
    → claimable now kinds j ≡ true
    → IsValid j
    → IsValid (claimed worker lease now j)
unfolding claimed claimable
claimed-IsValid worker lease now kinds j h v = ground arith

pub renewed-IsRelease :
    (clock lease : ℕ) (j : Job)
    → job_running j.status ≡ true
    → IsRelease j (record j { heartbeat_at = some clock; lease_expires_at = some (clock + lease) })
renewed-IsRelease clock lease j h = record {
  same_id = refl;
  same_key = refl;
  same_limit = refl;
  stays_valid = λ v. ground arith;
  starts_nothing = λ k r. r;
}

pub completed-IsRelease :
    (result : Option Fields) (clock : ℕ) (j : Job) → IsRelease j (completed result clock j)
unfolding completed
completed-IsRelease result clock j = record {
  same_id = refl;
  same_key = refl;
  same_limit = refl;
  stays_valid = λ v. ground arith;
  starts_nothing = λ k r. ground arith;
}

pub failed_job-IsRelease :
    (error : Fields) (retry_delay : Option ℕ) (clock : ℕ) (j : Job)
    → IsRelease j (failed_job error retry_delay clock j).1
unfolding failed_job
failed_job-IsRelease error none clock j = record {
  same_id = refl;
  same_key = refl;
  same_limit = refl;
  stays_valid = λ v. ground arith;
  starts_nothing = λ k r. ground arith;
}
failed_job-IsRelease error (some delay) clock j = record {
  same_id = ground arith;
  same_key = ground arith;
  same_limit = ground arith;
  stays_valid = λ v. ground arith;
  starts_nothing = λ k r. ground arith;
}

pub deferred-IsRelease :
    (delay : ℕ) (note : String) (clock : ℕ) (j : Job) → IsRelease j (deferred delay note clock j)
unfolding deferred
deferred-IsRelease delay note clock j = record {
  same_id = refl;
  same_key = refl;
  same_limit = refl;
  stays_valid = λ v. ground arith;
  starts_nothing = λ k r. ground arith;
}

pub cancel_row-IsRelease :
    (run : ℕ) (kinds : Option (List JobKind)) (clock : ℕ) (j : Job)
    → IsRelease j (cancel_row run kinds clock j)
unfolding cancel_row cancels
cancel_row-IsRelease run kinds clock j = record {
  same_id = ground arith;
  same_key = ground arith;
  same_limit = ground arith;
  stays_valid = λ v. ground arith;
  starts_nothing = λ k r. ground arith;
}

pub recover_row-IsRelease : (now : ℕ) (j : Job) → IsRelease j (recover_row now j)
unfolding recover_row recovered lease_expired
recover_row-IsRelease now j = record {
  same_id = ground arith;
  same_key = ground arith;
  same_limit = ground arith;
  stays_valid = λ v. ground arith;
  starts_nothing = λ k r. ground arith;
}
