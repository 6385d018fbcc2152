-- ===== src/Jobs.antt =====
-- backend/eval_triage/execution/jobs.py: the durable job queue, and the `Job` row of
-- backend/eval_triage/db/models.py. A function that opens a write transaction takes the table and
-- returns it with its result; `BEGIN IMMEDIATE` makes each such call one step. An id is a random
-- UUID, which is compared as the 128-bit number that its fixed-width text spells; times are ticks
-- of one clock, and a call of `utcnow` is the argument `clock`.
pub mod Leases
pub mod Order
pub mod Valid
pub mod Claim
pub mod Writes
pub mod Trace
pub mod Ownership
use evalai.Base.{
  ℕ, ◌+◌, String, Bool, true, false, not, ◌&&◌, Option, none, some, List, [], ◌∷◌, ◌++◌, ltb, leb,
  ◌==◌, nat_eq, string_eq, if◌then◌else◌, filter, count, take, any,
}
use evalai.Base.Table.{set}
use evalai.Base.Json.{Fields}
use evalai.Base.Int.{ℤ, ltb_ℤ}
use evalai.Enums.{JobStatus, JobKind, job_queued, job_running, same_kind}

-- The dictionary that a job carries: the ids that trial and grade jobs hold, and what other kinds do.
pub record Payload : Type 0 where
  pub trial_id : Option ℕ
  pub grading_run_id : Option ℕ
  pub other : Fields

pub record Job : Type 0 where
  pub id : ℕ
  pub kind : JobKind
  pub payload : Payload
  pub run_id : Option ℕ
  pub concurrency_key : String
  pub concurrency_limit : ℕ
  pub priority : ℤ
  pub status : JobStatus
  pub lease_owner : Option String
  pub lease_expires_at : Option ℕ
  pub heartbeat_at : Option ℕ
  pub attempts : ℕ
  pub max_attempts : ℕ
  pub next_available_at : ℕ
  pub result : Option Fields
  pub error : Option Fields
  pub created_at : ℕ
  pub finished_at : Option ℕ

abbrev pub key : Job → ℕ
key j = j.id

-- The arguments of `enqueue`, whose defaults the callers fill in.
pub record Request : Type 0 where
  pub kind : JobKind
  pub payload : Payload
  pub run_id : Option ℕ
  pub concurrency_key : String
  pub concurrency_limit : ℕ
  pub priority : ℤ
  pub max_attempts : ℕ
  pub delay_seconds : ℕ

-- `id` is what the column default `new_id` gives, `clock` what `utcnow` gives.
unfoldable pub enqueued : ℕ → ℕ → Request → Job
enqueued id clock r = record {
  id = id;
  kind = r.kind;
  payload = r.payload;
  run_id = r.run_id;
  concurrency_key = r.concurrency_key;
  concurrency_limit = r.concurrency_limit;
  priority = r.priority;
  status = JobStatus.queued;
  lease_owner = none;
  lease_expires_at = none;
  heartbeat_at = none;
  attempts = 0;
  max_attempts = r.max_attempts;
  next_available_at = clock + r.delay_seconds;
  result = none;
  error = none;
  created_at = clock;
  finished_at = none;
}

unfoldable pub enqueue : ℕ → ℕ → Request → List Job → List Job
enqueue id clock r q = q ++ enqueued id clock r ∷ []

-- The GROUP BY of `claim_next`: how many jobs with this key are running.
abbrev pub runs_under : String → Job → Bool
runs_under k j = job_running j.status && j.concurrency_key == k

unfoldable pub running_count : String → List Job → ℕ
running_count k q = count (runs_under k) q

-- `if kinds: query.where(Job.kind.in_(kinds))`: no list, or an empty one, asks for every kind.
unfoldable pub kind_asked : Option (List JobKind) → JobKind → Bool
kind_asked none k = true
kind_asked (some []) k = true
kind_asked (some (c ∷ cs)) k = any (λ a. same_kind a k) (c ∷ cs)

unfoldable pub claimable : ℕ → Option (List JobKind) → Job → Bool
claimable now kinds j =
    job_queued j.status && leb j.next_available_at now && kind_asked kinds j.kind

-- ORDER BY priority, created_at, id
unfoldable pub before : Job → Job → Bool
before a b =
    if ltb_ℤ a.priority b.priority
    then true
    else if ltb_ℤ b.priority a.priority
    then false
    else if ltb a.created_at b.created_at
    then true
    else if ltb b.created_at a.created_at
    then false
    else leb a.id b.id

unfoldable pub insert_ordered : Job → List Job → List Job
insert_ordered x [] = x ∷ []
insert_ordered x (y ∷ ys) =
    let rest = insert_ordered x ys in if before x y then x ∷ y ∷ ys else y ∷ rest

unfoldable pub order_by : List Job → List Job
order_by [] = []
order_by (x ∷ xs) = insert_ordered x (order_by xs)

abbrev pub claim_limit : ℕ
claim_limit = 500

abbrev pub has_capacity : List Job → Job → Bool
has_capacity q j = not (leb j.concurrency_limit (running_count j.concurrency_key q))

-- The loop of `claim_next`: a job whose key is full is passed over.
unfoldable pub first_with_capacity : List Job → List Job → Option Job
first_with_capacity q [] = none
first_with_capacity q (j ∷ js) =
    let rest = first_with_capacity q js in if has_capacity q j then some j else rest

unfoldable pub candidates : ℕ → Option (List JobKind) → List Job → List Job
candidates now kinds q = take claim_limit (order_by (filter (claimable now kinds) q))

unfoldable pub claimed : String → ℕ → ℕ → Job → Job
claimed worker lease now j = record j {
  status = JobStatus.running;
  lease_owner = some worker;
  lease_expires_at = some (now + lease);
  heartbeat_at = some now;
  attempts = j.attempts + 1;
}

unfoldable pub claim_next :
    String → ℕ → Option (List JobKind) → ℕ → List Job → Option Job × List Job
claim_next worker lease kinds now q = elim (first_with_capacity q (candidates now kinds q)) [
  | none ↦ (none, q)
  | some j ↦ let j' = claimed worker lease now j in (some j', set key j' q)
]
