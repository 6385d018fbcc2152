-- ===== src/Jobs/Writes.antt =====
-- Each call of the queue but a claim and an enqueue writes rows by `IsRelease`: one row by its key,
-- or every row in its place. What follows for a whole table.
use evalai.Base.{
  ℕ, ◌+◌, ◌≤◌, String, not, ◌||◌, Option, some, List, ◌≡◌, refl, subst, sym, inl, inr, arith, All,
  map, Bool-cases, Option-cases,
}
use evalai.Base.Predicates.{All-map, count-le-map}
use evalai.Base.Table.{get, set, All-get, All-set, key-get, count-set}
use evalai.Base.Keys.{IsUnique, set-IsUnique, map-IsUnique}
use evalai.Base.Json.{Fields}
use evalai.Enums.{JobKind, job_running}
use evalai.Jobs.{Job, key, running_count, runs_under}
use evalai.Jobs.Leases.{
  owned_by, heartbeat, complete, completed, fail, failed_job, defer, deferred, cancel_queued,
  cancel_row, recover_expired, recover_row,
}
use evalai.Jobs.Valid.{
  IsRelease, renewed-IsRelease, completed-IsRelease, failed_job-IsRelease, deferred-IsRelease,
  cancel_row-IsRelease, recover_row-IsRelease,
}

-- How a table `q` became `q'`.
pub data Writes (q q' : List Job) : Type 0 where
  nothing : q' ≡ q → Writes q q'
  one : (j j' : Job) → get key j.id q ≡ some j → IsRelease j j' → q' ≡ set key j' q → Writes q q'
  each : (f : Job → Job) → ((j : Job) → IsRelease j (f j)) → q' ≡ map f q → Writes q q'

one_found :
    (q q' : List Job) (id : ℕ) (j j' : Job)
    → get key id q ≡ some j
    → IsRelease j j'
    → q' ≡ set key j' q
    → Writes q q'
one_found q q' id j j' e r w =
    Writes.one j j' (subst (λ i. get key i q ≡ some j) (sym (key-get key id q j e)) e) r w

pub heartbeat-Writes :
    (id : ℕ) (worker : String) (lease clock : ℕ) (q : List Job)
    → Writes q (heartbeat id worker lease clock q).1
unfolding heartbeat
heartbeat-Writes id worker lease clock q = elim (Option-cases (get key id q)) [
  | inl e ↦ Writes.nothing (ground arith)
  | inr (j, e) ↦ elim (Bool-cases (not (job_running j.status) || not (owned_by worker j))) [
    | inl t ↦ Writes.nothing (ground arith)
    | inr t ↦
        one_found q (heartbeat id worker lease clock q).1 id j
          (record j { heartbeat_at = some clock; lease_expires_at = some (clock + lease) }) e
          (renewed-IsRelease clock lease j (ground arith)) (ground arith)
  ]
]

pub complete-Writes :
    (id : ℕ) (worker : String) (result : Option Fields) (clock : ℕ) (q : List Job)
    → Writes q (complete id worker result clock q).1
unfolding complete
complete-Writes id worker result clock q = elim (Option-cases (get key id q)) [
  | inl e ↦ Writes.nothing (ground arith)
  | inr (j, e) ↦ elim (Bool-cases (not (owned_by worker j) || not (job_running j.status))) [
    | inl t ↦ Writes.nothing (ground arith)
    | inr t ↦
        one_found q (complete id worker result clock q).1 id j (completed result clock j) e
          (completed-IsRelease result clock j) (ground arith)
  ]
]

pub fail-Writes :
    (id : ℕ) (worker : String) (error : Fields) (retry_delay : Option ℕ) (clock : ℕ) (q : List Job)
    → Writes q (fail id worker error retry_delay clock q).1
unfolding fail
fail-Writes id worker error retry_delay clock q = elim (Option-cases (get key id q)) [
  | inl e ↦ Writes.nothing (ground arith)
  | inr (j, e) ↦ elim (Bool-cases (not (owned_by worker j))) [
    | inl t ↦ Writes.nothing (ground arith)
    | inr t ↦
        one_found q (fail id worker error retry_delay clock q).1 id j
          (failed_job error retry_delay clock j).1 e
          (failed_job-IsRelease error retry_delay clock j) (ground arith)
  ]
]

pub defer-Writes :
    (id : ℕ) (worker : String) (delay : ℕ) (note : String) (clock : ℕ) (q : List Job)
    → Writes q (defer id worker delay note clock q)
unfolding defer
defer-Writes id worker delay note clock q = elim (Option-cases (get key id q)) [
  | inl e ↦ Writes.nothing (ground arith)
  | inr (j, e) ↦ elim (Bool-cases (not (owned_by worker j))) [
    | inl t ↦ Writes.nothing (ground arith)
    | inr t ↦
        one_found q (defer id worker delay note clock q) id j (deferred delay note clock j) e
          (deferred-IsRelease delay note clock j) (ground arith)
  ]
]

pub cancel_queued-Writes :
    (run : ℕ) (kinds : Option (List JobKind)) (clock : ℕ) (q : List Job)
    → Writes q (cancel_queued run kinds clock q).1
unfolding cancel_queued
cancel_queued-Writes run kinds clock q =
    Writes.each (cancel_row run kinds clock) (cancel_row-IsRelease run kinds clock) refl

pub recover_expired-Writes : (now : ℕ) (q : List Job) → Writes q (recover_expired now q).1
unfolding recover_expired
recover_expired-Writes now q = Writes.each (recover_row now) (recover_row-IsRelease now) refl

module _ {q q' : List Job} where
  pub Writes-IsUnique : Writes q q' → IsUnique key q → IsUnique key q'
  Writes-IsUnique (Writes.nothing w) u = rw w u
  Writes-IsUnique (Writes.one j j' e r w) u = rw w (set-IsUnique key j' q u)
  Writes-IsUnique (Writes.each f r w) u = rw w (map-IsUnique key f q (λ j. (r j).same_id) u)

  pub Writes-All :
      (P : Job → Type 0)
      → ((j j' : Job) → IsRelease j j' → P j → P j')
      → Writes q q'
      → All P q
      → All P q'
  Writes-All P keep (Writes.nothing w) h = rw w h
  Writes-All P keep (Writes.one j j' e r w) h =
      rw w (All-set key P j' q h (keep j j' r (All-get key P j.id q j h e)))
  Writes-All P keep (Writes.each f r w) h = rw w (All-map P f q (λ j. keep j (f j) (r j)) h)

  -- No such call raises the number of running jobs under a key.
  pub running_count-Writes : (k : String) → Writes q q' → running_count k q' ≤ running_count k q
  unfolding running_count
  running_count-Writes k (Writes.nothing w) = rw w (omega arith)
  running_count-Writes k (Writes.one j j' e r w) =
      rw w
        (ground (arith, count-set key (runs_under k) j' q j (rw r.same_id e), r.starts_nothing k))
  running_count-Writes k (Writes.each f r w) =
      rw w (count-le-map (runs_under k) f q (λ j. (r j).starts_nothing k))
