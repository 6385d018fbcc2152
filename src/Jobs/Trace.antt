-- ===== src/Jobs/Trace.antt =====
-- Every table that the queue's calls can produce, in any order and by any workers: each call is one
-- write transaction, so an interleaving of workers is a sequence of steps.
use evalai.Base.{
  ℕ, ◌≤◌, ◌<◌, String, Option, some, List, [], ◌∷◌, ◌≡◌, ◌≢◌, subst, inl, inr, arith, All, ◌==◌,
  string_eq, Option-cases, eq_iff, Bool-cases,
}
use evalai.Base.Predicates.{All-append, count-append}
use evalai.Base.Table.{All-get, All-set}
use evalai.Base.Keys.{IsUnique, set-IsUnique, append-IsUnique}
use evalai.Base.Json.{Fields}
use evalai.Enums.{JobKind}
use evalai.Jobs.{
  Job, Request, key, enqueue, enqueued, claim_next, claimed, running_count, runs_under,
}
use evalai.Jobs.Leases.{heartbeat, complete, fail, defer, cancel_queued, recover_expired}
use evalai.Jobs.Valid.{IsValid, enqueued-IsValid, claimed-IsValid}
use evalai.Jobs.Claim.{claim_next-IsReady, running_count-claim_next, claim_next_unchanged}
use evalai.Jobs.Writes.{
  Writes, Writes-IsUnique, Writes-All, running_count-Writes, heartbeat-Writes, complete-Writes,
  fail-Writes, defer-Writes, cancel_queued-Writes, recover_expired-Writes,
}

-- `limit` is the limit that every job enqueued under a key carries.
module _ (limit : String → ℕ) where
  pub data Step (q q' : List Job) : Type 0 where
    enqueues :
        (id clock : ℕ) (r : Request)
        → All (λ j. key j ≢ id) q
        → 0 < r.max_attempts
        → r.concurrency_limit ≡ limit r.concurrency_key
        → q' ≡ enqueue id clock r q
        → Step q q'
    claims :
        (worker : String) (lease : ℕ) (kinds : Option (List JobKind)) (now : ℕ)
        → q' ≡ (claim_next worker lease kinds now q).1
        → Step q q'
    beats :
        (id : ℕ) (worker : String) (lease clock : ℕ)
        → q' ≡ (heartbeat id worker lease clock q).1
        → Step q q'
    completes :
        (id : ℕ) (worker : String) (result : Option Fields) (clock : ℕ)
        → q' ≡ (complete id worker result clock q).1
        → Step q q'
    fails :
        (id : ℕ) (worker : String) (error : Fields) (retry_delay : Option ℕ) (clock : ℕ)
        → q' ≡ (fail id worker error retry_delay clock q).1
        → Step q q'
    defers :
        (id : ℕ) (worker : String) (delay : ℕ) (note : String) (clock : ℕ)
        → q' ≡ defer id worker delay note clock q
        → Step q q'
    cancels :
        (run : ℕ) (kinds : Option (List JobKind)) (clock : ℕ)
        → q' ≡ (cancel_queued run kinds clock q).1
        → Step q q'
    recovers : (now : ℕ) → q' ≡ (recover_expired now q).1 → Step q q'

  -- The tables reached from the empty one.
  pub data Reach : List Job → Type 0 where
    empty : Reach []
    next : {q q' : List Job} → Reach q → Step q q' → Reach q'

  pub record IsSound (q : List Job) : Type 0 where
    pub unique : IsUnique key q
    pub valid : All IsValid q
    pub limits : All (λ j. j.concurrency_limit ≡ limit j.concurrency_key) q
    pub within : (k : String) → running_count k q ≤ limit k

  Writes-IsSound : {q q' : List Job} → Writes q q' → IsSound q → IsSound q'
  Writes-IsSound w s = record {
    unique = Writes-IsUnique w s.unique;
    valid = Writes-All IsValid (λ j j' r. r.stays_valid) w s.valid;
    limits =
        Writes-All (λ j. j.concurrency_limit ≡ limit j.concurrency_key)
          (λ j j' r e. rw (r.same_limit, r.same_key) e) w s.limits;
    within = λ k. omega (arith, running_count-Writes k w, s.within k);
  }

  -- The row that a claim writes keeps its limit and its key, and its key's count stays within.
  took-IsSound :
      (worker : String) (lease : ℕ) (kinds : Option (List JobKind)) (now : ℕ) (q q' : List Job)
      (j' : Job)
      → claim_next worker lease kinds now q ≡ (some j', q')
      → IsSound q
      → IsSound q'
  took-IsSound worker lease kinds now q q' j' e s =
      let (j, got, ready, same, written) =
        claim_next-IsReady worker lease kinds now q j' q' s.unique e in
      let limited =
        All-get key (λ r. r.concurrency_limit ≡ limit r.concurrency_key) j'.id q j s.limits got in
      let agrees : j'.concurrency_limit ≡ limit j'.concurrency_key =
        rw same (unfold claimed in limited) in
      record {
        unique = rw written (set-IsUnique key j' q s.unique);
        valid = rw written (
            All-set key IsValid j' q s.valid (
              rw same (
                claimed-IsValid worker lease now kinds j ready.0
                  (All-get key IsValid j'.id q j s.valid got))));
        limits =
            rw written (
              All-set key (λ r. r.concurrency_limit ≡ limit r.concurrency_key) j' q s.limits
                agrees);
        within = λ k. elim (Bool-cases (j'.concurrency_key == k)) [
          | inl t ↦
              let at_key : j'.concurrency_key ≡ k = (eq_iff j'.concurrency_key k).0 t in
              let here = running_count-claim_next worker lease kinds now q j' q' k s.unique e in
              subst (λ c. running_count c q' ≤ limit c) at_key (rw (← agrees) here.1)
          | inr f ↦
              let there = running_count-claim_next worker lease kinds now q j' q' k s.unique e in
              let w = s.within k in let same_count = rw f at there.0 in omega arith
        ];
      }

  claim-IsSound :
      (worker : String) (lease : ℕ) (kinds : Option (List JobKind)) (now : ℕ) (q : List Job)
      → IsSound q
      → IsSound (claim_next worker lease kinds now q).1
  claim-IsSound worker lease kinds now q s =
      elim (Option-cases (claim_next worker lease kinds now q).0) [
        | inl e ↦ rw (claim_next_unchanged worker lease kinds now q e) s
        | inr (j', e) ↦
            took-IsSound worker lease kinds now q (claim_next worker lease kinds now q).1 j'
              (λ i. (e i, (claim_next worker lease kinds now q).1)) s
      ]

  enqueue-IsSound :
      (id clock : ℕ) (r : Request) (q : List Job)
      → All (λ j. key j ≢ id) q
      → 0 < r.max_attempts
      → r.concurrency_limit ≡ limit r.concurrency_key
      → IsSound q
      → IsSound (enqueue id clock r q)
  unfolding enqueue enqueued running_count
  enqueue-IsSound id clock r q fresh some_attempt agrees s = record {
    unique = append-IsUnique key (enqueued id clock r) q fresh s.unique;
    valid =
        All-append IsValid q (enqueued id clock r ∷ []) s.valid
          (enqueued-IsValid id clock r some_attempt, tt);
    limits =
        All-append (λ j. j.concurrency_limit ≡ limit j.concurrency_key) q (enqueued id clock r ∷ [])
          s.limits (agrees, tt);
    within = λ k.
        rw (count-append (runs_under k) q (enqueued id clock r ∷ []))
          (let w = s.within k in ground arith);
  }

  -- Every call keeps the table sound.
  pub Step-IsSound : {q q' : List Job} → Step q q' → IsSound q → IsSound q'
  Step-IsSound {q} (Step.enqueues id clock r fresh some_attempt agrees e) s =
      rw e (enqueue-IsSound id clock r q fresh some_attempt agrees s)
  Step-IsSound {q} (Step.claims worker lease kinds now e) s =
      rw e (claim-IsSound worker lease kinds now q s)
  Step-IsSound {q} (Step.beats id worker lease clock e) s =
      rw e (Writes-IsSound (heartbeat-Writes id worker lease clock q) s)
  Step-IsSound {q} (Step.completes id worker result clock e) s =
      rw e (Writes-IsSound (complete-Writes id worker result clock q) s)
  Step-IsSound {q} (Step.fails id worker error retry_delay clock e) s =
      rw e (Writes-IsSound (fail-Writes id worker error retry_delay clock q) s)
  Step-IsSound {q} (Step.defers id worker delay note clock e) s =
      rw e (Writes-IsSound (defer-Writes id worker delay note clock q) s)
  Step-IsSound {q} (Step.cancels run kinds clock e) s =
      rw e (Writes-IsSound (cancel_queued-Writes run kinds clock q) s)
  Step-IsSound {q} (Step.recovers now e) s = rw e (Writes-IsSound (recover_expired-Writes now q) s)

  empty-IsSound : IsSound []
  unfolding running_count
  empty-IsSound = record { unique = tt; valid = tt; limits = tt; within = λ k. omega arith }

  -- Whatever the workers do, and in whatever order their transactions are made: no two jobs have one
  -- id, every job is valid, and under no key do more jobs run than its limit.
  pub Reach-IsSound : {q : List Job} → Reach q → IsSound q
  Reach-IsSound Reach.empty = empty-IsSound
  Reach-IsSound (Reach.next r st) = Step-IsSound st (Reach-IsSound r)
