-- ===== src/Tests/Jobs.antt =====
-- The job queue: two jobs under a key with one slot, two workers.
use mathlib.Core.List.{Memᴰ}
use evalai.Base.{
  ◌&&◌, ℕ, ◌+◌, ◌≤◌, true, false, Option, none, some, List, [], ◌≡◌, ◌≢◌, String, eq_iff, string_eq,
  refl, arith, All, filter, length, string_eq,
}
use evalai.Base.Table.{get}
use evalai.Base.Json.{end}
use evalai.Base.Int.{ℤ}
use evalai.Enums.{JobStatus, JobKind}
use evalai.Jobs.{
  Job, Request, key, before, claimable, claimed, claim_limit, claim_next, enqueue, enqueued,
  first_with_capacity, candidates, has_capacity, order_by, insert_ordered, running_count,
  kind_asked,
}
use evalai.Jobs.Leases.{FailReply, complete, fail}
use evalai.Jobs.Claim.{claim_next-before, claim_next-none, running_count-claim_next}
use evalai.Jobs.Trace.{Step, Reach, IsSound, Reach-IsSound}
use evalai.Jobs.Ownership.{
  claim_next-exclusive, IsServed, IsRefused, fail_by_owner, fail_after_complete,
}

abbrev trial_request : Request
trial_request = record {
  kind = JobKind.trial;
  payload = record { trial_id = some 5; grading_run_id = some 6; other = end };
  run_id = some 7;
  concurrency_key = "memoryai";
  concurrency_limit = 1;
  priority = ℤ.pos 0;
  max_attempts = 3;
  delay_seconds = 0;
}

-- A grade has the priority -1 and is claimed first.
abbrev grade_request : Request
grade_request = record trial_request {
  kind = JobKind.grade;
  concurrency_key = "grading";
  priority = ℤ.negsuc 0;
}

abbrev waiting : List Job
waiting = enqueue 3 12 grade_request (enqueue 2 11 trial_request (enqueue 1 10 trial_request []))

-- The first worker takes the grade, then the older trial; the other trial's key is full.
abbrev one_taken : List Job
one_taken = (claim_next "a" 60 none 20 waiting).1

abbrev two_taken : List Job
two_taken = (claim_next "b" 60 none 21 one_taken).1

abbrev taken : Option Job → ℕ
taken none = 0
taken (some j) = j.id

claims_in_order :
    (taken (claim_next "a" 60 none 20 waiting).0 ≡ 3)
    × (taken (claim_next "b" 60 none 21 one_taken).0 ≡ 1)
    × (taken (claim_next "a" 60 none 22 two_taken).0 ≡ 0)
unfolding claim_next claimed candidates first_with_capacity order_by insert_ordered before claimable
    running_count kind_asked enqueue enqueued
claims_in_order = (refl, refl, refl)

waiting-Reach : Reach (λ _. 1) waiting
unfolding enqueue enqueued
waiting-Reach =
    Reach.next
      (Reach.next
        (Reach.next Reach.empty (Step.enqueues 1 10 trial_request tt (omega arith) refl refl))
        (Step.enqueues 2 11 trial_request (omega arith) (omega arith) refl refl))
      (Step.enqueues 3 12 grade_request (omega arith) (omega arith) refl refl)

two_taken-Reach : Reach (λ _. 1) two_taken
two_taken-Reach =
    Reach.next (Reach.next waiting-Reach (Step.claims "a" 60 none 20 refl))
      (Step.claims "b" 60 none 21 refl)

Reach-IsSound_example : IsSound (λ _. 1) two_taken
Reach-IsSound_example = Reach-IsSound (λ _. 1) two_taken-Reach

abbrev the_grade : Job
the_grade = enqueued 3 12 grade_request

abbrev taken_grade : Job
taken_grade = claimed "a" 60 20 the_grade

the_claim : claim_next "a" 60 none 20 waiting ≡ (some taken_grade, one_taken)
unfolding claim_next claimed candidates first_with_capacity order_by insert_ordered before claimable
    running_count kind_asked enqueue enqueued
the_claim = refl

few_waiting : length (filter (claimable 20 none) waiting) ≤ claim_limit
unfolding claimable kind_asked enqueue enqueued
few_waiting = omega arith

first_trial : Job
first_trial = enqueued 1 10 trial_request

claim_next-before_example : before taken_grade first_trial ≡ true
unfolding first_trial claimable running_count kind_asked enqueue enqueued
claim_next-before_example =
    claim_next-before "a" 60 none 20 waiting taken_grade first_trial one_taken few_waiting the_claim
      (Memᴰ.head refl) (refl, refl)

full_claim : claim_next "a" 60 none 22 two_taken ≡ (none, two_taken)
unfolding claim_next claimed candidates first_with_capacity order_by insert_ordered before claimable
    running_count kind_asked enqueue enqueued
full_claim = refl

few_left : length (filter (claimable 22 none) two_taken) ≤ claim_limit
unfolding claim_next claimed candidates first_with_capacity order_by insert_ordered before claimable
    running_count kind_asked enqueue enqueued
few_left = omega arith

claim_next-none_example :
    (two_taken ≡ two_taken)
    × All (λ k. (claimable 22 none k && has_capacity two_taken k) ≡ false) two_taken
claim_next-none_example = claim_next-none "a" 60 none 22 two_taken two_taken few_left full_claim

running_count-claim_next_example :
    (running_count "grading" one_taken ≡ running_count "grading" waiting + 1)
    × (running_count "grading" one_taken ≤ 1)
unfolding claimed enqueued enqueue
running_count-claim_next_example =
    running_count-claim_next "a" 60 none 20 waiting taken_grade one_taken "grading" (omega arith)
      the_claim

-- The grade is worker a's from here on.
here : get key 3 one_taken ≡ some taken_grade
unfolding claim_next claimed candidates first_with_capacity order_by insert_ordered before claimable
    running_count kind_asked enqueue enqueued
here = refl

a_is_not_b : ◌≢◌ {A = String} "a" "b"
a_is_not_b h = absurd (cc ((eq_iff "a" "b").1 h))

claim_next-exclusive_example :
    IsServed 3 60 30 "a" none end none one_taken
    × IsRefused 3 60 1 30 "b" "wait" none end none one_taken
unfolding claimed enqueued enqueue
claim_next-exclusive_example =
    claim_next-exclusive 60 60 1 20 30 none "a" "b" "wait" none end none waiting one_taken
      taken_grade (omega arith) the_claim a_is_not_b

fail_by_owner_example :
    (j' : Job) × (get key 3 (fail 3 "a" end (some 2) 30 one_taken).1 ≡ some j')
    × ((fail 3 "a" end (some 2) 30 one_taken).0 ≡ FailReply.requeued)
    × (j'.status ≡ JobStatus.queued)
    × (j'.lease_owner ≡ none)
    × (j'.attempts ≡ 1)
unfolding claimed enqueued
fail_by_owner_example = fail_by_owner 3 2 30 "a" end one_taken taken_grade here refl

fail_after_complete_example :
    ((fail 3 "a" end (some 2) 31 (complete 3 "a" none 30 one_taken).1).0 ≡ FailReply.requeued)
    × ((done : Job) × (get key 3 (complete 3 "a" none 30 one_taken).1 ≡ some done)
        × (done.status ≡ JobStatus.succeeded))
    × ((again : Job) × (get key 3
            (fail 3 "a" end (some 2) 31 (complete 3 "a" none 30 one_taken).1).1
          ≡ some again)
        × (again.status ≡ JobStatus.queued))
unfolding claimed enqueued
fail_after_complete_example =
    fail_after_complete 3 2 30 31 "a" none end one_taken taken_grade here refl refl (omega arith)
