-- ===== src/Jobs/Claim.antt =====
-- What a claim of `claim_next` takes: the first job in the order of the queue whose key has room,
-- and how it changes the number of running jobs.
use mathlib.Core.List.{Memᴰ}
use evalai.Base.{
  Bool, ◌&&◌, refl, ℕ, ◌+◌, ◌≤◌, String, true, false, Option, none, some, List, [], ◌∷◌, ◌≡◌, subst,
  inl, inr, arith, eq_iff, All, length, filter, ◌==◌, string_eq, Bool-cases, Option-cases,
  if◌then◌else◌,
}
use evalai.Base.Predicates.{
  All-Memᴰ, All-imp, All-filter, All-of_filter, filter_passes, All-take, take_all,
}
use evalai.Base.Table.{get, set, count-set}
use evalai.Base.Keys.{IsUnique, All-get_self}
use evalai.Enums.{JobKind}
use evalai.Jobs.{
  Job, key, before, order_by, candidates, claimable, claim_limit, claimed, claim_next,
  first_with_capacity, has_capacity, running_count, runs_under,
}
use evalai.Jobs.Order.{
  IsOrdered, before_refl, All-order_by, All-of_order_by, order_by-IsOrdered, length-order_by,
}

module _ (q : List Job) where
  -- Of a sorted list the loop takes a job that comes before every other with room.
  first-before :
      (js : List Job) (j : Job)
      → IsOrdered js
      → first_with_capacity q js ≡ some j
      → All (λ k. has_capacity q k ≡ true → before j k ≡ true) js
  unfolding first_with_capacity
  first-before [] j o h = tt
  first-before (x ∷ js) j o h = elim (Bool-cases (has_capacity q x)) [
    | inl t ↦
        let same : x ≡ j = ground arith in
        subst (λ i. All (λ k. has_capacity q k ≡ true → before i k ≡ true) (x ∷ js)) same
          (
            (λ _. before_refl x),
            All-imp (λ k. before x k ≡ true) (λ k. has_capacity q k ≡ true → before x k ≡ true) js
                (λ k b _. b) o.0,
          )
    | inr f ↦ ((λ t. absurd (ground arith)), first-before js j o.1 (ground arith))
  ]

  -- It returns no job exactly when each one's key is full.
  first_none :
      (js : List Job) → first_with_capacity q js ≡ none → All (λ k. has_capacity q k ≡ false) js
  unfolding first_with_capacity
  first_none [] h = tt
  first_none (x ∷ js) h = (ground arith, first_none js (ground arith))

  -- What it returns is one of the list, and its key has room.
  first_found :
      (P : Job → Type 0) (js : List Job) (j : Job)
      → All P js
      → first_with_capacity q js ≡ some j
      → P j × (has_capacity q j ≡ true)
  unfolding first_with_capacity
  first_found P [] j h e = cc
  first_found P (x ∷ js) j h e = elim (Bool-cases (has_capacity q x)) [
    | inl t ↦
        let same : x ≡ j = ground arith in
        subst (λ i. P i × (has_capacity q i ≡ true)) same (h.0, t)
    | inr f ↦ first_found P js j h.1 (ground arith)
  ]

not_both : (a b : Bool) → (a ≡ true → b ≡ false) → (a && b) ≡ false
not_both false b h = refl
not_both true b h = h refl

-- A job that a claim may take: it waits, its time has come, its kind is asked for, and its key has
-- room.
abbrev pub IsReady : ℕ → Option (List JobKind) → List Job → Job → Type 0
IsReady now kinds q j = (claimable now kinds j ≡ true) × (has_capacity q j ≡ true)

module _ (worker : String) (lease : ℕ) (kinds : Option (List JobKind)) (now : ℕ)
    (q : List Job) where
  -- A claim writes back one row of the table, which was ready.
  pub claim_next-inv :
      (j' : Job) (q' : List Job)
      → claim_next worker lease kinds now q ≡ (some j', q')
      → (j : Job) × (first_with_capacity q (candidates now kinds q) ≡ some j)
        × (j' ≡ claimed worker lease now j)
        × (q' ≡ set key j' q)
  unfolding claim_next
  claim_next-inv j' q' h = elim (Option-cases (first_with_capacity q (candidates now kinds q))) [
    | inl e ↦ absurd (ground arith)
    | inr (j, e) ↦ (j, e, ground arith, ground arith)
  ]

  candidates_keep : (P : Job → Type 0) → All P q → All P (candidates now kinds q)
  unfolding candidates
  candidates_keep P h =
      All-take P claim_limit (order_by (filter (claimable now kinds) q))
        (All-order_by P (filter (claimable now kinds) q) (All-filter P (claimable now kinds) q h))

  candidates-claimable : All (λ j. claimable now kinds j ≡ true) (candidates now kinds q)
  unfolding candidates
  candidates-claimable =
      All-take (λ j. claimable now kinds j ≡ true) claim_limit
        (order_by (filter (claimable now kinds) q))
        (All-order_by (λ j. claimable now kinds j ≡ true) (filter (claimable now kinds) q)
          (filter_passes (claimable now kinds) q))

  -- With no more waiting jobs than the query reads, the candidates are all of them, in order.
  candidates_whole :
      length (filter (claimable now kinds) q) ≤ claim_limit
      → candidates now kinds q ≡ order_by (filter (claimable now kinds) q)
  unfolding candidates
  candidates_whole few =
      take_all claim_limit (order_by (filter (claimable now kinds) q)) (rw length-order_by few)

  pub claim_next-IsReady :
      (j' : Job) (q' : List Job)
      → IsUnique key q
      → claim_next worker lease kinds now q ≡ (some j', q')
      → (j : Job) × (get key j'.id q ≡ some j)
        × IsReady now kinds q j
        × (j' ≡ claimed worker lease now j)
        × (q' ≡ set key j' q)
  unfolding claimed
  claim_next-IsReady j' q' u h =
      let (j, found, same, written) = claim_next-inv j' q' h in
      let here =
        first_found q (λ r. get key (key r) q ≡ some r) (candidates now kinds q) j
          (candidates_keep (λ r. get key (key r) q ≡ some r) (All-get_self key q u)) found in
      let ready =
        first_found q (λ r. claimable now kinds r ≡ true) (candidates now kinds q) j
          candidates-claimable found in
      (j, (rw same here.0), (ready.0, here.1), same, written)

  claimed_first :
      (j' : Job) (q' : List Job)
      → length (filter (claimable now kinds) q) ≤ claim_limit
      → claim_next worker lease kinds now q ≡ (some j', q')
      → All (λ k. claimable now kinds k ≡ true → has_capacity q k ≡ true → before j' k ≡ true) q
  unfolding before claimed
  claimed_first j' q' few h =
      let (j, found, same, written) = claim_next-inv j' q' h in
      let first = rw (candidates_whole few) at found in
      All-imp (λ k. claimable now kinds k ≡ true → has_capacity q k ≡ true → before j k ≡ true)
        (λ k. claimable now kinds k ≡ true → has_capacity q k ≡ true → before j' k ≡ true) q
        (λ k b c r. rw same (b c r))
        (All-of_filter (λ k. has_capacity q k ≡ true → before j k ≡ true) (claimable now kinds) q
          (All-of_order_by (λ k. has_capacity q k ≡ true → before j k ≡ true)
            (filter (claimable now kinds) q)
            (first-before q (order_by (filter (claimable now kinds) q)) j
              (order_by-IsOrdered (filter (claimable now kinds) q)) first)))

  -- The job that a claim takes comes before each job of the table that was ready, in the order by
  -- priority, age and id, where at most as many jobs wait as the query reads.
  pub claim_next-before :
      (j' k : Job) (q' : List Job)
      → length (filter (claimable now kinds) q) ≤ claim_limit
      → claim_next worker lease kinds now q ≡ (some j', q')
      → Memᴰ k q
      → IsReady now kinds q k
      → before j' k ≡ true
  claim_next-before j' k q' few h m r =
      All-Memᴰ (λ i. claimable now kinds i ≡ true → has_capacity q i ≡ true → before j' i ≡ true) m
        (claimed_first j' q' few h) r.0 r.1

  pub claim_next_unchanged :
      (claim_next worker lease kinds now q).0 ≡ none → (claim_next worker lease kinds now q).1 ≡ q
  unfolding claim_next
  claim_next_unchanged h = ground arith

  -- A claim that returns no job changes nothing, and then no job was ready.
  pub claim_next-none :
      (q' : List Job)
      → length (filter (claimable now kinds) q) ≤ claim_limit
      → claim_next worker lease kinds now q ≡ (none, q')
      → (q' ≡ q) × All (λ k. (claimable now kinds k && has_capacity q k) ≡ false) q
  unfolding claim_next
  claim_next-none q' few h = elim (Option-cases (first_with_capacity q (candidates now kinds q))) [
    | inl e ↦ (
      ground arith,
      All-imp (λ k. claimable now kinds k ≡ true → has_capacity q k ≡ false)
          (λ k. (claimable now kinds k && has_capacity q k) ≡ false) q
          (λ k full. not_both (claimable now kinds k) (has_capacity q k) full)
          (All-of_filter (λ k. has_capacity q k ≡ false) (claimable now kinds) q
            (All-of_order_by (λ k. has_capacity q k ≡ false) (filter (claimable now kinds) q)
              (first_none q (order_by (filter (claimable now kinds) q))
                (rw (candidates_whole few) at e)))),
    )
    | inr (j, e) ↦ absurd (ground arith)
  ]

  adds_one :
      (j j' : Job) (k : String)
      → get key j'.id q ≡ some j
      → claimable now kinds j ≡ true
      → j' ≡ claimed worker lease now j
      → running_count k (set key j' q)
        ≡ running_count k q + (if j'.concurrency_key == k then 1 else 0)
  unfolding running_count claimable claimed
  adds_one j j' k got ready same = ground (arith, count-set key (runs_under k) j' q j got)

  -- A claim adds one running job under its key and none under another, and stays within the limit
  -- that the claimed job carries.
  pub running_count-claim_next :
      (j' : Job) (q' : List Job) (k : String)
      → IsUnique key q
      → claim_next worker lease kinds now q ≡ (some j', q')
      → (running_count k q' ≡ running_count k q + (if j'.concurrency_key == k then 1 else 0))
        × (running_count j'.concurrency_key q' ≤ j'.concurrency_limit)
  unfolding claimed
  running_count-claim_next j' q' k u h =
      let (j, got, ready, same, written) = claim_next-IsReady j' q' u h in
      (
        rw written (adds_one j j' k got ready.0 same),
        rw written (
            rw (adds_one j j' j'.concurrency_key got ready.0 same)
              (ground (arith, eq_iff j'.concurrency_key j'.concurrency_key))),
      )
