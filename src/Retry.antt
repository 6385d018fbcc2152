-- ===== src/Retry.antt =====
-- backend/eval_triage/execution/retry.py: retries of one transport call. The call is a function
-- from the attempt's number to its result; a run also returns what was handed to `on_attempt`, in
-- order, and the attempts after which the loop slept.
use evalai.Base.{
  ℕ, zero, suc, ◌+◌, ◌≤◌, Bool, true, false, not, ◌&&◌, List, [], ◌∷◌, ◌≡◌, refl, ap, subst, ◌∙◌,
  ◌⊎◌, inl, inr, arith, All, map, Bool-cases,
}
use native.Mathlib.Nat.{add-zero}

-- The statuses of `adapters.base.TargetResult`, of which the loop reads two.
pub data CallStatus : Type 0 where
  success provider_error timeout cancelled invalid_output unsupported : CallStatus

abbrev pub retryable_status : CallStatus → Bool
retryable_status CallStatus.provider_error = true
retryable_status CallStatus.timeout = true
retryable_status _ = false

module _ {Result : Type 0} (status : Result → CallStatus) (marked_retryable : Result → Bool) where
  abbrev pub may_retry : Bool → Result → Bool
  may_retry mutating r = retryable_status (status r) && marked_retryable r && not mutating

  -- What a run leaves: the result, the attempts reported, the attempts slept after.
  pub record Trace : Type 0 where
    pub result : Result
    pub reported : List Result
    pub slept : List ℕ

  -- `for attempt in range(max_retries + 1)`, with `left` retries still allowed: the last attempt is
  -- the one with none left.
  unfoldable pub retry_loop : (ℕ → Result) → Bool → ℕ → ℕ → Trace
  retry_loop call mutating zero attempt =
      let r = call attempt in record { result = r; reported = r ∷ []; slept = [] }
  retry_loop call mutating (suc left) attempt =
      let r = call attempt in
      elim (may_retry mutating r) [
        | false ↦ record { result = r; reported = r ∷ []; slept = [] }
        | true ↦
            let rest = retry_loop call mutating left (attempt + 1) in
            record {
              result = rest.result;
              reported = r ∷ rest.reported;
              slept = attempt ∷ rest.slept;
            }
      ]

  unfoldable pub with_transport_retries : (ℕ → Result) → Bool → ℕ → Trace
  unfolding retry_loop
  with_transport_retries call mutating max_retries = retry_loop call mutating max_retries 0

-- `list(range(a, a + k))`
abbrev pub range_from : ℕ → ℕ → List ℕ
range_from a zero = []
range_from a (suc k) = a ∷ range_from (a + 1) k

module _ {Result : Type 0} (status : Result → CallStatus) (marked_retryable : Result → Bool) where
  -- A run that starts at attempt `a` and stops `k` attempts later, with `left` retries allowed.
  pub record IsRun (call : ℕ → Result) (mutating : Bool) (left a k : ℕ)
      (t : Trace status marked_retryable) : Type 0 where
    pub bounded : k ≤ left
    pub result : t.result ≡ call (a + k)
    pub reported : t.reported ≡ map call (range_from a (suc k))
    pub slept : t.slept ≡ range_from a k
    pub earlier :
        All (λ i. may_retry status marked_retryable mutating (call i) ≡ true) (range_from a k)
    pub final : (k ≡ left) ⊎ (may_retry status marked_retryable mutating (call (a + k)) ≡ false)

  later :
      (call : ℕ → Result) (mutating : Bool) (left i j k : ℕ)
      → i ≡ j
      → (k ≡ left) ⊎ (may_retry status marked_retryable mutating (call i) ≡ false)
      → (suc k ≡ suc left) ⊎ (may_retry status marked_retryable mutating (call j) ≡ false)
  later call mutating left i j k same (inl e) = inl (ap suc e)
  later call mutating left i j k same (inr f) =
      inr (subst (λ n. may_retry status marked_retryable mutating (call n) ≡ false) same f)

  loop-IsRun :
      (call : ℕ → Result) (mutating : Bool) (left a : ℕ)
      → (k : ℕ) × IsRun call mutating left a k
          (retry_loop status marked_retryable call mutating left a)
  unfolding retry_loop
  loop-IsRun call mutating zero a = (
    0,
    record {
      bounded = omega arith;
      result = ap call (omega arith);
      reported = refl;
      slept = refl;
      earlier = tt;
      final = inl refl;
    },
  )
  loop-IsRun call mutating (suc left) a =
      elim (Bool-cases (may_retry status marked_retryable mutating (call a))) [
        | inl t ↦
            let (k, r) = loop-IsRun call mutating left (a + 1) in
            let next : a + 1 + k ≡ a + suc k = omega arith in
            (
              suc k,
              rw (t, retry_loop)
                  (record {
                    bounded = let b = r.bounded in omega arith;
                    result = r.result ∙ ap call next;
                    reported = ap (λ l. call a ∷ l) r.reported;
                    slept = ap (λ l. a ∷ l) r.slept;
                    earlier = (t, r.earlier);
                    final = later call mutating left (a + 1 + k) (a + suc k) k next r.final;
                  }),
            )
        | inr f ↦ (
          0,
          rw (f, retry_loop)
              (record {
                bounded = omega arith;
                result = ap call (omega arith);
                reported = refl;
                slept = refl;
                earlier = tt;
                final = inr (rw (add-zero a) f);
              }),
        )
      ]

  -- The call is made for the attempts 0 to k, in order and each reported, where k is at most
  -- `max_retries`: every attempt before the last gave a result that may be retried, a sleep follows
  -- each of those and no other, and the last result, which is returned, may not be retried unless
  -- the retries are used up.
  pub with_transport_retries-IsRun :
      (call : ℕ → Result) (mutating : Bool) (max_retries : ℕ)
      → (k : ℕ) × IsRun call mutating max_retries 0 k
          (with_transport_retries status marked_retryable call mutating max_retries)
  unfolding with_transport_retries
  with_transport_retries-IsRun call mutating max_retries = loop-IsRun call mutating max_retries 0

  -- A mutating call is made once, whatever it returns.
  pub mutating_once :
      (call : ℕ → Result) (max_retries : ℕ)
      → (with_transport_retries status marked_retryable call true max_retries).reported
        ≡ call 0 ∷ []
  unfolding with_transport_retries
  mutating_once call zero = refl
  mutating_once call (suc n) = rw (never (call 0), retry_loop)
    where
      never : (r : Result) → may_retry status marked_retryable true r ≡ false
      never r = ground arith
