-- ===== src/Tests/Retry.antt =====
-- Two failures that may be retried, then an answer.
use evalai.Base.{ℕ, zero, suc, Bool, true, false, [], ◌∷◌, ◌≡◌, refl}
use evalai.Retry.{
  CallStatus, with_transport_retries, with_transport_retries-IsRun, IsRun, mutating_once,
}

abbrev flaky : ℕ → CallStatus
flaky zero = CallStatus.timeout
flaky (suc zero) = CallStatus.provider_error
flaky (suc (suc n)) = CallStatus.success

abbrev itself : CallStatus → CallStatus
itself s = s

abbrev always : CallStatus → Bool
always s = true

answered : (with_transport_retries itself always flaky false 2).result ≡ CallStatus.success
unfolding with_transport_retries
answered = refl

with_transport_retries-IsRun_example :
    (k : ℕ) × IsRun itself always flaky false 2 0 k
      (with_transport_retries itself always flaky false 2)
with_transport_retries-IsRun_example = with_transport_retries-IsRun itself always flaky false 2

mutating_once_example :
    (with_transport_retries itself always flaky true 2).reported ≡ CallStatus.timeout ∷ []
mutating_once_example = mutating_once itself always flaky 2
