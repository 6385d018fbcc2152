-- ===== src/Grading/Aggregate.antt =====
-- What the verdict of a deterministic grader says of its checks.
use evalai.Base.{
  Bool, true, false, not, ◌&&◌, List, [], ◌∷◌, ◌≡◌, refl, if◌then◌else◌, filter, any, arith,
}
use evalai.Enums.{Verdict}
use evalai.Grading.{CheckResult, aggregate, passed_false, passed_none, is_empty}

-- A check that counts towards the verdict: it applies to the case and has a binary answer.
abbrev pub counts : CheckResult → Bool
counts c = c.applicable && c.binary

abbrev pub refutes : CheckResult → Bool
refutes c = counts c && passed_false c

abbrev pub leaves_open : CheckResult → Bool
leaves_open c = counts c && passed_none c

-- The verdict by the checks that count: any failure decides, then any missing answer, and without
-- a check that counts there is no verdict.
abbrev pub verdict_of : List CheckResult → Verdict
verdict_of checks =
    if any refutes checks
    then Verdict.fail
    else if any counts checks && not (any leaves_open checks)
    then Verdict.pass
    else Verdict.unavailable

abbrev binary_of : List CheckResult → List CheckResult
binary_of checks =
    filter (λ (c : CheckResult). c.binary) (filter (λ (c : CheckResult). c.applicable) checks)

is_empty-binary_of : (cs : List CheckResult) → is_empty (binary_of cs) ≡ not (any counts cs)
is_empty-binary_of [] = refl
is_empty-binary_of (c ∷ cs) = ground (arith, is_empty-binary_of cs)

any-binary_of :
    (p : CheckResult → Bool) (cs : List CheckResult)
    → any p (binary_of cs) ≡ any (λ c. counts c && p c) cs
any-binary_of p [] = refl
any-binary_of p (c ∷ cs) = ground (arith, any-binary_of p cs)

is_empty-filter :
    (p : CheckResult → Bool) (cs : List CheckResult) → is_empty (filter p cs) ≡ not (any p cs)
is_empty-filter p [] = refl
is_empty-filter p (c ∷ cs) = ground (arith, is_empty-filter p cs)

any-counts-le :
    (p : CheckResult → Bool) (cs : List CheckResult)
    → any counts cs ≡ false
    → any (λ c. counts c && p c) cs ≡ false
any-counts-le p [] h = refl
any-counts-le p (c ∷ cs) h = ground (arith, any-counts-le p cs)

counts-applies :
    (cs : List CheckResult)
    → is_empty (filter (λ (c : CheckResult). c.applicable) cs) ≡ true
    → any counts cs ≡ false
counts-applies [] h = refl
counts-applies (c ∷ cs) h = ground (arith, counts-applies cs)

-- `aggregate` gives the verdict of the checks that count, and never an error or an abstention.
aggregate-verdict_of : (checks : List CheckResult) → (aggregate checks).0 ≡ verdict_of checks
unfolding aggregate
aggregate-verdict_of cs = ground (
  arith,
  counts-applies cs,
  is_empty-binary_of cs,
  any-binary_of passed_false cs,
  any-binary_of passed_none cs,
  is_empty-filter passed_none (binary_of cs),
  any-counts-le passed_false cs,
)
