-- ===== src/Runs/Slots.antt =====
-- How many trials execution/runs.py plans, and how often it plans each.
use native.Mathlib.Nat.{zero-mul, suc-mul, one-mul, add-mul}
use evalai.Base.{
  ℕ, zero, suc, ◌+◌, ◌*◌, String, Bool, ◌&&◌, List, [], ◌∷◌, ◌≡◌, refl, sym, ap, inl, inr, arith,
  ◌==◌, nat_eq, string_eq, if◌then◌else◌, Bool-cases, count, length, length-append, ltb, leb,
}
use evalai.Base.Predicates.{count-append}
use evalai.Retry.{range_from}
use evalai.Runs.Plan.{Case, PlannedCandidate}
use evalai.Runs.Create.{Slot, repeat_slots, candidate_slots, case_slots}

pub length-range : (a n : ℕ) → length (range_from a n) ≡ n
length-range a zero = refl
length-range a (suc n) = omega (arith, length-range (a + 1) n)

length-repeat_slots :
    (case : ℕ) (c : PlannedCandidate) (rs : List ℕ) → length (repeat_slots case c rs) ≡ length rs
length-repeat_slots case c [] = refl
length-repeat_slots case c (r ∷ rs) = ap suc (length-repeat_slots case c rs)

length-candidate_slots :
    (case : ℕ) (cs : List PlannedCandidate) (rs : List ℕ)
    → length (candidate_slots case cs rs) ≡ length cs * length rs
length-candidate_slots case [] rs = sym (zero-mul (length rs))
length-candidate_slots case (c ∷ cs) rs =
    rw
      (
        length-append (repeat_slots case c rs) (candidate_slots case cs rs),
        length-repeat_slots case c rs,
        length-candidate_slots case cs rs,
      )
      (omega (arith, suc-mul (length cs) (length rs)))

pub is_repeat : ℕ → ℕ → Bool
is_repeat r q = q == r

count-range :
    (r a n : ℕ) → count (is_repeat r) (range_from a n) ≡ (if leb a r && ltb r (a + n) then 1 else 0)
unfolding is_repeat
count-range r a zero = ground arith
count-range r a (suc n) = let ih = count-range r (a + 1) n in ground (arith, ih)

pub count-repeats : (r n : ℕ) → count (is_repeat r) (range_from 0 n) ≡ (if ltb r n then 1 else 0)
count-repeats r n = let h = count-range r 0 n in ground (arith, h)

pub length-case_slots :
    (ks : List Case) (cs : List PlannedCandidate) (rs : List ℕ)
    → length (case_slots ks cs rs) ≡ length ks * (length cs * length rs)
length-case_slots [] cs rs = sym (zero-mul (length cs * length rs))
length-case_slots (k ∷ ks) cs rs =
    rw
      (
        length-append (candidate_slots k.id cs rs) (case_slots ks cs rs),
        length-candidate_slots k.id cs rs,
        length-case_slots ks cs rs,
      )
      (omega (arith, suc-mul (length ks) (length cs * length rs)))

-- The slot is the `r`th repeat of the case `k` with the candidate `c`.
abbrev pub is_slot : ℕ → String → ℕ → Slot → Bool
is_slot k c r s = (s.case_id == k && s.candidate.key == c) && s.repeat == r

abbrev pub is_case : ℕ → Case → Bool
is_case k x = x.id == k

abbrev pub is_candidate_key : String → PlannedCandidate → Bool
is_candidate_key c x = x.key == c

count-repeat_slots :
    (k : ℕ) (c : String) (r case : ℕ) (x : PlannedCandidate) (rs : List ℕ)
    → count (is_slot k c r) (repeat_slots case x rs)
      ≡ (if case == k && x.key == c then count (is_repeat r) rs else 0)
unfolding is_repeat
count-repeat_slots k c r case x [] = ground arith
count-repeat_slots k c r case x (q ∷ qs) =
    let ih = count-repeat_slots k c r case x qs in
    elim (Bool-cases (case == k && x.key == c)) [
      | inl t ↦ rw t (let j = rw t at ih in omega (arith, j))
      | inr f ↦ rw f (let j = rw f at ih in omega (arith, j))
    ]

count-candidate_slots :
    (k : ℕ) (c : String) (r case : ℕ) (xs : List PlannedCandidate) (rs : List ℕ)
    → count (is_slot k c r) (candidate_slots case xs rs)
      ≡ (if case == k then count (is_candidate_key c) xs * count (is_repeat r) rs else 0)
count-candidate_slots k c r case [] rs = ground (arith, zero-mul (count (is_repeat r) rs))
count-candidate_slots k c r case (x ∷ xs) rs =
    let ih = count-candidate_slots k c r case xs rs in
    let one = count-repeat_slots k c r case x rs in
    rw (count-append (is_slot k c r) (repeat_slots case x rs) (candidate_slots case xs rs))
      (elim (Bool-cases (case == k)) [
        | inl t ↦ elim (Bool-cases (x.key == c)) [
          | inl u ↦
              rw (t, u)
                (let a = rw (t, u) at one in
                  let b = rw t at ih in
                  omega (
                    arith,
                    a,
                    b,
                    add-mul 1 (count (is_candidate_key c) xs) (count (is_repeat r) rs),
                    one-mul (count (is_repeat r) rs),
                  ))
          | inr u ↦
              rw (t, u)
                (let a = rw (t, u) at one in
                  let b = rw t at ih in
                  omega (
                    arith,
                    a,
                    b,
                    add-mul 0 (count (is_candidate_key c) xs) (count (is_repeat r) rs),
                    zero-mul (count (is_repeat r) rs),
                  ))
        ]
        | inr f ↦ rw f (let a = rw f at one in let b = rw f at ih in omega (arith, a, b))
      ])

pub count-case_slots :
    (k : ℕ) (c : String) (r : ℕ) (ks : List Case) (xs : List PlannedCandidate) (rs : List ℕ)
    → count (is_slot k c r) (case_slots ks xs rs)
      ≡ count (is_case k) ks * (count (is_candidate_key c) xs * count (is_repeat r) rs)
count-case_slots k c r [] xs rs =
    sym (zero-mul (count (is_candidate_key c) xs * count (is_repeat r) rs))
count-case_slots k c r (x ∷ ks) xs rs =
    let ih = count-case_slots k c r ks xs rs in
    let one = count-candidate_slots k c r x.id xs rs in
    let m = count (is_candidate_key c) xs * count (is_repeat r) rs in
    rw (count-append (is_slot k c r) (candidate_slots x.id xs rs) (case_slots ks xs rs))
      (elim (Bool-cases (x.id == k)) [
        | inl t ↦ rw t (
            let a = rw t at one in
            omega (arith, a, ih, add-mul 1 (count (is_case k) ks) m, one-mul m))
        | inr f ↦ rw f (
            let a = rw f at one in
            omega (arith, a, ih, add-mul 0 (count (is_case k) ks) m, zero-mul m))
      ])
