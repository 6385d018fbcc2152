-- ===== src/Grading/Invariants.antt =====
-- `GradeResult.invariant_results`: a failure that one check reports for an invariant stays.
use evalai.Base.{
  String, Bool, true, false, none, some, List, [], ◌∷◌, ◌≡◌, ◌==◌, string_eq, if◌then◌else◌, any,
  arith, eq_iff, Bool-cases, inl, inr, subst, ◌∙◌,
}
use evalai.Base.Assoc.{lookup, insert, lookup-insert}
use evalai.Grading.{CheckResult, merge_invariants, invariant_results}

abbrev pub fails_in : List (String × String) → String → Bool
fails_in merged n = elim (lookup n merged) [ none ↦ false | some t ↦ t == "fail" ]

abbrev pub reports_fail : String → List (String × String) → Bool
reports_fail n [] = false
reports_fail n ((m, s) ∷ rest) =
    if (if m == n then s == "fail" else false) then true else reports_fail n rest

abbrev kept : List (String × String) → String → String → List (String × String)
kept merged m s =
    if (elim (lookup m merged) [ none ↦ false | some t ↦ t == "fail" ])
    then merged
    else insert m s merged

kept-fails :
    (n m s : String) (merged : List (String × String))
    → fails_in (kept merged m s) n
      ≡ (if fails_in merged n then true else if m == n then s == "fail" else false)
kept-fails n m s merged = elim (Bool-cases (m == n)) [
  | inl t ↦
      subst
        (λ k.
          fails_in (kept merged m s) k
          ≡ (if fails_in merged k then true else if m == k then s == "fail" else false))
        ((eq_iff m n).0 t) (ground (arith, lookup-insert m m s merged, eq_iff m m))
  | inr f ↦ ground (arith, lookup-insert m n s merged)
]

merge-fails :
    (n : String) (merged invs : List (String × String))
    → fails_in (merge_invariants merged invs) n
      ≡ (if fails_in merged n then true else reports_fail n invs)
unfolding merge_invariants
merge-fails n merged [] = ground arith
merge-fails n merged ((m, s) ∷ rest) =
    merge-fails n (kept merged m s) rest ∙ rw (kept-fails n m s merged) (ground arith)

results-fail :
    (n : String) (merged : List (String × String)) (checks : List CheckResult)
    → fails_in (invariant_results merged checks) n
      ≡ (if fails_in merged n then true else any (λ c. reports_fail n c.invariants) checks)
unfolding invariant_results
results-fail n merged [] = ground arith
results-fail n merged (c ∷ cs) =
    results-fail n (merge_invariants merged c.invariants) cs
    ∙ rw (merge-fails n merged c.invariants) (ground arith)

-- An invariant ends as failed exactly if some check reports its failure, whatever the order of the
-- checks and whatever the others report.
invariant_results-fails :
    (n : String) (checks : List CheckResult)
    → fails_in (invariant_results [] checks) n ≡ any (λ c. reports_fail n c.invariants) checks
invariant_results-fails n checks = results-fail n [] checks
