-- ===== src/Grading/PassRule.antt =====
-- The dataset's pass rule as its documentation gives it, and `trial_outcome` against it.
use evalai.Base.{
  String, Bool, true, false, not, ◌&&◌, ◌||◌, Option, none, some, List, [], ◌∷◌, ◌++◌, ◌≡◌, refl,
  string_eq, if◌then◌else◌, any, arith, All, map, Bool-cases, ◌∙◌, ap, sym, Option-cases, inl, inr,
}
use mathlib.Core.List.{Permᴰ}
use evalai.Base.Text.{str_append}
use evalai.Base.Assoc.{lookup}
use evalai.Enums.{Verdict}
use evalai.Grading.{is_empty}
use evalai.Grading.Outcome.{
  Grade, OutcomeKind, blocker_text, is_pass, is_fail, is_not_applicable, settle, outcome_loop,
  trial_outcome,
}

-- The rule as its documentation gives it: what one grader's grade says of the trial.
pub data Says : Type 0 where
  fails passes nothing blocks : Says

unfoldable pub says_of : Option Grade → Says
says_of none = Says.blocks
says_of (some g) =
    if is_not_applicable g
    then Says.nothing
    else elim g.verdict [ Verdict.fail ↦ Says.fails | Verdict.pass ↦ Says.passes | _ ↦ Says.blocks ]

abbrev pub says_fail : Says → Bool
says_fail Says.fails = true
says_fail _ = false

abbrev pub says_pass : Says → Bool
says_pass Says.passes = true
says_pass _ = false

abbrev pub says_block : Says → Bool
says_block Says.blocks = true
says_block _ = false

-- A failure of any mandatory grader fails the trial; it passes if none blocks it and one passes it.
abbrev pub rule : List Says → OutcomeKind
rule says =
    if any says_fail says
    then OutcomeKind.fail
    else if not (any says_block says) && any says_pass says
    then OutcomeKind.pass
    else OutcomeKind.unresolved

abbrev pub verdicts : List (String × Grade) → List String → List Says
verdicts grades names = map (λ n. says_of (lookup n grades)) names

is_empty-snoc : (xs : List String) (x : String) → is_empty (xs ++ x ∷ []) ≡ false
is_empty-snoc [] x = refl
is_empty-snoc (y ∷ xs) x = refl

says_missing : says_of none ≡ Says.blocks
unfolding says_of
says_missing = refl

says_nothing : (g : Grade) → is_not_applicable g ≡ true → says_of (some g) ≡ Says.nothing
unfolding says_of
says_nothing g h = rw h

module _ (g : Grade) (applies : is_not_applicable g ≡ false) where
  says_fails : is_fail g.verdict ≡ true → says_of (some g) ≡ Says.fails
  unfolding says_of
  says_fails f = rw applies (ground arith)

  says_passes : is_pass g.verdict ≡ true → says_of (some g) ≡ Says.passes
  unfolding says_of
  says_passes p = rw applies (ground arith)

  says_blocks :
      is_fail g.verdict ≡ false → is_pass g.verdict ≡ false → says_of (some g) ≡ Says.blocks
  unfolding says_of
  says_blocks f p = rw applies (ground arith)

loop_rule :
    (grades : List (String × Grade)) (mandatory applied blockers names : List String)
    → (outcome_loop grades mandatory applied blockers names).outcome ≡ (
        if any says_fail (verdicts grades names)
        then OutcomeKind.fail
        else if (not (any says_block (verdicts grades names)) && is_empty blockers)
            && (any says_pass (verdicts grades names) || not (is_empty applied))
        then OutcomeKind.pass
        else OutcomeKind.unresolved)
unfolding outcome_loop settle
loop_rule grades mandatory applied blockers [] = ground arith
loop_rule grades mandatory applied blockers (n ∷ names) = elim (Option-cases (lookup n grades)) [
  | inl e ↦
      let b = str_append n ": not graded" in
      rw (e, outcome_loop, says_missing)
        (ground (
          arith,
          loop_rule grades mandatory applied (blockers ++ b ∷ []) names,
          is_empty-snoc blockers b,
        ))
  | inr (g, e) ↦ elim (Bool-cases (is_not_applicable g)) [
    | inl t ↦
        rw (e, t, outcome_loop, says_nothing g t)
          (loop_rule grades mandatory applied blockers names)
    | inr f ↦ elim (Bool-cases (is_fail g.verdict)) [
      | inl t ↦ rw (e, f, t, outcome_loop, says_fails g f t)
      | inr r ↦ elim (Bool-cases (is_pass g.verdict)) [
        | inl t ↦
            rw (e, f, r, t, outcome_loop, says_passes g f t)
              (ground (
                arith,
                loop_rule grades mandatory (applied ++ n ∷ []) blockers names,
                is_empty-snoc applied n,
              ))
        | inr t ↦
            let b = blocker_text n g in
            rw (e, f, r, t, outcome_loop, says_blocks g f r t)
              (ground (
                arith,
                loop_rule grades mandatory (applied ++ n ∷ []) (blockers ++ b ∷ []) names,
                is_empty-snoc blockers b,
              ))
      ]
    ]
  ]
]

-- The trial's outcome is the rule's, over the mandatory graders.
pub trial_outcome-rule :
    (grades : List (String × Grade)) (mandatory : List String)
    → (trial_outcome grades mandatory).outcome ≡ rule (verdicts grades mandatory)
unfolding trial_outcome
trial_outcome-rule grades mandatory = loop_rule grades mandatory [] [] mandatory ∙ ground arith

any-permᴰ :
    (p : Says → Bool) (f : String → Says) {xs ys : List String}
    → Permᴰ xs ys
    → any p (map f xs) ≡ any p (map f ys)
any-permᴰ p f Permᴰ.nil = refl
any-permᴰ p f (Permᴰ.cons {a} {b} {l₁} {l₂} e r) = ground (arith, ap f e, any-permᴰ p f r)
any-permᴰ p f (Permᴰ.swap {a} {b} {a'} {b'} e d) = ground (arith, ap f e, ap f d)
any-permᴰ p f (Permᴰ.trans r s) = any-permᴰ p f r ∙ any-permᴰ p f s

-- The outcome does not depend on the order in which the rule lists the mandatory graders, nor on
-- any grade but theirs.
trial_outcome-perm :
    (grades grades' : List (String × Grade)) (mandatory mandatory' : List String)
    → Permᴰ mandatory mandatory'
    → All (λ n. lookup n grades ≡ lookup n grades') mandatory
    → (trial_outcome grades mandatory).outcome ≡ (trial_outcome grades' mandatory').outcome
trial_outcome-perm grades grades' mandatory mandatory' r h =
    trial_outcome-rule grades mandatory
    ∙ ap rule (same mandatory h)
    ∙ ground (
      arith,
      any-permᴰ says_fail (λ n. says_of (lookup n grades')) r,
      any-permᴰ says_block (λ n. says_of (lookup n grades')) r,
      any-permᴰ says_pass (λ n. says_of (lookup n grades')) r,
    )
    ∙ sym (trial_outcome-rule grades' mandatory')
  where
    same :
        (names : List String)
        → All (λ n. lookup n grades ≡ lookup n grades') names
        → verdicts grades names ≡ verdicts grades' names
    same [] k = refl
    same (n ∷ names) k = rw (k.0, same names k.1)
