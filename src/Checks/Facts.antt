-- ===== src/Checks/Facts.antt =====
-- What the checks of the memory state and of the recalls decide.
use evalai.Base.{
  String, Bool, true, false, not, ◌&&◌, ◌||◌, Option, none, some, List, [], ◌∷◌, ◌++◌,
  if◌then◌else◌, ◌≡◌, refl, ap, ◌∙◌, inl, inr, arith, any, all, filter, Bool-cases, Option-cases,
}
use evalai.Base.Text.{has_text}
use evalai.Checks.{TextOps, FactSpec, MemoryFact, Exclusion, GradingContext, is_empty}
use evalai.Checks.Memory.{
  spec_state, is_some, supports, offends, missing_facts, of_missing, check_required_facts,
  offending_facts, check_forbidden_current_facts, recalled, check_exclusions, check_recall_excludes,
}

module _ (ops : TextOps) where
  -- The final state of the store that each of the facts is about was captured.
  abbrev pub is_captured : GradingContext → FactSpec → Bool
  is_captured ctx spec = is_some (spec_state ctx spec)

  -- An active fact of the store supports the specification.
  abbrev pub is_supported : GradingContext → FactSpec → Bool
  is_supported ctx spec = elim (spec_state ctx spec) [
    | none ↦ false
    | some facts ↦ any (supports ops spec) facts
  ]

  -- No active fact of the store is what the specification forbids.
  abbrev pub is_absent : GradingContext → FactSpec → Bool
  is_absent ctx spec = elim (spec_state ctx spec) [
    | none ↦ false
    | some facts ↦ not (any (offends ops spec) facts)
  ]

  abbrev pub is_listed : {A : Type 0} → Option (List A) → Option Bool
  is_listed none = none
  is_listed (some xs) = some (is_empty xs)

  missing_step :
      (spec : FactSpec) (r : Option (List FactSpec)) (ok captured rest : Bool)
      → is_listed r ≡ (if captured then some rest else none)
      → is_listed
          (elim r [ none ↦ none | some found ↦ if ok then some found else some (spec ∷ found) ])
        ≡ (if captured then some (if ok then rest else false) else none)
  missing_step spec none ok captured rest h = ground arith
  missing_step spec (some found) true captured rest h = h
  missing_step spec (some found) false true rest h = refl
  missing_step spec (some found) false false rest h = cc h

  filter-append-empty :
      (p : MemoryFact → Bool) (xs ys : List MemoryFact)
      → is_empty (filter p xs ++ ys) ≡ (if not (any p xs) then is_empty ys else false)
  filter-append-empty p [] ys = refl
  filter-append-empty p (x ∷ xs) ys = elim (Bool-cases (p x)) [
    | inl t ↦ rw t refl
    | inr t ↦ rw t (filter-append-empty p xs ys)
  ]

  offending_step :
      (p : MemoryFact → Bool) (facts : List MemoryFact) (r : Option (List MemoryFact))
      (captured rest : Bool)
      → is_listed r ≡ (if captured then some rest else none)
      → is_listed (elim r [ none ↦ none | some more ↦ some (filter p facts ++ more) ])
        ≡ (if captured then some (if not (any p facts) then rest else false) else none)
  offending_step p facts none captured rest h = ground arith
  offending_step p facts (some more) true rest h =
      ap some (filter-append-empty p facts more) ∙ inside (not (any p facts)) (is_empty more) rest h
    where
      inside :
          (q a b : Bool)
          → some a ≡ some b
          → some (if q then a else false) ≡ some (if q then b else false)
      inside true a b e = e
      inside false a b e = refl
  offending_step p facts (some more) false rest h = cc h

  missing-supported :
      (ctx : GradingContext) (specs : List FactSpec)
      → is_listed (missing_facts ops ctx specs)
        ≡ (if all (is_captured ctx) specs then some (all (is_supported ctx) specs) else none)
  unfolding missing_facts
  missing-supported ctx [] = refl
  missing-supported ctx (spec ∷ specs) =
      let ih = missing-supported ctx specs in
      elim (Option-cases (spec_state ctx spec)) [
        | inl n ↦ rw (missing_facts, n) refl
        | inr (facts, n) ↦
            rw (missing_facts, is_supported, n)
              (missing_step spec (missing_facts ops ctx specs) (any (supports ops spec) facts) _
                (all (is_supported ctx) specs) ih)
      ]

  offending-absent :
      (ctx : GradingContext) (specs : List FactSpec)
      → is_listed (offending_facts ops ctx specs)
        ≡ (if all (is_captured ctx) specs then some (all (is_absent ctx) specs) else none)
  unfolding offending_facts
  offending-absent ctx [] = refl
  offending-absent ctx (spec ∷ specs) =
      let ih = offending-absent ctx specs in
      elim (Option-cases (spec_state ctx spec)) [
        | inl n ↦ rw (offending_facts, n) refl
        | inr (facts, n) ↦
            rw (offending_facts, is_absent, n)
              (offending_step (offends ops spec) facts (offending_facts ops ctx specs) _
                (all (is_absent ctx) specs) ih)
      ]

  of_missing-passed :
      {A : Type 0} (name : String) (r : Option (List A))
      → (of_missing ops name r).passed ≡ is_listed r
  of_missing-passed name none = refl
  of_missing-passed name (some xs) = refl

  -- Where a case requires facts, the check passes exactly if each of them is supported by an active fact of
  -- its store, and fails if one is not; it has no verdict exactly if the state of one of those stores was
  -- not captured.
  check_required_facts-passed :
      (ctx : GradingContext)
      → is_empty ctx.expected.required_facts ≡ false
      → (check_required_facts ops ctx).passed ≡ (
          if all (is_captured ctx) ctx.expected.required_facts
          then some (all (is_supported ctx) ctx.expected.required_facts)
          else none)
  unfolding check_required_facts
  check_required_facts-passed ctx h =
      rw h
        (of_missing-passed "required_facts" _ ∙ missing-supported ctx ctx.expected.required_facts)

  -- Where a case forbids facts, the check passes exactly if no active fact of a store is what is forbidden
  -- there, and fails if one is; it has no verdict exactly if the state of one of those stores was not
  -- captured.
  pub check_forbidden_current_facts-passed :
      (ctx : GradingContext)
      → is_empty ctx.expected.forbidden_current_facts ≡ false
      → (check_forbidden_current_facts ops ctx).passed ≡ (
          if all (is_captured ctx) ctx.expected.forbidden_current_facts
          then some (all (is_absent ctx) ctx.expected.forbidden_current_facts)
          else none)
  unfolding check_forbidden_current_facts
  check_forbidden_current_facts-passed ctx h = rw h (
      of_missing-passed "forbidden_current_facts" _
      ∙ offending-absent ctx ctx.expected.forbidden_current_facts)

  -- The recall completed.
  abbrev pub is_recalled : GradingContext → Exclusion → Bool
  is_recalled ctx x = is_some (recalled ops ctx x.step)

  -- The recalled context holds the excluded text.
  abbrev pub is_leak : GradingContext → Exclusion → Bool
  is_leak ctx x = elim (recalled ops ctx x.step) [
    | none ↦ false
    | some context ↦ has_text (ops.fold x.text) (ops.fold context)
  ]

  regroup :
      (l t a c : Bool)
      → (if c then some (not (l || t) && not a) else none)
        ≡ (if c then some (not l && not (if t then true else a)) else none)
  regroup l t a c = ground arith

  exclusions-passed :
      (ctx : GradingContext) (leaked : Bool) (xs : List Exclusion)
      → (check_exclusions ops ctx leaked xs).passed ≡ (
          if all (is_recalled ctx) xs
          then some (not leaked && not (any (is_leak ctx) xs))
          else none)
  unfolding check_exclusions
  exclusions-passed ctx leaked [] = ground arith
  exclusions-passed ctx leaked (x ∷ xs) = elim (Option-cases (recalled ops ctx x.step)) [
    | inl n ↦ rw (check_exclusions, is_recalled, is_leak, n) refl
    | inr (context, n) ↦
        rw (check_exclusions, is_recalled, is_leak, n)
          (exclusions-passed ctx (leaked || has_text (ops.fold x.text) (ops.fold context)) xs
            ∙ regroup leaked (has_text (ops.fold x.text) (ops.fold context)) (any (is_leak ctx) xs)
                (all (is_recalled ctx) xs))
  ]

  -- Where a case excludes texts from recalls, the check passes exactly if no recalled context holds the
  -- text that is excluded from it, and fails if one does; it has no verdict exactly if one of those recalls
  -- did not complete.
  pub check_recall_excludes-passed :
      (ctx : GradingContext)
      → is_empty ctx.expected.recall_excludes ≡ false
      → (check_recall_excludes ops ctx).passed ≡ (
          if all (is_recalled ctx) ctx.expected.recall_excludes
          then some (not (any (is_leak ctx) ctx.expected.recall_excludes))
          else none)
  unfolding check_recall_excludes
  check_recall_excludes-passed ctx h =
      rw h (exclusions-passed ctx false ctx.expected.recall_excludes)
