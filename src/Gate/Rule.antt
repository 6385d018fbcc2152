-- ===== src/Gate/Rule.antt =====
-- The rule that the documentation of `evaluate_gate` states, and what one check says under it.
use evalai.Base.{
  ℕ, String, Bool, true, false, not, ◌&&◌, ◌||◌, Option, none, some, List, [], ◌∷◌, ◌≡◌, refl, ap,
  ◌∙◌, inl, inr, arith, ltb, ◌==◌, nat_eq, string_eq, if◌then◌else◌, any, all, Bool-cases,
  Option-cases,
}
use evalai.Base.Assoc.{lookup}
use evalai.Gate.{
  FloatOps, Direction, GateMetric, Policy, MetricResult, GateStatus, Check, GateVerdict, is_blocked,
  is_inconclusive, failures_of, sign, sorted_pair, interval_check, metric_check, relax,
}

abbrev pub is_ready : GateVerdict → Bool
is_ready GateVerdict.ready = true
is_ready _ = false

abbrev pub says_blocked : GateVerdict → Bool
says_blocked GateVerdict.blocked = true
says_blocked _ = false

-- A critical invariant was violated.
abbrev pub violated : List (String × ℕ) → String → Bool
violated failures name = not (failures_of failures name == 0)

abbrev pub has_any {ℓ} : {A : Type ℓ} → List A → Bool
has_any [] = false
has_any (_ ∷ _) = true

both_clear :
    (c cs b bs l ls : Bool)
    → c ≡ (not b && not l)
    → cs ≡ (not bs && not ls)
    → (if c then cs else false) ≡ (not (if b then true else bs) && not (if l then true else ls))
both_clear c cs b bs l ls h k = ground arith

module _ {F : Type 0} (float : FloatOps F) where
  -- A difference counted as an improvement: as it is where higher is better, and negated where lower is.
  abbrev pub improvement : Direction → F → F
  improvement Direction.higher_is_better x = float.mul float.one x
  improvement Direction.lower_is_better x = float.mul (float.neg float.one) x

  abbrev pub smaller : F → F → F
  smaller a b = if float.lt b a then b else a

  abbrev pub larger : F → F → F
  larger a b = if float.lt b a then a else b

  -- The interval of a metric in the direction of improvement, if there are bounds, and from enough clusters.
  abbrev pub interval : ℕ → GateMetric F → Option (MetricResult F) → Option (F × F)
  interval least m none = none
  interval least m (some r) = elim r.lower [
    | none ↦ none
    | some a ↦ elim r.upper [
      | none ↦ none
      | some b ↦
          if ltb r.clusters least
          then none
          else let x = improvement m.direction a in
            let y = improvement m.direction b in some (smaller x y, larger x y)
    ]
  ]

  -- The lower bound is at least `-margin`.
  abbrev pub cleared : F → Option (F × F) → Bool
  cleared margin none = false
  cleared margin (some (low, high)) = float.ge low (float.neg margin)

  -- The whole interval lies below `-margin`.
  abbrev pub regressed : F → Option (F × F) → Bool
  regressed margin none = false
  regressed margin (some (low, high)) =
      not (float.ge low (float.neg margin)) && float.lt high (float.neg margin)

  abbrev pub interval_of : Policy F → List (String × MetricResult F) → GateMetric F → Option (F × F)
  interval_of policy results m = interval policy.min_independent_clusters m (lookup m.name results)

  abbrev pub blocks : Policy F → List (String × MetricResult F) → GateMetric F → Bool
  blocks policy results m = m.required && regressed m.margin (interval_of policy results m)

  -- A required metric that is neither cleared nor a demonstrated regression.
  abbrev pub leaves_open : Policy F → List (String × MetricResult F) → GateMetric F → Bool
  leaves_open policy results m =
      m.required
      && (not (cleared m.margin (interval_of policy results m))
          && not (regressed m.margin (interval_of policy results m)))

  -- A metric that is not required, or whose interval clears it.
  abbrev pub clears : Policy F → List (String × MetricResult F) → GateMetric F → Bool
  clears policy results m = not m.required || cleared m.margin (interval_of policy results m)

  abbrev pub low_coverage : F → Option F → Bool
  low_coverage least none = false
  low_coverage least (some c) = float.lt c least

  status_rule : F → Option (F × F) → GateStatus
  status_rule margin none = GateStatus.inconclusive
  status_rule margin (some (low, high)) =
      if float.ge low (float.neg margin)
      then GateStatus.clear
      else if float.lt high (float.neg margin)
      then GateStatus.blocked
      else GateStatus.inconclusive

  interval-status :
      (m : GateMetric F) (a b : F)
      → let s = sign float m.direction in
        (interval_check float m a b).status
        ≡ status_rule m.margin (some (sorted_pair float (float.mul s a) (float.mul s b)))
  unfolding interval_check status_rule
  interval-status m a b =
      let s = sign float m.direction in
      let pair = sorted_pair float (float.mul s a) (float.mul s b) in
      elim (Bool-cases (float.ge pair.0 (float.neg m.margin))) [
        | inl t ↦ rw t refl
        | inr t ↦ elim (Bool-cases (float.lt pair.1 (float.neg m.margin))) [
          | inl u ↦ rw (t, u) refl
          | inr u ↦ rw (t, u) refl
        ]
      ]

  sorted_both : (x y : F) → sorted_pair float x y ≡ (smaller x y, larger x y)
  sorted_both x y = elim (Bool-cases (float.lt y x)) [ inl t ↦ rw t refl | inr t ↦ rw t refl ]

  improved :
      (d : Direction) (a b : F)
      → sorted_pair float (float.mul (sign float d) a) (float.mul (sign float d) b)
        ≡ (smaller (improvement d a) (improvement d b), larger (improvement d a) (improvement d b))
  improved Direction.higher_is_better a b =
      sorted_both (float.mul float.one a) (float.mul float.one b)
  improved Direction.lower_is_better a b =
      sorted_both (float.mul (float.neg float.one) a) (float.mul (float.neg float.one) b)

  metric-status :
      (least : ℕ) (m : GateMetric F) (r : Option (MetricResult F))
      → (metric_check float least m r).status ≡ status_rule m.margin (interval least m r)
  unfolding metric_check status_rule
  metric-status least m none = refl
  metric-status least m (some r) = elim (Option-cases r.lower) [
    | inl n ↦ rw n refl
    | inr (a, n) ↦ elim (Option-cases r.upper) [
      | inl k ↦ rw (n, k) refl
      | inr (b, k) ↦ elim (Bool-cases (ltb r.clusters least)) [
        | inl t ↦ rw (n, k, t) refl
        | inr t ↦
            rw (n, k, t)
              (interval-status m a b
                ∙ ap (λ (i : F × F). status_rule m.margin (some i)) (improved m.direction a b))
      ]
    ]
  ]

  relax-blocked :
      (required : Bool) (c : Check F)
      → is_blocked (relax float required c).status ≡ (required && is_blocked c.status)
  unfolding relax
  relax-blocked required c = ground arith

  relax-inconclusive :
      (required : Bool) (c : Check F)
      → is_inconclusive (relax float required c).status ≡ (required && is_inconclusive c.status)
  unfolding relax
  relax-inconclusive required c = ground arith

  rule-blocked :
      (margin : F) (i : Option (F × F)) → is_blocked (status_rule margin i) ≡ regressed margin i
  unfolding status_rule
  rule-blocked margin none = refl
  rule-blocked margin (some (low, high)) = ground arith

  rule-inconclusive :
      (margin : F) (i : Option (F × F))
      → is_inconclusive (status_rule margin i)
        ≡ (not (cleared margin i) && not (regressed margin i))
  unfolding status_rule
  rule-inconclusive margin none = refl
  rule-inconclusive margin (some (low, high)) = ground arith

  pub metric-blocks :
      (policy : Policy F) (results : List (String × MetricResult F)) (m : GateMetric F)
      → is_blocked
          (relax float m.required
            (metric_check float policy.min_independent_clusters m (lookup m.name results))).status
        ≡ blocks policy results m
  metric-blocks policy results m =
      relax-blocked m.required _
      ∙ ap (λ s. m.required && is_blocked s) (metric-status _ m (lookup m.name results))
      ∙ ap (λ b. m.required && b) (rule-blocked m.margin _)

  pub metric-leaves_open :
      (policy : Policy F) (results : List (String × MetricResult F)) (m : GateMetric F)
      → is_inconclusive
          (relax float m.required
            (metric_check float policy.min_independent_clusters m (lookup m.name results))).status
        ≡ leaves_open policy results m
  metric-leaves_open policy results m =
      relax-inconclusive m.required _
      ∙ ap (λ s. m.required && is_inconclusive s) (metric-status _ m (lookup m.name results))
      ∙ ap (λ b. m.required && b) (rule-inconclusive m.margin _)

  clears-one :
      (policy : Policy F) (results : List (String × MetricResult F)) (m : GateMetric F)
      → clears policy results m
        ≡ (not (blocks policy results m) && not (leaves_open policy results m))
  clears-one policy results m = elim (Option-cases (interval_of policy results m)) [
    | inl n ↦ rw n (ground arith)
    | inr ((low, high), n) ↦ rw n (ground arith)
  ]

  -- No metric blocks or is left open exactly if every one clears.
  pub all-clears :
      (policy : Policy F) (results : List (String × MetricResult F)) (ms : List (GateMetric F))
      → all (clears policy results) ms
        ≡ (not (any (blocks policy results) ms) && not (any (leaves_open policy results) ms))
  all-clears policy results [] = refl
  all-clears policy results (m ∷ ms) =
      both_clear _ _ _ _ _ _ (clears-one policy results m) (all-clears policy results ms)
