-- ===== src/Checks/Verdicts.antt =====
-- What the check of tool calls decides, against the rules that a case declares.
use evalai.Base.{
  String, Bool, true, false, not, ◌&&◌, ◌||◌, none, some, List, [], ◌∷◌, ◌++◌, ◌≡◌, refl, ap, ◌∙◌,
  inl, inr, arith, ltb, nat_eq, string_eq, if◌then◌else◌, any, all, filter, contains, ◌==◌, eq_iff,
  Bool-cases, Option-cases,
}
use mathlib.Core.Path.{ap₂}
use evalai.Base.Assoc.{lookup}
use evalai.Base.Json.{Json, Fields}
use evalai.Sandbox.{Contract, Call}
use evalai.Checks.{TextOps, GradingContext, is_empty}
use evalai.Checks.Tools.{
  names_of, all_effects, effects_of, position, contracts_of, or_object, first_error, is_true,
  listed, phrase, order_problems, contract_problems, call_problems, required_problems,
  forbidden_problems, effect_problems, tool_problems, expects_tools, check_tool_constraints,
}

-- The first call of one comes before the first call of the other, if that one is called.
abbrev pub in_order : List String → String × String → Bool
in_order names e =
    not (contains names e.1)
    || (contains names e.0 && not (ltb (position names e.1) (position names e.0)))

-- The output names the effect, or one of the calls had it.
abbrev pub occurred : GradingContext → String → Bool
occurred ctx x =
    contains ctx.output.effects x || any (λ (c : Call). contains c.effects x) ctx.output.tool_calls

contains-append :
    (xs ys : List String) (x : String) → contains (xs ++ ys) x ≡ (contains xs x || contains ys x)
contains-append [] ys x = refl
contains-append (y ∷ xs) ys x = ground (arith, contains-append xs ys x)

-- Leaving out what is in one list loses nothing that is not.
contains-new :
    (es xs : List String) (x : String)
    → contains es x ≡ false
    → contains (filter (λ e. not (contains es e)) xs) x ≡ contains xs x
contains-new es [] x h = refl
contains-new es (y ∷ xs) x h = elim (Bool-cases (y == x)) [
  | inl t ↦
      let same : y ≡ x = (eq_iff y x).0 t in
      let new : contains es y ≡ false = rw same h in rw (new, t) refl
  | inr f ↦ elim (Bool-cases (contains es y)) [
    | inl k ↦ rw (k, f) (contains-new es xs x h)
    | inr k ↦ rw (k, f) (contains-new es xs x h)
  ]
]

all_effects_lem :
    (es : List String) (cs : List Call) (x : String)
    → contains (all_effects es cs) x
      ≡ (contains es x || any (λ (c : Call). contains c.effects x) cs)
unfolding all_effects
all_effects_lem es [] x = ground arith
all_effects_lem es (c ∷ cs) x =
    all_effects_lem (es ++ filter (λ e. not (contains es e)) c.effects) cs x
    ∙ rw (contains-append es) (elim (Bool-cases (contains es x)) [
      | inl t ↦ rw t refl
      | inr f ↦ rw f (rw (contains-new es c.effects x f) (if_or (contains c.effects x) _))
    ])
  where
    if_or : (a b : Bool) → (a || b) ≡ (if a then true else b)
    if_or a b = ground arith

occurred_lem : (ctx : GradingContext) (x : String) → contains (effects_of ctx) x ≡ occurred ctx x
occurred_lem ctx x = all_effects_lem ctx.output.effects ctx.output.tool_calls x

module _ (ops : TextOps) (validate : Fields → Json → List String) where
  -- The call is of a declared tool, its arguments are valid, and it is confirmed if the tool asks for that.
  abbrev pub is_proper : List (String × Contract) → Call → Bool
  is_proper contracts c = elim (lookup c.tool contracts) [
    | none ↦ false
    | some k ↦
        is_empty (validate k.arguments_schema (or_object c.arguments))
        && (not k.requires_confirmation || is_true ops validate c.confirmed)
  ]

  -- What the case declares of the tools, the effects, their order and the calls.
  abbrev pub tool_rule : GradingContext → Bool
  tool_rule ctx =
      all (λ t. contains (names_of ctx) t) ctx.expected.required_tools
      && (all (λ t. not (contains (names_of ctx) t)) ctx.expected.forbidden_tools
          && (all (occurred ctx) ctx.expected.required_effects
              && (all (λ x. not (occurred ctx x)) ctx.expected.forbidden_effects
                  && (all (in_order (names_of ctx)) ctx.expected.must_precede
                      && all (is_proper (contracts_of [] ctx.tools)) ctx.output.tool_calls))))

  both-empty : (xs ys : List String) → is_empty (xs ++ ys) ≡ (is_empty xs && is_empty ys)
  both-empty [] ys = refl
  both-empty (x ∷ xs) ys = refl

  listed-empty :
      {A : Type 0} (p q : A → Bool) (text : A → String) (xs : List A)
      → ((x : A) → p x ≡ not (q x))
      → is_empty (listed p text xs) ≡ all q xs
  listed-empty p q text [] h = refl
  listed-empty p q text (x ∷ xs) h = elim (Bool-cases (q x)) [
    | inl t ↦ let k : p x ≡ false = h x ∙ ap not t in rw (k, t) (listed-empty p q text xs h)
    | inr t ↦ let k : p x ≡ true = h x ∙ ap not t in rw (k, t) refl
  ]

  not-not : (b : Bool) → b ≡ not (not b)
  not-not true = refl
  not-not false = refl

  -- What one call adds, by its errors and whether its confirmation is missing.
  errors-proper :
      (tool text : String) (ms : List String) (asks given : Bool)
      → is_empty (first_error ops validate tool ms ++ (if asks && not given then text ∷ [] else []))
        ≡ (is_empty ms && (not asks || given))
  errors-proper tool text [] asks given = ground arith
  errors-proper tool text (m ∷ ms) asks given = refl

  contract-proper :
      (contracts : List (String × Contract)) (c : Call)
      → is_empty (contract_problems ops validate c (lookup c.tool contracts))
        ≡ is_proper contracts c
  unfolding contract_problems
  contract-proper contracts c = elim (Option-cases (lookup c.tool contracts)) [
    | inl n ↦ rw (n, contract_problems, is_proper) refl
    | inr (k, n) ↦
        rw (n, contract_problems, is_proper)
          (errors-proper c.tool _ (validate k.arguments_schema (or_object c.arguments))
            k.requires_confirmation (is_true ops validate c.confirmed))
  ]

  calls-proper :
      (contracts : List (String × Contract)) (cs : List Call)
      → is_empty (call_problems ops validate contracts cs) ≡ all (is_proper contracts) cs
  unfolding call_problems
  calls-proper contracts [] = refl
  calls-proper contracts (c ∷ cs) =
      both-empty (contract_problems ops validate c (lookup c.tool contracts)) _
      ∙ rw (contract-proper contracts c, calls-proper contracts cs)
          (and_if (is_proper contracts c) _)
    where
      and_if : (a b : Bool) → (a && b) ≡ (if a then b else false)
      and_if true b = refl
      and_if false b = refl

  order-rule :
      (names : List String) (edges : List (String × String))
      → is_empty (order_problems ops validate names edges) ≡ all (in_order names) edges
  unfolding order_problems
  order-rule names edges = listed-empty _ (in_order names) _ edges (λ e.
      late (contains names e.1) (contains names e.0)
        (ltb (position names e.1) (position names e.0)))
    where
      late : (a b l : Bool) → (a && (not b || l)) ≡ not (not a || (b && not l))
      late a b l = ground arith

  problems-rule : (ctx : GradingContext) → is_empty (tool_problems ops validate ctx) ≡ tool_rule ctx
  unfolding tool_problems required_problems forbidden_problems effect_problems
  problems-rule ctx =
      let e = ctx.expected in
      let names = names_of ctx in
      let r1 =
        listed-empty _ (λ t. contains names t) (λ t. phrase ops "required tool " t " not called")
          e.required_tools (λ t. refl) in
      let r2 =
        listed-empty _ (λ t. not (contains names t)) (λ t. phrase ops "forbidden tool " t " called")
          e.forbidden_tools (λ t. not-not (contains names t)) in
      let r3 =
        listed-empty _ (occurred ctx) (λ x. phrase ops "required effect " x " missing")
          e.required_effects (λ x. ap not (occurred_lem ctx x)) in
      let r4 =
        listed-empty _ (λ x. not (occurred ctx x))
          (λ x. phrase ops "forbidden effect " x " occurred") e.forbidden_effects
          (λ x. occurred_lem ctx x ∙ not-not (occurred ctx x)) in
      let r5 = order-rule names e.must_precede in
      let r6 = calls-proper (contracts_of [] ctx.tools) ctx.output.tool_calls in
      both-empty _ _
      ∙ ap₂ (λ a b. a && b) r1
          (both-empty _ _
            ∙ ap₂ (λ a b. a && b) r2
                (both-empty _ _
                  ∙ ap₂ (λ a b. a && b) (both-empty _ _ ∙ ap₂ (λ a b. a && b) r3 r4)
                      (both-empty _ _ ∙ ap₂ (λ a b. a && b) r5 r6)
                  ∙ regroup (all (occurred ctx) e.required_effects)
                      (all (λ x. not (occurred ctx x)) e.forbidden_effects)
                      (all (in_order names) e.must_precede
                        && all (is_proper (contracts_of [] ctx.tools)) ctx.output.tool_calls)))
    where
      regroup : (a b c : Bool) → ((a && b) && c) ≡ (a && (b && c))
      regroup true b c = refl
      regroup false b c = refl

  -- Where a case expects something of tools or declares some, the check passes exactly if every required
  -- tool was called and no forbidden one, every required effect occurred and no forbidden one, each pair
  -- that must precede is in order, and every call is of a declared tool with valid arguments, confirmed
  -- if the tool asks for that.
  pub check_tool_constraints-passed :
      (ctx : GradingContext)
      → (expects_tools ops validate ctx.expected || not (is_empty ctx.tools)) ≡ true
      → (check_tool_constraints ops validate ctx).passed ≡ some (tool_rule ctx)
  unfolding check_tool_constraints
  check_tool_constraints-passed ctx h = ground (arith, problems-rule ctx)
