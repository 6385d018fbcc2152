-- ===== src/Checks/Findings.antt =====
-- Where the check of tool calls and the sandbox disagree.
use evalai.Base.{
  String, Bool, true, false, not, ◌&&◌, ◌||◌, Option, none, some, List, [], ◌∷◌, ◌++◌, ◌≡◌, refl,
  ap, ◌∙◌, arith, string_eq, if◌then◌else◌, any, all, contains,
}
use evalai.Base.Predicates.{any-append}
use evalai.Base.Assoc.{lookup}
use evalai.Base.Json.{Json, obj, Fields}
use evalai.Base.Text.{append, has_text, has_text-append, has_text-prefix}
use evalai.Sandbox.{
  Contract, Call, Sandbox, call, checked, check_call, is_confirmed, plain, perform, blank,
}
use evalai.Checks.{TextOps, GradingContext, is_empty}
use evalai.Checks.Tools.{
  tool_problems, required_problems, watches_tools, is_unauthorized, expects_tools, phrase, listed,
  contracts_of, check_tool_constraints, or_object,
}
use evalai.Checks.Verdicts.{tool_rule, is_proper, check_tool_constraints-passed}

module _ (ops : TextOps) (validate : Fields → Json → List String) (same : Json → Json → Bool)
    (show : Json → String) where
  any-last : (p : String → Bool) (xs ys : List String) → any p ys ≡ true → any p (xs ++ ys) ≡ true
  any-last p xs ys h = ground (arith, any-append p xs ys)

  any-first : (p : String → Bool) (xs ys : List String) → any p xs ≡ true → any p (xs ++ ys) ≡ true
  any-first p xs ys h = ground (arith, any-append p xs ys)

  -- The verdict on the invariant, where a case watches it and a problem counts as unauthorized.
  flagged :
      (ctx : GradingContext)
      → (not (expects_tools ops validate ctx.expected) && is_empty ctx.tools) ≡ false
      → watches_tools ops validate ctx ≡ true
      → any (is_unauthorized ops validate) (tool_problems ops validate ctx) ≡ true
      → (check_tool_constraints ops validate ctx).invariants
        ≡ ("no_unauthorized_tool_effect", "fail") ∷ []
  unfolding check_tool_constraints
  flagged ctx g w u = rw (g, w, u) refl

  phrase-flagged :
      (before name after : String)
      → has_text "confirmation" (ops.repr name) ≡ true
      → is_unauthorized ops validate (phrase ops before name after) ≡ true
  phrase-flagged before name after h =
      let k =
        has_text-append "confirmation" before (append (ops.repr name) after)
          (has_text-prefix "confirmation" (ops.repr name) after h) in
      either (has_text "forbidden" (phrase ops before name after)) _ k
    where
      either : (a b : Bool) → b ≡ true → (a || b) ≡ true
      either true b e = refl
      either false b e = e

  required-flagged :
      (t : String) (before after : List String)
      → has_text "confirmation" (ops.repr t) ≡ true
      → any (is_unauthorized ops validate) (
          listed
            (λ x. not (contains {A = String} [] x))
            (λ x. phrase ops "required tool " x " not called")
            (before ++ t ∷ after))
        ≡ true
  required-flagged t [] after h = rw (phrase-flagged "required tool " t " not called" h) refl
  required-flagged t (b ∷ before) after h = second_true _ _ (required-flagged t before after h)
    where
      second_true : (a b : Bool) → b ≡ true → (if a then true else b) ≡ true
      second_true a b e = ground arith

  -- Where no tool is called at all, a tool that must be called, whose name as it is printed holds the word
  -- `confirmation`, fails the invariant `no_unauthorized_tool_effect`, if the case watches it: the problems
  -- are searched for that word.
  pub uncalled_unauthorized :
      (ctx : GradingContext) (t : String) (before after : List String)
      → ctx.expected.required_tools ≡ before ++ t ∷ after
      → ctx.output.tool_calls ≡ []
      → has_text "confirmation" (ops.repr t) ≡ true
      → watches_tools ops validate ctx ≡ true
      → (check_tool_constraints ops validate ctx).invariants
        ≡ ("no_unauthorized_tool_effect", "fail") ∷ []
  unfolding tool_problems required_problems
  uncalled_unauthorized ctx t before after r n h w = flagged ctx (rw (r, present before) refl) w (
      any-first (is_unauthorized ops validate) (required_problems ops validate ctx) _
        (rw (r, n) (required-flagged t before after h)))
    where
      present : (bs : List String) → is_empty (bs ++ t ∷ after) ≡ false
      present [] = refl
      present (b ∷ bs) = refl

  -- A call of a tool of the sandbox
  abbrev pub made_by : Sandbox → String → Fields → Option String → Call
  made_by s tool fs call_id =
      (call (λ schema arguments. validate schema (obj arguments)) same show tool (obj fs) call_id
        s).0

  made-performed :
      (s : Sandbox) (tool : String) (c : Contract) (fs : Fields) (call_id : Option String)
      → lookup tool s.contracts ≡ some c
      → c.requires_confirmation ≡ true
      → is_confirmed fs ≡ true
      → validate c.arguments_schema (obj (plain fs)) ≡ []
      → made_by s tool fs call_id
        ≡ perform
            (λ schema arguments. validate schema (obj arguments))
            same
            show
            c
            (plain fs)
            (some true)
            (blank
              (λ schema arguments. validate schema (obj arguments))
              same
              show
              tool
              (obj fs)
              call_id
              s)
  unfolding call checked check_call
  made-performed s tool c fs call_id declared asks agreed fine =
      rw (declared, checked) (rw (fine, asks, agreed) refl)

  improper :
      (contracts : List (String × Contract)) (c : Contract) (k : Call) (m : String)
      (ms : List String)
      → lookup k.tool contracts ≡ some c
      → validate c.arguments_schema (or_object k.arguments) ≡ m ∷ ms
      → is_proper ops validate contracts k ≡ false
  improper contracts c k m ms found v = rw (is_proper, found, v) refl

  improper-rule :
      (ctx : GradingContext) (k : Call) (before after : List Call)
      → ctx.output.tool_calls ≡ before ++ k ∷ after
      → is_proper ops validate (contracts_of [] ctx.tools) k ≡ false
      → tool_rule ops validate ctx ≡ false
  improper-rule ctx k before after calls h = rw (calls, one_of before) ground arith
    where
      one_of :
          (bs : List Call)
          → all (is_proper ops validate (contracts_of [] ctx.tools)) (bs ++ k ∷ after) ≡ false
      one_of [] = rw h refl
      one_of (b ∷ bs) = either _ _ (one_of bs)
        where
          either : (x y : Bool) → y ≡ false → (if x then y else false) ≡ false
          either x y e = ground arith

  declares :
      (ctx : GradingContext) (tool : String) (c : Contract) (ts : List Contract)
      → lookup tool (contracts_of [] ts) ≡ some c
      → (expects_tools ops validate ctx.expected || not (is_empty ts)) ≡ true
  declares ctx tool c [] e = absurd (cc)
  declares ctx tool c (t ∷ ts) e = or_true (expects_tools ops validate ctx.expected)
    where
      or_true : (a : Bool) → (a || true) ≡ true
      or_true true = refl
      or_true false = refl

  -- A confirmed call of a tool that asks for a confirmation, with arguments that are valid without the
  -- confirmation, is performed by a sandbox that has the tool; if the case declares the tool and its schema
  -- refuses the arguments with the confirmation, any output that records the call fails the check of tool
  -- calls.
  pub confirmed_refused :
      (ctx : GradingContext) (s : Sandbox) (tool : String) (c : Contract) (fs : Fields)
      (call_id : Option String) (m : String) (ms : List String) (before after : List Call)
      → lookup tool s.contracts ≡ some c
      → c.requires_confirmation ≡ true
      → is_confirmed fs ≡ true
      → validate c.arguments_schema (obj (plain fs)) ≡ []
      → validate c.arguments_schema (obj fs) ≡ m ∷ ms
      → lookup tool (contracts_of [] ctx.tools) ≡ some c
      → ctx.output.tool_calls ≡ before ++ made_by s tool fs call_id ∷ after
      → ((made_by s tool fs call_id).error ≡ none)
        × ((made_by s tool fs call_id).confirmed ≡ some true)
        × ((check_tool_constraints ops validate ctx).passed ≡ some false)
  confirmed_refused ctx s tool c fs call_id m ms before after has asks agreed fine closed declared
        calls =
      let k = made_by s tool fs call_id in
      let made = made-performed s tool c fs call_id has asks agreed fine in
      let proper =
        improper (contracts_of [] ctx.tools) c k m ms
          (ap (λ (x : Call). lookup x.tool (contracts_of [] ctx.tools)) made ∙ declared)
          (ap (λ (x : Call). validate c.arguments_schema (or_object x.arguments)) made ∙ closed) in
      (
        ap (λ (x : Call). x.error) made,
        ap (λ (x : Call). x.confirmed) made,
        check_tool_constraints-passed ops validate ctx (declares ctx tool c ctx.tools declared)
            ∙ ap some (improper-rule ctx k before after calls proper),
      )
