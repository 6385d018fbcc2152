-- ===== src/Sandbox/Safety.antt =====
-- What the sandbox promises of every sequence of calls.
use evalai.Base.{
  String, Bool, true, Option, none, some, List, [], ◌∷◌, ◌++◌, ◌≡◌, refl, sym, ap, ◌∙◌, ◌⊎◌, inl,
  inr, map, All, Bool-cases,
}
use mathlib.Core.List.{append_assoc, append-nil}
use evalai.Base.Predicates.{All-append}
use evalai.Base.Assoc.{lookup}
use evalai.Base.Json.{Json, obj, Fields}
use evalai.Sandbox.{
  Contract, ToolError, Call, Sandbox, new_sandbox, is_confirmed, plain, format_effect, check_call,
  blank, checked, call,
}

-- The effects of the calls, in order.
abbrev pub effects_of : List Call → List String
effects_of [] = []
effects_of (c ∷ cs) = c.effects ++ effects_of cs

effects-append :
    (xs : List Call) (c : Call) → effects_of (xs ++ c ∷ []) ≡ effects_of xs ++ c.effects
effects-append [] c = append-nil c.effects
effects-append (x ∷ xs) c =
    ap (λ l. x.effects ++ l) (effects-append xs c)
    ∙ sym (append_assoc x.effects (effects_of xs) c.effects)

module _ (schema_errors : Fields → Fields → List String) (same : Json → Json → Bool)
    (show : Json → String) where
  -- What may happen in a call: nothing, with an error; or the declared effects of a declared tool, whose
  -- schema accepts the arguments, and which the arguments confirm if it asks for that.
  pub data IsSafe (contracts : List (String × Contract)) (made : Call) : Type 0 where
    refused : (e : ToolError) → made.error ≡ some e → made.effects ≡ [] → IsSafe contracts made
    performed :
        (c : Contract) (fs : Fields)
        → made.error ≡ none
        → lookup made.tool contracts ≡ some c
        → made.arguments ≡ obj fs
        → schema_errors c.arguments_schema (plain fs) ≡ []
        → (c.requires_confirmation ≡ true → is_confirmed fs ≡ true)
        → made.effects ≡ map (format_effect schema_errors same show (plain fs)) c.effects
        → IsSafe contracts made

  -- The effects that a sandbox shows are those of its calls, each of which is safe.
  pub record IsSound (s : Sandbox) : Type 0 where
    pub shown : s.effects ≡ effects_of s.calls
    pub safe : All (IsSafe s.contracts) s.calls

  check-IsSafe :
      (contracts : List (String × Contract)) (c : Contract) (arguments : Json) (made : Call)
      → lookup made.tool contracts ≡ some c
      → made.arguments ≡ arguments
      → made.effects ≡ []
      → made.error ≡ none
      → IsSafe contracts (check_call schema_errors same show c arguments made)
  unfolding check_call
  check-IsSafe contracts c (Json.obj fs) made known given quiet fine =
      elim (Errors-cases (schema_errors c.arguments_schema (plain fs))) [
        | inl valid ↦ rw valid (elim (Bool-cases c.requires_confirmation) [
          | inl asks ↦ elim (Bool-cases (is_confirmed fs)) [
            | inl agreed ↦
                rw (asks, agreed) (IsSafe.performed c fs fine known given valid (λ _. agreed) refl)
            | inr unasked ↦
                rw (asks, unasked) (IsSafe.refused ToolError.confirmation_required refl quiet)
          ]
          | inr free ↦
              rw free
                (IsSafe.performed c fs fine known given valid (λ asks. cc (sym free ∙ asks)) refl)
        ])
        | inr (x, xs, found) ↦
            rw found (IsSafe.refused (ToolError.invalid_arguments (x ∷ xs)) refl quiet)
      ]
    where
      Errors-cases :
          (xs : List String) → (xs ≡ []) ⊎ ((y : String) × (ys : List String) × (xs ≡ y ∷ ys))
      Errors-cases [] = inl refl
      Errors-cases (y ∷ ys) = inr (y, ys, refl)
  check-IsSafe contracts c _ made known given quiet fine =
      IsSafe.refused ToolError.not_an_object refl quiet

  checked-IsSafe :
      (contracts : List (String × Contract)) (arguments : Json) (made : Call) (c : Option Contract)
      → lookup made.tool contracts ≡ c
      → made.arguments ≡ arguments
      → made.effects ≡ []
      → made.error ≡ none
      → IsSafe contracts (checked schema_errors same show made.tool arguments made c)
  unfolding checked
  checked-IsSafe contracts arguments made none known given quiet fine =
      IsSafe.refused ToolError.unknown_tool refl quiet
  checked-IsSafe contracts arguments made (some c) known given quiet fine =
      check-IsSafe contracts c arguments made known given quiet fine

  pub call-IsSound :
      (tool : String) (arguments : Json) (call_id : Option String) (s : Sandbox)
      → IsSound s
      → IsSound (call schema_errors same show tool arguments call_id s).1
  unfolding call
  call-IsSound tool arguments call_id s v =
      let first = blank schema_errors same show tool arguments call_id s in
      let made = checked schema_errors same show tool arguments first (lookup tool s.contracts) in
      let now =
        checked-IsSafe s.contracts arguments first (lookup tool s.contracts) refl refl refl refl in
      record {
        shown = ap (λ l. l ++ made.effects) v.shown ∙ sym (effects-append s.calls made);
        safe = All-append (IsSafe s.contracts) s.calls (made ∷ []) v.safe (now, tt);
      }

  pub new-IsSound : (cs : List Contract) → IsSound (new_sandbox cs)
  unfolding new_sandbox
  new-IsSound cs = record { shown = refl; safe = tt }
