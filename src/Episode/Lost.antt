-- ===== src/Episode/Lost.antt =====
-- The errors of a step that lacks an output, and the parts of a step that never give them.
use evalai.Base.{
  String, Bool, true, false, Option, none, some, List, [], ◌∷◌, ◌≡◌, refl, inl, inr, arith,
  string_eq, Option-cases,
}
use evalai.Base.Assoc.{lookup}
use evalai.Base.Json.{Json, obj, Fields}
use evalai.Base.Results.{Result, ◌>>=◌}
use evalai.Refs.{Ref, RefError, Segment, select, walk, resolve_ref}
use evalai.Episode.{has}
use evalai.Episode.Calls.{
  StepError, Reply, Generated, StepRecord, Tried, context_of, of_reply, of_generated,
}

abbrev pub is_no_output : RefError → Bool
is_no_output RefError.no_output = true
is_no_output _ = false

-- The error of a reference to a step without a recorded output.
abbrev pub lacks_output : StepError → Bool
lacks_output (StepError.reference e) = is_no_output e
lacks_output _ = false

abbrev pub lost_result : {A : Type 0} → Result RefError A → Bool
lost_result (Result.ok v) = false
lost_result (Result.err e) = is_no_output e

abbrev pub lost_tried : Tried → Bool
lost_tried (Tried.failure e) = lacks_output e
lost_tried _ = false

abbrev pub lost_record : StepRecord → Bool
lost_record r = elim r.error [ none ↦ false | some e ↦ lacks_output e ]

pub select-lost : (s : Segment) (v : Json) → lost_result (select s v) ≡ false
unfolding select
select-lost (Segment.index i) (Json.arr xs) = ground arith
select-lost (Segment.index i) v = refl
select-lost (Segment.name k) (Json.obj fs) = ground arith
select-lost (Segment.name k) v = refl

pub bind-lost :
    {A B : Type 0} (r : Result RefError A) (f : A → Result RefError B)
    → lost_result r ≡ false
    → ((v : A) → lost_result (f v) ≡ false)
    → lost_result (r >>= f) ≡ false
bind-lost (Result.ok v) f h k = k v
bind-lost (Result.err e) f h k = h

pub walk-lost : (ss : List Segment) (v : Json) → lost_result (walk ss v) ≡ false
unfolding walk
walk-lost [] v = refl
walk-lost (s ∷ ss) v = bind-lost (select s v) (walk ss) (select-lost s v) (walk-lost ss)

pub resolve-lost :
    (r : Ref) (outputs : List (String × Fields))
    → has r.step outputs ≡ true
    → lost_result (resolve_ref r outputs) ≡ false
unfolding resolve_ref
resolve-lost r outputs h = elim (Option-cases (lookup r.step outputs)) [
  | inl n ↦ let k : false ≡ true = rw (n, has) at h in cc k
  | inr (fields, n) ↦ rw (n, resolve_ref) (walk-lost r.segments (obj fields))
]

pub context-lost :
    (c : Option Ref) (outputs : List (String × Fields))
    → (elim c [ none ↦ true | some r ↦ has r.step outputs ]) ≡ true
    → lost_result (context_of c outputs) ≡ false
unfolding context_of
context-lost none outputs h = refl
context-lost (some r) outputs h = kept (resolve_ref r outputs) (resolve-lost r outputs h)
  where
    kept :
        (x : Result RefError Json)
        → lost_result x ≡ false
        → lost_result {A = Option Json}
            (elim x [ Result.ok v ↦ Result.ok (some v) | Result.err e ↦ Result.err e ])
          ≡ false
    kept (Result.ok v) k = refl
    kept (Result.err e) k = k

pub of_reply-lost : {S : Type 0} (x : Reply × S) → lost_tried (of_reply x).0 ≡ false
of_reply-lost (Reply.done out, s) = refl
of_reply-lost (Reply.timed_out, s) = refl
of_reply-lost (Reply.raised kind message, s) = refl

pub of_generated-lost : {S : Type 0} (x : Generated × S) → lost_tried (of_generated x).0 ≡ false
of_generated-lost (Generated.answered text model request, s) = refl
of_generated-lost (Generated.not_answered status details, s) = refl
of_generated-lost (Generated.timed_out, s) = refl
of_generated-lost (Generated.raised kind message, s) = refl
