-- ===== src/Refs.antt =====
-- backend/eval_triage/domain/refs.py: references to the outputs of earlier steps. A text is walked by
-- its characters. What `\d` matches and `int` reads of a character is the parameter `digit_of`, the
-- decimal digits of the Unicode tables. An error keeps its case, not its text.
pub mod Tokens
pub mod Grammar
pub mod Fuel
use Prim.Native.Char.{code}
use evalai.Base.{
  ℕ, zero, suc, ◌+◌, ◌*◌, String, Bool, true, false, ◌&&◌, ◌||◌, Option, none, some, List, [], ◌∷◌,
  ltb, leb, ◌==◌, nat_eq, string_eq, if◌then◌else◌, length,
}
use evalai.Base.Json.{Json, arr, obj, Fields, get_field, get_item}
use evalai.Base.Assoc.{lookup}
use evalai.Base.Results.{Result, ok, err, ◌>>=◌}

pub data Segment : Type 0 where
  name : String → Segment
  index : ℕ → Segment

-- What `parse_ref` returns: the id of a step, and the path into its output.
pub record Ref : Type 0 where
  pub step : String
  pub segments : List Segment

pub data RefError : Type 0 where
  bad_length no_step_id bad_syntax no_segments many_segments no_output no_index no_field : RefError

abbrev pub between : ℕ → ℕ → ℕ → Bool
between low high c = leb low c && leb c high

abbrev pub is_letter : ℕ → Bool
is_letter c = between b'a' b'z' c || between b'A' b'Z' c

-- `[A-Za-z0-9_]`
abbrev pub is_word : ℕ → Bool
is_word c = is_letter c || (between b'0' b'9' c || c == b'_')

-- `[A-Za-z0-9_-]`
abbrev pub is_id_char : ℕ → Bool
is_id_char c = is_word c || c == b'-'

abbrev pub size : String → ℕ
size String.[] = 0
size (String.◌∷◌ c s) = suc (size s)

-- The longest prefix of at most `n` characters that pass, and the rest: a greedy `{0,n}`.
unfoldable pub span : ℕ → (ℕ → Bool) → String → String × String
span zero p s = (String.[], s)
span (suc n) p String.[] = (String.[], String.[])
span (suc n) p (String.◌∷◌ c s) =
    let more = span n p s in
    if p (code c) then (String.◌∷◌ c more.0, more.1) else (String.[], String.◌∷◌ c s)

-- `_STEP.match(ref)`: the id and what follows it.
unfoldable pub match_step : String → Option (String × String)
match_step String.[] = none
match_step (String.◌∷◌ c s) =
    let more = span 63 is_id_char s in
    if is_letter (code c) then some (String.◌∷◌ c more.0, more.1) else none

unfoldable pub match_name : String → Option (Segment × String)
match_name String.[] = none
match_name (String.◌∷◌ c s) =
    let more = span 63 is_word s in
    if is_letter (code c) || code c == b'_'
    then some (Segment.name (String.◌∷◌ c more.0), more.1)
    else none

module _ (digit_of : ℕ → Option ℕ) where
  abbrev pub is_digit : ℕ → Bool
  is_digit c = elim (digit_of c) [ none ↦ false | some d ↦ true ]

  abbrev pub digit : ℕ → ℕ
  digit c = elim (digit_of c) [ none ↦ 0 | some d ↦ d ]

  -- `int(digits)`
  unfoldable pub value_of : ℕ → String → ℕ
  value_of acc String.[] = acc
  value_of acc (String.◌∷◌ c s) = value_of (acc * 10 + digit (code c)) s

  abbrev pub closes : String → String → Option (Segment × String)
  closes String.[] rest = none
  closes (String.◌∷◌ d ds) String.[] = none
  closes (String.◌∷◌ d ds) (String.◌∷◌ c rest) =
      if code c == b']' then some (Segment.index (value_of 0 (String.◌∷◌ d ds)), rest) else none

  unfoldable pub match_index : String → Option (Segment × String)
  match_index s = let more = span 6 is_digit s in closes more.0 more.1

  -- `_SEGMENT.match(ref, position)`
  unfoldable pub match_segment : String → Option (Segment × String)
  match_segment String.[] = none
  match_segment (String.◌∷◌ c s) =
      if code c == b'.' then match_name s else if code c == b'[' then match_index s else none

  -- The loop over the positions. A segment has two characters at least, so the size is fuel enough.
  unfoldable pub parse_segments : ℕ → String → Result RefError (List Segment)
  parse_segments fuel String.[] = ok []
  parse_segments zero (String.◌∷◌ c s) = err RefError.bad_syntax
  parse_segments (suc fuel) (String.◌∷◌ c s) = elim (match_segment (String.◌∷◌ c s)) [
    | none ↦ err RefError.bad_syntax
    | some (segment, rest) ↦ parse_segments fuel rest >>= λ more. ok (segment ∷ more)
  ]

  unfoldable pub bounded : String → List Segment → Result RefError Ref
  bounded step [] = err RefError.no_segments
  bounded step (s ∷ ss) =
      if ltb 16 (length (s ∷ ss))
      then err RefError.many_segments
      else ok (record { step = step; segments = s ∷ ss })

  unfoldable pub parse_ref : String → Result RefError Ref
  parse_ref ref =
      if size ref == 0 || ltb 300 (size ref)
      then err RefError.bad_length
      else elim (match_step ref) [
        | none ↦ err RefError.no_step_id
        | some (step, rest) ↦ parse_segments (size rest) rest >>= bounded step
      ]

-- One round of the loop of `resolve_ref`: plain dictionaries and lists only.
unfoldable pub select : Segment → Json → Result RefError Json
select (Segment.index i) (arr xs) = elim (get_item i xs) [
  | none ↦ err RefError.no_index
  | some v ↦ ok v
]
select (Segment.index i) v = err RefError.no_index
select (Segment.name k) (obj fs) = elim (get_field k fs) [
  | none ↦ err RefError.no_field
  | some v ↦ ok v
]
select (Segment.name k) v = err RefError.no_field

unfoldable pub walk : List Segment → Json → Result RefError Json
walk [] v = ok v
walk (s ∷ ss) v = select s v >>= walk ss

unfoldable pub resolve_ref : Ref → List (String × Fields) → Result RefError Json
resolve_ref ref outputs = elim (lookup ref.step outputs) [
  | none ↦ err RefError.no_output
  | some fields ↦ walk ref.segments (obj fields)
]
