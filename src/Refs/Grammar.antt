-- ===== src/Refs/Grammar.antt =====
-- The grammar of a reference, and that the parser accepts nothing else.
use Prim.Native.Char.{code}
use evalai.Base.{
  ℕ, zero, suc, ◌≤◌, ◌<◌, String, true, ◌||◌, Option, none, some, List, [], ◌∷◌, ◌≡◌, ap, inl, inr,
  arith, ◌==◌, nat_eq, ltb, length, Bool-cases, Option-cases,
}
use evalai.Base.Text.{append}
use evalai.Base.Results.{ok, err, ◌>>=◌, ok-injective, >>=-eq-ok}
use evalai.Refs.{
  Segment, Ref, RefError, size, match_step, is_digit, value_of, match_segment, parse_segments,
  bounded, parse_ref,
}
use evalai.Refs.Tokens.{
  every, is_step_id, is_name, match_step-id, match_name-fields, match_index-fields,
}

module _ (digit_of : ℕ → Option ℕ) where
  -- The text `s` spells the segments: `.name` for a field, `[digits]` for an index.
  pub data Spells : List Segment → String → Type 0 where
    nothing : Spells [] String.[]
    field :
        {ss : List Segment} {rest : String} (dot : Prim.Native.Char.Char) (k s : String)
        → Spells ss rest
        → (code dot == b'.') ≡ true
        → is_name k ≡ true
        → size k ≤ 64
        → s ≡ String.◌∷◌ dot (append k rest)
        → Spells (Segment.name k ∷ ss) s
    item :
        {ss : List Segment} {rest : String} (left right : Prim.Native.Char.Char) (digits s : String)
        → Spells ss rest
        → (code left == b'[') ≡ true
        → (code right == b']') ≡ true
        → every (is_digit digit_of) digits ≡ true
        → 0 < size digits
        → size digits ≤ 6
        → s ≡ String.◌∷◌ left (append digits (String.◌∷◌ right rest))
        → Spells (Segment.index (value_of digit_of 0 digits) ∷ ss) s

module _ (digit_of : ℕ → Option ℕ) where
  segment-Spells :
      (c : Prim.Native.Char.Char) (s : String) (seg : Segment) (rest : String) (ss : List Segment)
      → match_segment digit_of (String.◌∷◌ c s) ≡ some (seg, rest)
      → Spells digit_of ss rest
      → Spells digit_of (seg ∷ ss) (String.◌∷◌ c s)
  unfolding match_segment
  segment-Spells c s seg rest ss h more = elim (Bool-cases (code c == b'.')) [
    | inl t ↦
        let (k, e, named, short, whole) = match_name-fields s seg rest (rw t at h) in
        rw e (Spells.field c k _ more t named short (ap (λ r. String.◌∷◌ c r) whole))
    | inr t ↦ elim (Bool-cases (code c == b'[')) [
      | inl u ↦
          let (right, ds, e, closed, all_digits, some_digit, few, whole) =
            match_index-fields digit_of s seg rest (rw (t, u) at h) in
          rw e (
            Spells.item c right ds _ more u closed all_digits some_digit few
              (ap (λ r. String.◌∷◌ c r) whole))
      | inr u ↦ let k : none ≡ some (seg, rest) = rw (t, u) at h in cc k
    ]
  ]

  segments-Spells :
      (fuel : ℕ) (s : String) (ss : List Segment)
      → parse_segments digit_of fuel s ≡ ok ss
      → Spells digit_of ss s
  unfolding parse_segments
  segments-Spells zero String.[] ss h = rw (← ok-injective _ _ h) Spells.nothing
  segments-Spells (suc fuel) String.[] ss h = rw (← ok-injective _ _ h) Spells.nothing
  segments-Spells zero (String.◌∷◌ c s) ss h = cc h
  segments-Spells (suc fuel) (String.◌∷◌ c s) ss h =
      elim (Option-cases (match_segment digit_of (String.◌∷◌ c s))) [
        | inl n ↦ let k : err RefError.bad_syntax ≡ ok ss = rw (n, parse_segments) at h in cc k
        | inr ((seg, rest), n) ↦
            let k : (parse_segments digit_of fuel rest >>= λ more. ok (seg ∷ more)) ≡ ok ss =
              rw (n, parse_segments) at h in
            let (more, parsed, e) =
              >>=-eq-ok (parse_segments digit_of fuel rest) (λ more. ok (seg ∷ more)) ss k in
            rw (← ok-injective _ _ e)
              (segment-Spells c s seg rest more n (segments-Spells fuel rest more parsed))
      ]

  bounded-fields :
      (step : String) (ss : List Segment) (r : Ref)
      → bounded digit_of step ss ≡ ok r
      → (r.step ≡ step) × (r.segments ≡ ss) × (0 < length ss) × (length ss ≤ 16)
  unfolding bounded
  bounded-fields step [] r h = cc h
  bounded-fields step (s ∷ ss) r h = ground arith

  -- What the parser accepts is of the grammar: at most 300 characters, a step id of the pattern, and then
  -- a text that spells the 1 to 16 segments that it returns.
  pub parse_ref-Spells :
      (s : String) (r : Ref)
      → parse_ref digit_of s ≡ ok r
      → (rest : String) × (s ≡ append r.step rest)
        × (is_step_id r.step ≡ true)
        × (size r.step ≤ 64)
        × Spells digit_of r.segments rest
        × (0 < length r.segments)
        × (length r.segments ≤ 16)
        × (size s ≤ 300)
  unfolding parse_ref
  parse_ref-Spells s r h = elim (Bool-cases (size s == 0 || ltb 300 (size s))) [
    | inl t ↦ let k : err RefError.bad_length ≡ ok r = rw t at h in cc k
    | inr t ↦ elim (Option-cases (match_step s)) [
      | inl n ↦ let k : err RefError.no_step_id ≡ ok r = rw (t, n) at h in cc k
      | inr ((step, rest), n) ↦
          let k : (parse_segments digit_of (size rest) rest >>= bounded digit_of step) ≡ ok r =
            rw (t, n) at h in
          let (ss, parsed, e) =
            >>=-eq-ok (parse_segments digit_of (size rest) rest) (bounded digit_of step) r k in
          let (named, short, whole) = match_step-id s step rest n in
          let (same_step, same_segments, some_segment, few) = bounded-fields step ss r e in
          (
            rest,
            rw same_step whole,
            rw same_step named,
            rw same_step short,
            rw same_segments (segments-Spells (size rest) rest ss parsed),
            rw same_segments some_segment,
            rw same_segments few,
            ground arith,
          )
    ]
  ]
