-- ===== src/Refs/Fuel.antt =====
-- The fuel of the parser's loop over the segments.
use Prim.Native.Char.{code}
use evalai.Base.{
  ℕ, zero, suc, ◌+◌, ◌≤◌, String, Option, none, some, ◌∷◌, ◌≡◌, refl, ap, inl, inr, arith, ◌==◌,
  nat_eq, Bool-cases, Option-cases,
}
use evalai.Base.Text.{append}
use evalai.Base.Results.{ok, ◌>>=◌}
use evalai.Refs.{Segment, size, match_segment, parse_segments}
use evalai.Refs.Tokens.{match_name-fields, match_index-fields}

size-append : (s t : String) → size (append s t) ≡ size s + size t
size-append String.[] t = omega arith
size-append (String.◌∷◌ c s) t = omega (arith, size-append s t)

module _ (digit_of : ℕ → Option ℕ) where
  segment-shrinks :
      (c : Prim.Native.Char.Char) (s : String) (seg : Segment) (rest : String)
      → match_segment digit_of (String.◌∷◌ c s) ≡ some (seg, rest)
      → size rest ≤ size s
  unfolding match_segment
  segment-shrinks c s seg rest h = elim (Bool-cases (code c == b'.')) [
    | inl t ↦
        let (k, e, named, short, whole) = match_name-fields s seg rest (rw t at h) in
        omega (arith, ap size whole, size-append k rest)
    | inr t ↦ elim (Bool-cases (code c == b'[')) [
      | inl u ↦
          let (right, ds, e, closed, all_digits, some_digit, few, whole) =
            match_index-fields digit_of s seg rest (rw (t, u) at h) in
          omega (arith, ap size whole, size-append ds (String.◌∷◌ right rest))
      | inr u ↦ let k : none ≡ some (seg, rest) = rw (t, u) at h in cc k
    ]
  ]

  -- The fuel that `parse_ref` gives, the size of the text, is enough: more of it changes nothing.
  parse_segments-fuel :
      (fuel more : ℕ) (s : String)
      → size s ≤ fuel
      → size s ≤ more
      → parse_segments digit_of fuel s ≡ parse_segments digit_of more s
  unfolding parse_segments
  parse_segments-fuel zero zero String.[] h k = refl
  parse_segments-fuel zero (suc more) String.[] h k = refl
  parse_segments-fuel (suc fuel) zero String.[] h k = refl
  parse_segments-fuel (suc fuel) (suc more) String.[] h k = refl
  parse_segments-fuel zero more (String.◌∷◌ c s) h k = absurd (omega arith)
  parse_segments-fuel (suc fuel) zero (String.◌∷◌ c s) h k = absurd (omega arith)
  parse_segments-fuel (suc fuel) (suc more) (String.◌∷◌ c s) h k =
      elim (Option-cases (match_segment digit_of (String.◌∷◌ c s))) [
        | inl n ↦ rw (n, parse_segments) refl
        | inr ((seg, rest), n) ↦
            let less = segment-shrinks c s seg rest n in
            rw (n, parse_segments)
              (ap (λ x. x >>= λ ss. ok (seg ∷ ss))
                (parse_segments-fuel fuel more rest (omega (arith, less)) (omega (arith, less))))
      ]
