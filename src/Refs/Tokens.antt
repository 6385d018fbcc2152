-- ===== src/Refs/Tokens.antt =====
-- The tokens of a reference: a step id, a name, an index.
use Prim.Native.Char.{code}
use evalai.Base.{
  ℕ, zero, suc, ◌≤◌, ◌<◌, String, Bool, true, false, ◌&&◌, ◌||◌, Option, none, some, ◌≡◌, refl, sym,
  ap, inl, inr, arith, ◌==◌, nat_eq, if◌then◌else◌, Bool-cases,
}
use mathlib.Core.Path.{ap₂}
use mathlib.Core.Option.{some-injective}
use evalai.Base.Text.{append}
use evalai.Refs
use evalai.Refs.{
  Segment, Ref, RefError, is_letter, is_word, is_id_char, size, span, match_step, match_name,
  is_digit, value_of, match_index, match_segment, parse_segments, bounded, parse_ref,
}

abbrev pub every : (ℕ → Bool) → String → Bool
every p String.[] = true
every p (String.◌∷◌ c s) = p (code c) && every p s

-- `[A-Za-z][A-Za-z0-9_-]{0,63}`
abbrev pub is_step_id : String → Bool
is_step_id String.[] = false
is_step_id (String.◌∷◌ c s) = is_letter (code c) && every is_id_char s

-- `[A-Za-z_][A-Za-z0-9_]{0,63}`
abbrev pub is_name : String → Bool
is_name String.[] = false
is_name (String.◌∷◌ c s) = (is_letter (code c) || code c == b'_') && every is_word s

span-append : (n : ℕ) (p : ℕ → Bool) (s : String) → append (span n p s).0 (span n p s).1 ≡ s
unfolding span
span-append zero p s = refl
span-append (suc n) p String.[] = refl
span-append (suc n) p (String.◌∷◌ c s) = elim (Bool-cases (p (code c))) [
  | inl t ↦ rw t (ap (λ r. String.◌∷◌ c r) (span-append n p s))
  | inr t ↦ rw t refl
]

span-every : (n : ℕ) (p : ℕ → Bool) (s : String) → every p (span n p s).0 ≡ true
unfolding span
span-every zero p s = refl
span-every (suc n) p String.[] = refl
span-every (suc n) p (String.◌∷◌ c s) = elim (Bool-cases (p (code c))) [
  | inl t ↦ rw t (rw t (span-every n p s))
  | inr t ↦ rw t refl
]

span-size : (n : ℕ) (p : ℕ → Bool) (s : String) → size (span n p s).0 ≤ n
unfolding span
span-size zero p s = omega arith
span-size (suc n) p String.[] = omega arith
span-size (suc n) p (String.◌∷◌ c s) = elim (Bool-cases (p (code c))) [
  | inl t ↦ rw t (omega (arith, span-size n p s))
  | inr t ↦ rw t (omega arith)
]

-- What a match returns, where its test passes.
pair_of :
    {A B : Type 0} (b : Bool) (a a' : A) (r r' : B)
    → if◌then◌else◌ {A = Option (A × B)} b (some (a, r)) none ≡ some (a', r')
    → (b ≡ true) × (a ≡ a') × (r ≡ r')
pair_of {A} {B} true a a' r r' h =
    let e = some-injective _ _ h in (refl, ap (λ (x : A × B). x.0) e, ap (λ (x : A × B). x.1) e)
pair_of false a a' r r' h = (cc, cc, cc)

pub match_step-id :
    (s step rest : String)
    → match_step s ≡ some (step, rest)
    → (is_step_id step ≡ true) × (size step ≤ 64) × (s ≡ append step rest)
unfolding match_step
match_step-id String.[] step rest h = (cc, cc, cc)
match_step-id (String.◌∷◌ c s) step rest h =
    let (t, e, e') = pair_of (is_letter (code c)) _ step _ rest h in
    let every_char = span-every 63 is_id_char s in
    let short = span-size 63 is_id_char s in
    rw (← e, ← e')
      (
        ap₂ (λ a b. a && b) t every_char,
        omega (arith, short),
        ap (λ r. String.◌∷◌ c r) (sym (span-append 63 is_id_char s)),
      )

pub match_name-fields :
    (s : String) (seg : Segment) (rest : String)
    → match_name s ≡ some (seg, rest)
    → (k : String) × (seg ≡ Segment.name k)
      × (is_name k ≡ true)
      × (size k ≤ 64)
      × (s ≡ append k rest)
unfolding match_name
match_name-fields String.[] seg rest h = (String.[], cc, cc, cc, cc)
match_name-fields (String.◌∷◌ c s) seg rest h =
    let (t, e, e') = pair_of (is_letter (code c) || code c == b'_') _ seg _ rest h in
    let every_char = span-every 63 is_word s in
    let short = span-size 63 is_word s in
    (
      String.◌∷◌ c (span 63 is_word s).0,
      sym e,
      ap₂ (λ a b. a && b) t every_char,
      omega (arith, short),
      rw (← e') (ap (λ r. String.◌∷◌ c r) (sym (span-append 63 is_word s))),
    )

module _ (digit_of : ℕ → Option ℕ) where
  abbrev pub IsItem : String → Segment → String → Type 0
  IsItem s seg rest =
      (right : Prim.Native.Char.Char) × (digits : String) × (seg
        ≡ Segment.index (value_of digit_of 0 digits))
      × ((code right == b']') ≡ true)
      × (every (is_digit digit_of) digits ≡ true)
      × (0 < size digits)
      × (size digits ≤ 6)
      × (s ≡ append digits (String.◌∷◌ right rest))

  closes-fields :
      (s digits more : String) (seg : Segment) (rest : String)
      → every (is_digit digit_of) digits ≡ true
      → size digits ≤ 6
      → append digits more ≡ s
      → Refs.closes digit_of digits more ≡ some (seg, rest)
      → IsItem s seg rest
  closes-fields s String.[] more seg rest h k j m = cc (m)
  closes-fields s (String.◌∷◌ d ds) String.[] seg rest h k j m = cc (m)
  closes-fields s (String.◌∷◌ d ds) (String.◌∷◌ c more) seg rest h k j m =
      let (t, e, e') = pair_of (code c == b']') _ seg more rest m in
      (c, String.◌∷◌ d ds, sym e, t, h, omega arith, k, rw (← e') (sym j))

  pub match_index-fields :
      (s : String) (seg : Segment) (rest : String)
      → match_index digit_of s ≡ some (seg, rest)
      → IsItem s seg rest
  unfolding match_index
  match_index-fields s seg rest h =
      closes-fields s (span 6 (is_digit digit_of) s).0 (span 6 (is_digit digit_of) s).1 seg rest
        (span-every 6 (is_digit digit_of) s) (span-size 6 (is_digit digit_of) s)
        (span-append 6 (is_digit digit_of) s) h
