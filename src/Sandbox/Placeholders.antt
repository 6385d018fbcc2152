-- ===== src/Sandbox/Placeholders.antt =====
-- The fuel of the scan for placeholders in an effect's template.
use Prim.Native.Char.{code}
use evalai.Base.{
  ℕ, zero, suc, ◌≤◌, ◌||◌, String, Bool, true, false, Option, none, some, List, ◌≡◌, refl, ap,
  subst, inl, inr, arith, ◌==◌, nat_eq, if◌then◌else◌, Bool-cases, Option-cases,
}
use evalai.Base.Json.{Json, Fields}
use evalai.Base.Text.{str_append}
use evalai.Refs.{between, size, span}
use evalai.Sandbox.{match_place, substitute, is_place, closed, shown}

span_rest : (n : ℕ) (p : ℕ → Bool) (s : String) → size (span n p s).1 ≤ size s
unfolding span
span_rest zero p s = omega arith
span_rest (suc n) p String.[] = omega arith
span_rest (suc n) p (String.◌∷◌ c s) = elim (Bool-cases (p (code c))) [
  | inl t ↦ rw t (omega (arith, span_rest n p s))
  | inr f ↦ rw f (omega arith)
]

rest_of : Option (String × String) → String
rest_of none = ""
rest_of (some (name, rest)) = rest

closed_rest : (word s name rest : String) → closed word s ≡ some (name, rest) → size rest ≤ size s
unfolding rest_of
closed_rest word String.[] name rest h = cc h
closed_rest word (String.◌∷◌ c s) name rest h = elim (Bool-cases (code c == b'}')) [
  | inl t ↦
      let k : some (word, s) ≡ some (name, rest) = rw t at h in
      let e : s ≡ rest = ap (λ o. rest_of o) k in within s rest e
  | inr f ↦ let k : none ≡ some (name, rest) = rw f at h in cc k
]
  where
    within : (s rest : String) → s ≡ rest → size rest ≤ suc (size s)
    within s rest e = subst (λ r. size r ≤ suc (size s)) e (omega arith)

match_place-shrinks :
    (s name rest : String) → match_place s ≡ some (name, rest) → size rest ≤ size s
unfolding match_place
match_place-shrinks String.[] name rest h = cc h
match_place-shrinks (String.◌∷◌ c s) name rest h =
    elim (Bool-cases (between b'a' b'z' (code c) || code c == b'_')) [
      | inl t ↦
          let more = span 63 is_place s in
          let less = closed_rest (String.◌∷◌ c more.0) more.1 name rest (rw t at h) in
          omega (arith, less, span_rest 63 is_place s)
      | inr f ↦ let k : none ≡ some (name, rest) = rw f at h in cc k
    ]

module _ (schema_errors : Fields → Fields → List String) (same : Json → Json → Bool)
    (show : Json → String) where
  -- The fuel that `format_effect` gives, the size of the template, is enough: more of it changes nothing.
  pub substitute-fuel :
      (fuel more : ℕ) (arguments : Fields) (s : String)
      → size s ≤ fuel
      → size s ≤ more
      → substitute schema_errors same show fuel arguments s
        ≡ substitute schema_errors same show more arguments s
  unfolding substitute
  substitute-fuel zero zero arguments String.[] h k = refl
  substitute-fuel zero (suc more) arguments String.[] h k = refl
  substitute-fuel (suc fuel) zero arguments String.[] h k = refl
  substitute-fuel (suc fuel) (suc more) arguments String.[] h k = refl
  substitute-fuel zero more arguments (String.◌∷◌ c s) h k = absurd (omega arith)
  substitute-fuel (suc fuel) zero arguments (String.◌∷◌ c s) h k = absurd (omega arith)
  substitute-fuel (suc fuel) (suc more) arguments (String.◌∷◌ c s) h k =
      let rest_same = substitute-fuel fuel more arguments s (omega arith) (omega arith) in
      elim (Option-cases (if code c == b'{' then match_place s else none)) [
        | inl n ↦ rw (n, substitute) (ap (λ t. String.◌∷◌ c t) rest_same)
        | inr ((name, rest), n) ↦
            let less : size rest ≤ size s = place (code c == b'{') rest name n in
            rw (n, substitute)
              (ap (λ t. str_append (shown schema_errors same show arguments name) t)
                (substitute-fuel fuel more arguments rest (omega (arith, less))
                  (omega (arith, less))))
      ]
    where
      place :
          (b : Bool) (rest name : String)
          → (if b then match_place s else none) ≡ some (name, rest)
          → size rest ≤ size s
      place true rest name e = match_place-shrinks s name rest e
      place false rest name e = cc e
