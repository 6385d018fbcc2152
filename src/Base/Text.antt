-- ===== src/Base/Text.antt =====
-- Python's text operations on the native strings.
use Prim.Native.String.{String}
pub use Prim.Native.String.{◌++◌ as str_append}
use Prim.Native.Nat.{ℕ, zero, suc, ◌+◌, ◌/◌, ◌%◌}
use evalai.Base.Tests.{ltb, if◌then◌else◌, ◌==◌, nat_eq}
use Prim.Native.Char.{code}
use mathlib.Core.Path.{◌≡◌, refl}
use mathlib.Core.Bool.{Bool, true, false}
use native.Mathlib.Omega.{arith}
use mathlib.Core.Option.{Option, none, some}
use mathlib.Core.List.{List, [], ◌∷◌}

-- `s + t`, by the characters of `s`
abbrev pub append : String → String → String
append String.[] t = t
append (String.◌∷◌ c s) t = String.◌∷◌ c (append s t)

abbrev pub starts : String → String → Bool
starts String.[] t = true
starts (String.◌∷◌ c s) String.[] = false
starts (String.◌∷◌ c s) (String.◌∷◌ d t) = if code c == code d then starts s t else false

-- `s in t`
abbrev pub has_text : String → String → Bool
has_text s String.[] = starts s String.[]
has_text s (String.◌∷◌ c t) = if starts s (String.◌∷◌ c t) then true else has_text s t

starts-append : (s t u : String) → starts s t ≡ true → starts s (append t u) ≡ true
starts-append String.[] t u h = refl
starts-append (String.◌∷◌ c s) String.[] u h = cc h
starts-append (String.◌∷◌ c s) (String.◌∷◌ d t) u h = ground (arith, starts-append s t u)

pub has_text-prefix : (s t u : String) → has_text s t ≡ true → has_text s (append t u) ≡ true
has_text-prefix String.[] String.[] String.[] h = refl
has_text-prefix String.[] String.[] (String.◌∷◌ d u) h = refl
has_text-prefix (String.◌∷◌ c s) String.[] u h = cc h
has_text-prefix s (String.◌∷◌ c t) u h =
    ground (arith, starts-append s (String.◌∷◌ c t) u, has_text-prefix s t u)

-- A text that occurs in a part occurs in the whole.
pub has_text-append : (s t u : String) → has_text s u ≡ true → has_text s (append t u) ≡ true
has_text-append s String.[] u h = h
has_text-append s (String.◌∷◌ c t) u h = ground (arith, has_text-append s t u)

-- `sep.join(parts)`
abbrev pub join : String → List String → String
join sep [] = ""
join sep (s ∷ []) = s
join sep (s ∷ t ∷ ts) = str_append s (str_append sep (join sep (t ∷ ts)))

-- An optional text in an f-string.
abbrev pub text_or_none : Option String → String
text_or_none none = "None"
text_or_none (some s) = s

digit : ℕ → String
digit zero = "0"
digit (suc zero) = "1"
digit (suc (suc zero)) = "2"
digit (suc (suc (suc zero))) = "3"
digit (suc (suc (suc (suc zero)))) = "4"
digit (suc (suc (suc (suc (suc zero))))) = "5"
digit (suc (suc (suc (suc (suc (suc zero)))))) = "6"
digit (suc (suc (suc (suc (suc (suc (suc zero))))))) = "7"
digit (suc (suc (suc (suc (suc (suc (suc (suc zero)))))))) = "8"
digit (suc (suc (suc (suc (suc (suc (suc (suc (suc n))))))))) = "9"

-- Each round divides by ten, so n + 1 rounds print n.
decimal_rounds : ℕ → ℕ → String
decimal_rounds zero n = ""
decimal_rounds (suc f) n =
    let rest = decimal_rounds f (n / 10) in
    if ltb n 10 then digit n else str_append rest (digit (n % 10))

-- `str(n)`
unfoldable pub decimal : ℕ → String
unfolding digit decimal_rounds
decimal n = decimal_rounds (n + 1) n
