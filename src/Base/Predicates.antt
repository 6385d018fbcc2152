-- ===== src/Base/Predicates.antt =====
-- Lemmas on predicates that hold of every element of a list.
use Prim.Native.Nat.{ℕ, zero, suc, ◌+◌, ◌≤◌}
use mathlib.Core.Path.{◌≡◌, refl, sym, ap, subst, ◌∙◌}
use mathlib.Core.Logic.{inl, inr}
use mathlib.Core.Bool.{Bool, true, false, false≢true, ◌||◌}
use mathlib.Core.List.{List, [], ◌∷◌, ◌++◌, map, Memᴰ}
use native.Mathlib.Omega.{arith}
use evalai.Base.Tests.{Bool-cases}
use evalai.Base.Lists.{All, any, filter, take, length, count}

module _ {ℓ} {A : Type ℓ} where
  pub All-imp {κ} : (P Q : A → Type κ) (xs : List A) → ((x : A) → P x → Q x) → All P xs → All Q xs
  All-imp P Q [] f h = tt
  All-imp P Q (x ∷ xs) f h = (f x h.0, All-imp P Q xs f h.1)

  pub All-Memᴰ {κ} : (P : A → Type κ) {x : A} {xs : List A} → Memᴰ x xs → All P xs → P x
  All-Memᴰ P (Memᴰ.head e) h = subst P (sym e) h.0
  All-Memᴰ P (Memᴰ.tail m) h = All-Memᴰ P m h.1

  pub All-both {κ} :
      (P Q : A → Type κ) (xs : List A) → All P xs → All Q xs → All (λ x. P x × Q x) xs
  All-both P Q [] h k = tt
  All-both P Q (x ∷ xs) h k = ((h.0, k.0), All-both P Q xs h.1 k.1)

  pub All-append {κ} : (P : A → Type κ) (xs ys : List A) → All P xs → All P ys → All P (xs ++ ys)
  All-append P [] ys h k = k
  All-append P (x ∷ xs) ys h k = (h.0, All-append P xs ys h.1 k)

  pub All-filter {κ} :
      (P : A → Type κ) (p : A → Bool) (xs : List A) → All P xs → All P (filter p xs)
  All-filter P p [] h = tt
  All-filter P p (x ∷ xs) h = elim (Bool-cases (p x)) [
    | inl t ↦ rw t (h.0, All-filter P p xs h.1)
    | inr f ↦ rw f (All-filter P p xs h.1)
  ]

  -- What `filter` keeps passes the test.
  pub filter_passes : (p : A → Bool) (xs : List A) → All (λ x. p x ≡ true) (filter p xs)
  filter_passes p [] = tt
  filter_passes p (x ∷ xs) = elim (Bool-cases (p x)) [
    | inl t ↦ rw t (t, filter_passes p xs)
    | inr f ↦ rw f (filter_passes p xs)
  ]

  -- What holds of all that `filter` keeps holds of each element that passes.
  pub All-of_filter {κ} :
      (P : A → Type κ) (p : A → Bool) (xs : List A)
      → All P (filter p xs)
      → All (λ x. p x ≡ true → P x) xs
  All-of_filter P p [] h = tt
  All-of_filter P p (x ∷ xs) h = elim (Bool-cases (p x)) [
    | inl t ↦ let k = rw t at h in ((λ _. k.0), All-of_filter P p xs k.1)
    | inr f ↦ ((λ t. absurd (false≢true (sym f ∙ t))), All-of_filter P p xs (rw f at h))
  ]

  pub All-take {κ} : (P : A → Type κ) (n : ℕ) (xs : List A) → All P xs → All P (take n xs)
  All-take P zero xs h = tt
  All-take P (suc n) [] h = tt
  All-take P (suc n) (x ∷ xs) h = (h.0, All-take P n xs h.1)

  pub take_all : (n : ℕ) (xs : List A) → length xs ≤ n → take n xs ≡ xs
  take_all zero [] h = refl
  take_all zero (x ∷ xs) h = absurd (omega arith)
  take_all (suc n) [] h = refl
  take_all (suc n) (x ∷ xs) h = ap (λ l. x ∷ l) (take_all n xs (omega arith))

  pub All-map {κ} :
      (P : A → Type κ) (f : A → A) (xs : List A)
      → ((x : A) → P x → P (f x))
      → All P xs
      → All P (map f xs)
  All-map P f [] h k = tt
  All-map P f (x ∷ xs) h k = (h x k.0, All-map P f xs h k.1)

  pub count-le-map :
      (p : A → Bool) (f : A → A) (xs : List A)
      → ((x : A) → p (f x) ≡ true → p x ≡ true)
      → count p (map f xs) ≤ count p xs
  count-le-map p f [] h = omega arith
  count-le-map p f (x ∷ xs) h = ground (arith, h x, count-le-map p f xs h)

  pub count-map :
      (p : A → Bool) (f : A → A) (xs : List A)
      → ((x : A) → p (f x) ≡ p x)
      → count p (map f xs) ≡ count p xs
  count-map p f [] h = refl
  count-map p f (x ∷ xs) h = rw (h x, count-map p f xs h) refl

  pub count-none :
      (p : A → Bool) (f : A → A) (xs : List A)
      → ((x : A) → p (f x) ≡ false)
      → count p (map f xs) ≡ 0
  count-none p f [] h = refl
  count-none p f (x ∷ xs) h = rw (h x, count-none p f xs h) (omega arith)

  pub count-zero : (p : A → Bool) (xs : List A) → count p xs ≡ 0 → All (λ x. p x ≡ false) xs
  count-zero p [] h = tt
  count-zero p (x ∷ xs) h = (ground arith, count-zero p xs (ground arith))

  pub count-append : (p : A → Bool) (xs ys : List A) → count p (xs ++ ys) ≡ count p xs + count p ys
  count-append p [] ys = omega arith
  count-append p (x ∷ xs) ys = omega (arith, count-append p xs ys)

  pub any-append : (p : A → Bool) (xs ys : List A) → any p (xs ++ ys) ≡ (any p xs || any p ys)
  any-append p [] ys = refl
  any-append p (x ∷ xs) ys = ground (arith, any-append p xs ys)

  pub any-map {κ} :
      {B : Type κ} (p : A → Bool) (q : B → Bool) (f : B → A) (xs : List B)
      → ((x : B) → p (f x) ≡ q x)
      → any p (map f xs) ≡ any q xs
  any-map p q f [] h = refl
  any-map p q f (x ∷ xs) h = rw (h x, any-map p q f xs h) refl

  pub any-false : (p : A → Bool) (xs : List A) → ((x : A) → p x ≡ false) → any p xs ≡ false
  any-false p [] h = refl
  any-false p (x ∷ xs) h = rw (h x) (any-false p xs h)

  pub filter_all : (p : A → Bool) (xs : List A) → All (λ x. p x ≡ true) xs → filter p xs ≡ xs
  filter_all p [] h = refl
  filter_all p (x ∷ xs) h = rw (h.0, filter_all p xs h.1) refl

  -- A count is not changed by dropping what it does not count.
  pub count-filter :
      (p q : A → Bool) (xs : List A)
      → ((x : A) → p x ≡ true → q x ≡ true)
      → count p (filter q xs) ≡ count p xs
  count-filter p q [] h = refl
  count-filter p q (x ∷ xs) h = ground (arith, h x, count-filter p q xs h)

  pub count_none : (p : A → Bool) (xs : List A) → All (λ x. p x ≡ false) xs → count p xs ≡ 0
  count_none p [] h = refl
  count_none p (x ∷ xs) h = let ih = count_none p xs h.1 in ground (arith, h.0)

  -- A view of the elements that a change does not touch
  pub map_same {κ} :
      {B : Type κ} (f : A → B) (g : A → A) (xs : List A)
      → ((x : A) → f (g x) ≡ f x)
      → map f (map g xs) ≡ map f xs
  map_same f g [] h = refl
  map_same f g (x ∷ xs) h = rw (h x, map_same f g xs h) refl

  pub map-filter {κ} :
      {B : Type κ} (f : A → B) (p : A → Bool) (q : B → Bool) (xs : List A)
      → ((x : A) → q (f x) ≡ p x)
      → map f (filter p xs) ≡ filter q (map f xs)
  map-filter f p q [] h = refl
  map-filter f p q (x ∷ xs) h = elim (Bool-cases (p x)) [
    | inl t ↦ rw (h x, t) (ap (λ l. f x ∷ l) (map-filter f p q xs h))
    | inr n ↦ rw (h x, n) (map-filter f p q xs h)
  ]

  pub All-map_view {κ μ} :
      {B : Type κ} (P : B → Type μ) (f : A → B) (xs : List A)
      → All (λ x. P (f x)) xs
      → All P (map f xs)
  All-map_view P f [] h = tt
  All-map_view P f (x ∷ xs) h = (h.0, All-map_view P f xs h.1)

  pub filter_last :
      (p : A → Bool) (xs : List A) (y : A)
      → All (λ x. p x ≡ true) xs
      → p y ≡ false
      → filter p (xs ++ y ∷ []) ≡ xs
  filter_last p [] y h k = rw k refl
  filter_last p (x ∷ xs) y h k = rw h.0 (ap (λ l. x ∷ l) (filter_last p xs y h.1 k))

  pub length-map {κ} : {B : Type κ} (f : A → B) (xs : List A) → length (map f xs) ≡ length xs
  length-map f [] = refl
  length-map f (x ∷ xs) = ap suc (length-map f xs)
