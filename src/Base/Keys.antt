-- ===== src/Base/Keys.antt =====
-- Primary keys: no two rows of a table have the same key.
use evalai.Base.Table.{get, set}
use evalai.Base.Tests.{◌==◌, nat_eq, Bool-cases}
use evalai.Base.Lists.{All, filter}
use evalai.Base.Predicates.{All-imp, All-both}
use Prim.Native.Nat.{ℕ}
use mathlib.Core.Path.{◌≡◌, refl, ap}
use mathlib.Core.Logic.{◌≢◌, inl, inr}
use mathlib.Core.Bool.{Bool}
use mathlib.Core.Option.{some}
use mathlib.Core.List.{List, [], ◌∷◌, ◌++◌, map}
use native.Mathlib.Omega.{arith}

abbrev pub Distinct : List ℕ → Type 0
Distinct [] = Unit
Distinct (k ∷ ks) = All (λ i. k ≢ i) ks × Distinct ks

module _ {Row : Type 0} (key : Row → ℕ) where
  abbrev pub IsUnique : List Row → Type 0
  IsUnique rs = Distinct (map key rs)

  pub All-of_keys : (P : ℕ → Type 0) (rs : List Row) → All P (map key rs) → All (λ r. P (key r)) rs
  All-of_keys P [] h = tt
  All-of_keys P (r ∷ rs) h = (h.0, All-of_keys P rs h.1)

  -- Each row is the one that its key finds.
  pub All-get_self : (rs : List Row) → IsUnique rs → All (λ r. get key (key r) rs ≡ some r) rs
  All-get_self [] h = tt
  All-get_self (x ∷ rs) h = (
    ground arith,
    All-imp (λ r. (key x ≢ key r) × (get key (key r) rs ≡ some r))
        (λ r. get key (key r) (x ∷ rs) ≡ some r) rs (λ r p. ground arith)
        (All-both (λ r. key x ≢ key r) (λ r. get key (key r) rs ≡ some r) rs
          (All-of_keys (λ i. key x ≢ i) rs h.0) (All-get_self rs h.1)),
  )

  keys-set : (x : Row) (rs : List Row) → map key (set key x rs) ≡ map key rs
  keys-set x [] = refl
  keys-set x (r ∷ rs) = elim (Bool-cases (key r == key x)) [
    | inl t ↦ rw t (let same : key r ≡ key x = ground arith in rw same refl)
    | inr f ↦ rw f (ap (λ l. key r ∷ l) (keys-set x rs))
  ]

  pub set-IsUnique : (x : Row) (rs : List Row) → IsUnique rs → IsUnique (set key x rs)
  set-IsUnique x rs h = rw keys-set h

  keys_map :
      (f : Row → Row) (rs : List Row)
      → ((r : Row) → key (f r) ≡ key r)
      → map key (map f rs) ≡ map key rs
  keys_map f [] h = refl
  keys_map f (r ∷ rs) h = rw (h r) (ap (λ l. key r ∷ l) (keys_map f rs h))

  pub map-IsUnique :
      (f : Row → Row) (rs : List Row)
      → ((r : Row) → key (f r) ≡ key r)
      → IsUnique rs
      → IsUnique (map f rs)
  map-IsUnique f rs h u = rw (keys_map f rs h) u

  fresh-append :
      (P : ℕ → Type 0) (x : Row) (rs : List Row)
      → All P (map key rs)
      → P (key x)
      → All P (map key (rs ++ x ∷ []))
  fresh-append P x [] h p = (p, tt)
  fresh-append P x (r ∷ rs) h p = (h.0, fresh-append P x rs h.1 p)

  pub append-IsUnique :
      (x : Row) (rs : List Row)
      → All (λ r. key r ≢ key x) rs
      → IsUnique rs
      → IsUnique (rs ++ x ∷ [])
  append-IsUnique x [] h u = (tt, tt)
  append-IsUnique x (r ∷ rs) h u =
      (fresh-append (λ i. key r ≢ i) x rs u.0 h.0, append-IsUnique x rs h.1 u.1)

  fresh-filter :
      (P : ℕ → Type 0) (p : Row → Bool) (rs : List Row)
      → All P (map key rs)
      → All P (map key (filter p rs))
  fresh-filter P p [] h = tt
  fresh-filter P p (r ∷ rs) h = elim (Bool-cases (p r)) [
    | inl t ↦ rw t (h.0, fresh-filter P p rs h.1)
    | inr f ↦ rw f (fresh-filter P p rs h.1)
  ]

  pub filter-IsUnique : (p : Row → Bool) (rs : List Row) → IsUnique rs → IsUnique (filter p rs)
  filter-IsUnique p [] u = tt
  filter-IsUnique p (r ∷ rs) u = elim (Bool-cases (p r)) [
    | inl t ↦ rw t (fresh-filter (λ i. key r ≢ i) p rs u.0, filter-IsUnique p rs u.1)
    | inr f ↦ rw f (filter-IsUnique p rs u.1)
  ]
