-- ===== src/Base/Table.antt =====
-- A database table as the list of its rows in the order of insertion. The rows that a session
-- changes are written back by their primary key.
use Prim.Native.Nat.{ℕ, ◌+◌}
use mathlib.Core.Path.{◌≡◌, refl, subst}
use mathlib.Core.Logic.{◌≢◌, inl, inr}
use mathlib.Core.Bool.{Bool, true}
use mathlib.Core.Option.{Option, none, some}
use mathlib.Core.List.{List, [], ◌∷◌, ◌++◌, map}
use native.Mathlib.Omega.{arith}
use evalai.Base.Tests.{if◌then◌else◌, ◌==◌, nat_eq, Bool-cases}
use evalai.Base.Lists.{All, count, filter}

module _ {Row : Type 0} (key : Row → ℕ) where
  -- `session.get(Row, id)`
  abbrev pub get : ℕ → List Row → Option Row
  get i [] = none
  get i (r ∷ rs) = if key r == i then some r else get i rs

  -- The flush of a changed row: it replaces the row with its key.
  abbrev pub set : Row → List Row → List Row
  set x [] = []
  set x (r ∷ rs) = if key r == key x then x ∷ rs else r ∷ set x rs

  pub All-get :
      (P : Row → Type 0) (i : ℕ) (rs : List Row) (r : Row) → All P rs → get i rs ≡ some r → P r
  All-get P i [] r h e = cc
  All-get P i (x ∷ rs) r h e = elim (Bool-cases (key x == i)) [
    | inl t ↦ let same : x ≡ r = ground arith in subst P same h.0
    | inr f ↦ All-get P i rs r h.1 (ground arith)
  ]

  pub All-set : (P : Row → Type 0) (x : Row) (rs : List Row) → All P rs → P x → All P (set x rs)
  All-set P x [] h p = tt
  All-set P x (r ∷ rs) h p = elim (Bool-cases (key r == key x)) [
    | inl t ↦ rw t (p, h.1)
    | inr f ↦ rw f (h.0, All-set P x rs h.1 p)
  ]

  pub key-get : (i : ℕ) (rs : List Row) (r : Row) → get i rs ≡ some r → key r ≡ i
  key-get i [] r e = cc
  key-get i (x ∷ rs) r e = elim (Bool-cases (key x == i)) [
    | inl t ↦ ground arith
    | inr f ↦ key-get i rs r (ground arith)
  ]

  -- What a session reads after a write: the row written, where there is a row with its key.
  pub get-set_self :
      (x : Row) (rs : List Row) (r : Row)
      → get (key x) rs ≡ some r
      → get (key x) (set x rs) ≡ some x
  get-set_self x [] r e = cc
  get-set_self x (y ∷ rs) r e = elim (Bool-cases (key y == key x)) [
    | inl t ↦ rw t (ground arith)
    | inr f ↦ rw f (rw f (get-set_self x rs r (ground arith)))
  ]

  pub get-set_ne : (i : ℕ) (x : Row) (rs : List Row) → key x ≢ i → get i (set x rs) ≡ get i rs
  get-set_ne i x [] h = refl
  get-set_ne i x (y ∷ rs) h = elim (Bool-cases (key y == key x)) [
    | inl t ↦ rw t (ground arith)
    | inr f ↦ rw f (ground (arith, get-set_ne i x rs h))
  ]

  -- A count changes by what the written row contributes more or less than the old one.
  pub count-set :
      (p : Row → Bool) (x : Row) (rs : List Row) (r : Row)
      → get (key x) rs ≡ some r
      → count p (set x rs) + (if p r then 1 else 0) ≡ count p rs + (if p x then 1 else 0)
  count-set p x [] r e = cc
  count-set p x (y ∷ rs) r e = elim (Bool-cases (key y == key x)) [
    | inl t ↦ rw t (let same : y ≡ r = ground arith in rw same (ground arith))
    | inr f ↦ rw f (let ih = count-set p x rs r (ground arith) in omega (arith, ih))
  ]

  -- A change of every row that keeps the keys is seen at each key.
  pub get-map :
      (f : Row → Row) (i : ℕ) (rs : List Row) (r : Row)
      → ((x : Row) → key (f x) ≡ key x)
      → get i rs ≡ some r
      → get i (map f rs) ≡ some (f r)
  get-map f i [] r h e = cc
  get-map f i (x ∷ rs) r h e = elim (Bool-cases (key x == i)) [
    | inl t ↦ ground (arith, h x)
    | inr n ↦ ground (arith, h x, get-map f i rs r h (ground arith))
  ]

  pub get-append :
      (i : ℕ) (rs rows : List Row) (r : Row) → get i rs ≡ some r → get i (rs ++ rows) ≡ some r
  get-append i [] rows r h = cc h
  get-append i (x ∷ rs) rows r h = elim (Bool-cases (key x == i)) [
    | inl t ↦ rw t (rw t at h)
    | inr f ↦ rw f (get-append i rs rows r (rw f at h))
  ]

  -- A row that was not deleted is still found.
  pub get-filter :
      (p : Row → Bool) (i : ℕ) (rs : List Row) (r : Row)
      → get i rs ≡ some r
      → p r ≡ true
      → get i (filter p rs) ≡ some r
  get-filter p i [] r h k = cc h
  get-filter p i (x ∷ rs) r h k = elim (Bool-cases (key x == i)) [
    | inl t ↦ let same : x ≡ r = ground arith in rw same (rw k (ground arith))
    | inr f ↦
        let ih = get-filter p i rs r (ground arith) k in
        elim (Bool-cases (p x)) [ inl t ↦ rw t (ground arith) | inr n ↦ rw n ih ]
  ]

  -- A row with a new key is found.
  pub get_new :
      (i : ℕ) (x : Row) (rs : List Row)
      → All (λ r. key r ≢ i) rs
      → key x ≡ i
      → get i (rs ++ x ∷ []) ≡ some x
  get_new i x [] h e = ground arith
  get_new i x (y ∷ rs) h e = let ih = get_new i x rs h.1 e in ground (arith, h.0)
