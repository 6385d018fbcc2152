-- ===== src/Jobs/Order.antt =====
-- ORDER BY of `claim_next`: the order of the queue is total, and the sorted list is sorted and has
-- the same rows.
use evalai.Base.{suc, true, ◌≡◌, refl, ◌⊎◌, inl, inr, List, [], ◌∷◌, arith, All, length, Bool-cases}
use evalai.Base.Predicates.{All-imp}
use evalai.Jobs.{Job, before, insert_ordered, order_by}

pub before_refl : (a : Job) → before a a ≡ true
unfolding before
before_refl a = ground arith

pub before_total : (a b : Job) → (before a b ≡ true) ⊎ (before b a ≡ true)
unfolding before
before_total a b = ground arith

pub before_trans : (a b c : Job) → before a b ≡ true → before b c ≡ true → before a c ≡ true
unfolding before
before_trans a b c h k = ground arith

abbrev pub IsOrdered : List Job → Type 0
IsOrdered [] = Unit
IsOrdered (x ∷ xs) = All (λ y. before x y ≡ true) xs × IsOrdered xs

module _ (P : Job → Type 0) where
  pub All-insert : (x : Job) (ys : List Job) → P x → All P ys → All P (insert_ordered x ys)
  unfolding insert_ordered
  All-insert x [] p h = (p, tt)
  All-insert x (y ∷ ys) p h = elim (Bool-cases (before x y)) [
    | inl t ↦ rw t (p, h)
    | inr f ↦ rw f (h.0, All-insert x ys p h.1)
  ]

  pub All-of_insert : (x : Job) (ys : List Job) → All P (insert_ordered x ys) → P x × All P ys
  unfolding insert_ordered
  All-of_insert x [] h = h
  All-of_insert x (y ∷ ys) h = elim (Bool-cases (before x y)) [
    | inl t ↦ rw t at h
    | inr f ↦ let k = rw f at h in let r = All-of_insert x ys k.1 in (r.0, (k.0, r.1))
  ]

  pub All-order_by : (xs : List Job) → All P xs → All P (order_by xs)
  unfolding order_by
  All-order_by [] h = tt
  All-order_by (x ∷ xs) h = All-insert x (order_by xs) h.0 (All-order_by xs h.1)

  pub All-of_order_by : (xs : List Job) → All P (order_by xs) → All P xs
  unfolding order_by
  All-of_order_by [] h = tt
  All-of_order_by (x ∷ xs) h =
      let r = All-of_insert x (order_by xs) h in (r.0, All-of_order_by xs r.1)

insert-IsOrdered : (x : Job) (ys : List Job) → IsOrdered ys → IsOrdered (insert_ordered x ys)
unfolding insert_ordered
insert-IsOrdered x [] h = (tt, tt)
insert-IsOrdered x (y ∷ ys) h = elim (Bool-cases (before x y)) [
  | inl t ↦ rw t (
    (
      t,
      All-imp (λ z. before y z ≡ true) (λ z. before x z ≡ true) ys (λ z p. before_trans x y z t p)
          h.0,
    ),
    h,
  )
  | inr f ↦ rw f (
    All-insert (λ z. before y z ≡ true) x ys (ground (arith, before_total x y)) h.0,
    insert-IsOrdered x ys h.1,
  )
]

pub order_by-IsOrdered : (xs : List Job) → IsOrdered (order_by xs)
unfolding order_by
order_by-IsOrdered [] = tt
order_by-IsOrdered (x ∷ xs) = insert-IsOrdered x (order_by xs) (order_by-IsOrdered xs)

length-insert : (x : Job) (ys : List Job) → length (insert_ordered x ys) ≡ suc (length ys)
unfolding insert_ordered
length-insert x [] = refl
length-insert x (y ∷ ys) = elim (Bool-cases (before x y)) [
  | inl t ↦ rw t
  | inr f ↦ rw f (omega (arith, length-insert x ys))
]

pub length-order_by : (xs : List Job) → length (order_by xs) ≡ length xs
unfolding order_by
length-order_by [] = refl
length-order_by (x ∷ xs) = omega (arith, length-insert x (order_by xs), length-order_by xs)
