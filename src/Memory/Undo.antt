-- ===== src/Memory/Undo.antt =====
-- backends/fake.py: `forget` of a retraction takes back what `remember` did.
use evalai.Base.{
  ℕ, true, false, List, [], ◌∷◌, ◌≡◌, ◌≢◌, refl, sym, ap, subst, ◌∙◌, inl, inr, arith, All, ◌==◌,
  nat_eq, string_eq, Bool-cases, map,
}
use evalai.Base.Predicates.{All-imp}
use evalai.Base.Keys.{IsUnique, Distinct, All-of_keys}
use evalai.Memory.{document_eq, FactState, is_valid, Fact, Store, Withdrawn, fact_key}
use evalai.Memory.Remember.{withdraws, withdraw_fact, withdrawn_facts}
use evalai.Memory.Review.{restore_fact, restore_all, is_elsewhere}
use evalai.Memory.Ledger.{core_key}
use evalai.Memory.Sound.{IsSound, IsReasoned, core}
use evalai.Memory.Changes.{elsewhere}

restore_off :
    (id : ℕ) (fs : List Fact) → All (λ (f : Fact). f.id ≢ id) fs → map (restore_fact id) fs ≡ fs
unfolding restore_fact
restore_off id [] h = refl
restore_off id (f ∷ fs) h =
    let k = h.0 in
    let off : (f.id == id) ≡ false = ground arith in
    rw (restore_fact, off) (ap (λ l. f ∷ l) (restore_off id fs h.1))

restore_all-cons :
    (ws : List Withdrawn) (f : Fact) (fs : List Fact)
    → All (λ (w : Withdrawn). w.id ≢ f.id) ws
    → restore_all ws (f ∷ fs) ≡ f ∷ restore_all ws fs
unfolding restore_all restore_fact
restore_all-cons [] f fs h = refl
restore_all-cons (w ∷ ws) f fs h =
    let k = h.0 in
    let off : (f.id == w.id) ≡ false = ground arith in
    rw (restore_all, off) (restore_all-cons ws f (map (restore_fact w.id) fs) h.1)

-- The facts that fell are among the others.
withdrawn-apart :
    (t k : ℕ) (fs : List Fact)
    → All (λ (f : Fact). f.id ≢ k) fs
    → All (λ (w : Withdrawn). w.id ≢ k) (withdrawn_facts t fs)
unfolding withdrawn_facts
withdrawn-apart t k [] h = tt
withdrawn-apart t k (f ∷ fs) h = elim (Bool-cases (withdraws t f)) [
  | inl w ↦ rw w (h.0, withdrawn-apart t k fs h.1)
  | inr n ↦ rw n (withdrawn-apart t k fs h.1)
]

withdraw-apart :
    (t by k : ℕ) (fs : List Fact)
    → All (λ (f : Fact). f.id ≢ k) fs
    → All (λ (f : Fact). f.id ≢ k) (map (withdraw_fact t by) fs)
unfolding withdraw_fact
withdraw-apart t by k [] h = tt
withdraw-apart t by k (f ∷ fs) h = elim (Bool-cases (withdraws t f)) [
  | inl w ↦ rw (withdraw_fact, w) (h.0, withdraw-apart t by k fs h.1)
  | inr n ↦ rw (withdraw_fact, n) (h.0, withdraw-apart t by k fs h.1)
]

restored :
    (t by : ℕ) (f : Fact)
    → withdraws t f ≡ true
    → IsReasoned f
    → restore_fact f.id (withdraw_fact t by f) ≡ f
unfolding restore_fact withdraw_fact withdraws
restored t by f w r =
    let stands : is_valid f.state ≡ true = ground arith in
    let valid : f.state ≡ FactState.valid = ground arith in
    rw (withdraw_fact, w)
      (rw (restore_fact, (nat_eq.is_same_iff f.id f.id).1 refl)
        (λ i. record f { state = sym valid i; invalidation_reason = sym (r stands) i }))

pub restore_all-withdraw :
    (t by : ℕ) (fs : List Fact)
    → IsUnique fact_key fs
    → All IsReasoned fs
    → restore_all (withdrawn_facts t fs) (map (withdraw_fact t by) fs) ≡ fs
unfolding withdrawn_facts restore_all withdraw_fact
restore_all-withdraw t by [] u r = refl
restore_all-withdraw t by (f ∷ fs) u r =
    let apart : All (λ (g : Fact). g.id ≢ f.id) fs =
      All-imp (λ (g : Fact). f.id ≢ g.id) (λ (g : Fact). g.id ≢ f.id) fs (λ g k e. k (sym e))
        (All-of_keys fact_key (λ i. f.id ≢ i) fs u.0) in
    let others = ap (λ l. f ∷ l) (restore_all-withdraw t by fs u.1 r.1) in
    let front =
      restore_all-cons (withdrawn_facts t fs) f (map (withdraw_fact t by) fs)
        (withdrawn-apart t f.id fs apart) in
    elim (Bool-cases (withdraws t f)) [
      | inl w ↦
          let first : withdrawn_facts t (f ∷ fs)
              ≡ record { id = f.id; text = f.text } ∷ withdrawn_facts t fs =
            rw (withdrawn_facts, w) refl in
          ap (λ ws. restore_all ws (map (withdraw_fact t by) (f ∷ fs))) first
          ∙ ap
              (λ g.
                restore_all (withdrawn_facts t fs)
                  (g ∷ map (restore_fact f.id) (map (withdraw_fact t by) fs)))
              (restored t by f w r.0)
          ∙ ap (λ l. restore_all (withdrawn_facts t fs) (f ∷ l))
              (restore_off f.id (map (withdraw_fact t by) fs) (withdraw-apart t by f.id fs apart))
          ∙ front
          ∙ others
      | inr n ↦
          let none_first : withdrawn_facts t (f ∷ fs) ≡ withdrawn_facts t fs =
            rw (withdrawn_facts, n) refl in
          let same : withdraw_fact t by f ≡ f = rw (withdraw_fact, n) refl in
          ap (λ ws. restore_all ws (map (withdraw_fact t by) (f ∷ fs))) none_first
          ∙ ap (λ g. restore_all (withdrawn_facts t fs) (g ∷ map (withdraw_fact t by) fs)) same
          ∙ front
          ∙ others
    ]

pub facts-IsUnique : (s : Store) → IsSound s → IsUnique fact_key s.facts
unfolding core
facts-IsUnique s h = subst Distinct (keys s.facts) h.ledger.facts_unique
  where
    keys : (fs : List Fact) → map core_key (map core fs) ≡ map fact_key fs
    keys [] = refl
    keys (f ∷ fs) = ap (λ l. f.id ∷ l) (keys fs)

pub elsewhere_facts :
    (id : ℕ) (fs : List Fact)
    → All (λ c. elsewhere id c ≡ true) (map core fs)
    → All (λ f. is_elsewhere id f ≡ true) fs
unfolding core is_elsewhere
elsewhere_facts id [] h = tt
elsewhere_facts id (f ∷ fs) h = (h.0, elsewhere_facts id fs h.1)
