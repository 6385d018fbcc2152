-- ===== src/Memory/Replayed.antt =====
-- The facts that a rebuild starts from: one for each event that is to give one, in the order of the log.
use evalai.Base.{
  ℕ, ◌+◌, ◌≤◌, ◌<◌, false, none, some, List, [], ◌∷◌, ◌≡◌, ◌≢◌, refl, sym, ap, subst, ◌∙◌, inl, inr,
  arith, All, ◌==◌, nat_eq, Bool-cases, Option-cases, map, count, length,
}
use evalai.Base.Predicates.{All-imp, All-both, count_none}
use evalai.Base.Table.{get}
use evalai.Base.Keys.{IsUnique, All-get_self, All-of_keys}
use evalai.Memory.{Document, document_eq, same_document_iff, fact_text}
use evalai.Memory.Ledger.{
  Outline, Core, outline_key, core_key, event_of, of_document, IsBackedBy, IsOnce, IsNamed,
  IsLedger,
}

abbrev pub core_from : ℕ → Outline → Document → Core
core_from m o d = record { id = m; text = fact_text o.text; document_id = d }

abbrev pub made : ℕ → List Outline → List Core
made m [] = []
made m (o ∷ os) = elim o.source [ none ↦ made m os | some d ↦ core_from m o d ∷ made (m + 1) os ]

made-above : (m k : ℕ) (os : List Outline) → k ≤ m → All (λ c. k ≤ c.id) (made m os)
made-above m k [] h = tt
made-above m k (o ∷ os) h = elim (Option-cases o.source) [
  | inl e ↦ rw e (made-above m k os h)
  | inr (d, e) ↦ rw e (h, made-above (m + 1) k os (omega arith))
]

made-below : (m : ℕ) (os : List Outline) → All (λ c. c.id < m + length (made m os)) (made m os)
made-below m [] = tt
made-below m (o ∷ os) = elim (Option-cases o.source) [
  | inl e ↦ rw e (made-below m os)
  | inr (d, e) ↦ rw e (
    omega arith,
    All-imp (λ c. c.id < (m + 1) + length (made (m + 1) os))
        (λ c. c.id < m + length (core_from m o d ∷ made (m + 1) os)) (made (m + 1) os)
        (λ c k. omega (arith, k)) (made-below (m + 1) os),
  )
]

made-IsUnique : (m : ℕ) (os : List Outline) → IsUnique core_key (made m os)
made-IsUnique m [] = tt
made-IsUnique m (o ∷ os) = elim (Option-cases o.source) [
  | inl e ↦ rw e (made-IsUnique m os)
  | inr (d, e) ↦ rw e (
    apart (made (m + 1) os) (made-above (m + 1) (m + 1) os (omega arith)),
    made-IsUnique (m + 1) os,
  )
]
  where
    apart : (cs : List Core) → All (λ c. m + 1 ≤ c.id) cs → All (λ i. m ≢ i) (map core_key cs)
    apart [] h = tt
    apart (c ∷ cs) h = ((λ e. let l = h.0 in absurd (omega arith)), apart cs h.1)

-- What holds of each fact that one event gives holds of all.
made-All :
    (P : Core → Type 0) (m : ℕ) (os : List Outline)
    → All (λ o. (k : ℕ) (d : Document) → o.source ≡ some d → P (core_from k o d)) os
    → All P (made m os)
made-All P m [] h = tt
made-All P m (o ∷ os) h = elim (Option-cases o.source) [
  | inl e ↦ rw e (made-All P m os h.1)
  | inr (d, e) ↦ rw e (h.0 m d e, made-All P (m + 1) os h.1)
]

-- Other events give no fact of this document.
count-made_none :
    (d : Document) (m : ℕ) (os : List Outline)
    → All (λ o. o.source ≢ some d) os
    → count (of_document d) (made m os) ≡ 0
count-made_none d m os h = count_none (of_document d) (made m os) (
    made-All (λ c. of_document d c ≡ false) m os
      (All-imp (λ o. o.source ≢ some d)
        (λ o.
          (k : ℕ) (d' : Document) → o.source ≡ some d' → of_document d (core_from k o d') ≡ false)
        os
        (λ o other k d' e. elim (Bool-cases (of_document d (core_from k o d'))) [
          | inl t ↦ absurd (other (rw (← (same_document_iff d' d).0 t) e))
          | inr f ↦ f
        ])
        h))

others :
    (n : ℕ) (d : Document) (os : List Outline)
    → All (λ i. event_of d ≢ i) (map outline_key os)
    → All (IsNamed n) os
    → All (λ o. o.source ≢ some d) os
others n d [] h k = tt
others n d (o ∷ os) h k = ((λ e. h.0 (k.0.2 d e)), others n d os h.1 k.1)

made-IsOnce :
    (n m : ℕ) (os : List Outline)
    → IsUnique outline_key os
    → All (IsNamed n) os
    → All (IsOnce (made m os)) os
made-IsOnce n m [] u k = tt
made-IsOnce n m (o ∷ os) u k = elim (Option-cases o.source) [
  | inl e ↦
      subst (λ cs. All (IsOnce cs) (o ∷ os)) (sym (made_none e))
        ((λ d c. absurd (cc)), made-IsOnce n m os u.1 k.1)
  | inr (d, e) ↦
      subst (λ cs. All (IsOnce cs) (o ∷ os)) (sym (made_some d e))
        (
          (λ d' c. first d d' e (cc)),
          All-imp (λ x. (o.id ≢ x.id) × (IsNamed n x × IsOnce (made (m + 1) os) x))
              (IsOnce (core_from m o d ∷ made (m + 1) os)) os
              (λ x h d' c. later d e x d' h.0 (h.1.0.2 d' c) ∙ h.1.1 d' c)
              (All-both (λ x. o.id ≢ x.id) (λ x. IsNamed n x × IsOnce (made (m + 1) os) x) os
                (All-of_keys outline_key (λ i. o.id ≢ i) os u.0)
                (All-both (IsNamed n) (IsOnce (made (m + 1) os)) os k.1
                  (made-IsOnce n (m + 1) os u.1 k.1))),
        )
]
  where
    made_none : o.source ≡ none → made m (o ∷ os) ≡ made m os
    made_none e = rw e refl

    made_some :
        (d : Document) → o.source ≡ some d → made m (o ∷ os) ≡ core_from m o d ∷ made (m + 1) os
    made_some d e = rw e refl

    first :
        (d d' : Document)
        → o.source ≡ some d
        → d ≡ d'
        → count (of_document d') (core_from m o d ∷ made (m + 1) os) ≡ 1
    first d d' e same =
        let rest = count-made_none d' (m + 1) os (
          others n d' os
            (subst (λ i. All (λ j. i ≢ j) (map outline_key os)) (sym (k.0.2 d' (e ∙ ap some same)))
              u.0)
            k.1) in
        rw ((same_document_iff d d').1 same, rest) (omega arith)

    later :
        (d : Document)
        → o.source ≡ some d
        → (x : Outline) (d' : Document) → o.id ≢ x.id
        → event_of d' ≡ x.id
        → count (of_document d') (core_from m o d ∷ made (m + 1) os)
          ≡ count (of_document d') (made (m + 1) os)
    later d e x d' ne at = elim (Bool-cases (d == d')) [
      | inl t ↦ absurd (ne (sym (k.0.2 d e) ∙ ap event_of ((same_document_iff d d').0 t) ∙ at))
      | inr f ↦ ground arith
    ]

pub made-IsLedger :
    (n m : ℕ) (os : List Outline)
    → IsUnique outline_key os
    → All (IsNamed n) os
    → IsLedger n os (m + length (made m os)) (made m os)
made-IsLedger n m os u k = record {
  unique = u;
  named = k;
  facts_unique = made-IsUnique m os;
  facts_below = made-below m os;
  backed = made-All (IsBackedBy os) m os (
      All-imp (λ o. IsNamed n o × (get outline_key o.id os ≡ some o))
        (λ o. (i : ℕ) (d : Document) → o.source ≡ some d → IsBackedBy os (core_from i o d)) os
        (λ o h i d e.
          (o, subst (λ j. get outline_key j os ≡ some o) (sym (h.0.2 d e)) h.1, e, refl))
        (All-both (IsNamed n) (λ o. get outline_key o.id os ≡ some o) os k
          (All-get_self outline_key os u)));
  once = made-IsOnce n m os u k;
}
