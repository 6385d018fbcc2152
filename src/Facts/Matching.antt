-- ===== src/Facts/Matching.antt =====
-- How many facts the exact matching of statistics/facts.py matches: as many as can be.
use evalai.Base.{
  ℕ, suc, ◌+◌, ◌≤◌, ◌<◌, Bool, true, false, not, ◌&&◌, Option, none, some, List, [], ◌∷◌, ◌≡◌, ◌≢◌,
  refl, sym, ap, subst, ◌∙◌, inl, inr, arith, ◌==◌, nat_eq, if◌then◌else◌, ltb, Bool-cases,
  Option-cases, count, contains,
}
use evalai.Facts.{Triple, triple_eq, same_triple_iff, next_free, pair_facts, match_triples}

-- The fact that stands at the place `h` of a list that starts at the place `i`
abbrev pub item_at : ℕ → ℕ → List Triple → Option Triple
item_at i h [] = none
item_at i h (r ∷ rs) = let rest = item_at (suc i) h rs in if i == h then some r else rest

abbrev pub is_value : Triple → Option Triple → Bool
is_value x none = false
is_value x (some r) = r == x

-- How often a fact is not used yet
free : Triple → List ℕ → ℕ → List Triple → ℕ
free x used i [] = 0
free x used i (r ∷ rs) = (if not (contains used i) && r == x then 1 else 0) + free x used (suc i) rs

free_skip :
    (x : Triple) (h : ℕ) (used : List ℕ) (i : ℕ) (rs : List Triple)
    → h < i
    → free x (h ∷ used) i rs ≡ free x used i rs
unfolding free
free_skip x h used i [] l = refl
free_skip x h used i (r ∷ rs) l =
    let off : (h == i) ≡ false = ground arith in
    rw (off, free_skip x h used (suc i) rs (omega arith)) refl

next_free-none :
    (x : Triple) (used : List ℕ) (i : ℕ) (rs : List Triple)
    → next_free x used i rs ≡ none
    → free x used i rs ≡ 0
unfolding free next_free
next_free-none x used i [] e = refl
next_free-none x used i (r ∷ rs) e = elim (Bool-cases (not (contains used i) && r == x)) [
  | inl t ↦ (let no = rw (next_free, t) at e in absurd (cc))
  | inr f ↦
      rw f (let k = next_free-none x used (suc i) rs (rw (next_free, f) at e) in omega (arith, k))
]

record IsHit (x : Triple) (used : List ℕ) (i : ℕ) (rs : List Triple) (h : ℕ) : Type 0 where
  after : i ≤ h
  there : item_at i h rs ≡ some x
  fewer : free x (h ∷ used) i rs + 1 ≡ free x used i rs
  others : (y : Triple) → y ≢ x → free y (h ∷ used) i rs ≡ free y used i rs

first :
    (x : Triple) (used : List ℕ) (i : ℕ) (r : Triple) (rs : List Triple)
    → (not (contains used i) && r == x) ≡ true
    → IsHit x used i (r ∷ rs) i
unfolding free
first x used i r rs t =
    let same : r ≡ x = (same_triple_iff r x).0 (ground (arith, t)) in
    let new : contains used i ≡ false = ground (arith, t) in
    let own = (nat_eq.is_same_iff i i).1 refl in
    record {
      after = omega arith;
      there = rw own (ap some same);
      fewer = rw (own, t, free_skip x i used (suc i) rs (omega arith)) (omega arith);
      others = λ y ne. elim (Bool-cases (r == y)) [
        | inl u ↦ absurd (ne (sym ((same_triple_iff r y).0 u) ∙ same))
        | inr v ↦ rw (own, new, v, free_skip y i used (suc i) rs (omega arith)) refl
      ];
    }

later :
    (x : Triple) (used : List ℕ) (i : ℕ) (r : Triple) (rs : List Triple) (h : ℕ)
    → (not (contains used i) && r == x) ≡ false
    → IsHit x used (suc i) rs h
    → IsHit x used i (r ∷ rs) h
unfolding free
later x used i r rs h f ih =
    let l = ih.after in
    let off : (i == h) ≡ false = ground arith in
    let off' : (h == i) ≡ false = ground arith in
    let k = ih.fewer in
    record {
      after = omega (arith, l);
      there = rw off ih.there;
      fewer = rw (off', f) (omega (arith, k));
      others = λ y ne. rw (off', ih.others y ne) refl;
    }

next_free-IsHit :
    (x : Triple) (used : List ℕ) (i : ℕ) (rs : List Triple) (h : ℕ)
    → next_free x used i rs ≡ some h
    → IsHit x used i rs h
unfolding free next_free
next_free-IsHit x used i [] h e = absurd (cc)
next_free-IsHit x used i (r ∷ rs) h e = elim (Bool-cases (not (contains used i) && r == x)) [
  | inl t ↦
      let k : some i ≡ some h = rw (next_free, t) at e in
      let at : i ≡ h = cc in subst (IsHit x used i (r ∷ rs)) at (first x used i r rs t)
  | inr f ↦
      let ih = next_free-IsHit x used (suc i) rs h (rw (next_free, f) at e) in
      later x used i r rs h f ih
]

abbrev pub lesser : ℕ → ℕ → ℕ
lesser m n = if ltb m n then m else n

-- How often a fact is matched
abbrev pub is_matched : List Triple → Triple → ℕ × ℕ → Bool
is_matched ref x m = is_value x (item_at 0 m.1 ref)

pair_facts-count :
    (x : Triple) (ref : List Triple) (pi : ℕ) (used : List ℕ) (facts : List Triple)
    → count (is_matched ref x) (pair_facts ref pi used facts).matches
      ≡ lesser (count (λ f. f == x) facts) (free x used 0 ref)
unfolding pair_facts
pair_facts-count x ref pi used [] = ground arith
pair_facts-count x ref pi used (fact ∷ facts) = elim (Option-cases (next_free fact used 0 ref)) [
  | inl e ↦
      let ih = pair_facts-count x ref (suc pi) used facts in
      rw (pair_facts, e)
        (elim (Bool-cases (fact == x)) [
          | inl t ↦
              let none_left = next_free-none fact used 0 ref e in
              let same = (same_triple_iff fact x).0 t in
              let gone : free x used 0 ref ≡ 0 =
                subst (λ y. free y used 0 ref ≡ 0) same none_left in
              rw (t, gone) (let k = rw gone at ih in ground (arith, k))
          | inr f ↦ rw f (ground (arith, ih))
        ])
  | inr (h, e) ↦
      let ih = pair_facts-count x ref (suc pi) (h ∷ used) facts in
      let hit = next_free-IsHit fact used 0 ref h e in
      rw (pair_facts, e)
        (rw hit.there (elim (Bool-cases (fact == x)) [
          | inl t ↦
              let same = (same_triple_iff fact x).0 t in
              let fewer =
                subst (λ y. free y (h ∷ used) 0 ref + 1 ≡ free y used 0 ref) same hit.fewer in
              rw t (ground (arith, ih, fewer))
          | inr f ↦
              let others =
                hit.others x
                  (λ same. let t = (same_triple_iff fact x).1 (sym same) in ground (arith, f, t)) in
              rw f (let k = rw others at ih in ground (arith, k))
        ]))
]

free-all : (x : Triple) (i : ℕ) (ref : List Triple) → free x [] i ref ≡ count (λ r. r == x) ref
unfolding free
free-all x i [] = refl
free-all x i (r ∷ rs) = ap (λ n. (if r == x then 1 else 0) + n) (free-all x (suc i) rs)

-- The exact matching of two lists of facts matches each fact as often as it is in both lists: the
-- lesser of how often it is predicted and how often it is a reference.
pub match_triples-count :
    (x : Triple) (pred ref : List Triple)
    → count (is_matched ref x) (match_triples pred ref).matches
      ≡ lesser (count (λ f. f == x) pred) (count (λ r. r == x) ref)
unfolding match_triples
match_triples-count x pred ref =
    pair_facts-count x ref 0 [] pred ∙ ap (lesser (count (λ f. f == x) pred)) (free-all x 0 ref)
