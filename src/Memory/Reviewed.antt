-- ===== src/Memory/Reviewed.antt =====
-- `assert_fact` and `wrong` of backends/fake.py keep the store sound.
use evalai.Base.{
  ℕ, String, true, some, List, [], ◌∷◌, ◌≡◌, ◌≢◌, refl, sym, ap, subst, ◌∙◌, inl, inr, arith, All,
  ◌==◌, nat_eq, string_eq, Bool-cases, Option-cases, map,
}
use evalai.Base.Predicates.{All-imp}
use evalai.Base.Table.{get}
use evalai.Base.Keys.{IsUnique, Distinct, All-of_keys}
use evalai.Memory.{
  Kind, Document, document_eq, EventData, Event, Store, Texts, event_key, fact_key, append_event,
}
use evalai.Memory.Rebuild.{replayed}
use evalai.Memory.Review.{
  with_status, assert_fact, is_candidate, candidate, correct_fact, wrong, restore_fact,
}
use evalai.Memory.Ledger.{Outline, outline_key}
use evalai.Memory.Sound.{
  IsSound, IsMark, IsTidy, core, outline, mark-IsSound, append-IsSound, keep-IsSound,
}

pub assert_fact-IsSound :
    (lib : Texts) (raw status : String) (s : Store)
    → IsSound s
    → IsSound (assert_fact lib raw status s).1
unfolding assert_fact append_event replayed
assert_fact-IsSound lib raw status s h = elim (Bool-cases (status == "approved")) [
  | inl t ↦
      rw (assert_fact, t)
        (keep-IsSound h Kind.assertion "user" (lib.strip raw) (with_status status)
          (Document.assert s.next_event) (rw t refl) (λ e. cc) refl)
  | inr f ↦
      rw (assert_fact, f)
        (append-IsSound h Kind.assertion "user" (lib.strip raw) (with_status status) (rw f refl)
          (λ e. cc))
]

pub note-IsSound :
    (text : String) (info : EventData) (s : Store)
    → IsSound s
    → IsTidy (append_event Kind.governance "user" text info s).0
    → IsSound (append_event Kind.governance "user" text info s).1
unfolding append_event replayed
note-IsSound text info s h k = append-IsSound h Kind.governance "user" text info refl k

-- The row of the log that is under review
pub candidate-eq-some :
    (id : ℕ) (s : Store) (e : Event)
    → candidate id s ≡ some e
    → (get event_key id s.events ≡ some e) × (is_candidate e ≡ true)
unfolding candidate
candidate-eq-some id s e h = elim (Option-cases (get event_key id s.events)) [
  | inl none_there ↦ let k = rw (candidate, none_there) at h in absurd (cc)
  | inr (x, there) ↦ elim (Bool-cases (is_candidate x)) [
    | inl t ↦
        let k : some x ≡ some e = rw (candidate, there, t) at h in
        let same : x ≡ e = cc in (there ∙ k, subst (λ y. is_candidate y ≡ true) same t)
    | inr f ↦ let k = rw (candidate, there, f) at h in absurd (cc)
  ]
]

map_off :
    (f h : Event → Outline) (id : ℕ) (es : List Event)
    → All (λ (x : Event). x.id ≢ id) es
    → ((x : Event) → x.id ≢ id → f x ≡ h x)
    → map f es ≡ map h es
map_off f h id [] k off = refl
map_off f h id (x ∷ es) k off = rw (off x k.0) (ap (λ l. h x ∷ l) (map_off f h id es k.1 off))

pub map_at :
    (f h : Event → Outline) (id : ℕ) (es : List Event) (e : Event)
    → IsUnique event_key es
    → get event_key id es ≡ some e
    → ((x : Event) → x.id ≢ id → f x ≡ h x)
    → f e ≡ h e
    → map f es ≡ map h es
map_at f h id [] e u there off at = refl
map_at f h id (x ∷ es) e u there off at = elim (Bool-cases (x.id == id)) [
  | inl t ↦
      let k : some x ≡ some e = rw t at there in
      let same : x ≡ e = cc in
      let here : f x ≡ h x = subst (λ y. f y ≡ h y) (sym same) at in
      rw here (
        ap (λ l. h x ∷ l)
          (map_off f h id es
            (All-imp (λ y. x.id ≢ y.id) (λ y. y.id ≢ id) es
              (λ y k same_id. k ((nat_eq.is_same_iff x.id id).0 t ∙ sym same_id))
              (All-of_keys event_key (λ i. x.id ≢ i) es u.0))
            off))
  | inr n ↦
      let k = rw n at there in
      rw (off x (λ same. ground arith)) (ap (λ l. h x ∷ l) (map_at f h id es e u.1 k off at))
]

-- The view of a log finds what the log finds.
pub get-outline :
    (id : ℕ) (es : List Event) (e : Event)
    → get event_key id es ≡ some e
    → get outline_key id (map outline es) ≡ some (outline e)
unfolding outline
get-outline id [] e h = cc
get-outline id (x ∷ es) e h = ground (arith, get-outline id es e)

keys-outline : (es : List Event) → map outline_key (map outline es) ≡ map event_key es
unfolding outline
keys-outline [] = refl
keys-outline (e ∷ es) = ap (λ l. e.id ∷ l) (keys-outline es)

pub correct_fact-IsMark : (id : ℕ) → IsMark (correct_fact id)
unfolding correct_fact core
correct_fact-IsMark id = record {
  same =
      λ f. elim (Bool-cases (f.id == id)) [ inl t ↦ rw (core, t) refl | inr n ↦ rw (core, n) refl ];
  reasons =
      λ f k. elim (Bool-cases (f.id == id)) [ inl t ↦ rw t (λ e. absurd (cc)) | inr n ↦ rw n k ];
}

pub restore_fact-IsMark : (id : ℕ) → IsMark (restore_fact id)
unfolding restore_fact core
restore_fact-IsMark id = record {
  same =
      λ f. elim (Bool-cases (f.id == id)) [ inl t ↦ rw (core, t) refl | inr n ↦ rw (core, n) refl ];
  reasons = λ f k. elim (Bool-cases (f.id == id)) [ inl t ↦ rw t (λ e. refl) | inr n ↦ rw n k ];
}

pub wrong-IsSound : (lib : Texts) (id : ℕ) (s : Store) → IsSound s → IsSound (wrong lib id s).1
unfolding wrong append_event
wrong-IsSound lib id s h = elim (Option-cases (get fact_key id s.facts)) [
  | inl e ↦ rw (wrong, e) h
  | inr (f, e) ↦
      rw (wrong, e)
        (note-IsSound _ _ _ (mark-IsSound h (correct_fact id) (correct_fact-IsMark id)) (λ e. cc))
]

pub log-IsUnique : (s : Store) → IsSound s → IsUnique event_key s.events
log-IsUnique s h = subst Distinct (keys-outline s.events) h.ledger.unique
