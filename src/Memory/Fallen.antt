-- ===== src/Memory/Fallen.antt =====
-- After a rebuild of backends/fake.py, no fact of a retracted turn stands.
use evalai.Base.{
  ℕ, true, false, Option, none, some, List, [], ◌∷◌, ◌≡◌, refl, inl, inr, arith, All, ◌==◌, nat_eq,
  Bool-cases, Option-cases, map,
}
use evalai.Base.Predicates.{All-map}
use evalai.Memory.{
  Kind, Document, document_eq, same_document_iff, is_valid, Fact, Event, Store, Texts, Corrected,
  append_event, update_data, retracted_turn, is_message,
}
use evalai.Memory.Remember.{withdraws, withdraw_fact, withdraw}
use evalai.Memory.Review.{correct_fact}
use evalai.Memory.Rebuild.{
  Reapply, is_corrected, first_where, reapply_correction, reapply_retraction, reapply_optional,
  reapply_event, reapply_events, rebuild,
}
use evalai.Memory.Rebuilt.{reapply_cases}

-- No fact of the turn stands.
abbrev pub IsFallen : ℕ → List Fact → Type 0
IsFallen t facts = All (λ f. f.document_id ≡ Document.turn t → is_valid f.state ≡ false) facts

-- A retraction makes every fact of its turn fall.
pub withdraw_fact-falls :
    (t by : ℕ) (f : Fact)
    → (withdraw_fact t by f).document_id ≡ Document.turn t
    → is_valid (withdraw_fact t by f).state ≡ false
unfolding withdraw_fact withdraws
withdraw_fact-falls t by f e = elim (Bool-cases (withdraws t f)) [
  | inl w ↦ rw (withdraw_fact, w) refl
  | inr n ↦
      let doc : f.document_id ≡ Document.turn t = rw (withdraw_fact, n) at e in
      let same = (same_document_iff f.document_id (Document.turn t)).1 doc in
      rw (withdraw_fact, n) (ground (arith, same, n))
]

pub withdraw-falls : (t by : ℕ) (s : Store) → IsFallen t (withdraw t by s).1.facts
unfolding withdraw update_data
withdraw-falls t by s = all_fallen s.facts
  where
    all_fallen : (fs : List Fact) → IsFallen t (map (withdraw_fact t by) fs)
    all_fallen [] = tt
    all_fallen (f ∷ fs) = (withdraw_fact-falls t by f, all_fallen fs)

-- A later round of the loop makes no fact stand.
withdraw-keeps :
    (t u by : ℕ) (s : Store) → IsFallen t s.facts → IsFallen t (withdraw u by s).1.facts
unfolding withdraw update_data withdraw_fact
withdraw-keeps t u by s h =
    All-map (λ f. f.document_id ≡ Document.turn t → is_valid f.state ≡ false) (withdraw_fact u by)
      s.facts step h
  where
    step :
        (f : Fact)
        → (f.document_id ≡ Document.turn t → is_valid f.state ≡ false)
        → (withdraw_fact u by f).document_id ≡ Document.turn t
        → is_valid (withdraw_fact u by f).state ≡ false
    step f k e = elim (Bool-cases (withdraws u f)) [
      | inl w ↦ rw (withdraw_fact, w) refl
      | inr n ↦ rw (withdraw_fact, n) (k (rw (withdraw_fact, n) at e))
    ]

correction-keeps :
    (t : ℕ) (lib : Texts) (e : Event) (o : Option Corrected) (r : Reapply)
    → IsFallen t r.store.facts
    → IsFallen t (reapply_optional lib e o r).store.facts
unfolding reapply_correction update_data correct_fact
correction-keeps t lib e none r h = h
correction-keeps t lib e (some c) r h =
    elim (Option-cases (first_where (is_corrected lib c) r.store.facts)) [
      | inl k ↦ rw (reapply_correction, k) h
      | inr (g, k) ↦
          rw (reapply_correction, k)
            (All-map (λ f. f.document_id ≡ Document.turn t → is_valid f.state ≡ false)
              (correct_fact g.id) r.store.facts (step g.id) h)
    ]
  where
    step :
        (id : ℕ) (f : Fact)
        → (f.document_id ≡ Document.turn t → is_valid f.state ≡ false)
        → (correct_fact id f).document_id ≡ Document.turn t
        → is_valid (correct_fact id f).state ≡ false
    step id f k e = elim (Bool-cases (f.id == id)) [
      | inl w ↦ rw (correct_fact, w) refl
      | inr n ↦ rw (correct_fact, n) (k (rw (correct_fact, n) at e))
    ]

retraction-keeps :
    (t : ℕ) (e : Event) (o : Option ℕ) (r : Reapply)
    → IsFallen t r.store.facts
    → IsFallen t (reapply_retraction e o r).store.facts
unfolding reapply_retraction
retraction-keeps t e none r h = h
retraction-keeps t e (some u) r h = withdraw-keeps t u e.id r.store h

reapply_events-keeps :
    (t : ℕ) (lib : Texts) (es : List Event) (r : Reapply)
    → IsFallen t r.store.facts
    → IsFallen t (reapply_events lib es r).store.facts
unfolding reapply_events
reapply_events-keeps t lib [] r h = h
reapply_events-keeps t lib (e ∷ es) r h = reapply_events-keeps t lib es (reapply_event lib e r) (
    reapply_cases (λ q. IsFallen t q.store.facts) lib e r h
      (retraction-keeps t e (retracted_turn e.event_data) r h)
      (correction-keeps t lib e e.event_data.correction r h))

-- The event is a message that retracts the turn.
abbrev pub IsRetraction : ℕ → Event → Type 0
IsRetraction t e = (is_message e ≡ true) × (retracted_turn e.event_data ≡ some t)

reapply_event-falls :
    (t : ℕ) (lib : Texts) (e : Event) (r : Reapply)
    → IsRetraction t e
    → IsFallen t (reapply_event lib e r).store.facts
unfolding reapply_event reapply_retraction
reapply_event-falls t lib e r (m, k) =
    let kind : e.kind ≡ Kind.message = ground arith in
    rw (reapply_event, kind, k) (withdraw-falls t e.id r.store)

reapply_events-falls :
    (t : ℕ) (lib : Texts) (es : List Event) (r : Reapply)
    → All (λ e. IsRetraction t e → IsFallen t (reapply_events lib es r).store.facts) es
unfolding reapply_events
reapply_events-falls t lib [] r = tt
reapply_events-falls t lib (e ∷ es) r = (
  λ k. reapply_events-keeps t lib es (reapply_event lib e r) (reapply_event-falls t lib e r k),
  reapply_events-falls t lib es (reapply_event lib e r),
)

-- After a rebuild, no fact stands of a turn that some message of the log retracts.
pub rebuild-falls :
    (lib : Texts) (s : Store) (t : ℕ)
    → All (λ e. IsRetraction t e → IsFallen t (rebuild lib s).1.facts) s.events
unfolding rebuild append_event
rebuild-falls lib s t = reapply_events-falls t lib s.events _
