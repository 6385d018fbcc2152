-- ===== src/Memory/Waiting.antt =====
-- `approve` and `reject` of backends/fake.py keep the store sound.
use mathlib.Core.List.{map-append, map-map}
use evalai.Base.{
  ℕ, String, true, false, Option, none, some, List, ◌≡◌, ◌≢◌, refl, sym, subst, ◌∙◌, inl, inr,
  arith, All, ◌==◌, nat_eq, string_eq, Bool-cases, Option-cases, eq_iff, map,
}
use evalai.Base.Predicates.{All-append, All-map}
use evalai.Base.Table.{get, key-get}
use evalai.Memory.{
  Document, document_eq, EventData, Event, Store, event_key, append_event, update_event,
  update_data, add_fact, fact_text,
}
use evalai.Memory.Rebuild.{is_approved, replayed}
use evalai.Memory.Review.{has_status, is_candidate, candidate, set_status, approve, reject}
use evalai.Memory.Changes.{give, give_source}
use evalai.Memory.Sound.{IsSound, IsReasoned, IsTidy, core, outline}
use evalai.Memory.Reviewed.{note-IsSound, candidate-eq-some, map_at, get-outline, log-IsUnique}

status_apart : (o : Option String) → has_status "candidate" o ≡ true → is_approved o ≡ false
status_apart none h = refl
status_apart (some status) h = rw ((eq_iff status "candidate").0 h) refl

candidate_silent : (e : Event) → is_candidate e ≡ true → replayed e ≡ none
unfolding is_candidate replayed
candidate_silent e h = ground (arith, status_apart e.event_data.status)

rejected_silent :
    (e : Event)
    → is_candidate e ≡ true
    → replayed (record e { event_data = set_status "rejected" e.event_data }) ≡ none
unfolding is_candidate replayed
rejected_silent e h = ground arith

approved_gives :
    (e : Event)
    → is_candidate e ≡ true
    → replayed (record e { event_data = set_status "approved" e.event_data })
      ≡ some (Document.assert e.id)
unfolding is_candidate replayed
approved_gives e h = ground arith

module _ (id : ℕ) (change : EventData → EventData) where
  outline_off : (x : Event) → x.id ≢ id → outline (update_event id change x) ≡ outline x
  unfolding update_event
  outline_off x h = let off : (x.id == id) ≡ false = ground arith in rw (update_event, off) refl

  outline_on :
      (x : Event)
      → x.id ≡ id
      → outline (update_event id change x) ≡ outline (record x { event_data = change x.event_data })
  unfolding update_event
  outline_on x h = rw (update_event, (nat_eq.is_same_iff x.id id).1 h) refl

give_off : (id : ℕ) (d : Document) (x : Event) → x.id ≢ id → outline x ≡ give id d (outline x)
unfolding outline
give_off id d x h = let off : (x.id == id) ≡ false = ground arith in rw off refl

give_on :
    (id : ℕ) (d : Document) (x : Event)
    → x.id ≡ id
    → give id d (outline x) ≡ record (outline x) { source = some d }
unfolding outline
give_on id d x h = rw ((nat_eq.is_same_iff x.id id).1 h) refl

IsTidy-status :
    (status : String) (id : ℕ) (es : List Event)
    → All IsTidy es
    → All IsTidy (map (update_event id (set_status status)) es)
unfolding update_event
IsTidy-status status id es h = All-map IsTidy (update_event id (set_status status)) es step h
  where
    step : (e : Event) → IsTidy e → IsTidy (update_event id (set_status status) e)
    step e k = elim (Bool-cases (e.id == id)) [
      | inl t ↦ rw (update_event, t) k
      | inr f ↦ rw (update_event, f) k
    ]

-- What the review of a candidate knows
module _ (id : ℕ) (s : Store) (e : Event) (h : IsSound s) (c : candidate id s ≡ some e) where
  there : get event_key e.id s.events ≡ some e
  there =
      let k = (candidate-eq-some id s e c).0 in
      subst (λ i. get event_key i s.events ≡ some e) (sym (key-get event_key id s.events e k)) k

  waiting : is_candidate e ≡ true
  waiting = (candidate-eq-some id s e c).1

  rejected-IsSound : IsSound (update_data e.id (set_status "rejected") s)
  unfolding update_data outline
  rejected-IsSound = record {
    numbered = h.numbered;
    ledger = rw same h.ledger;
    reasons = h.reasons;
    tidy = IsTidy-status "rejected" e.id s.events h.tidy;
  }
    where
      same :
          map outline (map (update_event e.id (set_status "rejected")) s.events)
          ≡ map outline s.events
      same =
          map-map outline (update_event e.id (set_status "rejected")) s.events
          ∙ map_at (λ x. outline (update_event e.id (set_status "rejected") x)) outline e.id
              s.events e (log-IsUnique s h) there (outline_off e.id (set_status "rejected"))
              (outline_on e.id (set_status "rejected") e refl
                ∙ (rw (rejected_silent e waiting, candidate_silent e waiting) refl))

  approved-IsSound :
      IsSound (add_fact e.text (Document.assert e.id) (update_data e.id (set_status "approved") s))
  unfolding update_data outline add_fact core
  approved-IsSound = record {
    numbered = h.numbered;
    ledger =
        rw (same, map-append core s.facts)
          (give_source h.ledger e.id (outline e)
            (record {
              id = s.next_memory;
              text = fact_text e.text;
              document_id = Document.assert e.id;
            })
            (get-outline e.id s.events e there) (candidate_silent e waiting) refl refl refl);
    reasons = All-append IsReasoned s.facts _ h.reasons ((λ _. refl), tt);
    tidy = IsTidy-status "approved" e.id s.events h.tidy;
  }
    where
      same :
          map outline (map (update_event e.id (set_status "approved")) s.events)
          ≡ map (give e.id (Document.assert e.id)) (map outline s.events)
      same =
          map-map outline (update_event e.id (set_status "approved")) s.events
          ∙ map_at (λ x. outline (update_event e.id (set_status "approved") x))
              (λ x. give e.id (Document.assert e.id) (outline x)) e.id s.events e (log-IsUnique s h)
              there
              (λ x ne.
                outline_off e.id (set_status "approved") x ne
                ∙ give_off e.id (Document.assert e.id) x ne)
              (outline_on e.id (set_status "approved") e refl
                ∙ (rw (approved_gives e waiting) refl)
                ∙ sym (give_on e.id (Document.assert e.id) e refl))
          ∙ sym (map-map (give e.id (Document.assert e.id)) outline s.events)

pub reject-IsSound : (id : ℕ) (s : Store) → IsSound s → IsSound (reject id s).1
unfolding reject append_event
reject-IsSound id s h = elim (Option-cases (candidate id s)) [
  | inl e ↦ rw (reject, e) h
  | inr (e, c) ↦ rw (reject, c) (note-IsSound _ _ _ (rejected-IsSound id s e h c) (λ k. cc))
]

pub approve-IsSound : (id : ℕ) (s : Store) → IsSound s → IsSound (approve id s).1
unfolding approve append_event
approve-IsSound id s h = elim (Option-cases (candidate id s)) [
  | inl e ↦ rw (approve, e) h
  | inr (e, c) ↦ rw (approve, c) (note-IsSound _ _ _ (approved-IsSound id s e h c) (λ k. cc))
]
