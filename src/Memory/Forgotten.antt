-- ===== src/Memory/Forgotten.antt =====
-- `forget` of backends/fake.py keeps the store sound.
use evalai.Base.{
  ℕ, not, Option, none, some, List, [], ◌∷◌, ◌≡◌, refl, sym, subst, inl, inr, arith, ◌==◌, nat_eq,
  string_eq, if_both, Option-cases, map, filter,
}
use evalai.Base.Predicates.{All-filter, map-filter}
use evalai.Base.Table.{get, All-get, key-get}
use evalai.Memory.{
  document_eq, Fact, Event, Store, Withdrawn, Corrected, no_data, event_key, append_event,
  update_data, delete_event, is_governance, retracted_turn,
}
use evalai.Memory.Rebuild.{replayed}
use evalai.Memory.Remember.{set_retracted_by}
use evalai.Memory.Review.{
  restore_fact, restore_all, withdrawn_of, is_elsewhere, restore_corrected, forget_event, forget,
}
use evalai.Memory.Changes.{elsewhere, staying, drop_event, drop_silent}
use evalai.Memory.Sound.{IsSound, IsReasoned, IsTidy, core, outline, update-IsSound, mark-IsSound}
use evalai.Memory.Kept.{set_retracted_by-IsQuiet}
use evalai.Memory.Reviewed.{note-IsSound, get-outline, restore_fact-IsMark}

restore_all-IsSound :
    (ws : List Withdrawn) (facts : List Fact) (s : Store)
    → IsSound (record s { facts = facts })
    → IsSound (record s { facts = restore_all ws facts })
unfolding restore_all
restore_all-IsSound [] facts s h = h
restore_all-IsSound (w ∷ ws) facts s h =
    restore_all-IsSound ws (map (restore_fact w.id) facts) s
      (mark-IsSound h (restore_fact w.id) (restore_fact-IsMark w.id))

restore_corrected-IsSound :
    (e : Event) (s : Store) → IsSound s → IsSound (record s { facts = restore_corrected e s.facts })
restore_corrected-IsSound e s h =
    if_both (λ facts. IsSound (record s { facts = facts })) (is_governance e) _ s.facts
      (corrected e.event_data.correction) h
  where
    corrected :
        (c : Option Corrected)
        → IsSound (record s {
          facts = elim c [ none ↦ s.facts | some c' ↦ map (restore_fact c'.memory_id) s.facts ];
        })
    corrected none = h
    corrected (some c) = mark-IsSound h (restore_fact c.memory_id) (restore_fact-IsMark c.memory_id)

-- The store without the event and its facts
dropped-IsSound :
    (id : ℕ) (s : Store)
    → IsSound s
    → IsSound (delete_event id (record s { facts = filter (is_elsewhere id) s.facts }))
unfolding delete_event outline core is_elsewhere
dropped-IsSound id s h = record {
  numbered = h.numbered;
  ledger =
      rw
        (
          map-filter outline (λ e. not (e.id == id)) (staying id) s.events (λ e. refl),
          map-filter core (is_elsewhere id) (elsewhere id) s.facts (λ f. refl),
        )
        (drop_event h.ledger id);
  reasons = All-filter IsReasoned (is_elsewhere id) s.facts h.reasons;
  tidy = All-filter IsTidy (λ e. not (e.id == id)) s.events h.tidy;
}

-- A retraction gives no fact, so that none goes with it.
undropped-IsSound :
    (id : ℕ) (s : Store) (e : Event)
    → IsSound s
    → get event_key id s.events ≡ some e
    → replayed e ≡ none
    → IsSound (record s { facts = filter (is_elsewhere id) s.facts })
unfolding core is_elsewhere outline
undropped-IsSound id s e h there silent = record {
  numbered = h.numbered;
  ledger =
      rw
        (
          map-filter core (is_elsewhere id) (elsewhere id) s.facts (λ f. refl),
          drop_silent h.ledger id (outline e) (get-outline id s.events e there) silent,
        )
        h.ledger;
  reasons = All-filter IsReasoned (is_elsewhere id) s.facts h.reasons;
  tidy = h.tidy;
}

retraction_silent :
    (e : Event) (t : ℕ) → IsTidy e → retracted_turn e.event_data ≡ some t → replayed e ≡ none
unfolding replayed
retraction_silent e t tidy k = ground arith

-- `forget_event` of a store whose facts are already less those of the event
forget_event-IsSound :
    (e : Event) (ws : List Withdrawn) (s : Store)
    → IsSound s
    → IsSound
        (forget_event e
          (record s { facts = restore_all ws (filter (is_elsewhere e.id) s.facts) })).1
unfolding forget_event delete_event append_event
forget_event-IsSound e ws s h =
    note-IsSound _ no_data _
      (restore_corrected-IsSound e
        (record (delete_event e.id s) {
          facts = restore_all ws (filter (is_elsewhere e.id) s.facts);
        })
        (restore_all-IsSound ws (filter (is_elsewhere e.id) s.facts) (delete_event e.id s)
          (dropped-IsSound e.id s h)))
      (λ k. cc)

pub forget-IsSound : (id : ℕ) (s : Store) → IsSound s → IsSound (forget id s).1
unfolding forget update_data
forget-IsSound id s h = elim (Option-cases (get event_key id s.events)) [
  | inl e ↦ rw (forget, e) h
  | inr (e, there) ↦ elim (Option-cases (retracted_turn e.event_data)) [
    | inl k ↦
        rw (forget, there, k) (forget_event-IsSound e (withdrawn_of e.event_data.withdrawn) s h)
    | inr (t, k) ↦ elim (Option-cases (get event_key t s.events)) [
      | inl gone ↦
          rw (forget, there, k, gone)
            (restore_all-IsSound (withdrawn_of e.event_data.withdrawn) _ s (
              undropped-IsSound e.id s e h (self there)
                (retraction_silent e t (All-get event_key IsTidy id s.events e h.tidy there) k)))
      | inr (target, found) ↦
          rw (forget, there, k, found)
            (forget_event-IsSound e (withdrawn_of e.event_data.withdrawn) _
              (update-IsSound h t (set_retracted_by none) (set_retracted_by-IsQuiet none)))
    ]
  ]
]
  where
    self : {e : Event} → get event_key id s.events ≡ some e → get event_key e.id s.events ≡ some e
    self {e} there =
        subst (λ i. get event_key i s.events ≡ some e) (sym (key-get event_key id s.events e there))
          there
