-- ===== src/Memory/Sound.antt =====
-- When the store of backends/fake.py is sound, and the changes that keep it so.
use mathlib.Core.List.{map-append}
use evalai.Base.{
  ℕ, ◌<◌, String, true, none, some, [], ◌∷◌, ◌≡◌, refl, inl, inr, arith, All, ◌==◌, nat_eq,
  Bool-cases, map,
}
use evalai.Base.Predicates.{All-map, All-append, map_same}
use evalai.Memory.{
  Kind, Document, is_valid, Fact, EventData, Event, Store, fact_text, append_event, update_event,
  update_data, add_fact, present, is_message,
}
use evalai.Memory.Rebuild.{replayed}
use evalai.Memory.Ledger.{Outline, Core, event_of, IsLedger, append_silent, append_source}

unfoldable pub outline : Event → Outline
outline e = record { id = e.id; text = e.text; source = replayed e }

unfoldable pub core : Fact → Core
core f = record { id = f.id; text = f.text; document_id = f.document_id }

-- A fact that stands was given no reason to fall.
abbrev pub IsReasoned : Fact → Type 0
IsReasoned f = is_valid f.state ≡ true → f.invalidation_reason ≡ none

-- Only a message retracts.
abbrev pub IsTidy : Event → Type 0
IsTidy e = present e.event_data.retracts ≡ true → is_message e ≡ true

pub record IsSound (s : Store) : Type 0 where
  pub numbered : 0 < s.next_event
  pub ledger : IsLedger s.next_event (map outline s.events) s.next_memory (map core s.facts)
  pub reasons : All IsReasoned s.facts
  pub tidy : All IsTidy s.events

pub update_event-id :
    (id : ℕ) (change : EventData → EventData) (e : Event) → (update_event id change e).id ≡ e.id
unfolding update_event
update_event-id id change e = ground arith

-- A change that decides neither what a rebuild does with an event nor what it retracts
pub record IsQuiet (change : EventData → EventData) : Type 0 where
  pub retracts : (d : EventData) → (change d).retracts ≡ d.retracts
  pub skipped : (d : EventData) → (change d).skipped ≡ d.skipped
  pub status : (d : EventData) → (change d).status ≡ d.status

-- A change of a fact's state
pub record IsMark (g : Fact → Fact) : Type 0 where
  pub same : (f : Fact) → core (g f) ≡ core f
  pub reasons : (f : Fact) → IsReasoned f → IsReasoned (g f)

replayed-change :
    (change : EventData → EventData) (e : Event)
    → IsQuiet change
    → replayed (record e { event_data = change e.event_data }) ≡ replayed e
unfolding replayed
replayed-change change e q =
    ground (arith, q.retracts e.event_data, q.skipped e.event_data, q.status e.event_data)

outline-update :
    (id : ℕ) (change : EventData → EventData)
    → IsQuiet change
    → (e : Event) → outline (update_event id change e) ≡ outline e
unfolding update_event outline
outline-update id change q e = elim (Bool-cases (e.id == id)) [
  | inl t ↦ rw (update_event, t) (rw (replayed-change change e q) refl)
  | inr f ↦ rw (update_event, f) refl
]

module _ {s : Store} (h : IsSound s) where
  pub update-IsSound :
      (id : ℕ) (change : EventData → EventData) → IsQuiet change → IsSound (update_data id change s)
  unfolding update_data update_event
  update-IsSound id change q = record {
    numbered = h.numbered;
    ledger =
        rw (map_same outline (update_event id change) s.events (outline-update id change q))
          h.ledger;
    reasons = h.reasons;
    tidy = All-map IsTidy (update_event id change) s.events (λ e k. tidy_update e k) h.tidy;
  }
    where
      tidy_update : (e : Event) → IsTidy e → IsTidy (update_event id change e)
      tidy_update e k = elim (Bool-cases (e.id == id)) [
        | inl t ↦ rw (update_event, t) (rw (q.retracts e.event_data) k)
        | inr f ↦ rw (update_event, f) k
      ]

  pub mark-IsSound : (g : Fact → Fact) → IsMark g → IsSound (record s { facts = map g s.facts })
  mark-IsSound g k = record {
    numbered = h.numbered;
    ledger = rw (map_same core g s.facts k.same) h.ledger;
    reasons = All-map IsReasoned g s.facts k.reasons h.reasons;
    tidy = h.tidy;
  }

  pub append-IsSound :
      (kind : Kind) (actor text : String) (info : EventData)
      → replayed (append_event kind actor text info s).0 ≡ none
      → IsTidy (append_event kind actor text info s).0
      → IsSound (append_event kind actor text info s).1
  unfolding append_event outline
  append-IsSound kind actor text info silent k = record {
    numbered = omega (arith, h.numbered);
    ledger = rw (map-append outline s.events ((append_event kind actor text info s).0 ∷ [])) (
        append_silent h.ledger (outline (append_event kind actor text info s).0) h.numbered refl
          silent);
    reasons = h.reasons;
    tidy = All-append IsTidy s.events ((append_event kind actor text info s).0 ∷ []) h.tidy (k, tt);
  }

  -- An event that is appended and gives its fact
  pub keep-IsSound :
      (kind : Kind) (actor text : String) (info : EventData) (d : Document)
      → replayed (append_event kind actor text info s).0 ≡ some d
      → IsTidy (append_event kind actor text info s).0
      → event_of d ≡ s.next_event
      → IsSound (add_fact text d (append_event kind actor text info s).1)
  unfolding append_event outline add_fact core
  keep-IsSound kind actor text info d source k at = record {
    numbered = omega (arith, h.numbered);
    ledger =
        rw
          (
            map-append outline s.events ((append_event kind actor text info s).0 ∷ []),
            map-append core s.facts,
          )
          (append_source h.ledger (outline (append_event kind actor text info s).0)
            (record { id = s.next_memory; text = fact_text text; document_id = d }) h.numbered refl
            source at refl refl);
    reasons = All-append IsReasoned s.facts _ h.reasons ((λ _. refl), tt);
    tidy = All-append IsTidy s.events ((append_event kind actor text info s).0 ∷ []) h.tidy (k, tt);
  }
