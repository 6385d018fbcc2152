-- ===== src/Memory/Rebuilt.antt =====
-- `rebuild` of backends/fake.py keeps the store sound.
use mathlib.Core.List.{map-append, append_assoc, append-nil}
use evalai.Base.{
  ℕ, ◌+◌, Option, none, some, List, [], ◌∷◌, ◌++◌, ◌≡◌, refl, sym, subst, ◌∙◌, inl, inr, arith, All,
  Option-cases, map, length,
}
use evalai.Base.Predicates.{All-append}
use evalai.Memory.{
  Kind, Document, Event, Store, Texts, Corrected, add_fact, append_event, retracted_turn,
}
use evalai.Memory.Review.{correct_fact}
use evalai.Memory.Rebuild.{
  replayed, add_turn, add_assertion, Replay, replay_event, replay_events, Reapply, is_corrected,
  first_where, set_memory, reapply_correction, reapply_retraction, reapply_optional, reapply_event,
  reapply_events, replayed_store, rebuild, rebuilt,
}
use evalai.Memory.Replayed.{made, made-IsLedger}
use evalai.Memory.Sound.{
  IsSound, IsQuiet, IsReasoned, core, outline, update-IsSound, mark-IsSound, append-IsSound,
}
use evalai.Memory.Kept.{withdraw-IsSound}
use evalai.Memory.Reviewed.{correct_fact-IsMark}

-- What the first loop leaves
record IsReplay (es : List Event) (r r' : Replay) : Type 0 where
  log : r'.store.events ≡ r.store.events
  count : r'.store.next_event ≡ r.store.next_event
  facts :
      map core r'.store.facts ≡ map core r.store.facts ++ made r.store.next_memory (map outline es)
  memory :
      r'.store.next_memory
      ≡ r.store.next_memory + length (made r.store.next_memory (map outline es))

replay-reasons :
    (es : List Event) (r : Replay)
    → All IsReasoned r.store.facts
    → All IsReasoned (replay_events es r).store.facts
unfolding replay_events replay_event add_fact
replay-reasons [] r h = h
replay-reasons (e ∷ es) r h =
    replay-reasons es (replay_event e r) (elim (Option-cases (replayed e)) [
      | inl k ↦ rw (replay_event, k) h
      | inr (d, k) ↦
          rw (replay_event, k) (All-append IsReasoned r.store.facts _ h ((λ _. refl), tt))
    ])

step_none :
    (e : Event) (es : List Event) (r r' : Replay)
    → replayed e ≡ none
    → IsReplay es r r'
    → IsReplay (e ∷ es) r r'
unfolding outline
step_none e es r r' k h = record {
  log = h.log;
  count = h.count;
  facts = rw k h.facts;
  memory = rw k h.memory;
}

step_some :
    (e : Event) (es : List Event) (r r' : Replay) (d : Document) (n n' : ℕ)
    → replayed e ≡ some d
    → IsReplay es (record { store = add_fact e.text d r.store; turns = n; assertions = n' }) r'
    → IsReplay (e ∷ es) r r'
unfolding outline add_fact core
step_some e es r r' d n n' k h = record {
  log = h.log;
  count = h.count;
  facts =
      rw k
        (h.facts ∙ rw (map-append core r.store.facts) (append_assoc (map core r.store.facts) _ _));
  memory = rw k (omega (arith, h.memory));
}

replay-IsReplay : (es : List Event) (r : Replay) → IsReplay es r (replay_events es r)
unfolding replay_events replay_event
replay-IsReplay [] r = record {
  log = refl;
  count = refl;
  facts = sym (append-nil (map core r.store.facts));
  memory = omega arith;
}
replay-IsReplay (e ∷ es) r = elim (Option-cases (replayed e)) [
  | inl k ↦
      subst (λ q. IsReplay (e ∷ es) r (replay_events es q)) (sym (rw (replay_event, k) refl))
        (step_none e es r (replay_events es r) k (replay-IsReplay es r))
  | inr (d, k) ↦
      subst (λ q. IsReplay (e ∷ es) r (replay_events es q)) (sym (rw (replay_event, k) refl))
        (step_some e es r _ d _ _ k (
          replay-IsReplay es (record {
            store = add_fact e.text d r.store;
            turns = r.turns + add_turn d;
            assertions = r.assertions + add_assertion d;
          })))
]

set_memory-IsQuiet : (id : ℕ) → IsQuiet (set_memory id)
set_memory-IsQuiet id = record { retracts = λ d. refl; skipped = λ d. refl; status = λ d. refl }

correction-IsSound :
    (lib : Texts) (e : Event) (c : Corrected) (r : Reapply)
    → IsSound r.store
    → IsSound (reapply_correction lib e c r).store
unfolding reapply_correction
correction-IsSound lib e c r h =
    elim (Option-cases (first_where (is_corrected lib c) r.store.facts)) [
      | inl k ↦ rw (reapply_correction, k) h
      | inr (f, k) ↦
          rw (reapply_correction, k)
            (update-IsSound (mark-IsSound h (correct_fact f.id) (correct_fact-IsMark f.id)) e.id
              (set_memory f.id) (set_memory-IsQuiet f.id))
    ]

retraction-IsSound :
    (e : Event) (o : Option ℕ) (r : Reapply)
    → IsSound r.store
    → IsSound (reapply_retraction e o r).store
unfolding reapply_retraction
retraction-IsSound e none r h = h
retraction-IsSound e (some t) r h = withdraw-IsSound t e.id r.store h

optional-IsSound :
    (lib : Texts) (e : Event) (o : Option Corrected) (r : Reapply)
    → IsSound r.store
    → IsSound (reapply_optional lib e o r).store
optional-IsSound lib e none r h = h
optional-IsSound lib e (some c) r h = correction-IsSound lib e c r h

-- One round of the second loop, by the kind of the event
pub reapply_cases :
    (P : Reapply → Type 0) (lib : Texts) (e : Event) (r : Reapply)
    → P r
    → P (reapply_retraction e (retracted_turn e.event_data) r)
    → P (reapply_optional lib e e.event_data.correction r)
    → P (reapply_event lib e r)
unfolding reapply_event
reapply_cases P lib e r same retraction correction =
    elim e.kind
      as (λ k. P (elim k [
        | Kind.message ↦ reapply_retraction e (retracted_turn e.event_data) r
        | Kind.assertion ↦ r
        | Kind.governance ↦ reapply_optional lib e e.event_data.correction r
      ])) [ Kind.message ↦ retraction | Kind.assertion ↦ same | Kind.governance ↦ correction ]

reapply_event-IsSound :
    (lib : Texts) (e : Event) (r : Reapply)
    → IsSound r.store
    → IsSound (reapply_event lib e r).store
reapply_event-IsSound lib e r h =
    reapply_cases (λ q. IsSound q.store) lib e r h
      (retraction-IsSound e (retracted_turn e.event_data) r h)
      (optional-IsSound lib e e.event_data.correction r h)

reapply_events-IsSound :
    (lib : Texts) (es : List Event) (r : Reapply)
    → IsSound r.store
    → IsSound (reapply_events lib es r).store
unfolding reapply_events
reapply_events-IsSound lib [] r h = h
reapply_events-IsSound lib (e ∷ es) r h =
    reapply_events-IsSound lib es (reapply_event lib e r) (reapply_event-IsSound lib e r h)

replayed_store-IsSound : (s : Store) → IsSound s → IsSound (replayed_store s).store
replayed_store-IsSound s h =
    let k =
      replay-IsReplay s.events
        (record { store = record s { facts = [] }; turns = 0; assertions = 0 }) in
    record {
      numbered = rw k.count h.numbered;
      ledger =
          rw (k.log, k.count, k.facts, k.memory)
            (made-IsLedger s.next_event s.next_memory (map outline s.events) h.ledger.unique
              h.ledger.named);
      reasons = replay-reasons s.events _ tt;
      tidy = rw k.log h.tidy;
    }

pub rebuild-IsSound : (lib : Texts) (s : Store) → IsSound s → IsSound (rebuild lib s).1
unfolding rebuild append_event replayed
rebuild-IsSound lib s h =
    append-IsSound (reapply_events-IsSound lib s.events _ (replayed_store-IsSound s h))
      Kind.governance "system" _ (rebuilt _) refl (λ e. cc)
