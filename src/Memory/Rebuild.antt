-- ===== src/Memory/Rebuild.antt =====
-- backends/fake.py: `rebuild`. Its two loops run over the events as they are at its start.
use evalai.Base.{
  ℕ, ◌+◌, String, Bool, false, not, ◌&&◌, Option, none, some, List, [], ◌∷◌, ◌++◌, ◌==◌, string_eq,
  if◌then◌else◌, map, length,
}
use evalai.Base.Text.{str_append, decimal}
use evalai.Memory.{
  Kind, Document, document_eq, is_valid, Fact, Corrected, EventData, no_data, Event, Unresolved,
  Store, Texts, claim_of, append_event, update_data, add_fact, retracted_turn, present,
}
use evalai.Memory.Remember.{withdraw}
use evalai.Memory.Review.{correct_fact}

abbrev pub is_approved : Option String → Bool
is_approved none = false
is_approved (some status) = status == "approved"

-- The document that an event gives a fact of: a turn that was kept, or an approved assertion.
unfoldable pub replayed : Event → Option Document
replayed e = elim e.kind [
  | Kind.message ↦
      if not (present e.event_data.retracts) && not (present e.event_data.skipped)
      then some (Document.turn e.id)
      else none
  | Kind.assertion ↦ if is_approved e.event_data.status then some (Document.assert e.id) else none
  | Kind.governance ↦ none
]

pub record Replay : Type 0 where
  pub store : Store
  pub turns : ℕ
  pub assertions : ℕ

abbrev pub add_turn : Document → ℕ
add_turn (Document.turn n) = 1
add_turn (Document.assert n) = 0

abbrev pub add_assertion : Document → ℕ
add_assertion (Document.turn n) = 0
add_assertion (Document.assert n) = 1

unfoldable pub replay_event : Event → Replay → Replay
replay_event e r = elim (replayed e) [
  | none ↦ r
  | some d ↦ record {
    store = add_fact e.text d r.store;
    turns = r.turns + add_turn d;
    assertions = r.assertions + add_assertion d;
  }
]

unfoldable pub replay_events : List Event → Replay → Replay
replay_events [] r = r
replay_events (e ∷ es) r = replay_events es (replay_event e r)

-- The fact that a correction is about, by its document and its claim
unfoldable pub is_corrected : Texts → Corrected → Fact → Bool
is_corrected lib c f =
    is_valid f.state
    && (f.document_id == c.document_id
        && lib.lower (claim_of lib f.text) == lib.lower (claim_of lib c.text))

abbrev pub first_where : (Fact → Bool) → List Fact → Option Fact
first_where p [] = none
first_where p (f ∷ fs) = if p f then some f else first_where p fs

pub record Reapply : Type 0 where
  pub store : Store
  pub reapplied : ℕ
  pub unresolved : List Unresolved

abbrev pub set_memory : ℕ → EventData → EventData
set_memory id info = record info {
  correction = elim info.correction [ none ↦ none | some c ↦ some (record c { memory_id = id }) ];
}

unfoldable pub reapply_correction : Texts → Event → Corrected → Reapply → Reapply
reapply_correction lib e c r = elim (first_where (is_corrected lib c) r.store.facts) [
  | none ↦ record r { unresolved = r.unresolved ++ record { text = c.text; event = e.id } ∷ [] }
  | some f ↦ record r {
    store =
        update_data e.id (set_memory f.id)
          (record r.store { facts = map (correct_fact f.id) r.store.facts });
    reapplied = r.reapplied + 1;
  }
]

unfoldable pub reapply_retraction : Event → Option ℕ → Reapply → Reapply
reapply_retraction e none r = r
reapply_retraction e (some t) r = record r { store = (withdraw t e.id r.store).1 }

abbrev pub reapply_optional : Texts → Event → Option Corrected → Reapply → Reapply
reapply_optional lib e none r = r
reapply_optional lib e (some c) r = reapply_correction lib e c r

unfoldable pub reapply_event : Texts → Event → Reapply → Reapply
reapply_event lib e r = elim e.kind [
  | Kind.message ↦ reapply_retraction e (retracted_turn e.event_data) r
  | Kind.assertion ↦ r
  | Kind.governance ↦ reapply_optional lib e e.event_data.correction r
]

unfoldable pub reapply_events : Texts → List Event → Reapply → Reapply
reapply_events lib [] r = r
reapply_events lib (e ∷ es) r = reapply_events lib es (reapply_event lib e r)

abbrev pub rebuilt : List Unresolved → EventData
rebuilt us = record no_data { unresolved = some us }

abbrev summary : Replay → Reapply → String
summary p r = str_append "rebuilt: replayed " (
    str_append (decimal p.turns) (
      str_append " turns and " (
        str_append (decimal p.assertions) (
          str_append " assertions, re-applied " (
            str_append (decimal r.reapplied) (
              str_append " corrections, "
                (str_append (decimal (length r.unresolved)) " unresolved")))))))

abbrev pub replayed_store : Store → Replay
replayed_store s =
    replay_events s.events (record { store = record s { facts = [] }; turns = 0; assertions = 0 })

abbrev pub reapplied_store : Texts → Store → Reapply
reapplied_store lib s =
    reapply_events lib s.events
      (record { store = (replayed_store s).store; reapplied = 0; unresolved = [] })

unfoldable pub rebuild : Texts → Store → String × Store
rebuild lib s =
    let r = reapplied_store lib s in
    let text = summary (replayed_store s) r in
    (text, (append_event Kind.governance "system" text (rebuilt r.unresolved) r.store).1)
