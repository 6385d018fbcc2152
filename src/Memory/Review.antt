-- ===== src/Memory/Review.antt =====
-- backends/fake.py: `assert_fact`, `approve`, `reject`, `wrong` and `forget`. An exception leaves the
-- store as it is at the point where it is raised.
use evalai.Base.{
  ℕ, String, Bool, false, not, ◌||◌, Option, none, some, List, [], ◌∷◌, ◌==◌, string_eq, nat_eq,
  if◌then◌else◌, filter, map,
}
use evalai.Base.Results.{Result, ok, err}
use evalai.Base.Table.{get}
use evalai.Base.Text.{str_append, decimal}
use evalai.Memory.{
  Kind, kind_text, Document, document_eq, FactState, Reason, Fact, Withdrawn, EventData, no_data,
  Event, Store, StoreError, Texts, event_key, fact_key, claim_of, append_event, update_data,
  delete_event, add_fact, retracted_turn, is_governance,
}
use evalai.Memory.Remember.{set_retracted_by}

abbrev pub with_status : String → EventData
with_status status = record no_data { status = some status }

unfoldable pub assert_fact : Texts → String → String → Store → String × Store
assert_fact lib raw status s =
    let (e, s1) = append_event Kind.assertion "user" (lib.strip raw) (with_status status) s in
    if status == "approved"
    then ("asserted and believed", add_fact e.text (Document.assert e.id) s1)
    else ("asserted — waiting for your review", s1)

abbrev pub has_status : String → Option String → Bool
has_status wanted none = false
has_status wanted (some status) = status == wanted

unfoldable pub is_candidate : Event → Bool
is_candidate e = elim e.kind [
  | Kind.assertion ↦ has_status "candidate" e.event_data.status
  | _ ↦ false
]

-- `_candidate`
unfoldable pub candidate : ℕ → Store → Option Event
candidate id s = elim (get event_key id s.events) [
  | none ↦ none
  | some e ↦ if is_candidate e then some e else none
]

abbrev pub set_status : String → EventData → EventData
set_status status info = record info { status = some status }

abbrev pub reviewed : ℕ → EventData
reviewed id = record no_data { assertion = some id }

unfoldable pub approve : ℕ → Store → Result StoreError String × Store
approve id s = elim (candidate id s) [
  | none ↦ (err (StoreError.not_waiting id), s)
  | some e ↦
      let s1 =
        add_fact e.text (Document.assert e.id) (update_data e.id (set_status "approved") s) in
      (
        ok "approved",
        (append_event Kind.governance "user" (str_append "approved: " e.text) (reviewed e.id) s1).1,
      )
]

unfoldable pub reject : ℕ → Store → Result StoreError String × Store
reject id s = elim (candidate id s) [
  | none ↦ (err (StoreError.not_waiting id), s)
  | some e ↦ (
    ok "rejected",
    (append_event Kind.governance "user" (str_append "rejected: " e.text) (reviewed e.id)
        (update_data e.id (set_status "rejected") s)).1,
  )
]

-- `fact.update(state="invalidated", invalidation_reason=USER_WRONG)` on the fact with this id
unfoldable pub correct_fact : ℕ → Fact → Fact
correct_fact id f =
    if f.id == id
    then record f { state = FactState.invalidated; invalidation_reason = some Reason.user_wrong }
    else f

abbrev pub correcting : Fact → EventData
correcting f = record no_data {
  correction = some (record { memory_id = f.id; document_id = f.document_id; text = f.text });
}

unfoldable pub wrong : Texts → ℕ → Store → Result StoreError String × Store
wrong lib id s = elim (get fact_key id s.facts) [
  | none ↦ (err (StoreError.no_fact id), s)
  | some f ↦ (
    ok "recorded as a correction",
    (append_event Kind.governance "user" (str_append "rejected: " (claim_of lib f.text))
        (correcting f) (record s { facts = map (correct_fact id) s.facts })).1,
  )
]

unfoldable pub restore_fact : ℕ → Fact → Fact
restore_fact id f =
    if f.id == id then record f { state = FactState.valid; invalidation_reason = none } else f

unfoldable pub restore_all : List Withdrawn → List Fact → List Fact
restore_all [] facts = facts
restore_all (w ∷ ws) facts = restore_all ws (map (restore_fact w.id) facts)

abbrev pub withdrawn_of : Option (List Withdrawn) → List Withdrawn
withdrawn_of none = []
withdrawn_of (some ws) = ws

-- The facts that do not come from the event
unfoldable pub is_elsewhere : ℕ → Fact → Bool
is_elsewhere id f = not (f.document_id == Document.turn id || f.document_id == Document.assert id)

abbrev pub restore_corrected : Event → List Fact → List Fact
restore_corrected e facts =
    if is_governance e
    then elim e.event_data.correction [
      | none ↦ facts
      | some c ↦ map (restore_fact c.memory_id) facts
    ]
    else facts

-- `forget` from its last test of the event on
unfoldable pub forget_event : Event → Store → String × Store
forget_event e s = (
  str_append "forgot event " (decimal e.id),
  (append_event Kind.governance "user"
      (str_append "forgot event "
        (str_append (decimal e.id) (str_append " (" (str_append (kind_text e.kind) ")"))))
      no_data (delete_event e.id (record s { facts = restore_corrected e s.facts }))).1,
)

abbrev done : String × Store → Result StoreError String × Store
done (m, s) = (ok m, s)

unfoldable pub forget : ℕ → Store → Result StoreError String × Store
forget id s = elim (get event_key id s.events) [
  | none ↦ (err (StoreError.no_event id), s)
  | some e ↦
      let s1 : Store = record s {
        facts =
            restore_all (withdrawn_of e.event_data.withdrawn) (filter (is_elsewhere e.id) s.facts);
      } in
      elim (retracted_turn e.event_data) [
        | none ↦ done (forget_event e s1)
        | some t ↦ elim (get event_key t s.events) [
          | none ↦ (err (StoreError.no_row t), s1)
          | some target ↦ done (forget_event e (update_data t (set_retracted_by none) s1))
        ]
      ]
]
