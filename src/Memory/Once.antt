-- ===== src/Memory/Once.antt =====
-- backends/fake.py: an assertion is reviewed once.
use evalai.Base.{
  ℕ, String, false, none, some, List, ◌++◌, ◌≡◌, refl, sym, ◌⊎◌, inl, inr, arith, ◌==◌, nat_eq,
  string_eq, Option-cases, map,
}
use evalai.Base.Table.{get, get-append, get-map}
use evalai.Base.Results.{ok, err}
use evalai.Memory.{
  Event, Store, StoreError, event_key, append_event, update_event, update_data, add_fact,
}
use evalai.Memory.Review.{set_status, is_candidate, candidate, approve, reject}
use evalai.Memory.Sound.{update_event-id}
use evalai.Memory.Reviewed.{candidate-eq-some}

settled_apart :
    (status : String) (e : Event)
    → (status == "candidate") ≡ false
    → is_candidate (record e { event_data = set_status status e.event_data }) ≡ false
unfolding is_candidate
settled_apart status e h = ground (arith, h)

-- After a status other than "candidate" is written, no review of the event is taken.
candidate_settled :
    (status : String) (id : ℕ) (es note : List Event) (e : Event)
    → (status == "candidate") ≡ false
    → get event_key id es ≡ some e
    → (s : Store) → s.events ≡ map (update_event e.id (set_status status)) es ++ note
    → candidate id s ≡ none
unfolding candidate update_event
candidate_settled status id es note e h there s log =
    let found = get-append event_key id (map (update_event e.id (set_status status)) es) note _ (
      get-map event_key (update_event e.id (set_status status)) id es e
        (update_event-id e.id (set_status status)) there) in
    rw (candidate, log, found, (nat_eq.is_same_iff e.id e.id).1 refl)
      (rw (settled_apart status e h) refl)

refused :
    (id : ℕ) (s : Store)
    → candidate id s ≡ none
    → (approve id s ≡ (err (StoreError.not_waiting id), s))
      × (reject id s ≡ (err (StoreError.not_waiting id), s))
unfolding approve reject
refused id s h = (rw (approve, h) refl, rw (reject, h) refl)

-- After an approval or a rejection of an event has succeeded, each further approval or rejection
-- of it is refused and changes nothing.
pub review_once :
    (id : ℕ) (s s' : Store) (m : String)
    → (approve id s ≡ (ok m, s')) ⊎ (reject id s ≡ (ok m, s'))
    → (approve id s' ≡ (err (StoreError.not_waiting id), s'))
      × (reject id s' ≡ (err (StoreError.not_waiting id), s'))
unfolding approve reject update_data add_fact append_event
review_once id s s' m done = elim (Option-cases (candidate id s)) [
  | inl k ↦ absurd (elim done [
    | inl a ↦ (let q = rw (approve, k) at a in cc)
    | inr r ↦ (let q = rw (reject, k) at r in cc)
  ])
  | inr (e, k) ↦
      let there = (candidate-eq-some id s e k).0 in
      elim done [
        | inl a ↦
            let q = rw (approve, k) at a in
            refused id s' (
              candidate_settled "approved" id s.events _ e refl there s'
                (sym (λ i. (q i).1.events)))
        | inr r ↦
            let q = rw (reject, k) at r in
            refused id s' (
              candidate_settled "rejected" id s.events _ e refl there s'
                (sym (λ i. (q i).1.events)))
      ]
]
