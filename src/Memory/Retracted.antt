-- ===== src/Memory/Retracted.antt =====
-- backends/fake.py: the log around a retraction, and `forget` of one.
use evalai.Base.{
  ℕ, String, Bool, true, false, not, Option, none, some, List, [], ◌∷◌, ◌++◌, ◌≡◌, ◌≢◌, refl, sym,
  ap, subst, ◌∙◌, inl, inr, arith, All, ◌==◌, nat_eq, string_eq, Bool-cases, Option-cases, map,
  filter,
}
use evalai.Base.Predicates.{All-imp}
use evalai.Base.Table.{get, All-get}
use evalai.Base.Keys.{IsUnique, All-of_keys, All-get_self}
use evalai.Base.Results.{Result, ok}
use evalai.Base.Text.{str_append, decimal}
use evalai.Memory.{
  document_eq, Event, Store, StoreError, Withdrawn, event_key, append_event, update_event,
  update_data, delete_event, is_governance, retracted_turn,
}
use evalai.Memory.Remember.{set_retracted_by, last_where, is_retractable}
use evalai.Memory.Review.{restore_all, is_elsewhere, forget_event, forget}

pub last_where-get :
    (p : Event → Bool) (es : List Event) (e : Event)
    → IsUnique event_key es
    → last_where p es ≡ some e
    → (get event_key e.id es ≡ some e) × (p e ≡ true)
last_where-get p [] e u h = absurd (cc)
last_where-get p (x ∷ es) e u h = elim (Option-cases (last_where p es)) [
  | inl k ↦ elim (Bool-cases (p x)) [
    | inl t ↦
        let same : some x ≡ some e = rw (k, t) at h in
        let eq : x ≡ e = cc in
        rw eq (rw ((nat_eq.is_same_iff e.id e.id).1 refl) refl, subst (λ y. p y ≡ true) eq t)
    | inr f ↦ let no = rw (k, f) at h in absurd (cc)
  ]
  | inr (y, k) ↦
      let same : some y ≡ some e = rw k at h in
      let (there, passes) = last_where-get p es e u.1 (k ∙ same) in
      let ne =
        All-get event_key (λ (r : Event). x.id ≢ r.id) e.id es e
          (All-of_keys event_key (λ i. x.id ≢ i) es u.0) there in
      let off : (x.id == e.id) ≡ false = ground arith in (rw off there, passes)
]

-- The log once the turn `t` is retracted by the event `e`
module _ (t : ℕ) (by : Option ℕ) where
  reset_on :
      (e : Event)
      → (e.id == t) ≡ true
      → e.event_data.retracted_by ≡ none
      → update_event t (set_retracted_by none) (update_event t (set_retracted_by by) e) ≡ e
  unfolding update_event
  reset_on e k h =
      rw (update_event, k)
        (rw (update_event, k)
          (λ i. record e { event_data = record e.event_data { retracted_by = sym h i } }))

  reset_off :
      (e : Event)
      → (e.id == t) ≡ false
      → update_event t (set_retracted_by none) (update_event t (set_retracted_by by) e) ≡ e
  unfolding update_event
  reset_off e k = rw (update_event, k) (rw (update_event, k) refl)

  pub reset :
      (es : List Event)
      → All (λ e. e.id ≡ t → e.event_data.retracted_by ≡ none) es
      → map (update_event t (set_retracted_by none)) (map (update_event t (set_retracted_by by)) es)
        ≡ es
  reset [] h = refl
  reset (e ∷ es) h = elim (Bool-cases (e.id == t)) [
    | inl k ↦ λ i. reset_on e k (h.0 ((nat_eq.is_same_iff e.id t).0 k)) i ∷ reset es h.1 i
    | inr n ↦ λ i. reset_off e n i ∷ reset es h.1 i
  ]

pub retractable_free : (e : Event) → is_retractable e ≡ true → e.event_data.retracted_by ≡ none
unfolding is_retractable
retractable_free e h = ground arith

-- Only the turn itself has its id, and it is not retracted yet.
pub free_of :
    (es : List Event) (target : Event)
    → IsUnique event_key es
    → get event_key target.id es ≡ some target
    → target.event_data.retracted_by ≡ none
    → All (λ e. e.id ≡ target.id → e.event_data.retracted_by ≡ none) es
free_of es target u there h =
    All-imp (λ e. get event_key e.id es ≡ some e)
      (λ e. e.id ≡ target.id → e.event_data.retracted_by ≡ none) es
      (λ e k at.
        let eq : some e ≡ some target = sym k ∙ ap (λ i. get event_key i es) at ∙ there in
        let same : e ≡ target = cc in rw same h)
      (All-get_self event_key es u)

-- What `forget` does with a retraction whose turn is still in the log
pub forget_retraction :
    (t : ℕ) (ws : List Withdrawn) (s : Store) (e target : Event)
    → get event_key e.id s.events ≡ some e
    → retracted_turn e.event_data ≡ some t
    → get event_key t s.events ≡ some target
    → e.event_data.withdrawn ≡ some ws
    → is_governance e ≡ false
    → let after : Result StoreError String × Store = forget e.id s in
      (after.0 ≡ ok (str_append "forgot event " (decimal e.id)))
      × (after.1.facts ≡ restore_all ws (filter (is_elsewhere e.id) s.facts))
      × ((note : Event) × (after.1.events
            ≡ filter
                (λ (x : Event). not (x.id == e.id))
                (map (update_event t (set_retracted_by none)) s.events)
              ++ note ∷ []))
unfolding forget forget_event update_data delete_event append_event
forget_retraction t ws s e target there k found w plain_texts =
    rw (forget, there, k, found, w, plain_texts) (refl, refl, (_, refl))
