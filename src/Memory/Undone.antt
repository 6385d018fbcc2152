-- ===== src/Memory/Undone.antt =====
-- backends/fake.py: `forget` of a retraction takes back what `remember` did, in the facts and in the log.
use mathlib.Core.List.{map-append}
use evalai.Base.{
  ℕ, ◌<◌, String, true, false, not, Option, none, some, List, [], ◌∷◌, ◌++◌, ◌≡◌, ◌≢◌, refl, sym,
  ap, subst, ◌∙◌, arith, All, ◌==◌, nat_eq, string_eq, map, filter,
}
use evalai.Base.Predicates.{All-imp, All-map, filter_all, filter_last}
use evalai.Base.Table.{get, get_new, get-append, get-map, All-get}
use evalai.Base.Results.{Result, ok}
use evalai.Base.Text.{str_append, decimal}
use evalai.Memory.{
  Kind, document_eq, Event, Store, StoreError, event_key, append_event, update_event, update_data,
  retracted_turn,
}
use evalai.Memory.Rebuild.{replayed}
use evalai.Memory.Remember.{
  withdraw_fact, withdrawn_facts, withdraw, with_withdrawn, set_retracted_by, retracting,
  last_where, is_retractable, retract,
}
use evalai.Memory.Review.{restore_all, is_elsewhere, forget}
use evalai.Memory.Undo.{restore_all-withdraw, facts-IsUnique, elsewhere_facts}
use evalai.Memory.Ledger.{outline_key, IsNamed}
use evalai.Memory.Sound.{IsSound, outline}
use evalai.Memory.Kept.{update_new, below_of, retract-IsSound}
use evalai.Memory.Reviewed.{log-IsUnique, get-outline}
use evalai.Memory.Changes.{silent_elsewhere}
use evalai.Memory.Retracted.{last_where-get, reset, retractable_free, free_of, forget_retraction}
use evalai.Memory.Sound.{update_event-id}

module _ (text : String) (s : Store) (target : Event) (h : IsSound s)
    (last : last_where is_retractable s.events ≡ some target) where
  -- The retraction's event as the log has it in the end
  retraction : Event
  retraction = record {
    id = s.next_event;
    kind = Kind.message;
    actor = "user";
    text = text;
    event_data = with_withdrawn (withdrawn_facts target.id s.facts) (retracting target.id);
  }

  found : get event_key target.id s.events ≡ some target
  found = (last_where-get is_retractable s.events target (log-IsUnique s h) last).0

  earlier : target.id < s.next_event
  earlier =
      All-get event_key (λ (e : Event). e.id < s.next_event) target.id s.events target
        (below_of s.next_event s.events h.ledger.named) found

  untouched : (by : Option ℕ) → update_event target.id (set_retracted_by by) retraction ≡ retraction
  unfolding update_event retraction
  untouched by =
      let k = earlier in let off : (s.next_event == target.id) ≡ false = ground arith in rw off refl

  log_after :
      (retract text s).1.events
      ≡ map (update_event target.id (set_retracted_by (some s.next_event))) s.events
        ++ retraction ∷ []
  unfolding retract withdraw append_event update_data retraction
  log_after =
      rw (retract, last)
        (ap (map (update_event target.id (set_retracted_by (some s.next_event)))) (
            update_new s.next_event (with_withdrawn (withdrawn_facts target.id s.facts))
              (append_event Kind.message "user" text (retracting target.id) s).0 s.events refl
              (below_of s.next_event s.events h.ledger.named))
          ∙ map-append (update_event target.id (set_retracted_by (some s.next_event))) s.events
              (retraction ∷ [])
          ∙ ap
              (λ e.
                map (update_event target.id (set_retracted_by (some s.next_event))) s.events
                ++ e ∷ [])
              (untouched (some s.next_event)))

  positive : retracted_turn retraction.event_data ≡ some target.id
  unfolding retraction outline
  positive =
      let k =
        (All-get outline_key (IsNamed s.next_event) target.id (map outline s.events)
          (outline target) h.ledger.named (get-outline target.id s.events target found)).0 in
      let off : (target.id == 0) ≡ false = ground arith in rw off refl

  marked_log : List Event
  marked_log = map (update_event target.id (set_retracted_by (some s.next_event))) s.events

  marked_log-below : All (λ (e : Event). e.id < s.next_event) marked_log
  unfolding marked_log update_event
  marked_log-below =
      All-map (λ (e : Event). e.id < s.next_event)
        (update_event target.id (set_retracted_by (some s.next_event))) s.events
        (λ e k.
          subst (λ i. i < s.next_event)
            (sym (update_event-id target.id (set_retracted_by (some s.next_event)) e)) k)
        (below_of s.next_event s.events h.ledger.named)

  self_found : get event_key s.next_event (marked_log ++ retraction ∷ []) ≡ some retraction
  unfolding retraction
  self_found =
      get_new event_key s.next_event retraction marked_log
        (All-imp (λ (e : Event). e.id < s.next_event) (λ (e : Event). e.id ≢ s.next_event)
          marked_log (λ e k same. absurd (omega arith)) marked_log-below)
        refl

  target_found : (e : Event) × (get event_key target.id (marked_log ++ retraction ∷ []) ≡ some e)
  unfolding marked_log
  target_found = (
    _,
    get-append event_key target.id marked_log (retraction ∷ []) _ (
        get-map event_key (update_event target.id (set_retracted_by (some s.next_event))) target.id
          s.events target (update_event-id target.id (set_retracted_by (some s.next_event))) found),
  )

  free : All (λ e. e.id ≡ target.id → e.event_data.retracted_by ≡ none) s.events
  free = free_of s.events target (log-IsUnique s h) found (
      retractable_free target
        (last_where-get is_retractable s.events target (log-IsUnique s h) last).1)

  log_undone :
      filter
        (λ (e : Event). not (e.id == s.next_event))
        (map (update_event target.id (set_retracted_by none)) (marked_log ++ retraction ∷ []))
      ≡ s.events
  unfolding marked_log retraction
  log_undone =
      ap (filter (λ (e : Event). not (e.id == s.next_event))) (
        map-append (update_event target.id (set_retracted_by none)) marked_log (retraction ∷ [])
        ∙ (λ i. reset target.id (some s.next_event) s.events free i ++ untouched none i ∷ []))
      ∙ filter_last (λ (e : Event). not (e.id == s.next_event)) s.events retraction
          (All-imp (λ (e : Event). e.id < s.next_event) (λ e. not (e.id == s.next_event) ≡ true)
            s.events (λ e k. ground arith) (below_of s.next_event s.events h.ledger.named))
          (rw ((nat_eq.is_same_iff s.next_event s.next_event).1 refl) refl)

  facts_after : (retract text s).1.facts ≡ map (withdraw_fact target.id s.next_event) s.facts
  unfolding retract withdraw append_event update_data
  facts_after = rw (retract, last) refl

  all_elsewhere :
      All
        (λ f. is_elsewhere s.next_event f ≡ true)
        (map (withdraw_fact target.id s.next_event) s.facts)
  unfolding marked_log retraction outline replayed
  all_elsewhere =
      let k =
        silent_elsewhere (retract-IsSound text s h).ledger s.next_event (outline retraction)
          (get-outline s.next_event (retract text s).1.events retraction (rw log_after self_found))
          refl in
      elsewhere_facts s.next_event (map (withdraw_fact target.id s.next_event) s.facts)
        (rw facts_after at k)

  facts_undone :
      restore_all
        (withdrawn_facts target.id s.facts)
        (filter (is_elsewhere s.next_event) (map (withdraw_fact target.id s.next_event) s.facts))
      ≡ s.facts
  facts_undone =
      ap (restore_all (withdrawn_facts target.id s.facts))
        (filter_all (is_elsewhere s.next_event) _ all_elsewhere)
      ∙ restore_all-withdraw target.id s.next_event s.facts (facts-IsUnique s h) h.reasons

  -- In a sound store where a user's turn can be retracted, forgetting the retraction right after
  -- it succeeds: it gives back the same facts, and the same log with one event added.
  pub retract-forget :
      let after : Result StoreError String × Store = forget s.next_event (retract text s).1 in
      (after.0 ≡ ok (str_append "forgot event " (decimal s.next_event)))
      × (after.1.facts ≡ s.facts)
      × ((note : Event) × (after.1.events ≡ s.events ++ note ∷ []))
  unfolding retraction marked_log
  retract-forget =
      let (said, facts, (note, events)) =
        forget_retraction target.id (withdrawn_facts target.id s.facts) (retract text s).1
          retraction target_found.0 (rw log_after self_found) positive (rw log_after target_found.1)
          refl refl in
      (
        said,
        facts
            ∙ ap
                (λ l.
                  restore_all (withdrawn_facts target.id s.facts)
                    (filter (is_elsewhere s.next_event) l))
                facts_after
            ∙ facts_undone,
        (
          note,
          events
              ∙ ap
                  (λ l.
                    filter (λ (x : Event). not (x.id == s.next_event))
                      (map (update_event target.id (set_retracted_by none)) l)
                    ++ note ∷ [])
                  log_after
              ∙ ap (λ l. l ++ note ∷ []) log_undone,
        ),
      )
