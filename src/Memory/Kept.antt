-- ===== src/Memory/Kept.antt =====
-- `remember` and `_withdraw` of backends/fake.py keep the store sound.
use evalai.Base.{
  ℕ, ◌<◌, String, false, ◌&&◌, Option, List, [], ◌∷◌, ◌++◌, ◌≡◌, refl, sym, ap, subst, inl, inr,
  arith, All, ◌==◌, nat_eq, string_eq, Bool-cases, if_both, Option-cases, map,
}
use evalai.Memory.{
  Kind, Document, document_eq, EventData, Event, Store, Texts, Withdrawn, no_data, append_event,
  update_event, update_data, SmallTalk,
}
use evalai.Memory.Rebuild.{replayed}
use evalai.Memory.Remember.{
  check, judged, withdraws, withdraw_fact, withdraw, with_withdrawn, set_retracted_by, retracting,
  last_where, is_retractable, retract, keep_turn, remember, set_skipped, stored,
}
use evalai.Memory.Ledger.{IsNamed}
use evalai.Memory.Sound.{
  IsSound, IsQuiet, IsMark, core, outline, update-IsSound, mark-IsSound, append-IsSound,
  keep-IsSound,
}

pub withdraw_fact-IsMark : (target by : ℕ) → IsMark (withdraw_fact target by)
unfolding withdraw_fact core
withdraw_fact-IsMark target by = record {
  same = λ f. elim (Bool-cases (withdraws target f)) [
    | inl t ↦ rw (core, t) refl
    | inr n ↦ rw (core, n) refl
  ];
  reasons = λ f k. elim (Bool-cases (withdraws target f)) [
    | inl t ↦ rw t (λ e. absurd (cc))
    | inr n ↦ rw n k
  ];
}

pub with_withdrawn-IsQuiet : (ws : List Withdrawn) → IsQuiet (with_withdrawn ws)
with_withdrawn-IsQuiet ws = record { retracts = λ d. refl; skipped = λ d. refl; status = λ d. refl }

pub set_retracted_by-IsQuiet : (by : Option ℕ) → IsQuiet (set_retracted_by by)
set_retracted_by-IsQuiet by = record {
  retracts = λ d. refl;
  skipped = λ d. refl;
  status = λ d. refl;
}

pub withdraw-IsSound : (target by : ℕ) (s : Store) → IsSound s → IsSound (withdraw target by s).1
unfolding withdraw
withdraw-IsSound target by s h =
    update-IsSound (mark-IsSound h (withdraw_fact target by) (withdraw_fact-IsMark target by)) by _
      (with_withdrawn-IsQuiet _)

pub retract-IsSound : (text : String) (s : Store) → IsSound s → IsSound (retract text s).1
unfolding retract append_event replayed
retract-IsSound text s h = elim (Option-cases (last_where is_retractable s.events)) [
  | inl e ↦
      rw (retract, e) (append-IsSound h Kind.message "user" text (retracting 0) refl (λ _. refl))
  | inr (target, e) ↦
      rw (retract, e)
        (let h1 =
            append-IsSound h Kind.message "user" text (retracting target.id) refl (λ _. refl) in
          update-IsSound (withdraw-IsSound target.id s.next_event _ h1) target.id _
            (set_retracted_by-IsQuiet _))
]

-- The append of a turn that is then skipped
pub update_new :
    (id : ℕ) (change : EventData → EventData) (e : Event) (es : List Event)
    → e.id ≡ id
    → All (λ (x : Event). x.id < id) es
    → map (update_event id change) (es ++ e ∷ [])
      ≡ es ++ record e { event_data = change e.event_data } ∷ []
unfolding update_event
update_new id change e [] at h = rw ((nat_eq.is_same_iff e.id id).1 at) refl
update_new id change e (x ∷ es) at h =
    let k = h.0 in
    let off : (x.id == id) ≡ false = ground arith in
    rw off (ap (λ l. x ∷ l) (update_new id change e es at h.1))

pub below_of :
    (n : ℕ) (es : List Event) → All (IsNamed n) (map outline es) → All (λ (x : Event). x.id < n) es
unfolding outline
below_of n [] h = tt
below_of n (e ∷ es) h = (h.0.1, below_of n es h.1)

skip-IsSound :
    (text actor reason : String) (s : Store)
    → IsSound s
    → IsSound (
        update_data s.next_event
          (set_skipped reason)
          (append_event Kind.message actor text no_data s).1)
unfolding append_event update_data replayed
skip-IsSound text actor reason s h =
    let e : Event = (append_event Kind.message actor text no_data s).0 in
    let below = below_of s.next_event s.events h.ledger.named in
    let k =
      append-IsSound h Kind.message actor text (set_skipped reason no_data) refl (λ _. refl) in
    subst
      (λ es. IsSound (record (append_event Kind.message actor text no_data s).1 { events = es }))
      (sym (update_new s.next_event (set_skipped reason) e s.events refl below)) k

stored-IsSound :
    (text actor : String) (s : Store)
    → IsSound s
    → IsSound
        (stored
          (append_event Kind.message actor text no_data s).0
          (append_event Kind.message actor text no_data s).1).1
unfolding append_event replayed
stored-IsSound text actor s h =
    keep-IsSound h Kind.message actor text no_data (Document.turn s.next_event) refl (λ _. refl)
      refl

IsSound-records :
    (s : Store) (vs : List SmallTalk) → IsSound s → IsSound (record s { smalltalk_records = vs })
IsSound-records s vs h = record {
  numbered = h.numbered;
  ledger = h.ledger;
  reasons = h.reasons;
  tidy = h.tidy;
}

keep_turn-IsSound :
    (lib : Texts) (text actor : String) (s : Store)
    → IsSound s
    → IsSound (keep_turn lib text actor s).1
unfolding keep_turn append_event replayed
keep_turn-IsSound lib text actor s h =
    let (e, s1) = append_event Kind.message actor text no_data s in
    let (keep, v) = check lib s1.fault text in
    let told = IsSound-records s (s.smalltalk_records ++ v ∷ []) h in
    if_both (λ (r : String × Store). IsSound r.1) s.small_talk_filter (judged e keep v s1)
      (stored e s1)
      (if_both (λ (r : String × Store). IsSound r.1) keep _ _ (stored-IsSound text actor _ told)
        (skip-IsSound text actor v.reason _ told))
      (stored-IsSound text actor s h)

pub remember-IsSound :
    (lib : Texts) (raw actor : String) (s : Store)
    → IsSound s
    → IsSound (remember lib raw actor s).1
unfolding remember
remember-IsSound lib raw actor s h =
    elim (Bool-cases (actor == "user" && lib.is_retraction (lib.strip raw))) [
      | inl t ↦ rw t (retract-IsSound (lib.strip raw) s h)
      | inr f ↦ rw f (keep_turn-IsSound lib (lib.strip raw) actor s h)
    ]
