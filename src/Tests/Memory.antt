-- ===== src/Tests/Memory.antt =====
-- A turn that is remembered, retracted, and taken back; an assertion that is reviewed.
use evalai.Base.{
  String, true, false, none, some, List, [], ◌∷◌, ◌++◌, ◌≡◌, refl, inl, All, ◌==◌, string_eq,
  nat_eq, map,
}
use evalai.Base.Results.{Result, ok, err}
use evalai.Base.Text.{str_append, decimal}
use evalai.Memory.{
  Kind, FactState, Fact, Event, no_data, Store, StoreError, Texts, append_event, update_event,
  update_data, delete_event, add_fact,
}
use evalai.Memory.Remember.{
  remember, keep_turn, check, retract, is_retractable, withdraw, withdraws, withdraw_fact,
  withdrawn_facts,
}
use evalai.Memory.Review.{
  assert_fact, approve, reject, wrong, forget, candidate, is_candidate, correct_fact, restore_fact,
  restore_all, is_elsewhere, forget_event,
}
use evalai.Memory.Rebuild.{rebuild}
use evalai.Memory.Sound.{IsSound}
use evalai.Memory.Trace.{opened, Step, Reach, store-IsSound}
use evalai.Memory.Fallen.{IsRetraction, IsFallen, rebuild-falls}
use evalai.Memory.Undone.{retract-forget}
use evalai.Memory.Pages.{Snapshot, snapshot, snapshot_fact, rows_of}
use evalai.Memory.Paged.{snapshot-IsExhaustive}
use evalai.Memory.Once.{review_once}

abbrev plain_texts : Texts
plain_texts = record {
  strip = λ t. t;
  lower = λ t. t;
  words = λ t. t ∷ t ∷ t ∷ [];
  is_retraction = λ t. t == "forget that";
  is_question = λ t. false;
  only_filler = λ t. false;
}

abbrev start : Store
start = opened true none

abbrev one_turn : Store
one_turn = (remember plain_texts "I like tea" "user" start).1

abbrev retracted : Store
retracted = (remember plain_texts "forget that" "user" one_turn).1

one_turn-Reach : Reach plain_texts one_turn
one_turn-Reach = Reach.next (Reach.opens true none) (Step.remembers "I like tea" "user" refl)

store-IsSound_example : IsSound retracted
store-IsSound_example =
    store-IsSound plain_texts (Reach.next one_turn-Reach (Step.remembers "forget that" "user" refl))

rebuild-falls_example :
    All
      (λ e. IsRetraction 1 e → IsFallen 1 (rebuild plain_texts retracted).1.facts)
      retracted.events
rebuild-falls_example = rebuild-falls plain_texts retracted 1

first : Event
first = record {
  id = 1;
  kind = Kind.message;
  actor = "user";
  text = "I like tea";
  event_data = no_data;
}

retract-forget_example :
    let after : Result StoreError String × Store = forget 2 (retract "forget that" one_turn).1 in
    (after.0 ≡ ok (str_append "forgot event " (decimal 2)))
    × (after.1.facts ≡ one_turn.facts)
    × ((note : Event) × (after.1.events ≡ one_turn.events ++ note ∷ []))
unfolding opened remember keep_turn check append_event is_retractable add_fact first
retract-forget_example =
    retract-forget "forget that" one_turn first (store-IsSound plain_texts one_turn-Reach) refl

waiting : Store
waiting = (assert_fact plain_texts "born in May" "candidate" start).1

-- the assertion is approved
approved : Store
approved = (approve 1 waiting).1

review_once_example :
    (approve 1 approved ≡ (err (StoreError.not_waiting 1), approved))
    × (reject 1 approved ≡ (err (StoreError.not_waiting 1), approved))
unfolding waiting approved approve candidate is_candidate assert_fact append_event opened
review_once_example = review_once 1 waiting approved "approved" (inl refl)

-- A fact that the user corrected first_part its turn was retracted stands again once the correction is
-- forgotten.
abbrev revived : Store
revived =
    (forget 2 (remember plain_texts "forget that" "user" (wrong plain_texts 0 one_turn).1).1).1

revived_stands : map (λ (f : Fact). f.state) revived.facts ≡ FactState.valid ∷ []
unfolding forget forget_event remember retract keep_turn check append_event opened add_fact wrong
    correct_fact restore_all restore_fact is_elsewhere delete_event withdraw withdraw_fact withdraws
    withdrawn_facts update_data update_event is_retractable
revived_stands = refl

-- Once a retracted turn is forgotten, the retraction cannot be forgotten.
stuck : (forget 2 (forget 1 retracted).1).0 ≡ err (StoreError.no_row 1)
unfolding forget forget_event remember retract keep_turn check append_event opened add_fact
    restore_all is_elsewhere delete_event withdraw withdraw_fact withdraws withdrawn_facts
    update_data update_event is_retractable
stuck = refl

abbrev as_listed : List Fact → List Fact
as_listed rows = rows

snapshot-IsExhaustive_example :
    (snap : Snapshot) × (snapshot as_listed plain_texts retracted ≡ some snap)
    × (snap.exhaustive ≡ true)
    × (snap.facts
        ≡ map
            (snapshot_fact plain_texts FactState.valid)
            (rows_of as_listed FactState.valid none retracted)
          ++ map
              (snapshot_fact plain_texts FactState.invalidated)
              (rows_of as_listed FactState.invalidated none retracted))
snapshot-IsExhaustive_example = snapshot-IsExhaustive as_listed (λ rows. refl) plain_texts retracted
