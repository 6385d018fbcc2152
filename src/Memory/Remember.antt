-- ===== src/Memory/Remember.antt =====
-- backends/fake.py: `_check`, `remember` and `_withdraw`. The delay that a test can ask for is left out.
use evalai.Base.{
  ℕ, String, Bool, true, false, not, ◌&&◌, ◌||◌, Option, none, some, List, [], ◌∷◌, ◌++◌, ◌==◌,
  string_eq, nat_eq, if◌then◌else◌, filter, map, length, contains, ltb,
}
use evalai.Base.Text.{str_append, decimal}
use evalai.Memory.{
  Kind, Document, document_eq, FactState, is_valid, Reason, Fact, Withdrawn, EventData, no_data,
  Event, Fault, SmallTalk, Store, Texts, append_event, update_data, add_fact, present, is_message,
}

abbrev verdict : String → String → String → SmallTalk
verdict outcome method reason = record {
  outcome = outcome;
  method = method;
  reason = reason;
  fault_injected = none;
}

abbrev fault_error : Fault → String
fault_error Fault.timeout = "ReadTimeout"
fault_error Fault.malformed = "JSONDecodeError"
fault_error Fault.http_500 = "HTTPStatusError"

abbrev lasting : Texts → String → List String
lasting lib text =
    filter (λ w. not (contains ("the" ∷ "a" ∷ "i" ∷ "is" ∷ "my" ∷ []) w))
      (lib.words (lib.lower text))

-- `_check`: whether the text is kept, and the record of why
unfoldable pub check : Texts → Option Fault → String → Bool × SmallTalk
check lib fault text =
    if lib.only_filler text
    then (false, verdict "skipped" "rule" "small talk: only an acknowledgement or reaction")
    else elim fault [
      | some f ↦ (
        true,
        record {
          outcome = "fallback";
          method = "fallback";
          reason =
              str_append "kept because the small-talk check failed ("
                (str_append (fault_error f) ")");
          fault_injected = some f;
        },
      )
      | none ↦
          if lib.is_question text || ltb (length (lasting lib text)) 2
          then (false, verdict "skipped" "fake" "small talk: nothing lasting to remember")
          else (true, verdict "kept" "fake" "says something lasting")
    ]

-- `_withdraw`
unfoldable pub withdraws : ℕ → Fact → Bool
withdraws target f = f.document_id == Document.turn target && is_valid f.state

unfoldable pub withdraw_fact : ℕ → ℕ → Fact → Fact
withdraw_fact target by f =
    if withdraws target f
    then record f {
      state = FactState.invalidated;
      invalidation_reason = some (Reason.retracted_by_event by);
    }
    else f

unfoldable pub withdrawn_facts : ℕ → List Fact → List Withdrawn
withdrawn_facts target facts =
    map (λ (f : Fact). record { id = f.id; text = f.text }) (filter (withdraws target) facts)

abbrev pub with_withdrawn : List Withdrawn → EventData → EventData
with_withdrawn ws info = record info { withdrawn = some ws }

unfoldable pub withdraw : ℕ → ℕ → Store → List Withdrawn × Store
withdraw target by s =
    let ws = withdrawn_facts target s.facts in
    (
      ws,
      update_data by (with_withdrawn ws)
          (record s { facts = map (withdraw_fact target by) s.facts }),
    )

-- `next((e for e in reversed(events) if ...), None)`
abbrev pub last_where : (Event → Bool) → List Event → Option Event
last_where p [] = none
last_where p (e ∷ es) = elim (last_where p es) [
  | some e' ↦ some e'
  | none ↦ if p e then some e else none
]

unfoldable pub is_retractable : Event → Bool
is_retractable e =
    (is_message e && e.actor == "user")
    && ((not (present e.event_data.retracts) && not (present e.event_data.retracted_by))
        && not (present e.event_data.skipped))

abbrev pub retracting : ℕ → EventData
retracting target = record no_data { retracts = some target }

abbrev pub set_retracted_by : Option ℕ → EventData → EventData
set_retracted_by by info = record info { retracted_by = by }

-- A retraction takes back the last turn of the user that still stands.
unfoldable pub retract : String → Store → String × Store
retract text s = elim (last_where is_retractable s.events) [
  | none ↦
      ("nothing earlier to retract", (append_event Kind.message "user" text (retracting 0) s).1)
  | some target ↦
      let made = append_event Kind.message "user" text (retracting target.id) s in
      let gone = withdraw target.id made.0.id made.1 in
      (
        str_append "withdrew " (
            str_append (decimal (length gone.0))
              (str_append " fact(s) from turn " (decimal target.id))),
        update_data target.id (set_retracted_by (some made.0.id)) gone.1,
      )
]

abbrev pub set_skipped : String → EventData → EventData
set_skipped reason info = record info { skipped = some reason }

abbrev pub stored : Event → Store → String × Store
stored e s = (str_append "remembered turn " (decimal e.id), add_fact e.text (Document.turn e.id) s)

-- The turn's event `e` is in the log, and the check gave `v`.
abbrev pub judged : Event → Bool → SmallTalk → Store → String × Store
judged e keep v s =
    let s' : Store = record s { smalltalk_records = s.smalltalk_records ++ v ∷ [] } in
    if keep then stored e s' else (
      str_append "turn " (str_append (decimal e.id) (str_append " not stored: " v.reason)),
      update_data e.id (set_skipped v.reason) s',
    )

unfoldable pub keep_turn : Texts → String → String → Store → String × Store
keep_turn lib text actor s =
    let (e, s1) = append_event Kind.message actor text no_data s in
    let (keep, v) = check lib s1.fault text in
    if s1.small_talk_filter then judged e keep v s1 else stored e s1

unfoldable pub remember : Texts → String → String → Store → String × Store
remember lib raw actor s =
    let text = lib.strip raw in
    if actor == "user" && lib.is_retraction text then retract text s else keep_turn lib text actor s
