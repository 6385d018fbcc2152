-- ===== src/Memory.antt =====
-- bridges/memoryai/evalai_bridge/backends/fake.py: the store that stands in for MemoryAI, its event
-- log and its facts. The time of an event and the tokens of a text are left out. `split_fact` is that of
-- backends/base.py, of which the claim is used.
pub mod Remember
pub mod Review
pub mod Rebuild
pub mod Ledger
pub mod Changes
pub mod Replayed
pub mod Sound
pub mod Kept
pub mod Reviewed
pub mod Waiting
pub mod Retracted
pub mod Forgotten
pub mod Rebuilt
pub mod Trace
pub mod Undo
pub mod Undone
pub mod Once
pub mod Pages
pub mod Paged
pub mod Fallen
use evalai.Base.{
  ℕ, ◌+◌, String, Bool, true, false, not, ◌&&◌, Option, none, some, List, [], ◌∷◌, ◌++◌, ◌≡◌, ◌↔◌,
  refl, arith, ◌==◌, Equality, nat_eq, string_eq, if◌then◌else◌, filter, map,
}
use evalai.Base.Table.{get}
use evalai.Base.Text.{str_append, decimal, starts}
use Prim.Native.String.{◌∷◌ as char_cons, [] as no_text}

pub data Kind : Type 0 where
  message assertion governance : Kind

abbrev pub kind_text : Kind → String
kind_text Kind.message = "message"
kind_text Kind.assertion = "assertion"
kind_text Kind.governance = "governance"

-- `f"turn-{event.id}"` and `f"assert-{event.id}"`
pub data Document : Type 0 where
  turn assert : ℕ → Document

abbrev same_document : Document → Document → Bool
same_document (Document.turn m) (Document.turn n) = m == n
same_document (Document.assert m) (Document.assert n) = m == n
same_document (Document.turn m) (Document.assert n) = false
same_document (Document.assert m) (Document.turn n) = false

pub same_document_iff : (d d' : Document) → (same_document d d' ≡ true) ↔ (d ≡ d')
same_document_iff (Document.turn m) (Document.turn n) = ground arith
same_document_iff (Document.assert m) (Document.assert n) = ground arith
same_document_iff (Document.turn m) (Document.assert n) = ground arith
same_document_iff (Document.assert m) (Document.turn n) = ground arith

instance abbrev pub document_eq : Equality Document
document_eq = record { is_same = same_document; is_same_iff = same_document_iff }

pub data FactState : Type 0 where
  valid invalidated : FactState

abbrev pub is_valid : FactState → Bool
is_valid FactState.valid = true
is_valid FactState.invalidated = false

-- `f"retracted by event {by_id}"` and `USER_WRONG`
pub data Reason : Type 0 where
  retracted_by_event : ℕ → Reason
  user_wrong : Reason

pub record Fact : Type 0 where
  pub id : ℕ
  pub text : String
  pub document_id : Document
  pub state : FactState
  pub invalidation_reason : Option Reason

pub record Withdrawn : Type 0 where
  pub id : ℕ
  pub text : String

-- The three keys that only `wrong` writes, all at once
pub record Corrected : Type 0 where
  pub memory_id : ℕ
  pub document_id : Document
  pub text : String

pub record Unresolved : Type 0 where
  pub text : String
  pub event : ℕ

-- The keys of an event's data: `none` is a key that is absent. `rebuild` and `unresolved` are one, as
-- the two are written together.
pub record EventData : Type 0 where
  pub retracts : Option ℕ
  pub retracted_by : Option ℕ
  pub skipped : Option String
  pub withdrawn : Option (List Withdrawn)
  pub status : Option String
  pub assertion : Option ℕ
  pub correction : Option Corrected
  pub unresolved : Option (List Unresolved)

abbrev pub no_data : EventData
no_data = record {
  retracts = none;
  retracted_by = none;
  skipped = none;
  withdrawn = none;
  status = none;
  assertion = none;
  correction = none;
  unresolved = none;
}

pub record Event : Type 0 where
  pub id : ℕ
  pub kind : Kind
  pub actor : String
  pub text : String
  pub event_data : EventData

pub data Fault : Type 0 where
  timeout malformed http_500 : Fault

-- What the small-talk check gave
pub record SmallTalk : Type 0 where
  pub outcome : String
  pub method : String
  pub reason : String
  pub fault_injected : Option Fault

-- `next_event` is the counter of AUTOINCREMENT, which gives no id twice; a fact's UUID is the number of
-- facts made first_part, so `facts` has its values in the order of insertion, each under its id.
pub record Store : Type 0 where
  pub events : List Event
  pub next_event : ℕ
  pub facts : List Fact
  pub next_memory : ℕ
  pub small_talk_filter : Bool
  pub fault : Option Fault
  pub smalltalk_records : List SmallTalk

pub data StoreError : Type 0 where
  not_waiting no_fact no_event : ℕ → StoreError
  -- the AttributeError of `update_data` on an event that is not in the log
  no_row : ℕ → StoreError

-- Python's operations on text that the store calls, with its three regular expressions and MemoryAI's
-- `only_filler`: `words` is `re.findall(r"\w+", text)`.
pub record Texts : Type 0 where
  pub strip : String → String
  pub lower : String → String
  pub words : String → List String
  pub is_retraction : String → Bool
  pub is_question : String → Bool
  pub only_filler : String → Bool

abbrev pub event_key : Event → ℕ
event_key e = e.id

abbrev pub fact_key : Fact → ℕ
fact_key f = f.id

-- `text.split(sep)[0]`
abbrev first_part : String → String → String
first_part sep no_text = no_text
first_part sep (char_cons c s) =
    let rest = first_part sep s in if starts sep (char_cons c s) then no_text else char_cons c rest

-- `split_fact(text)[0]`
unfoldable pub claim_of : Texts → String → String
claim_of lib text = lib.strip (first_part " | " text)

-- `append`: the event, and the store with it
unfoldable pub append_event : Kind → String → String → EventData → Store → Event × Store
append_event kind actor text info s =
    let e : Event = record {
      id = s.next_event;
      kind = kind;
      actor = actor;
      text = text;
      event_data = info;
    } in
    (e, record s { events = s.events ++ e ∷ []; next_event = s.next_event + 1 })

-- `update_data` of an event that is in the log
unfoldable pub update_event : ℕ → (EventData → EventData) → Event → Event
update_event id change e = if e.id == id then record e { event_data = change e.event_data } else e

unfoldable pub update_data : ℕ → (EventData → EventData) → Store → Store
update_data id change s = record s { events = map (update_event id change) s.events }

unfoldable pub delete_event : ℕ → Store → Store
delete_event id s = record s { events = filter (λ e. not (e.id == id)) s.events }

unfoldable pub fact_text : String → String
fact_text text = str_append text " | Involving: user"

unfoldable pub add_fact : String → Document → Store → Store
add_fact text document s = record s {
  facts =
      s.facts
      ++ record {
        id = s.next_memory;
        text = fact_text text;
        document_id = document;
        state = FactState.valid;
        invalidation_reason = none;
      }
        ∷ [];
  next_memory = s.next_memory + 1;
}

-- `event.data.get("retracts")` as a test: 0 stands for no target.
abbrev pub retracted_turn : EventData → Option ℕ
retracted_turn info = elim info.retracts [ none ↦ none | some t ↦ if t == 0 then none else some t ]

abbrev pub present {ℓ} : {A : Type ℓ} → Option A → Bool
present none = false
present (some a) = true

abbrev pub is_message : Event → Bool
is_message e = elim e.kind [ Kind.message ↦ true | _ ↦ false ]

abbrev pub is_governance : Event → Bool
is_governance e = elim e.kind [ Kind.governance ↦ true | _ ↦ false ]
