-- ===== src/Memory/Pages.antt =====
-- backends/fake.py: `list_units` and the lists of `memoryai_state`; backends/base.py: `_all_units` and `snapshot`,
-- less the events, the counts and the notes. Python's `sorted` by the text of the document is the argument
-- `by_document`. The loop over the pages takes the number of facts as fuel.
use evalai.Base.{
  ℕ, zero, suc, ◌+◌, String, Bool, true, false, not, ◌&&◌, ◌||◌, Option, none, some, List, [], ◌∷◌,
  ◌++◌, ◌==◌, nat_eq, if◌then◌else◌, filter, map, length, take, ltb, leb,
}
use evalai.Memory.{
  Document, document_eq, FactState, is_valid, Reason, Fact, Event, Store, Texts, claim_of,
}
use evalai.Memory.Review.{is_candidate}

-- `rows[n:]`
abbrev pub drop {ℓ} : {A : Type ℓ} → ℕ → List A → List A
drop zero rows = rows
drop (suc n) [] = []
drop (suc n) (row ∷ rows) = drop n rows

pub record Page : Type 0 where
  pub items : List Fact
  pub total : ℕ

abbrev pub in_state : FactState → Fact → Bool
in_state FactState.valid f = is_valid f.state
in_state FactState.invalidated f = not (is_valid f.state)

abbrev pub of_document : Option Document → Fact → Bool
of_document none f = true
of_document (some d) f = f.document_id == d

abbrev pub page_size : ℕ
page_size = 500

abbrev pub list_limit : ℕ
list_limit = 200

pub record SnapshotFact : Type 0 where
  pub memory_id : ℕ
  pub claim : String
  pub state : String
  pub source_event_id : ℕ
  pub document_id : Document

pub record Snapshot : Type 0 where
  pub exhaustive : Bool
  pub truncated : Bool
  pub facts : List SnapshotFact
  pub queue : List (ℕ × String)

-- `invalidated` facts by their reason
abbrev fallen_state : Option Reason → String
fallen_state (some (Reason.retracted_by_event by)) = "withdrawn"
fallen_state (some Reason.user_wrong) = "invalidated"
fallen_state none = "invalidated"

abbrev source_of : Document → ℕ
source_of (Document.turn n) = n
source_of (Document.assert n) = n

unfoldable pub snapshot_fact : Texts → FactState → Fact → SnapshotFact
snapshot_fact lib state f = record {
  memory_id = f.id;
  claim = claim_of lib f.text;
  state = if is_valid state then "active" else fallen_state f.invalidation_reason;
  source_event_id = source_of f.document_id;
  document_id = f.document_id;
}

abbrev is_correction : Fact → Bool
is_correction f = elim f.invalidation_reason [ some Reason.user_wrong ↦ true | _ ↦ false ]

-- MemoryAI's own view is cut at 200 facts: whether one of its two lists is full
unfoldable pub truncated_state : Store → Bool
truncated_state s =
    leb list_limit (length (take list_limit (filter (in_state FactState.valid) s.facts)))
    || leb list_limit (
        length (
          filter is_correction (take list_limit (filter (in_state FactState.invalidated) s.facts))))

unfoldable pub queue_of : List Event → List (ℕ × String)
queue_of [] = []
queue_of (e ∷ es) = let rest = queue_of es in if is_candidate e then (e.id, e.text) ∷ rest else rest

-- The loop of `_all_units` and `snapshot` over the pages, with the total of the last one
unfoldable pub collect_pages : (ℕ → Page) → ℕ → ℕ → List Fact → Option (List Fact × ℕ)
collect_pages page zero offset items = none
collect_pages page (suc fuel) offset items =
    let p = page offset in
    let rest = collect_pages page fuel (offset + length p.items) (items ++ p.items) in
    if ltb (length p.items) page_size then some (items ++ p.items, p.total) else rest

module _ (by_document : List Fact → List Fact) where
  abbrev pub rows_of : FactState → Option Document → Store → List Fact
  rows_of state document s =
      by_document (filter (λ f. in_state state f && of_document document f) s.facts)

  unfoldable pub list_units : FactState → Option Document → Store → ℕ → ℕ → Page
  list_units state document s limit offset =
      let rows = rows_of state document s in
      record { items = take limit (drop offset rows); total = length rows }

  unfoldable pub all_units : FactState → Option Document → Store → Option (List Fact × ℕ)
  all_units state document s =
      collect_pages (list_units state document s page_size) (suc (length s.facts)) 0 []

  abbrev snapshot_of :
      Texts → Store → Option (List Fact × ℕ) → Option (List Fact × ℕ) → Option Snapshot
  snapshot_of lib s (some (live, n)) (some (fallen, m)) = some (record {
    exhaustive = length live == n && length fallen == m;
    truncated = truncated_state s;
    facts =
        map (snapshot_fact lib FactState.valid) live
        ++ map (snapshot_fact lib FactState.invalidated) fallen;
    queue = queue_of s.events;
  })
  snapshot_of lib s none m = none
  snapshot_of lib s (some n) none = none

  unfoldable pub snapshot : Texts → Store → Option Snapshot
  snapshot lib s =
      snapshot_of lib s (all_units FactState.valid none s) (all_units FactState.invalidated none s)
