-- ===== src/Memory/Ledger.antt =====
-- What the store of backends/fake.py keeps between its events and its facts: a view of both, and what
-- each kind of change does to it.
use evalai.Base.{
  ℕ, ◌+◌, ◌<◌, String, Bool, false, Option, none, some, List, [], ◌∷◌, ◌++◌, ◌≡◌, ◌≢◌, sym, ap, ◌∙◌,
  inl, inr, arith, All, ◌==◌, nat_eq, Bool-cases, count,
}
use evalai.Base.Predicates.{All-imp, All-append, All-both, count-append, count_none}
use evalai.Base.Table.{get, get_new, All-get, get-append}
use evalai.Base.Keys.{IsUnique, append-IsUnique}
use evalai.Memory.{Document, document_eq, same_document_iff, fact_text}

-- An event: its id and text, and the document that a rebuild makes of it
pub record Outline : Type 0 where
  pub id : ℕ
  pub text : String
  pub source : Option Document

pub record Core : Type 0 where
  pub id : ℕ
  pub text : String
  pub document_id : Document

abbrev pub outline_key : Outline → ℕ
outline_key o = o.id

abbrev pub core_key : Core → ℕ
core_key c = c.id

abbrev pub event_of : Document → ℕ
event_of (Document.turn n) = n
event_of (Document.assert n) = n

abbrev pub of_document : Document → Core → Bool
of_document d c = c.document_id == d

-- The fact comes from an event of the log.
abbrev pub IsBackedBy : List Outline → Core → Type 0
IsBackedBy outs c =
    (o : Outline) × (get outline_key (event_of c.document_id) outs ≡ some o)
    × (o.source ≡ some c.document_id)
    × (c.text ≡ fact_text o.text)

-- The event has its one fact, if it is to have one.
abbrev pub IsOnce : List Core → Outline → Type 0
IsOnce cores o = (d : Document) → o.source ≡ some d → count (of_document d) cores ≡ 1

abbrev pub IsNamed : ℕ → Outline → Type 0
IsNamed n o = (0 < o.id) × (o.id < n) × ((d : Document) → o.source ≡ some d → event_of d ≡ o.id)

pub record IsLedger (n : ℕ) (outs : List Outline) (m : ℕ) (cores : List Core) : Type 0 where
  pub unique : IsUnique outline_key outs
  pub named : All (IsNamed n) outs
  pub facts_unique : IsUnique core_key cores
  pub facts_below : All (λ c. c.id < m) cores
  pub backed : All (IsBackedBy outs) cores
  pub once : All (IsOnce cores) outs

module _ {n : ℕ} {outs : List Outline} {m : ℕ} {cores : List Core}
    (h : IsLedger n outs m cores) where
  IsNamed-suc : (o : Outline) → IsNamed n o → IsNamed (n + 1) o
  IsNamed-suc o k = (k.0, omega (arith, k.1), k.2)

  backed-append : (o : Outline) (c : Core) → IsBackedBy outs c → IsBackedBy (outs ++ o ∷ []) c
  backed-append o c (b, found, made, same) =
      (b, get-append outline_key (event_of c.document_id) outs (o ∷ []) b found, made, same)

  fresh_id : (o : Outline) → o.id ≡ n → All (λ (x : Outline). x.id ≢ o.id) outs
  fresh_id o e =
      All-imp (IsNamed n) (λ x. x.id ≢ o.id) outs (λ x k same. let l = k.1 in absurd (omega arith))
        h.named

  -- An event that gives no fact
  pub append_silent :
      (o : Outline) → 0 < n → o.id ≡ n → o.source ≡ none → IsLedger (n + 1) (outs ++ o ∷ []) m cores
  append_silent o p e silent = record {
    unique = append-IsUnique outline_key o outs (fresh_id o e) h.unique;
    named =
        All-append (IsNamed (n + 1)) outs (o ∷ [])
          (All-imp (IsNamed n) (IsNamed (n + 1)) outs IsNamed-suc h.named)
          ((omega (arith, e, p), omega (arith, e), λ d k. cc), tt);
    facts_unique = h.facts_unique;
    facts_below = h.facts_below;
    backed =
        All-imp (IsBackedBy outs) (IsBackedBy (outs ++ o ∷ [])) cores (backed-append o) h.backed;
    once = All-append (IsOnce cores) outs (o ∷ []) h.once ((λ d k. cc), tt);
  }

  -- No fact has a document whose event is not there, or gives none.
  pub no_fact_of :
      (d : Document)
      → ((b : Outline) → get outline_key (event_of d) outs ≡ some b → b.source ≢ some d)
      → count (of_document d) cores ≡ 0
  no_fact_of d none_there = count_none (of_document d) cores (
      All-imp (IsBackedBy outs) (λ c. of_document d c ≡ false) cores
        (λ c (b, found, made, same). elim (Bool-cases (of_document d c)) [
          | inl t ↦
              let e : c.document_id ≡ d = (same_document_iff c.document_id d).0 t in
              absurd (none_there b (rw (← e) found) (rw (← e) made))
          | inr f ↦ f
        ])
        h.backed)

  pub with_core : (c : Core) → c.id ≡ m → All (λ (x : Core). x.id ≢ c.id) cores
  with_core c e =
      All-imp (λ x. x.id < m) (λ x. x.id ≢ c.id) cores (λ x k same. absurd (omega arith))
        h.facts_below

  pub IsOnce-append :
      (c : Core) (o : Outline)
      → o.source ≢ some c.document_id
      → IsOnce cores o
      → IsOnce (cores ++ c ∷ []) o
  IsOnce-append c o other k d e =
      let apart : of_document d c ≡ false = elim (Bool-cases (of_document d c)) [
        | inl t ↦ absurd (other (rw ((same_document_iff c.document_id d).0 t) e))
        | inr f ↦ f
      ] in
      rw (count-append (of_document d) cores (c ∷ []), apart) (omega (arith, k d e))

  pub once_new :
      (c : Core) (d : Document)
      → count (of_document d) cores ≡ 0
      → c.document_id ≡ d
      → count (of_document d) (cores ++ c ∷ []) ≡ 1
  once_new c d none_yet e =
      rw (count-append (of_document d) cores (c ∷ []), (same_document_iff c.document_id d).1 e)
        (omega (arith, none_yet))

  doc_of :
      (o : Outline) (c : Core) (d : Document)
      → o.source ≡ some c.document_id
      → o.source ≡ some d
      → c.document_id ≡ d
  doc_of o c d source k = cc

  not_yet :
      (c : Core) (x : Outline)
      → event_of c.document_id ≡ n
      → IsNamed n x
      → x.source ≢ some c.document_id
  not_yet c x at k same = let e = k.2 c.document_id same in let l = k.1 in absurd (omega arith)

  new_document :
      (c : Core) (d : Document)
      → event_of c.document_id ≡ n
      → c.document_id ≡ d
      → count (of_document d) cores ≡ 0
  new_document c d at e = no_fact_of d (λ b found made.
      let k = All-get outline_key (IsNamed n) (event_of d) outs b h.named found in
      not_yet c b at k (made ∙ ap some (sym e)))

  -- A kept turn, or an assertion that is believed at once
  pub append_source :
      (o : Outline) (c : Core)
      → 0 < n
      → o.id ≡ n
      → o.source ≡ some c.document_id
      → event_of c.document_id ≡ n
      → c.id ≡ m
      → c.text ≡ fact_text o.text
      → IsLedger (n + 1) (outs ++ o ∷ []) (m + 1) (cores ++ c ∷ [])
  append_source o c p e source at cm text = record {
    unique = append-IsUnique outline_key o outs (fresh_id o e) h.unique;
    named =
        All-append (IsNamed (n + 1)) outs (o ∷ [])
          (All-imp (IsNamed n) (IsNamed (n + 1)) outs IsNamed-suc h.named)
          ((omega (arith, e, p), omega (arith, e), λ d k. named_new d k), tt);
    facts_unique = append-IsUnique core_key c cores (with_core c cm) h.facts_unique;
    facts_below =
        All-append (λ x. x.id < m + 1) cores (c ∷ [])
          (All-imp (λ x. x.id < m) (λ x. x.id < m + 1) cores (λ x k. omega arith) h.facts_below)
          (omega (arith, cm), tt);
    backed =
        All-append (IsBackedBy (outs ++ o ∷ [])) cores (c ∷ [])
          (All-imp (IsBackedBy outs) (IsBackedBy (outs ++ o ∷ [])) cores (backed-append o) h.backed)
          (
            (
              o,
              get_new outline_key (event_of c.document_id) o outs
                  (All-imp (λ (x : Outline). x.id ≢ o.id)
                    (λ (x : Outline). x.id ≢ event_of c.document_id) outs
                    (λ x k same. k (same ∙ at ∙ sym e)) (fresh_id o e))
                  (e ∙ sym at),
              source,
              text,
            ),
            tt,
          );
    once =
        All-append (IsOnce (cores ++ c ∷ [])) outs (o ∷ [])
          (All-imp (λ x. IsNamed n x × IsOnce cores x) (IsOnce (cores ++ c ∷ [])) outs
            (λ x k. IsOnce-append c x (λ same. not_yet c x at k.0 same) k.1)
            (All-both (IsNamed n) (IsOnce cores) outs h.named h.once))
          (
            (λ d k.
                once_new c d (new_document c d at (doc_of o c d source k)) (doc_of o c d source k)),
            tt,
          );
  }
    where
      named_new : (d : Document) → o.source ≡ some d → event_of d ≡ o.id
      named_new d k = ap event_of (sym (doc_of o c d source k)) ∙ at ∙ sym e
