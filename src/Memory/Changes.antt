-- ===== src/Memory/Changes.antt =====
-- The ledger when an assertion is approved, and when an event is forgotten.
use evalai.Base.{
  ℕ, ◌+◌, ◌<◌, Bool, true, not, ◌||◌, none, some, List, [], ◌∷◌, ◌++◌, ◌≡◌, ◌≢◌, refl, sym, ap,
  subst, ◌∙◌, inl, inr, arith, All, ◌==◌, nat_eq, if◌then◌else◌, Bool-cases, filter, map,
}
use evalai.Base.Predicates.{
  All-imp, All-append, All-both, All-filter, All-map, All-map_view, count-filter, filter_all,
  filter_passes,
}
use evalai.Base.Table.{get, get-map, get-filter, key-get}
use evalai.Base.Keys.{append-IsUnique, map-IsUnique, filter-IsUnique}
use evalai.Memory.{Document, document_eq, same_document_iff, fact_text}
use evalai.Memory.Ledger.{
  Outline, Core, outline_key, core_key, event_of, of_document, IsBackedBy, IsOnce, IsNamed,
  IsLedger, no_fact_of, with_core, IsOnce-append, once_new,
}

-- The event gives a fact from now on.
abbrev pub give : ℕ → Document → Outline → Outline
give id d o = if o.id == id then record o { source = some d } else o

give-key : (id : ℕ) (d : Document) (o : Outline) → (give id d o).id ≡ o.id
give-key id d o = ground arith

-- The facts that do not come from the event
abbrev pub is_apart : ℕ → Document → Bool
is_apart id d = not (d == Document.turn id || d == Document.assert id)

abbrev pub elsewhere : ℕ → Core → Bool
elsewhere id c = is_apart id c.document_id

apart_of : (id : ℕ) (d : Document) → event_of d ≢ id → is_apart id d ≡ true
apart_of id (Document.turn k) h = ground arith
apart_of id (Document.assert k) h = ground arith

apart-ne : (id : ℕ) (d : Document) → is_apart id d ≡ true → event_of d ≢ id
apart-ne id (Document.turn k) h = ground arith
apart-ne id (Document.assert k) h = ground arith

abbrev pub staying : ℕ → Outline → Bool
staying id o = not (o.id == id)

module _ {n : ℕ} {outs : List Outline} {m : ℕ} {cores : List Core}
    (h : IsLedger n outs m cores) where
  pub give_source :
      (id : ℕ) (o : Outline) (c : Core)
      → get outline_key id outs ≡ some o
      → o.source ≡ none
      → event_of c.document_id ≡ id
      → c.id ≡ m
      → c.text ≡ fact_text o.text
      → IsLedger n (map (give id c.document_id) outs) (m + 1) (cores ++ c ∷ [])
  give_source id o c found silent at cm text = record {
    unique =
        map-IsUnique outline_key (give id c.document_id) outs (give-key id c.document_id) h.unique;
    named = All-map (IsNamed n) (give id c.document_id) outs (λ x k. given_named x k) h.named;
    facts_unique = append-IsUnique core_key c cores (with_core h c cm) h.facts_unique;
    facts_below =
        All-append (λ x. x.id < m + 1) cores (c ∷ [])
          (All-imp (λ x. x.id < m) (λ x. x.id < m + 1) cores (λ x k. omega arith) h.facts_below)
          (omega (arith, cm), tt);
    backed =
        All-append (IsBackedBy (map (give id c.document_id) outs)) cores (c ∷ [])
          (All-imp (IsBackedBy outs) (IsBackedBy (map (give id c.document_id) outs)) cores
            old_backed h.backed)
          ((record o { source = some c.document_id }, new_found, refl, text), tt);
    once = All-map_view (IsOnce (cores ++ c ∷ [])) (give id c.document_id) outs (
        All-imp (λ x. IsNamed n x × IsOnce cores x)
          (λ x. IsOnce (cores ++ c ∷ []) (give id c.document_id x)) outs
          (λ x k. given_once x k.0 k.1) (All-both (IsNamed n) (IsOnce cores) outs h.named h.once));
  }
    where
      given_named : (x : Outline) → IsNamed n x → IsNamed n (give id c.document_id x)
      given_named x k = elim (Bool-cases (x.id == id)) [
        | inl t ↦ rw t (
          k.0,
          k.1,
          λ d e.
              let doc : c.document_id ≡ d = cc in
              ap event_of (sym doc) ∙ at ∙ sym ((nat_eq.is_same_iff x.id id).0 t),
        )
        | inr f ↦ rw f k
      ]

      old_backed : (x : Core) → IsBackedBy outs x → IsBackedBy (map (give id c.document_id) outs) x
      old_backed x (b, there, made, same) =
          let moved =
            get-map outline_key (give id c.document_id) (event_of x.document_id) outs b
              (give-key id c.document_id) there in
          elim (Bool-cases (b.id == id)) [
            | inl t ↦
                let k = key-get outline_key (event_of x.document_id) outs b there in
                let e : event_of x.document_id ≡ id = sym k ∙ (nat_eq.is_same_iff b.id id).0 t in
                let clash : get outline_key id outs ≡ some b =
                  subst (λ i. get outline_key i outs ≡ some b) e there in
                absurd (cc)
            | inr f ↦ (b, rw f at moved, made, same)
          ]

      new_found :
          get outline_key (event_of c.document_id) (map (give id c.document_id) outs)
          ≡ some (record o { source = some c.document_id })
      new_found =
          let k = key-get outline_key id outs o found in
          let moved =
            get-map outline_key (give id c.document_id) id outs o (give-key id c.document_id)
              found in
          rw at (rw ((nat_eq.is_same_iff o.id id).1 k) at moved)

      given_once :
          (x : Outline)
          → IsNamed n x
          → IsOnce cores x
          → IsOnce (cores ++ c ∷ []) (give id c.document_id x)
      given_once x named once = elim (Bool-cases (x.id == id)) [
        | inl t ↦ rw t (λ d e.
            let doc : c.document_id ≡ d = cc in
            once_new h c d
              (no_fact_of h d (λ b there made.
                let clash : get outline_key id outs ≡ some b =
                  subst (λ k. get outline_key k outs ≡ some b) (ap event_of (sym doc) ∙ at) there in
                cc))
              doc)
        | inr f ↦
            rw f (IsOnce-append h c x (λ e. let k = named.2 c.document_id e in ground arith) once)
      ]

  pub drop_event : (id : ℕ) → IsLedger n (filter (staying id) outs) m (filter (elsewhere id) cores)
  drop_event id = record {
    unique = filter-IsUnique outline_key (staying id) outs h.unique;
    named = All-filter (IsNamed n) (staying id) outs h.named;
    facts_unique = filter-IsUnique core_key (elsewhere id) cores h.facts_unique;
    facts_below = All-filter (λ c. c.id < m) (elsewhere id) cores h.facts_below;
    backed =
        All-imp (λ c. (elsewhere id c ≡ true) × IsBackedBy outs c)
          (IsBackedBy (filter (staying id) outs)) (filter (elsewhere id) cores)
          (λ c (there, (b, found, made, same)). (
            b,
            get-filter outline_key (staying id) (event_of c.document_id) outs b found (
                let k = key-get outline_key (event_of c.document_id) outs b found in
                let ne = apart-ne id c.document_id there in ground arith),
            made,
            same,
          ))
          (All-both (λ c. elsewhere id c ≡ true) (IsBackedBy outs) (filter (elsewhere id) cores)
            (filter_passes (elsewhere id) cores)
            (All-filter (IsBackedBy outs) (elsewhere id) cores h.backed));
    once =
        All-imp (λ o. (staying id o ≡ true) × (IsNamed n o × IsOnce cores o))
          (IsOnce (filter (elsewhere id) cores)) (filter (staying id) outs)
          (λ o (stays, (named, once)) d e.
            count-filter (of_document d) (elsewhere id) cores (λ c k.
              apart_of id c.document_id (λ same.
                let at = named.2 d e in
                let doc = (same_document_iff c.document_id d).0 k in
                let at_c : event_of c.document_id ≡ o.id = ap event_of doc ∙ at in ground arith))
            ∙ once d e)
          (All-both (λ o. staying id o ≡ true) (λ o. IsNamed n o × IsOnce cores o)
            (filter (staying id) outs) (filter_passes (staying id) outs)
            (All-filter (λ o. IsNamed n o × IsOnce cores o) (staying id) outs
              (All-both (IsNamed n) (IsOnce cores) outs h.named h.once)));
  }

  -- A silent event has no fact to drop.
  pub silent_elsewhere :
      (id : ℕ) (o : Outline)
      → get outline_key id outs ≡ some o
      → o.source ≡ none
      → All (λ c. elsewhere id c ≡ true) cores
  silent_elsewhere id o found silent =
      All-imp (IsBackedBy outs) (λ c. elsewhere id c ≡ true) cores
        (λ c (b, there, made, same). apart_of id c.document_id (λ e.
          let clash : get outline_key id outs ≡ some b =
            subst (λ k. get outline_key k outs ≡ some b) e there in
          cc))
        h.backed

  pub drop_silent :
      (id : ℕ) (o : Outline)
      → get outline_key id outs ≡ some o
      → o.source ≡ none
      → filter (elsewhere id) cores ≡ cores
  drop_silent id o found silent =
      filter_all (elsewhere id) cores (silent_elsewhere id o found silent)
