-- ===== src/Memory/Paged.antt =====
-- backends/base.py: paging sees every fact of a store.
use evalai.Base.{
  ℕ, zero, suc, ◌+◌, ◌≤◌, ◌<◌, Bool, true, false, ◌&&◌, Option, none, some, List, [], ◌∷◌, ◌++◌,
  ◌≡◌, refl, sym, ap, ◌∙◌, inl, inr, arith, ◌==◌, nat_eq, Bool-cases, filter, map, length,
  length-append, take, ltb,
}
use mathlib.Core.List.{append_assoc}
use evalai.Memory.{Document, FactState, Fact, Store, Texts}
use evalai.Memory.Pages.{
  drop, page_size, in_state, of_document, collect_pages, rows_of, list_units, all_units, Snapshot,
  snapshot, snapshot_fact,
}

take_short : (n : ℕ) (xs : List Fact) → length (take n xs) < n → take n xs ≡ xs
take_short zero xs h = absurd (omega arith)
take_short (suc n) [] h = refl
take_short (suc n) (x ∷ xs) h = ap (λ l. x ∷ l) (take_short n xs (omega (arith, h)))

-- A page and what comes after it
take-drop : (n : ℕ) (xs : List Fact) → take n xs ++ drop (length (take n xs)) xs ≡ xs
take-drop zero xs = refl
take-drop (suc n) [] = refl
take-drop (suc n) (x ∷ xs) = ap (λ l. x ∷ l) (take-drop n xs)

drop-nil : (n : ℕ) → drop {A = Fact} n [] ≡ []
drop-nil zero = refl
drop-nil (suc n) = refl

drop-add : (m n : ℕ) (xs : List Fact) → drop (m + n) xs ≡ drop n (drop m xs)
drop-add zero n xs = let e : 0 + n ≡ n = omega arith in ap (λ k. drop k xs) e
drop-add (suc m) n [] = drop-nil (suc m + n) ∙ sym (drop-nil n)
drop-add (suc m) n (x ∷ xs) =
    let e : suc m + n ≡ suc (m + n) = omega arith in ap (λ k. drop k (x ∷ xs)) e ∙ drop-add m n xs

lt_of_ltb : (a b : ℕ) → ltb a b ≡ true → a < b
lt_of_ltb a b h = ground arith

le_of_ltb : (a b : ℕ) → ltb a b ≡ false → b ≤ a
le_of_ltb a b h = ground arith

collect_pages-all :
    (rows : List Fact) (fuel offset : ℕ) (items : List Fact)
    → length (drop offset rows) < fuel
    → collect_pages
        (λ o. record { items = take page_size (drop o rows); total = length rows })
        fuel
        offset
        items
      ≡ some (items ++ drop offset rows, length rows)
unfolding collect_pages
collect_pages-all rows zero offset items h = absurd (omega arith)
collect_pages-all rows (suc fuel) offset items h =
    let chunk = take page_size (drop offset rows) in
    elim (Bool-cases (ltb (length chunk) page_size)) [
      | inl t ↦
          let short : length chunk < page_size = lt_of_ltb (length chunk) page_size t in
          rw (collect_pages, t)
            (ap (λ l. some (items ++ l, length rows))
              (take_short page_size (drop offset rows) short))
      | inr f ↦
          let full : page_size ≤ length chunk = le_of_ltb (length chunk) page_size f in
          let split = take-drop page_size (drop offset rows) in
          let after = drop-add offset (length chunk) rows in
          let sizes =
            sym (length-append chunk (drop (length chunk) (drop offset rows))) ∙ ap length split in
          let smaller : length (drop (offset + length chunk) rows) < fuel =
            rw after (omega (arith, h, full, sizes)) in
          rw (collect_pages, f)
            (collect_pages-all rows fuel (offset + length chunk) (items ++ chunk) smaller
              ∙ ap (λ l. some (l, length rows))
                  (append_assoc items chunk (drop (offset + length chunk) rows)
                    ∙ ap (λ l. items ++ l) (ap (λ l. chunk ++ l) after ∙ split)))
    ]

length-filter-le : (p : Fact → Bool) (xs : List Fact) → length (filter p xs) ≤ length xs
length-filter-le p [] = omega arith
length-filter-le p (x ∷ xs) =
    let ih = length-filter-le p xs in
    elim (Bool-cases (p x)) [ inl t ↦ rw t (omega (arith, ih)) | inr f ↦ rw f (omega (arith, ih)) ]

module _ (by_document : List Fact → List Fact)
    (keeps_length : (rows : List Fact) → length (by_document rows) ≡ length rows) where
  pub all_units-all :
      (state : FactState) (document : Option Document) (s : Store)
      → all_units by_document state document s
        ≡ some (rows_of by_document state document s, length (rows_of by_document state document s))
  unfolding all_units list_units
  all_units-all state document s =
      let bound = length-filter-le (λ f. in_state state f && of_document document f) s.facts in
      let size = keeps_length (filter (λ f. in_state state f && of_document document f) s.facts) in
      collect_pages-all (rows_of by_document state document s) (suc (length s.facts)) 0 []
        (omega (arith, bound, size))

  -- Where sorting by the document keeps the number of facts, the snapshot of a store always ends.
  -- It calls itself exhaustive, and its facts are all the valid ones of the store and then all the
  -- invalidated ones, each in the sorted order, however many pages they fill.
  pub snapshot-IsExhaustive :
      (lib : Texts) (s : Store)
      → (snap : Snapshot) × (snapshot by_document lib s ≡ some snap)
        × (snap.exhaustive ≡ true)
        × (snap.facts
            ≡ map (snapshot_fact lib FactState.valid) (rows_of by_document FactState.valid none s)
              ++ map
                  (snapshot_fact lib FactState.invalidated)
                  (rows_of by_document FactState.invalidated none s))
  unfolding snapshot
  snapshot-IsExhaustive lib s =
      rw
        (snapshot, all_units-all FactState.valid none s, all_units-all FactState.invalidated none s)
        (_, refl, both, refl)
    where
      own : (n : ℕ) → (n == n) ≡ true
      own n = (nat_eq.is_same_iff n n).1 refl

      live : ℕ
      live = length (rows_of by_document FactState.valid none s)

      fallen : ℕ
      fallen = length (rows_of by_document FactState.invalidated none s)

      both : (live == live && fallen == fallen) ≡ true
      both = rw (own live, own fallen) refl
