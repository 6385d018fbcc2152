-- ===== src/Tests/Facts.antt =====
-- A fact that is predicted twice and is a reference once.
use evalai.Base.{String, List, [], ◌∷◌, ◌≡◌, refl, count, ◌==◌, some, none}
use evalai.Base.Results.{err}
use evalai.Facts.{
  Triple, triple_eq, RawFact, StatisticsError, next_free, pair_facts, match_triples, match_exact,
  normalize_triple, normalize_all,
}
use evalai.Facts.Matching.{is_matched, lesser, match_triples-count}

abbrev likes : String → Triple
likes what = record { subject = "ann"; relation = "likes"; object = what }

abbrev predicted_facts : List Triple
predicted_facts = likes "tea" ∷ likes "tea" ∷ likes "jam" ∷ []

abbrev reference_facts : List Triple
reference_facts = likes "rye" ∷ likes "tea" ∷ []

match_triples-count_example :
    count
      (is_matched reference_facts (likes "tea"))
      (match_triples predicted_facts reference_facts).matches
    ≡ lesser
        (count (λ f. f == likes "tea") predicted_facts)
        (count (λ r. r == likes "tea") reference_facts)
match_triples-count_example = match_triples-count (likes "tea") predicted_facts reference_facts

the_matches : (match_triples predicted_facts reference_facts).matches ≡ (0, 1) ∷ []
unfolding match_triples pair_facts next_free
the_matches = refl

an_incomplete_fact :
    match_exact (λ t. t) (RawFact.keyed (some "ann") none (some "tea") ∷ []) []
    ≡ err StatisticsError.incomplete_fact
unfolding match_exact normalize_all normalize_triple
an_incomplete_fact = refl
