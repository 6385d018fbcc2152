-- ===== src/Facts.antt =====
-- backend/eval_triage/statistics/facts.py: the exact one-to-one matching of facts. `normalize_text`, which is
-- Unicode's normal form, casefolding and the collapse of blanks, is an argument; a score is the
-- fraction that the source divides out, and the texts of the reasons are left out.
pub mod Matching
use evalai.Base.{
  ℕ, zero, suc, ◌+◌, ◌*◌, String, Bool, true, false, not, ◌&&◌, Option, none, some, List, [], ◌∷◌,
  ◌≡◌, ◌↔◌, refl, arith, ◌==◌, Equality, nat_eq, string_eq, if◌then◌else◌, filter, length, contains,
  eq_iff,
}
use evalai.Base.Results.{Result, ok, err, ◌>>=◌}
use evalai.Retry.{range_from}

-- A fact as it comes: a dictionary, of which three keys are read, or a sequence. `none` is a part that
-- is missing or None.
pub data RawFact : Type 0 where
  keyed : Option String → Option String → Option String → RawFact
  listed : List (Option String) → RawFact

pub record Triple : Type 0 where
  pub subject : String
  pub relation : String
  pub object : String

abbrev same_triple : Triple → Triple → Bool
same_triple s t = (s.subject == t.subject && s.relation == t.relation) && s.object == t.object

pub same_triple_iff : (s t : Triple) → (same_triple s t ≡ true) ↔ (s ≡ t)
same_triple_iff s t = (
  (λ h.
      let a = (eq_iff s.subject t.subject).0 (ground (arith, h)) in
      let b = (eq_iff s.relation t.relation).0 (ground (arith, h)) in
      let c = (eq_iff s.object t.object).0 (ground (arith, h)) in
      λ i. record { subject = a i; relation = b i; object = c i }),
  (λ h. rw h (same_self t)),
)
  where
    same_self : (u : Triple) → same_triple u u ≡ true
    same_self u =
        rw
          (
            (eq_iff u.subject u.subject).1 refl,
            (eq_iff u.relation u.relation).1 refl,
            (eq_iff u.object u.object).1 refl,
          )
          refl

instance abbrev pub triple_eq : Equality Triple
triple_eq = record { is_same = same_triple; is_same_iff = same_triple_iff }

pub data StatisticsError : Type 0 where
  incomplete_fact : StatisticsError

abbrev parts : RawFact → List (Option String)
parts (RawFact.keyed s r o) = s ∷ r ∷ o ∷ []
parts (RawFact.listed ps) = ps

abbrev triple_of : (String → String) → List (Option String) → Result StatisticsError Triple
triple_of normalize (some s ∷ some r ∷ some o ∷ []) =
    ok (record { subject = normalize s; relation = normalize r; object = normalize o })
triple_of normalize _ = err StatisticsError.incomplete_fact

unfoldable pub normalize_triple : (String → String) → RawFact → Result StatisticsError Triple
normalize_triple normalize fact = triple_of normalize (parts fact)

unfoldable pub normalize_all :
    (String → String) → List RawFact → Result StatisticsError (List Triple)
normalize_all normalize [] = ok []
normalize_all normalize (f ∷ fs) = do
  t ← normalize_triple normalize f
  ts ← normalize_all normalize fs
  ok (t ∷ ts)

-- `next((ri for ri, r in enumerate(ref) if ri not in used and r == fact), None)`, from the place `i` on
unfoldable pub next_free : Triple → List ℕ → ℕ → List Triple → Option ℕ
next_free fact used i [] = none
next_free fact used i (r ∷ rs) =
    let rest = next_free fact used (suc i) rs in
    if not (contains used i) && r == fact then some i else rest

pub record Pairing : Type 0 where
  pub matches : List (ℕ × ℕ)
  pub unmatched_predicted : List ℕ
  pub used : List ℕ

-- The loop over the predicted facts, of which `pi` are done
unfoldable pub pair_facts : List Triple → ℕ → List ℕ → List Triple → Pairing
pair_facts ref pi used [] = record { matches = []; unmatched_predicted = []; used = used }
pair_facts ref pi used (fact ∷ facts) = elim (next_free fact used 0 ref) [
  | none ↦
      let rest = pair_facts ref (suc pi) used facts in
      record rest { unmatched_predicted = pi ∷ rest.unmatched_predicted }
  | some hit ↦
      let rest = pair_facts ref (suc pi) (hit ∷ used) facts in
      record rest { matches = (pi, hit) ∷ rest.matches }
]

pub record FactScores : Type 0 where
  pub tp : ℕ
  pub fp : ℕ
  pub fn : ℕ
  pub precision : Option (ℕ × ℕ)
  pub recall : Option (ℕ × ℕ)
  pub f1 : Option (ℕ × ℕ)

abbrev ratio : ℕ → ℕ → Option (ℕ × ℕ)
ratio n d = if d == 0 then none else some (n, d)

unfoldable pub fact_scores : ℕ → ℕ → ℕ → FactScores
fact_scores tp fp fn = record {
  tp = tp;
  fp = fp;
  fn = fn;
  precision = ratio tp (tp + fp);
  recall = ratio tp (tp + fn);
  f1 = if (tp + fp) == 0 && (tp + fn) == 0 then none else some (2 * tp, 2 * tp + fp + fn);
}

pub record Matched : Type 0 where
  pub matches : List (ℕ × ℕ)
  pub unmatched_predicted : List ℕ
  pub unmatched_reference : List ℕ
  pub scores : FactScores

unfoldable pub match_triples : List Triple → List Triple → Matched
match_triples pred ref =
    let p = pair_facts ref 0 [] pred in
    let left = filter (λ ri. not (contains p.used ri)) (range_from 0 (length ref)) in
    record {
      matches = p.matches;
      unmatched_predicted = p.unmatched_predicted;
      unmatched_reference = left;
      scores = fact_scores (length p.matches) (length p.unmatched_predicted) (length left);
    }

unfoldable pub match_exact :
    (String → String) → List RawFact → List RawFact → Result StatisticsError Matched
match_exact normalize predicted reference = do
  pred ← normalize_all normalize predicted
  ref ← normalize_all normalize reference
  ok (match_triples pred ref)
