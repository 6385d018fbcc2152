-- ===== src/Episode/Rules.antt =====
-- The checks of an episode against the rules that they stand for.
use evalai.Base.{
  ℕ, ◌+◌, String, Bool, true, false, not, ◌&&◌, ◌||◌, Option, none, some, List, [], ◌∷◌, ◌++◌, ◌≡◌,
  refl, sym, ap, ◌∙◌, inl, inr, arith, ◌==◌, string_eq, eq_iff, if◌then◌else◌, map, any, all,
  Bool-cases, Option-cases,
}
use mathlib.Core.List.{map-append}
use evalai.Base.Assoc.{lookup, insert}
use evalai.Refs.{Ref}
use evalai.Episode.{
  Step, target_of, references, is_candidate, is_written, decides, retracts, EpisodeError, has, when,
  set_default, prior_errors, target_errors, reference_errors, step_errors, errors_from,
  episode_errors,
}

-- What the step may do to an earlier step `e` that it targets: approve and reject a candidate, mark as
-- wrong and forget what was written, all in the store of that step.
abbrev pub may_target : Step → Step → Bool
may_target s e =
    (not (decides s.action) || is_candidate e.action)
    && ((not (retracts s.action) || is_written e.action) && e.store == s.store)

abbrev pub id_is : String → Step → Bool
id_is k e = e.id == k

abbrev pub target_fits : List Step → Step → Option String → Bool
target_fits earlier s none = true
target_fits earlier s (some t) = any (λ (e : Step). e.id == t && may_target s e) earlier

-- A step fits behind the earlier ones: its id is new, and what it targets or refers to is among them.
abbrev pub fits : List Step → Step → Bool
fits earlier s =
    not (any (id_is s.id) earlier)
    && (target_fits earlier s (target_of s.action)
        && all (λ (r : Ref). any (id_is r.step) earlier) (references s.action))

abbrev pub well_formed : List Step → List Step → Bool
well_formed earlier [] = true
well_formed earlier (s ∷ ss) = fits earlier s && well_formed (earlier ++ s ∷ []) ss

abbrev pub is_empty {ℓ} : {A : Type ℓ} → List A → Bool
is_empty [] = true
is_empty (x ∷ xs) = false

abbrev entry : Step → String × Step
entry e = (e.id, e)

-- `seen`, while the ids are new.
abbrev pub entries : List Step → List (String × Step)
entries earlier = map entry earlier

abbrev Unique : List Step → Type 0
Unique [] = Unit
Unique (e ∷ es) = (any (id_is e.id) es ≡ false) × Unique es

Unique-append :
    (s : Step) (es : List Step) → any (id_is s.id) es ≡ false → Unique es → Unique (es ++ s ∷ [])
Unique-append s [] h u = (refl, tt)
Unique-append s (e ∷ es) h u =
    let apart : (e.id == s.id) ≡ false = ground arith in
    let later : any (id_is s.id) es ≡ false = ground arith in
    let apart' : (s.id == e.id) ≡ false = ground (arith, eq_iff e.id s.id, eq_iff s.id e.id) in
    (new_last e.id es u.0 apart', Unique-append s es later u.1)
  where
    new_last :
        (k : String) (fs : List Step)
        → any (id_is k) fs ≡ false
        → (s.id == k) ≡ false
        → any (id_is k) (fs ++ s ∷ []) ≡ false
    new_last k [] h a = rw a refl
    new_last k (f ∷ fs) h a = elim (Bool-cases (f.id == k)) [
      | inl t ↦ cc (ap (λ b. if b then true else any (id_is k) fs) t)
      | inr t ↦ rw t (new_last k fs (rw t at h) a)
    ]

has-entries : (k : String) (es : List Step) → has k (entries es) ≡ any (id_is k) es
has-entries k [] = refl
has-entries k (e ∷ es) = ground (arith, has-entries k es)

insert-new :
    {V : Type 0} (k : String) (v : V) (d : List (String × V))
    → has k d ≡ false
    → insert k v d ≡ d ++ (k, v) ∷ []
insert-new k v [] h = refl
insert-new k v (x ∷ d) h = ground (arith, insert-new k v d)

seen-next :
    (s : Step) (es : List Step)
    → any (id_is s.id) es ≡ false
    → set_default s (entries es) ≡ entries (es ++ s ∷ [])
seen-next s es h =
    let new : has s.id (entries es) ≡ false = has-entries s.id es ∙ h in
    rw new (insert-new s.id s (entries es) new ∙ sym (map-append entry es (s ∷ [])))

-- Under unique ids some earlier step is the one that the dictionary has.
any-lookup :
    (t : String) (q : Step → Bool) (es : List Step)
    → Unique es
    → any (λ (e : Step). e.id == t && q e) es
      ≡ (elim (lookup t (entries es)) [ none ↦ false | some e ↦ q e ])
any-lookup t q [] u = refl
any-lookup t q (e ∷ es) u = elim (Bool-cases (e.id == t)) [
  | inl y ↦ rw y (elim (Bool-cases (q e)) [
    | inl z ↦ rw z refl
    | inr z ↦ rw z (none_later es (let same : e.id ≡ t = (eq_iff e.id t).0 y in rw same at u.0))
  ])
  | inr y ↦ rw y (any-lookup t q es u.1)
]
  where
    none_later :
        (fs : List Step)
        → any (id_is t) fs ≡ false
        → any (λ (f : Step). f.id == t && q f) fs ≡ false
    none_later [] h = refl
    none_later (f ∷ fs) h = elim (Bool-cases (f.id == t)) [
      | inl y ↦ ground arith
      | inr y ↦ rw y (none_later fs (rw y at h))
    ]

prior-none :
    (i : ℕ) (s : Step) (t : String) (prior : Option Step)
    → is_empty (prior_errors i s t prior) ≡ (elim prior [ none ↦ false | some e ↦ may_target s e ])
unfolding prior_errors
prior-none i s t none = refl
prior-none i s t (some e) = ground arith

target-none :
    (i : ℕ) (s : Step) (es : List Step)
    → Unique es
    → is_empty (target_errors i s (entries es)) ≡ target_fits es s (target_of s.action)
unfolding target_errors
target-none i s es u = elim (Option-cases (target_of s.action)) [
  | inl n ↦ rw (n, target_errors) refl
  | inr (t, n) ↦
      rw (n, target_errors)
        (prior-none i s t (lookup t (entries es)) ∙ sym (any-lookup t (may_target s) es u))
]

references-none :
    (i : ℕ) (es : List Step) (rs : List Ref)
    → is_empty (reference_errors i (entries es) rs) ≡ all (λ (r : Ref). any (id_is r.step) es) rs
unfolding reference_errors
references-none i es [] = refl
references-none i es (r ∷ rs) =
    rw (has-entries r.step es) (elim (Bool-cases (any (id_is r.step) es)) [
      | inl t ↦ rw t (references-none i es rs)
      | inr t ↦ rw t refl
    ])

both-empty : {A : Type 0} (xs ys : List A) → is_empty (xs ++ ys) ≡ (is_empty xs && is_empty ys)
both-empty [] ys = refl
both-empty (x ∷ xs) ys = refl

errors_from-none :
    (i : ℕ) (es ss : List Step)
    → Unique es
    → is_empty (errors_from i (entries es) ss) ≡ well_formed es ss
unfolding errors_from step_errors
errors_from-none i es [] u = refl
errors_from-none i es (s ∷ ss) u = elim (Bool-cases (any (id_is s.id) es)) [
  | inl old ↦ rw (has-entries s.id es, old) refl
  | inr new ↦
      let next = errors_from-none (i + 1) (es ++ s ∷ []) ss (Unique-append s es new u) in
      both-empty
        (when (has s.id (entries es)) (EpisodeError.duplicate_id i s.id)
          ++ (target_errors i s (entries es)
              ++ reference_errors i (entries es) (references s.action)))
        (errors_from (i + 1) (set_default s (entries es)) ss)
      ∙ rw (seen-next s es new, next, has-entries s.id es, new)
          (ap (λ b. b && well_formed (es ++ s ∷ []) ss)
            (both-empty (target_errors i s (entries es)) _
              ∙ rw (target-none i s es u, references-none i es (references s.action)) refl))
]

-- An episode has no error exactly if each of its steps fits behind the earlier ones: its id is new, the
-- step that it targets is an earlier one of the right kind in the same store, and so is each step that it
-- refers to an earlier one.
pub episode_errors-none :
    (steps : List Step) → is_empty (episode_errors steps) ≡ well_formed [] steps
unfolding episode_errors
episode_errors-none steps = errors_from-none 0 [] steps tt
