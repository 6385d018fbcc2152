-- ===== src/Memory/Trace.antt =====
-- Every store that the calls of backends/fake.py can produce, in any order.
use evalai.Base.{ℕ, String, Bool, Option, [], ◌≡◌, arith}
use evalai.Memory.{Store, Texts, Fault}
use evalai.Memory.Remember.{remember}
use evalai.Memory.Review.{assert_fact, approve, reject, wrong, forget}
use evalai.Memory.Rebuild.{rebuild}
use evalai.Memory.Sound.{IsSound}
use evalai.Memory.Kept.{remember-IsSound}
use evalai.Memory.Reviewed.{assert_fact-IsSound, wrong-IsSound}
use evalai.Memory.Waiting.{approve-IsSound, reject-IsSound}
use evalai.Memory.Forgotten.{forget-IsSound}
use evalai.Memory.Rebuilt.{rebuild-IsSound}

-- A store that `start` has just opened
unfoldable pub opened : Bool → Option Fault → Store
opened small_talk_filter fault = record {
  events = [];
  next_event = 1;
  facts = [];
  next_memory = 0;
  small_talk_filter = small_talk_filter;
  fault = fault;
  smalltalk_records = [];
}

module _ (lib : Texts) where
  pub data Step (s s' : Store) : Type 0 where
    remembers : (raw actor : String) → s' ≡ (remember lib raw actor s).1 → Step s s'
    asserts : (raw status : String) → s' ≡ (assert_fact lib raw status s).1 → Step s s'
    approves : (id : ℕ) → s' ≡ (approve id s).1 → Step s s'
    rejects : (id : ℕ) → s' ≡ (reject id s).1 → Step s s'
    corrects : (id : ℕ) → s' ≡ (wrong lib id s).1 → Step s s'
    forgets : (id : ℕ) → s' ≡ (forget id s).1 → Step s s'
    rebuilds : s' ≡ (rebuild lib s).1 → Step s s'

  pub data Reach : Store → Type 0 where
    opens :
        (small_talk_filter : Bool) (fault : Option Fault) → Reach (opened small_talk_filter fault)
    next : {s s' : Store} → Reach s → Step s s' → Reach s'

  opened-IsSound : (small : Bool) (fault : Option Fault) → IsSound (opened small fault)
  unfolding opened
  opened-IsSound small fault = record {
    numbered = omega arith;
    ledger = record {
      unique = tt;
      named = tt;
      facts_unique = tt;
      facts_below = tt;
      backed = tt;
      once = tt;
    };
    reasons = tt;
    tidy = tt;
  }

  Step-IsSound : {s s' : Store} → Step s s' → IsSound s → IsSound s'
  Step-IsSound {s} (Step.remembers raw actor e) h = rw e (remember-IsSound lib raw actor s h)
  Step-IsSound {s} (Step.asserts raw status e) h = rw e (assert_fact-IsSound lib raw status s h)
  Step-IsSound {s} (Step.approves id e) h = rw e (approve-IsSound id s h)
  Step-IsSound {s} (Step.rejects id e) h = rw e (reject-IsSound id s h)
  Step-IsSound {s} (Step.corrects id e) h = rw e (wrong-IsSound lib id s h)
  Step-IsSound {s} (Step.forgets id e) h = rw e (forget-IsSound id s h)
  Step-IsSound {s} (Step.rebuilds e) h = rw e (rebuild-IsSound lib s h)

  -- In every store that the calls of the in-memory backend produce from an opened one, in any
  -- order, the ids of events and of facts are unique; each fact comes from a turn that was kept or
  -- an approved assertion of the log and has its text; each such event has exactly one fact; a
  -- fact that stands has no reason against it; and only a message retracts.
  pub store-IsSound : {s : Store} → Reach s → IsSound s
  store-IsSound (Reach.opens small fault) = opened-IsSound small fault
  store-IsSound (Reach.next r step) = Step-IsSound step (store-IsSound r)
