-- ===== src/Review/Tests.antt =====
-- A world that lists what was published, with a store on refs that is refused and one in the marker.
use crossrev.Prelude.{
  zero, suc, ◌++◌, ℕ, ◌+◌, String, Bool, true, false, ◌&&◌, ◌==◌, nat_Eq, text_Eq, List, [], ◌∷◌,
  ◌≡◌, refl, Option, none, some, Result, ok, err, if◌then◌else◌, length,
}
use crossrev.Prelude.Bytes.{Bytes, codes}
use crossrev.State.Opt.{absent, set}
use crossrev.State.Marker.{Handle, handle_marker, zero_marker, coverage_handle}
use crossrev.State.MarkerStore.{Codec, MarkerStore, overflow_degrade, marker_store}
use crossrev.State.Ledger.{Generation, SlotRef, LedgerError, LedgerStore, zero_handle}
use crossrev.Review.Ledger.{
  LedgerSelection, ledger_store_refs, ledger_store_marker, ledger_reason_ruleset,
  ledger_reason_configured, AutoState, auto_ledger, parent_for,
}
use crossrev.Review.Ledger.Parents.{ParentMeans, parent_for-Means}

-- The generations in the order of their publication are what a world is; a handle's `gen` is the place.
-- What the stores do not read of a generation is a number.
abbrev World : Type 0
World = List (Generation ℕ)

abbrev at : ℕ → World → Option (Generation ℕ)
at n [] = none
at zero (g ∷ w) = some g
at (suc n) (g ∷ w) = at n w

abbrev gone : LedgerError
gone = record { text = codes "gone"; refused = false; lost = true }

abbrev denied : LedgerError
denied = record { text = codes "a Ruleset denied it"; refused = true; lost = false }

abbrev found : Option (Generation ℕ) → Result LedgerError (Generation ℕ)
found none = err gone
found (some g) = ok g

abbrev in_refs : ℕ → Handle
in_refs n = record {
  gen = n;
  commit = "c";
  location = "refs/crossrev";
  degraded = false;
  payload = absent;
}

-- The first publication on refs is let through, and the others are refused.
abbrev publish_once : World → Generation ℕ → World × Result LedgerError Handle
publish_once [] g = (g ∷ [], ok (in_refs 0))
publish_once (x ∷ w) g = (x ∷ w, err denied)

abbrev refs : LedgerStore World (Generation ℕ)
refs = record {
  read_generation = λ w ref h. (w, found (at h.gen w));
  publish_generation = λ w ref parent g. publish_once w g;
}

abbrev HoldsRef : World → SlotRef → Handle → Generation ℕ → Type 0
HoldsRef w ref h g = at h.gen w ≡ some g

-- Refs store a candidate as it is.
abbrev IsSame : Handle → Generation ℕ → Generation ℕ → Type 0
IsSame parent g stored = stored ≡ g

-- What the two numbers of a payload make of a generation, and what the codec keeps of one.
abbrev made : ℕ → ℕ → Generation ℕ
made gen rest = record {
  gen = gen;
  revision = record {
    base = record { sha = "b"; ref = "" };
    head = record { sha = "h"; ref = "" };
  };
  engine = "e";
  slot = "reviewer1";
  producer = record { harness = "claude"; model = "m"; effort = ""; endpoint = "" };
  form = "full";
  rest = rest;
}

abbrev kept : Generation ℕ → Generation ℕ
kept g = made g.gen g.rest

abbrev decode_two : Bytes → Result LedgerError (Generation ℕ)
decode_two (a ∷ b ∷ []) = ok (made a b)
decode_two other = err gone

abbrev codec : Codec ℕ
codec = record {
  encode = λ g. ok (g.gen ∷ g.rest ∷ []);
  decode = decode_two;
  compact_rest = λ g. 0;
  counts = λ g. (0, 0);
}

-- A filter that hides what stands in the rest.
abbrev in_comment : MarkerStore ℕ
in_comment = record {
  render = none;
  on_overflow = overflow_degrade;
  filter = some (λ g. ok (record g { rest = 9 }));
  cancelled = none;
}

abbrev slot : SlotRef
slot = record { repo = record { owner = "o"; name = "n" }; number = 7; slot = "reviewer1" }

abbrev configured : LedgerSelection
configured = record { store = ledger_store_refs; reason = ledger_reason_configured }

abbrev marker : LedgerStore World (Generation ℕ)
unfolding marker_store
marker = marker_store codec in_comment

first : AutoState World × Result LedgerError Handle
unfolding auto_ledger
first = (auto_ledger refs marker).publish_generation ([], configured) slot zero_handle (made 1 40)

second : AutoState World × Result LedgerError Handle
unfolding auto_ledger first marker_store
second = (auto_ledger refs marker).publish_generation first.0 slot (in_refs 0) (made 0 41)

abbrev in_marker : Handle
in_marker = record {
  gen = 1;
  commit = "";
  location = handle_marker;
  degraded = false;
  payload = set (1 ∷ 9 ∷ []);
}

-- The second publication falls back, for the reason that the refusal names, filtered and numbered.
falls_back : second ≡ (
  (made 1 40 ∷ [], record { store = ledger_store_marker; reason = ledger_reason_ruleset }),
  ok in_marker,
)
unfolding second crossrev.Prelude.Bytes.cut
falls_back = refl

-- The first is read through refs all the same.
reads_first :
    ((auto_ledger refs marker).read_generation second.0 slot (in_refs 0)).1 ≡ ok (made 1 40)
unfolding second auto_ledger
reads_first = refl

parent_for-Means_example :
    ParentMeans refs [] slot (coverage_handle zero_marker) (parent_for refs [] slot zero_marker).1
parent_for-Means_example = parent_for-Means refs [] slot zero_marker
