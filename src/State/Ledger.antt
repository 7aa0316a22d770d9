-- ===== src/State/Ledger.antt =====
-- internal/prstate/store.go: the interface of a store for generations, who produced one, and when it
-- may be used again. A store acts on a world of any type; its errors carry what the callers ask of
-- them.
pub mod Contract
use crossrev.Prelude.{
  none, some, ℕ, String, Bool, true, false, not, ◌&&◌, ◌||◌, ◌==◌, ◌!=◌, text_Eq, Result, none,
  some, if◌then◌else◌,
}
use crossrev.Prelude.Bytes.{Bytes}
use crossrev.Core.Revision.{Slug, RevisionPair, pair_equal, pair_incomplete}
use crossrev.State.Opt.{absent, get, value}
use crossrev.State.Marker.{Handle, Marker}

pub record SlotRef : Type 0 where
  pub repo : Slug
  pub number : ℕ
  pub slot : String

pub record Producer : Type 0 where
  pub harness : String
  pub model : String
  pub effort : String
  pub endpoint : String

-- `Rest` is what the code below does not read: the records, the paths, the reports and the reads.
pub record Generation (Rest : Type 0) : Type 0 where
  pub gen : ℕ
  pub revision : RevisionPair
  pub engine : String
  pub slot : String
  pub producer : Producer
  pub form : String
  pub rest : Rest

-- An error: its text, and whether it is, or wraps, `RefWriteRefused` or `ErrLedgerLost`.
pub record LedgerError : Type 0 where
  pub text : Bytes
  pub refused : Bool
  pub lost : Bool

pub record LedgerStore (W G : Type 0) : Type 0 where
  pub read_generation : W → SlotRef → Handle → W × Result LedgerError G
  pub publish_generation : W → SlotRef → Handle → G → W × Result LedgerError Handle

abbrev pub zero_handle : Handle
zero_handle = record { gen = 0; commit = ""; location = ""; degraded = false; payload = absent }

same_producer : Producer → Producer → Bool
same_producer p q =
    p.harness == q.harness && p.model == q.model && p.effort == q.effort && p.endpoint == q.endpoint

-- `ProducerFor`.
unfoldable pub producer_for : Marker → Producer → Producer
producer_for m fallback = elim (get m.harness) [
  | none ↦ fallback
  | some harness ↦ record {
    harness = harness;
    model = if value "" m.model == "" then value "" m.model_reported else value "" m.model;
    effort = value "" m.effort;
    endpoint = value "" m.endpoint;
  }
]

module _ {Rest : Type 0} where
  unfoldable pub generation_current : Generation Rest → RevisionPair → String → Producer → Bool
  unfolding same_producer
  generation_current g revision engine producer =
      if pair_incomplete revision || pair_incomplete g.revision
      then false
      else if not (pair_equal g.revision revision)
      then false
      else if engine == "" || g.engine != engine
      then false
      else if not (same_producer g.producer producer)
      then false
      else true
