-- ===== src/Review/Ledger.antt =====
-- internal/review/ledger.go: the store of `coverage.store: auto`, which writes through git refs until
-- a write is refused and through the marker from then on; the store that a configuration selects;
-- and the parent of a publication.
pub mod Auto
pub mod Parents
use crossrev.Prelude.{
  ℕ, ◌+◌, String, Bool, true, false, ◌&&◌, ◌==◌, text_Eq, Option, none, some, List, [], ◌∷◌, map,
  leb, Result, ok, err, if◌then◌else◌,
}
use crossrev.Prelude.Bytes.{Bytes, codes, cut}
use crossrev.Core.Revision.{Slug}
use crossrev.State.Marker.{
  Marker, Handle, handle_marker, Claim, unclaimed, claimed, malformed, coverage_handle,
}
use crossrev.State.Ledger.{SlotRef, Producer, LedgerError, LedgerStore, zero_handle}

pub record LedgerSelection : Type 0 where
  pub store : String
  pub reason : String

abbrev pub ledger_store_refs : String
ledger_store_refs = "refs"

abbrev pub ledger_store_marker : String
ledger_store_marker = "marker"

abbrev pub ledger_reason_configured : String
ledger_reason_configured = "configured"

abbrev pub ledger_reason_ref_write_refused : String
ledger_reason_ref_write_refused = "ref_write_refused"

abbrev pub ledger_reason_ruleset : String
ledger_reason_ruleset = "ruleset"

-- `strings.ToLower` on a byte.
to_lower : ℕ → ℕ
to_lower c = if leb b'A' c && leb c b'Z' then c + 32 else c

-- `refusalReason`.
unfoldable pub refusal_reason : LedgerError → String
unfolding to_lower
refusal_reason e = elim (cut (codes "ruleset") (map to_lower e.text)) [
  | none ↦ ledger_reason_ref_write_refused
  | some parts ↦ ledger_reason_ruleset
]

-- The state of the automatic store: the world, and the store that is in force.
abbrev pub AutoState : Type 0 → Type 0
AutoState W = W × LedgerSelection

module _ {W G : Type 0} (refs marker : LedgerStore W G) where
  pub auto_read : AutoState W → SlotRef → Handle → AutoState W × Result LedgerError G
  auto_read (w, s) ref handle =
      let (w', r) =
        if handle.location == handle_marker
        then marker.read_generation w ref handle
        else refs.read_generation w ref handle in
      ((w', s), r)

  -- A publication through the marker store, with the selection that is in force then.
  pub through_marker :
      W → LedgerSelection → SlotRef → Handle → G → AutoState W × Result LedgerError Handle
  through_marker w s ref parent candidate =
      let (w', r) = marker.publish_generation w ref parent candidate in ((w', s), r)

  -- What follows a publication through refs.
  pub fall_back :
      LedgerSelection
      → SlotRef
      → Handle
      → G
      → W × Result LedgerError Handle
      → AutoState W × Result LedgerError Handle
  unfolding through_marker refusal_reason
  fall_back s ref parent candidate (w, ok handle) = ((w, s), ok handle)
  fall_back s ref parent candidate (w, err e) =
      if e.refused
      then through_marker w (record { store = ledger_store_marker; reason = refusal_reason e }) ref
          parent candidate
      else ((w, s), err e)

  pub auto_publish : AutoState W → SlotRef → Handle → G → AutoState W × Result LedgerError Handle
  unfolding fall_back through_marker
  auto_publish (w, s) ref parent candidate =
      if s.store == ledger_store_marker
      then through_marker w s ref parent candidate
      else fall_back s ref parent candidate (refs.publish_generation w ref parent candidate)

  unfoldable pub auto_ledger : LedgerStore (AutoState W) G
  unfolding auto_read auto_publish
  auto_ledger = record { read_generation = auto_read; publish_generation = auto_publish }

-- Which store a configuration selects.
pub data Selected : Type 0 where
  use_marker use_refs use_auto : Selected

-- `ledgerFor`, where `writes_refs` says whether the client can write git refs.
unfoldable pub ledger_for : String → Bool → Result String (Selected × LedgerSelection)
ledger_for store writes_refs =
    if store == ledger_store_marker
    then ok (use_marker, record { store = ledger_store_marker; reason = ledger_reason_configured })
    else if store == ledger_store_refs
    then if writes_refs
      then ok (use_refs, record { store = ledger_store_refs; reason = ledger_reason_configured })
      else err "coverage.store is refs but this client cannot write git refs"
    else if writes_refs
    then ok (use_auto, record { store = ledger_store_refs; reason = ledger_reason_configured })
    else ok (
      use_marker,
      record { store = ledger_store_marker; reason = ledger_reason_ref_write_refused },
    )

-- `coverageOutcome`: whether the ledger is lost, and whether the caller fails closed.
unfoldable pub coverage_outcome : Option LedgerError → Bool × Bool
coverage_outcome none = (false, false)
coverage_outcome (some e) = if e.lost then (true, false) else (false, true)

-- The error of `parentFor`: the marker's claim, or the store's.
pub data ParentError : Type 0 where
  bad_claim : String → ParentError
  unread : LedgerError → ParentError

module _ {W G : Type 0} (store : LedgerStore W G) where
  pub judge_parent : Handle → W × Result LedgerError G → W × Result ParentError Handle
  judge_parent h (w, ok g) = (w, ok h)
  judge_parent h (w, err e) =
      if (coverage_outcome (some e)).0 then (w, ok zero_handle) else (w, err (unread e))

  pub parent_of_claim : W → SlotRef → Claim → W × Result ParentError Handle
  unfolding judge_parent coverage_outcome
  parent_of_claim w ref unclaimed = (w, ok zero_handle)
  parent_of_claim w ref (claimed h) = judge_parent h (store.read_generation w ref h)
  parent_of_claim w ref (malformed h e) = (w, err (bad_claim e))

  unfoldable pub parent_for : W → SlotRef → Marker → W × Result ParentError Handle
  unfolding parent_of_claim
  parent_for w ref m = parent_of_claim w ref (coverage_handle m)

-- `producerOf`, with the settings of the leg.
unfoldable pub producer_of : String → String → String → String → String → Producer
producer_of harness model effort endpoint reported = record {
  harness = harness;
  model = if model == "" then reported else model;
  effort = effort;
  endpoint = endpoint;
}
