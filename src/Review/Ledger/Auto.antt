-- ===== src/Review/Ledger/Auto.antt =====
-- The automatic store keeps the contract that its two halves keep.
use crossrev.Prelude.{text_Eq, ◌≡◌, Result, ok, ◌⊎◌}
use crossrev.State.Marker.{Handle}
use crossrev.State.Ledger.{SlotRef, Generation, LedgerError, LedgerStore}
use crossrev.State.Ledger.Contract.{InMarker, InRefs, IsLedger}
use crossrev.State.MarkerStore.{Codec, MarkerStore}
use crossrev.State.MarkerStore.Contract.{IsStoredInMarker, HoldsBoth}
use crossrev.Review.Ledger.{AutoState}

module _ {W G : Type 0} (refs marker : LedgerStore W G)
    (IsStoredInRefs InMarkerStored : Handle → G → G → Type 0)
    (Holds : W → SlotRef → Handle → G → Type 0)
    (of_refs : IsLedger refs IsStoredInRefs Holds InRefs)
    (of_marker : IsLedger marker InMarkerStored Holds InMarker) where
  abbrev HoldsIn : AutoState W → SlotRef → Handle → G → Type 0
  HoldsIn (w, s) = Holds w

  -- A candidate is stored as one of the two halves stores it.
  abbrev IsStored : Handle → G → G → Type 0
  IsStored parent g stored = IsStoredInRefs parent g stored ⊎ InMarkerStored parent g stored

  -- The handle that came back, if one did, names what the candidate is stored as.
  abbrev Names : SlotRef → Handle → G → AutoState W × Result LedgerError Handle → Type 0
  Names ref parent g (state, r) =
      (h : Handle) → r ≡ ok h → (stored : G) × IsStored parent g stored × HoldsIn state ref h stored

  module _ (r : SlotRef) (h : Handle) (g : G) where
    abbrev StillHolds : AutoState W × Result LedgerError Handle → Type 0
    StillHolds (state, res) = HoldsIn state r h g

module _ {W Rest : Type 0} (refs : LedgerStore W (Generation Rest)) (codec : Codec Rest)
    (s : MarkerStore Rest) (kept : Generation Rest → Generation Rest)
    (IsStoredInRefs : Handle → Generation Rest → Generation Rest → Type 0)
    (HoldsRef : W → SlotRef → Handle → Generation Rest → Type 0) where
  -- What a handle names, whatever store is in force.
  abbrev pub AutoHolds : AutoState W → SlotRef → Handle → Generation Rest → Type 0
  AutoHolds (w, selection) = HoldsBoth codec s kept HoldsRef w

  -- A candidate is stored as refs store it, or as the marker store does: filtered, numbered after its
  -- parent, in full or compact.
  abbrev pub IsAutoStored : Handle → Generation Rest → Generation Rest → Type 0
  IsAutoStored parent g stored =
      IsStoredInRefs parent g stored ⊎ IsStoredInMarker codec s kept parent g stored
