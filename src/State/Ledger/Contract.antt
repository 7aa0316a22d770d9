-- ===== src/State/Ledger/Contract.antt =====
-- What a store for generations promises.
use crossrev.Prelude.{◌≡◌, ◌≢◌, ok}
use crossrev.State.Marker.{Handle, handle_marker}
use crossrev.State.Ledger.{SlotRef, LedgerStore}

abbrev pub InMarker : Handle → Type 0
InMarker h = h.location ≡ handle_marker

abbrev pub InRefs : Handle → Type 0
InRefs h = h.location ≢ handle_marker

abbrev pub AnyHandle : Handle → Type 0
AnyHandle h = Unit

module _ {W G : Type 0} (store : LedgerStore W G) where
  -- The contract of a store, on the handles that are `Mine` and over what a world `Holds`: a handle
  -- that a publication returns is one of these and names a generation that the candidate is stored
  -- as under its parent; a read gives the generation that such a handle names; and no operation takes
  -- away what the world holds.
  pub record IsLedger (IsStoredAs : Handle → G → G → Type 0)
      (Holds : W → SlotRef → Handle → G → Type 0) (Mine : Handle → Type 0) : Type 0 where
    pub publishes :
        (w : W) (ref : SlotRef) (parent : Handle) (g : G) (h : Handle)
        → (store.publish_generation w ref parent g).1 ≡ ok h
        → Mine h
          × (stored : G) × IsStoredAs parent g stored
          × Holds (store.publish_generation w ref parent g).0 ref h stored
    pub reads :
        (w : W) (ref : SlotRef) (h : Handle) (g : G)
        → Mine h
        → Holds w ref h g
        → (store.read_generation w ref h).1 ≡ ok g
    pub publish_keeps :
        (w : W) (ref : SlotRef) (parent : Handle) (c : G) (r : SlotRef) (h : Handle) (g : G)
        → Holds w r h g
        → Holds (store.publish_generation w ref parent c).0 r h g
    pub read_keeps :
        (w : W) (ref : SlotRef) (asked : Handle) (r : SlotRef) (h : Handle) (g : G)
        → Holds w r h g
        → Holds (store.read_generation w ref asked).0 r h g
