-- ===== src/State/MarkerStore/Contract.antt =====
-- The marker store keeps the contract of a ledger, beside a store on refs.
use crossrev.Prelude.{
  Option, none, some, ◌≡◌, refl, ap, ◌∙◌, ◌⊎◌, inl, inr, text_Eq, nat_Eq, Result, ok, err,
}
use crossrev.State.Opt.{get}
use crossrev.State.Marker.{Handle}
use crossrev.State.Ledger.{SlotRef, Generation, LedgerError, LedgerStore}
use crossrev.State.Ledger.Contract.{InMarker, InRefs, IsLedger}
use crossrev.State.MarkerStore.Carrying.{RoundTrips, after_encode-Carries}
use crossrev.State.MarkerStore.{
  Codec, MarkerStore, numbered_after, compact_generation, after_filter, publish_filtered,
  publish_in_marker, read_payload, read_from_marker, marker_store,
}

module _ {Rest : Type 0} (codec : Codec Rest) (s : MarkerStore Rest)
    (kept : Generation Rest → Generation Rest) where
  -- A candidate is stored filtered, with its number, in full or compact, as the encoding keeps it.
  abbrev pub IsStoredInMarker : Handle → Generation Rest → Generation Rest → Type 0
  IsStoredInMarker parent g stored =
      (filter : Generation Rest → Result LedgerError (Generation Rest)) × (filtered : Generation
        Rest)
      × (s.filter ≡ some filter)
      × (filter g ≡ ok filtered)
      × ((stored ≡ kept (numbered_after parent filtered))
          ⊎ (stored ≡ kept (compact_generation codec s (numbered_after parent filtered))))

  -- The two forms in which a filtered candidate may be stored.
  abbrev IsForm : Handle → Generation Rest → Generation Rest → Type 0
  IsForm parent filtered g =
      (g ≡ numbered_after parent filtered)
      ⊎ (g ≡ compact_generation codec s (numbered_after parent filtered))

  -- The handle that came back, if one did, is in the marker and names what the candidate is stored as.
  abbrev pub NamesStored : Handle → Generation Rest → Result LedgerError Handle → Type 0
  NamesStored parent candidate r =
      (h : Handle)
      → r ≡ ok h
      → InMarker h
        × (stored : Generation Rest) × IsStoredInMarker parent candidate stored
        × (read_payload codec s (get h.payload) ≡ ok stored)

  form-IsStored :
      (filter : Generation Rest → Result LedgerError (Generation Rest)) (parent : Handle)
      (candidate filtered g : Generation Rest)
      → s.filter ≡ some filter
      → filter candidate ≡ ok filtered
      → IsForm parent filtered g
      → IsStoredInMarker parent candidate (kept g)
  form-IsStored filter parent candidate filtered g e f (inl p) =
      (filter, filtered, e, f, inl (ap kept p))
  form-IsStored filter parent candidate filtered g e f (inr p) =
      (filter, filtered, e, f, inr (ap kept p))

  after_filter-Names :
      RoundTrips codec s kept
      → (filter : Generation Rest → Result LedgerError (Generation Rest)) (parent : Handle)
        (candidate : Generation Rest) (r : Result LedgerError (Generation Rest))
      → s.filter ≡ some filter
      → filter candidate ≡ r
      → NamesStored parent candidate (after_filter codec s parent r)
  unfolding after_filter
  after_filter-Names trips filter parent candidate (err x) e f h p = cc
  after_filter-Names trips filter parent candidate (ok filtered) e f h p =
      let (mine, g, form, read) =
        after_encode-Carries codec s kept trips (IsForm parent filtered)
          (numbered_after parent filtered) (codec.encode (numbered_after parent filtered))
          (inl refl) (inr refl) refl h p in
      (mine, kept g, form-IsStored filter parent candidate filtered g e f form, read)

  publish_filtered-Names :
      RoundTrips codec s kept
      → (o : Option (Generation Rest → Result LedgerError (Generation Rest))) (parent : Handle)
        (candidate : Generation Rest)
      → s.filter ≡ o
      → NamesStored parent candidate (publish_filtered codec s o parent candidate)
  unfolding publish_filtered
  publish_filtered-Names trips none parent candidate e h p = cc
  publish_filtered-Names trips (some filter) parent candidate e h p =
      after_filter-Names trips filter parent candidate (filter candidate) e refl h p

  publish_in_marker-Names :
      RoundTrips codec s kept
      → (cancelled : Option LedgerError) (parent : Handle) (candidate : Generation Rest)
      → NamesStored parent candidate (publish_in_marker codec s cancelled parent candidate)
  unfolding publish_in_marker
  publish_in_marker-Names trips (some x) parent candidate h p = cc
  publish_in_marker-Names trips none parent candidate h p =
      publish_filtered-Names trips s.filter parent candidate refl h p

  module _ {W : Type 0} (HoldsRef : W → SlotRef → Handle → Generation Rest → Type 0) where
    -- A handle in the marker names what its payload decodes to, and one of refs what refs hold.
    abbrev pub HoldsBoth : W → SlotRef → Handle → Generation Rest → Type 0
    HoldsBoth w ref h g =
        (InMarker h × (read_payload codec s (get h.payload) ≡ ok g))
        ⊎ (InRefs h × HoldsRef w ref h g)

    marker-reads :
        s.cancelled ≡ none
        → (w : W) (ref : SlotRef) (h : Handle) (g : Generation Rest) → InMarker h
        → HoldsBoth w ref h g
        → read_from_marker codec s s.cancelled h ≡ ok g
    unfolding read_from_marker
    marker-reads live w ref h g mine (inl (m, e)) = ap (λ x. read_from_marker codec s x h) live ∙ e
    marker-reads live w ref h g mine (inr (r, k)) = absurd (r mine)

    -- While its context is live, the marker store keeps the contract on the handles of markers.
    pub marker_store-IsLedger :
        RoundTrips codec s kept
        → s.cancelled ≡ none
        → IsLedger (marker_store codec s) IsStoredInMarker HoldsBoth InMarker
    unfolding marker_store
    marker_store-IsLedger trips live = record {
      publishes = λ w ref parent g h e.
          let (mine, stored, is_stored, read) =
            publish_in_marker-Names trips s.cancelled parent g h e in
          (mine, stored, is_stored, inl (mine, read));
      reads = marker-reads live;
      publish_keeps = λ w ref parent c r h g k. k;
      read_keeps = λ w ref asked r h g k. k;
    }

    module _ (refs : LedgerStore W (Generation Rest))
        (IsStoredInRefs : Handle → Generation Rest → Generation Rest → Type 0)
        (of_refs : IsLedger refs IsStoredInRefs HoldsRef InRefs) where
      refs-reads :
          (w : W) (ref : SlotRef) (h : Handle) (g : Generation Rest)
          → InRefs h
          → HoldsBoth w ref h g
          → (refs.read_generation w ref h).1 ≡ ok g
      refs-reads w ref h g mine (inl (m, e)) = absurd (mine m)
      refs-reads w ref h g mine (inr (r, k)) = of_refs.reads w ref h g mine k

      publish-keeps :
          (w : W) (ref : SlotRef) (parent : Handle) (c : Generation Rest) (r : SlotRef) (h : Handle)
          (g : Generation Rest)
          → HoldsBoth w r h g
          → HoldsBoth (refs.publish_generation w ref parent c).0 r h g
      publish-keeps w ref parent c r h g (inl k) = inl k
      publish-keeps w ref parent c r h g (inr (m, k)) =
          inr (m, of_refs.publish_keeps w ref parent c r h g k)

      read-keeps :
          (w : W) (ref : SlotRef) (asked : Handle) (r : SlotRef) (h : Handle) (g : Generation Rest)
          → HoldsBoth w r h g
          → HoldsBoth (refs.read_generation w ref asked).0 r h g
      read-keeps w ref asked r h g (inl k) = inl k
      read-keeps w ref asked r h g (inr (m, k)) = inr (m, of_refs.read_keeps w ref asked r h g k)

      -- A store on refs keeps its contract beside the marker store.
      pub refs-IsLedger : IsLedger refs IsStoredInRefs HoldsBoth InRefs
      refs-IsLedger = record {
        publishes = λ w ref parent g h e.
            let (mine, stored, is_stored, k) = of_refs.publishes w ref parent g h e in
            (mine, stored, is_stored, inr (mine, k));
        reads = refs-reads;
        publish_keeps = publish-keeps;
        read_keeps = read-keeps;
      }
