-- ===== src/State/MarkerStore/Carrying.antt =====
-- What the handle of a publication in the marker carries.
use crossrev.Prelude.{
  ℕ, Bool, some, [], ◌∷◌, ◌≡◌, ◌≢◌, refl, subst, ◌∙◌, ◌==◌, ◌!=◌, ◌&&◌, text_Eq, nat_Eq, Result, ok,
  err, if_both,
}
use crossrev.Prelude.Bytes.{Bytes}
use crossrev.State.Opt.{get}
use crossrev.State.Marker.{Handle}
use crossrev.State.Ledger.{Generation, LedgerError}
use crossrev.State.Ledger.Contract.{InMarker}
use crossrev.State.MarkerStore.{
  Codec, MarkerStore, fits, generation_compact, overflow_degrade, marker_handle, compact_generation,
  rendered_by, after_compact_render, after_compact_encode, overflow, after_render, after_encode,
  read_payload,
}

module _ {Rest : Type 0} (codec : Codec Rest) (s : MarkerStore Rest)
    (kept : Generation Rest → Generation Rest) where
  -- What is encoded decodes to what the encoding keeps of it, and is not empty.
  abbrev pub RoundTrips : Type 0
  RoundTrips =
      (g : Generation Rest) (payload : Bytes)
      → codec.encode g ≡ ok payload
      → (payload ≢ []) × (codec.decode payload ≡ ok (kept g))

  -- A handle that came back, if one did, is in the marker and carries one of these generations.
  abbrev pub Carries : (Generation Rest → Type 0) → Result LedgerError Handle → Type 0
  Carries P r =
      (h : Handle)
      → r ≡ ok h
      → InMarker h
        × (g : Generation Rest) × P g
        × (read_payload codec s (get h.payload) ≡ ok (kept g))

  read_payload-decode :
      (payload : Bytes) → payload ≢ [] → read_payload codec s (some payload) ≡ codec.decode payload
  unfolding read_payload
  read_payload-decode [] h = absurd (h refl)
  read_payload-decode (c ∷ payload) h = refl

  module _ (trips : RoundTrips) (P : Generation Rest → Type 0) where
    refused-Carries : (e : LedgerError) → Carries P (err e)
    refused-Carries e h p = cc

    handle-Carries :
        (g : Generation Rest) (gen : ℕ) (degraded : Bool) (payload : Bytes)
        → P g
        → codec.encode g ≡ ok payload
        → Carries P (ok (marker_handle gen degraded payload))
    unfolding marker_handle
    handle-Carries g gen degraded payload k e h p =
        let (some_byte, back) = trips g payload e in
        let q : marker_handle gen degraded payload ≡ h = cc in
        subst
          (λ (x : Handle).
            InMarker x
            × (c : Generation Rest) × P c
            × (read_payload codec s (get x.payload) ≡ ok (kept c)))
          q (refl, g, k, read_payload-decode payload some_byte ∙ back)

    after_compact_render-Carries :
        (g : Generation Rest) (payload : Bytes) (r : Result LedgerError Bytes)
        → P g
        → codec.encode g ≡ ok payload
        → Carries P (after_compact_render codec s g payload r)
    unfolding after_compact_render
    after_compact_render-Carries g payload (err x) k e = refused-Carries x
    after_compact_render-Carries g payload (ok rendered) k e =
        if_both (Carries P) (fits rendered) _ _ (handle-Carries g g.gen _ payload k e)
          (refused-Carries _)

    after_compact_encode-Carries :
        (g : Generation Rest) (r : Result LedgerError Bytes)
        → P g
        → codec.encode g ≡ r
        → Carries P (after_compact_encode codec s g r)
    unfolding after_compact_encode
    after_compact_encode-Carries g (err x) k e = refused-Carries x
    after_compact_encode-Carries g (ok payload) k e =
        after_compact_render-Carries g payload (rendered_by codec s s.render payload) k e

    overflow-Carries :
        (g : Generation Rest) (rendered : Bytes)
        → P (compact_generation codec s g)
        → Carries P (overflow codec s g rendered)
    unfolding overflow
    overflow-Carries g rendered k =
        if_both (Carries P) (g.form != generation_compact && s.on_overflow == overflow_degrade) _ _
          (after_compact_encode-Carries (compact_generation codec s g) _ k refl) (refused-Carries _)

    after_render-Carries :
        (g : Generation Rest) (payload : Bytes) (r : Result LedgerError Bytes)
        → P g
        → P (compact_generation codec s g)
        → codec.encode g ≡ ok payload
        → Carries P (after_render codec s g payload r)
    unfolding after_render
    after_render-Carries g payload (err x) k l e = refused-Carries x
    after_render-Carries g payload (ok rendered) k l e =
        if_both (Carries P) (fits rendered) _ _ (handle-Carries g g.gen _ payload k e)
          (overflow-Carries g rendered l)

    pub after_encode-Carries :
        (g : Generation Rest) (r : Result LedgerError Bytes)
        → P g
        → P (compact_generation codec s g)
        → codec.encode g ≡ r
        → Carries P (after_encode codec s g r)
    unfolding after_encode
    after_encode-Carries g (err x) k l e = refused-Carries x
    after_encode-Carries g (ok payload) k l e =
        after_render-Carries g payload (rendered_by codec s s.render payload) k l e
