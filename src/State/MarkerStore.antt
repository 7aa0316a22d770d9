-- ===== src/State/MarkerStore.antt =====
-- internal/prstate/markerstore.go: the store that carries a generation in the marker comment. The codec
-- of generations, their filtering, their compact records and their counts are parameters, and so is
-- whether the context of a call is still live. A world of any type passes through unchanged.
pub mod Carrying
pub mod Contract
use crossrev.Prelude.{
  false, ℕ, ◌+◌, ◌-◌, String, Bool, true, ◌&&◌, Option, none, some, [], ◌∷◌, ◌++◌, length, ◌==◌,
  ◌!=◌, nat_Eq, text_Eq, leb, Result, ok, err, if◌then◌else◌,
}
use crossrev.Prelude.Bytes.{Bytes, codes, itoa_bytes}
use crossrev.State.Opt.{Opt, absent, set, get}
use crossrev.State.Marker.{Handle, handle_marker}
use crossrev.State.Ledger.{SlotRef, Generation, LedgerError, LedgerStore}

abbrev pub comment_cap : ℕ
comment_cap = 65536

abbrev pub overflow_degrade : String
overflow_degrade = "degrade"

abbrev pub generation_compact : String
generation_compact = "compact"

-- What the store calls on generations: `encodeGenerationPayload`, `decodeGenerationPayload` on bytes
-- that are not empty, the rest of `CompactGeneration`, and `generationCounts`, as the outstanding
-- and the required.
pub record Codec (Rest : Type 0) : Type 0 where
  pub encode : Generation Rest → Result LedgerError Bytes
  pub decode : Bytes → Result LedgerError (Generation Rest)
  pub compact_rest : Generation Rest → Rest
  pub counts : Generation Rest → ℕ × ℕ

-- `filter` is `FilterGeneration` with the filter, none where there is none; `cancelled` is `ctx.Err()`.
pub record MarkerStore (Rest : Type 0) : Type 0 where
  pub render : Option (Bytes → Result LedgerError Bytes)
  pub on_overflow : String
  pub filter : Option (Generation Rest → Result LedgerError (Generation Rest))
  pub cancelled : Option LedgerError

abbrev pub plain_error : Bytes → LedgerError
plain_error text = record { text = text; refused = false; lost = false }

abbrev pub err_no_publish_filter : LedgerError
err_no_publish_filter =
    plain_error (codes "no publish filter is installed, so nothing was published")

abbrev pub err_ledger_lost : LedgerError
err_ledger_lost = record {
  text = codes "the generation this handle names is gone";
  refused = false;
  lost = true;
}

-- `FitMarkerComment`, where it has no error.
abbrev pub fits : Bytes → Bool
fits rendered = leb (length rendered) comment_cap

-- The error of `LedgerExhausted`, from the bytes measured and the counts. A difference below 0 is 0.
unfoldable pub ledger_exhausted : ℕ → ℕ × ℕ → LedgerError
ledger_exhausted measured (outstanding, required) = plain_error (
    codes "coverage ledger exhausted: limit \"ledger_exhausted\" reached ("
    ++ (itoa_bytes measured
        ++ (codes " measured bytes, "
            ++ (itoa_bytes required
                ++ (codes " required, "
                    ++ (itoa_bytes (required - outstanding)
                        ++ (codes " covered, "
                            ++ (itoa_bytes outstanding ++ codes " outstanding)"))))))))

unfoldable pub marker_handle : ℕ → Bool → Bytes → Handle
marker_handle gen degraded payload = record {
  gen = gen;
  commit = "";
  location = handle_marker;
  degraded = degraded;
  payload = set payload;
}

module _ {Rest : Type 0} where
  -- The number of the candidate, or the one after its parent's.
  unfoldable pub numbered_after : Handle → Generation Rest → Generation Rest
  numbered_after parent g =
      if g.gen == 0 then record g { gen = if parent.gen == 0 then 1 else parent.gen + 1 } else g

  module _ (codec : Codec Rest) (s : MarkerStore Rest) where
    -- `CompactGeneration`.
    unfoldable pub compact_generation : Generation Rest → Generation Rest
    compact_generation g = record g { form = generation_compact; rest = codec.compact_rest g }

    abbrev pub rendered_by :
        Option (Bytes → Result LedgerError Bytes) → Bytes → Result LedgerError Bytes
    rendered_by none payload = ok payload
    rendered_by (some render) payload = render payload

    pub after_compact_render :
        Generation Rest → Bytes → Result LedgerError Bytes → Result LedgerError Handle
    unfolding marker_handle ledger_exhausted
    after_compact_render g payload (err e) = err e
    after_compact_render g payload (ok rendered) =
        if fits rendered
        then ok (marker_handle g.gen true payload)
        else err (ledger_exhausted (length rendered) (codec.counts g))

    pub after_compact_encode :
        Generation Rest → Result LedgerError Bytes → Result LedgerError Handle
    unfolding after_compact_render
    after_compact_encode g (err e) = err e
    after_compact_encode g (ok payload) =
        after_compact_render g payload (rendered_by s.render payload)

    -- What follows a generation that does not fit.
    pub overflow : Generation Rest → Bytes → Result LedgerError Handle
    unfolding after_compact_encode compact_generation ledger_exhausted
    overflow g rendered =
        if g.form != generation_compact && s.on_overflow == overflow_degrade
        then after_compact_encode (compact_generation g) (codec.encode (compact_generation g))
        else err (ledger_exhausted (length rendered) (codec.counts g))

    pub after_render :
        Generation Rest → Bytes → Result LedgerError Bytes → Result LedgerError Handle
    unfolding overflow marker_handle
    after_render g payload (err e) = err e
    after_render g payload (ok rendered) =
        if fits rendered
        then ok (marker_handle g.gen (g.form == generation_compact) payload)
        else overflow g rendered

    pub after_encode : Generation Rest → Result LedgerError Bytes → Result LedgerError Handle
    unfolding after_render
    after_encode g (err e) = err e
    after_encode g (ok payload) = after_render g payload (rendered_by s.render payload)

    pub after_filter : Handle → Result LedgerError (Generation Rest) → Result LedgerError Handle
    unfolding after_encode numbered_after
    after_filter parent (err e) = err (record e { text = codes "filtering generation: " ++ e.text })
    after_filter parent (ok g) =
        after_encode (numbered_after parent g) (codec.encode (numbered_after parent g))

    pub publish_filtered :
        Option (Generation Rest → Result LedgerError (Generation Rest))
        → Handle
        → Generation Rest
        → Result LedgerError Handle
    unfolding after_filter
    publish_filtered none parent candidate = err err_no_publish_filter
    publish_filtered (some filter) parent candidate = after_filter parent (filter candidate)

    pub publish_in_marker :
        Option LedgerError → Handle → Generation Rest → Result LedgerError Handle
    unfolding publish_filtered
    publish_in_marker (some e) parent candidate = err e
    publish_in_marker none parent candidate = publish_filtered s.filter parent candidate

    pub read_payload : Option Bytes → Result LedgerError (Generation Rest)
    read_payload none = err err_ledger_lost
    read_payload (some []) = err err_ledger_lost
    read_payload (some (c ∷ payload)) = codec.decode (c ∷ payload)

    pub read_from_marker : Option LedgerError → Handle → Result LedgerError (Generation Rest)
    unfolding read_payload
    read_from_marker (some e) h = err e
    read_from_marker none h = read_payload (get h.payload)

    -- The two operations of `markerStore`.
    unfoldable pub marker_store : {W : Type 0} → LedgerStore W (Generation Rest)
    unfolding publish_in_marker read_from_marker
    marker_store = record {
      read_generation = λ w ref h. (w, read_from_marker s.cancelled h);
      publish_generation = λ w ref parent g. (w, publish_in_marker s.cancelled parent g);
    }
