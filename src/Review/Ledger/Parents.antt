-- ===== src/Review/Ledger/Parents.antt =====
-- What a publication parents on.
use crossrev.Prelude.{sym, true, false, ◌≡◌, refl, ◌⊎◌, inl, inr, Result, ok, err, Bool-cases}
use crossrev.State.Marker.{Marker, Handle, Claim, unclaimed, claimed, malformed, coverage_handle}
use crossrev.State.Ledger.{SlotRef, LedgerError, LedgerStore, zero_handle}
use crossrev.Review.Ledger.{
  ParentError, bad_claim, unread, coverage_outcome, judge_parent, parent_of_claim, parent_for,
}

module _ {W G : Type 0} (store : LedgerStore W G) (w : W) (ref : SlotRef) where
  -- What an answer says of the claim on the marker.
  abbrev pub ParentMeans : Claim → Result ParentError Handle → Type 0
  ParentMeans c (ok h) =
      ((h ≡ zero_handle)
        × ((c ≡ unclaimed)
            ⊎ ((k : Handle) × (e : LedgerError) × (c ≡ claimed k)
                × ((store.read_generation w ref k).1 ≡ err e)
                × (e.lost ≡ true))))
      ⊎ ((g : G) × (c ≡ claimed h) × ((store.read_generation w ref h).1 ≡ ok g))
  ParentMeans c (err (bad_claim t)) = (k : Handle) × (c ≡ malformed k t)
  ParentMeans c (err (unread e)) =
      (k : Handle) × (c ≡ claimed k)
      × ((store.read_generation w ref k).1 ≡ err e)
      × (e.lost ≡ false)

  judge_parent-Means :
      (h : Handle) (wr : W × Result LedgerError G)
      → wr.1 ≡ (store.read_generation w ref h).1
      → ParentMeans (claimed h) (judge_parent store h wr).1
  unfolding judge_parent coverage_outcome
  judge_parent-Means h (w', ok g) p = inr (g, refl, sym p)
  judge_parent-Means h (w', err e) p = elim (Bool-cases e.lost) [
    | inl lost ↦ simp lost (inl (refl, inr (h, e, refl, sym p, lost)))
    | inr kept ↦ simp kept (h, refl, sym p, refl)
  ]

  parent_of_claim-Means : (c : Claim) → ParentMeans c (parent_of_claim store w ref c).1
  unfolding parent_of_claim
  parent_of_claim-Means unclaimed = inl (refl, inl refl)
  parent_of_claim-Means (claimed h) = judge_parent-Means h (store.read_generation w ref h) refl
  parent_of_claim-Means (malformed h t) = (h, refl)

  -- A publication parents on the handle that the marker claims where that handle reads; on nothing
  -- exactly where the marker claims nothing or the claimed generation is lost; and it is refused where
  -- the claim is malformed or the read fails in any other way, with that error.
  pub parent_for-Means : (m : Marker) → ParentMeans (coverage_handle m) (parent_for store w ref m).1
  unfolding parent_for
  parent_for-Means m = parent_of_claim-Means (coverage_handle m)
