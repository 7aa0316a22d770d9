-- ===== src/Resolve/Convergence/Settled.antt =====
-- What stands behind the converged label of a resolve pass.
use crossrev.Prelude.{
  arith, ℕ, ◌≤◌, Bool, true, false, Option, none, some, Result, ok, err, ◌≡◌, ◌≢◌, refl, sym, ◌∙◌,
  length, count_if, All, nat_Eq, text_Eq, eq_iff, if◌then◌else◌,
}
use crossrev.Policy.Convergence.{Convergence, converged}
use crossrev.Policy.Labels.{pass_converged, pass_halted, resolve_pass_label}
use crossrev.Policy.Redrive.{ResolveMarker, resolve_redrivable}
use crossrev.Policy.Endings.{
  IsCovered, converged-IsCovered, resolve_pass_label-converged_iff,
  resolve_pass_label_with_coverage-converged_iff,
}
use crossrev.State.Opt.{has_value}
use crossrev.State.Marker.{Handle, Claim, unclaimed, claimed, malformed, coverage_handle}
use crossrev.State.Passes.{confirmation_settled}
use crossrev.State.Ledger.{Generation, LedgerError, generation_current, producer_for}
use crossrev.Cycle.Status.{Coverage, Read, file_engine_version}
use crossrev.Cycle.Status.Counts.{IsSettled, is_unit, tally-IsSettled}
use crossrev.Resolve.Convergence.{
  Settling, zero_convergence, resolve_store_for, if_current, read_current, generation_if_current,
  settled_counts, counts_of, convergence_for, resolve_convergence, other_escalated, label_with,
  settled_next, label_of_empty, finish_empty,
}
use crossrev.Resolve.Convergence.Agreement.{confirmation-agrees}

-- What a generation that backs a converged label holds: a path, as many records of files as paths,
-- each of them settled, a scope, and repairs that are confirmed at the head.
abbrev pub Backs : Settling → Coverage → Type 0
Backs s coverage =
    (1 ≤ length coverage.paths)
    × (count_if is_unit coverage.records ≡ length coverage.paths)
    × All IsSettled coverage.records
    × (coverage.examined_scope ≢ "")
    × (confirmation_settled s.review s.head.sha ≡ true)

covered-Backs :
    (s : Settling) (coverage : Coverage) → IsCovered (settled_counts s coverage) → Backs s coverage
unfolding settled_counts
covered-Backs s coverage h =
    let c = record zero_convergence { ledger_current = true } in
    let (settled, units) =
      tally-IsSettled c coverage.records refl h.none_outstanding h.none_unreviewed in
    let k = confirmation-agrees s.review s.head.sha in
    let confirmed = h.confirmed in
    let reported = h.reported in
    (
      h.some_required,
      sym units ∙ h.all_covered,
      settled,
      ground (arith, eq_iff coverage.examined_scope ""),
      ground (arith, k),
    )

-- What a claim of coverage must hold for a converged label.
abbrev pub ClaimBacks : Settling → Claim → Type 0
ClaimBacks s unclaimed = has_value s.review.coverage_manifest_id ≡ false
ClaimBacks s (malformed h e) = ⊥
ClaimBacks s (claimed h) =
    (read : Read) × (g : Generation Coverage) × (resolve_store_for s.coverage h ≡ some read)
    × (read h ≡ ok g)
    × (generation_current g (record { base = s.base; head = s.head }) file_engine_version
          (producer_for s.review s.coverage.producer)
        ≡ true)
    × Backs s g.rest

-- No convergence, or one that is reached.
abbrev Allows : Option Convergence → Type 0
Allows none = Unit
Allows (some c) = converged c ≡ true

zero-refused : converged zero_convergence ≡ true → ⊥
unfolding converged
zero-refused h = cc

module _ (s : Settling) where
  current-Backs :
      (g : Generation Coverage)
      → converged (counts_of s (if_current s (ok g))) ≡ true
      → (generation_current g
            (record { base = s.base; head = s.head })
            file_engine_version
            (producer_for s.review s.coverage.producer)
          ≡ true)
        × (converged (settled_counts s g.rest) ≡ true)
  unfolding if_current counts_of
  current-Backs g h = ground (arith, zero-refused)

  store-Backs :
      (h : Handle) (o : Option Read)
      → resolve_store_for s.coverage h ≡ o
      → converged (counts_of s (read_current s h o)) ≡ true
      → ClaimBacks s (claimed h)
  unfolding read_current counts_of
  store-Backs h none e c = absurd (zero-refused c)
  store-Backs h (some read) e c = read_backs (read h) refl c
    where
      read_backs :
          (r : Result LedgerError (Generation Coverage))
          → read h ≡ r
          → converged (counts_of s (if_current s r)) ≡ true
          → ClaimBacks s (claimed h)
      read_backs (err x) p c = absurd (zero-refused c)
      read_backs (ok g) p c =
          let (current, k) = current-Backs g c in
          (
            read,
            g,
            e,
            p,
            current,
            covered-Backs s g.rest ((converged-IsCovered (settled_counts s g.rest)).0 k),
          )

  claim-Backs : (k : Claim) → Allows (convergence_for s k) → ClaimBacks s k
  unfolding convergence_for generation_if_current
  claim-Backs (malformed h e) c = zero-refused c
  claim-Backs unclaimed c = unclaimed-Backs (has_value s.review.coverage_manifest_id) c
    where
      unclaimed-Backs : (b : Bool) → Allows (if b then some zero_convergence else none) → b ≡ false
      unclaimed-Backs true c = absurd (zero-refused c)
      unclaimed-Backs false c = refl
  claim-Backs (claimed h) c = store-Backs h (resolve_store_for s.coverage h) refl c

  convergence-Backs : Allows (resolve_convergence s) → ClaimBacks s (coverage_handle s.review)
  unfolding resolve_convergence
  convergence-Backs c = claim-Backs (coverage_handle s.review) c

label_with-Allows :
    (m : ResolveMarker) (other : ℕ) (o : Option Convergence)
    → label_with m other o ≡ pass_converged
    → Allows o
unfolding label_with
label_with-Allows m other none h = tt
label_with-Allows m other (some c) h =
    ((converged-IsCovered c).1 (((resolve_pass_label_with_coverage-converged_iff m other c).0 h).3))

-- A resolve pass leaves the converged label only where it pushed nothing, need not be driven again
-- and no other pass escalated, and where the review claims no coverage and no old manifest, or names
-- a generation that reads, is current at the head under its producer, and has a path, a scope and as
-- many records of files as paths, with no record outstanding and none of a file that has no verdict
-- or could not be reviewed, and where its repairs are confirmed.
pub settled_next-IsBacked :
    (s : Settling) (m : ResolveMarker)
    → settled_next s m ≡ pass_converged
    → (m.commit_sha ≡ "")
      × (resolve_redrivable m ≡ false)
      × (other_escalated s ≡ 0)
      × ClaimBacks s (coverage_handle s.review)
unfolding settled_next
settled_next-IsBacked s m h =
    let p : (resolve_pass_label m (other_escalated s) ≡ pass_converged)
        × (label_with m (other_escalated s) (resolve_convergence s) ≡ pass_converged) =
      ground (arith, eq_iff (resolve_pass_label m (other_escalated s)) pass_converged) in
    let (a, b, c) = (resolve_pass_label-converged_iff m (other_escalated s)).0 p.0 in
    (
      a,
      b,
      c,
      convergence-Backs s (label_with-Allows m (other_escalated s) (resolve_convergence s) p.1),
    )

label_of_empty-Allows : (o : Option Convergence) → label_of_empty o ≡ pass_converged → Allows o
unfolding label_of_empty
label_of_empty-Allows none h = tt
label_of_empty-Allows (some c) h = ground (arith, eq_iff pass_halted pass_converged)

-- A resolve pass with nothing to resolve leaves the converged label only where it did not halt, and
-- the coverage stands behind it in the same way.
pub finish_empty-IsBacked :
    (s : Settling) (halted : Bool)
    → finish_empty s halted ≡ pass_converged
    → (halted ≡ false) × ClaimBacks s (coverage_handle s.review)
unfolding finish_empty
finish_empty-IsBacked s true h = absurd (ground (arith, eq_iff pass_halted pass_converged))
finish_empty-IsBacked s false h =
    (refl, convergence-Backs s (label_of_empty-Allows (resolve_convergence s) h))
