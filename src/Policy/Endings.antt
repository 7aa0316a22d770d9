-- ===== src/Policy/Endings.antt =====
-- How a finished pass is labelled, against the convergence predicate and the re-drive rules.
use crossrev.Prelude.{ℕ, String, true, false, some, ◌≡◌, ◌≢◌, ◌↔◌, ◌⊎◌, ◌<◌, arith, eq_iff}
use crossrev.Core.Status.{verdict_blocked}
use crossrev.Core.Pass.{pass_complete, pass_incomplete}
use crossrev.Policy.Convergence.{Convergence, converged}
use crossrev.Policy.Redrive.{
  ResolveMarker, ReviewMarker, resolve_redrivable, review_redrivable, review_settled,
  review_incomplete, redrive_revision,
}
use crossrev.Policy.Labels.{
  pass_halted, pass_converged, pass_awaiting_review, resolve_pass_label,
  resolve_pass_label_with_coverage,
}

-- What the convergence predicate stands for.
pub record IsCovered (c : Convergence) : Type 0 where
  pub none_fixable : c.unresolved_fixable ≡ 0
  pub current : c.ledger_current ≡ true
  pub some_required : 0 < c.required
  pub all_covered : c.covered ≡ c.required
  pub none_outstanding : c.outstanding ≡ 0
  pub none_unreviewed : c.could_not_review ≡ 0
  pub reported : c.scope_reported ≡ true
  pub confirmed : (c.confirmation_required ≡ false) ⊎ (c.confirmation_complete ≡ true)

pub converged-IsCovered : (c : Convergence) → (converged c ≡ true) ↔ IsCovered c
unfolding converged
converged-IsCovered c = ground arith

halted-ne-converged : pass_halted ≢ pass_converged
halted-ne-converged = ground (arith, eq_iff pass_halted pass_converged)

awaiting_review-ne-converged : pass_awaiting_review ≢ pass_converged
awaiting_review-ne-converged = ground (arith, eq_iff pass_awaiting_review pass_converged)

awaiting_review-ne-halted : pass_awaiting_review ≢ pass_halted
awaiting_review-ne-halted = ground (arith, eq_iff pass_awaiting_review pass_halted)

-- A resolve pass is labelled halted exactly when the pass may be driven again, or an escalation of
-- another pass still stands.
pub resolve_pass_label-halted_iff :
    (m : ResolveMarker) (other : ℕ)
    → (resolve_pass_label m other ≡ pass_halted) ↔ ((resolve_redrivable m ≡ true) ⊎ (0 < other))
unfolding resolve_pass_label resolve_redrivable
resolve_pass_label-halted_iff m other =
    ground (arith, halted-ne-converged, awaiting_review-ne-halted)

pub resolve_pass_label-converged_iff :
    (m : ResolveMarker) (other : ℕ)
    → (resolve_pass_label m other ≡ pass_converged)
      ↔ ((m.commit_sha ≡ "") × (resolve_redrivable m ≡ false) × (other ≡ 0))
unfolding resolve_pass_label resolve_redrivable
resolve_pass_label-converged_iff m other =
    ground (arith, eq_iff m.commit_sha "", halted-ne-converged, awaiting_review-ne-converged)

-- A resolve pass is labelled converged exactly when it pushed nothing, may not be driven again, no
-- other escalation stands, and the coverage is complete.
pub resolve_pass_label_with_coverage-converged_iff :
    (m : ResolveMarker) (other : ℕ) (c : Convergence)
    → (resolve_pass_label_with_coverage m other c ≡ pass_converged)
      ↔ ((m.commit_sha ≡ "") × (resolve_redrivable m ≡ false) × (other ≡ 0) × IsCovered c)
unfolding resolve_pass_label_with_coverage
resolve_pass_label_with_coverage-converged_iff m other c = ground (
  arith,
  eq_iff (resolve_pass_label m other) pass_converged,
  resolve_pass_label-converged_iff m other,
  converged-IsCovered c,
  awaiting_review-ne-converged,
)

-- A recorded review pass may be driven again exactly when it is incomplete, or settled as blocked;
-- it keeps its revision exactly when it is incomplete at the head that its marker names, and advances
-- exactly when it does not keep it.
pub review_redrivable_iff :
    (m : ReviewMarker) (marker_head head : String)
    → let (keep, advance) = redrive_revision (some m) marker_head head in
      ((review_redrivable (some m) ≡ true) ↔ (
        (review_incomplete (some m) ≡ true)
        ⊎ ((review_settled (some m) ≡ true) × (m.verdict ≡ verdict_blocked))))
      × ((keep ≡ true) ↔ ((review_incomplete (some m) ≡ true) × (head ≡ marker_head)))
      × ((advance ≡ true) ↔ (keep ≡ false))
unfolding review_redrivable review_incomplete review_settled redrive_revision
review_redrivable_iff m marker_head head = ground (
  arith,
  eq_iff m.state pass_complete,
  eq_iff m.state pass_incomplete,
  eq_iff m.verdict verdict_blocked,
  eq_iff head marker_head,
)
