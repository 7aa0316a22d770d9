-- ===== src/Resolve/Convergence.antt =====
-- internal/resolve/convergence.go, and what mutate.go makes of it: the label that a resolve pass
-- leaves when it settles. The stores of coverage are parameters, as in the report of a status.
pub mod Settled
pub mod Agreement
mod Tests
use crossrev.Prelude.{
  ℕ, ◌+◌, String, Bool, true, false, not, ◌||◌, Option, none, some, List, [], ◌∷◌, length, count_if,
  ◌==◌, ◌!=◌, nat_Eq, text_Eq, Result, ok, err, if◌then◌else◌,
}
use crossrev.Core.Pass.{leg_resolve}
use crossrev.Core.Resolution.{resolution_escalated}
use crossrev.Core.Revision.{Revision}
use crossrev.Policy.Convergence.{Convergence, converged}
use crossrev.Policy.Labels.{
  pass_converged, pass_halted, resolve_pass_label, resolve_pass_label_with_coverage,
}
use crossrev.Policy.Redrive.{ResolutionRecord, ResolveMarker}
use crossrev.State.Opt.{get, has_value}
use crossrev.State.Marker.{
  Marker, Handle, handle_marker, Claim, unclaimed, claimed, malformed, coverage_handle,
}
use crossrev.State.Ledger.{Generation, LedgerError, generation_current, producer_for}
use crossrev.Cycle.Status.{Coverage, Read, CoverageSource, file_engine_version, tally}

-- What the settling reads of a session: the review marker, the stores with the producer of the
-- configuration, the pull request's two revisions, its markers with what decoding leaves of their
-- resolutions, and the number of the pass.
pub record Settling : Type 0 where
  pub review : Marker
  pub coverage : CoverageSource
  pub base : Revision
  pub head : Revision
  pub markers : List Marker
  pub resolutions : Marker → List ResolutionRecord
  pub pass : ℕ

abbrev pub zero_convergence : Convergence
zero_convergence = record {
  unresolved_fixable = 0;
  ledger_current = false;
  required = 0;
  covered = 0;
  outstanding = 0;
  could_not_review = 0;
  scope_reported = false;
  confirmation_required = false;
  confirmation_complete = false;
}

-- Whether a confirmation is required, and whether it is complete.
unfoldable pub resolve_confirmation : Marker → String → Bool × Bool
resolve_confirmation m head_sha = elim (get m.confirmation_base_sha) [
  | none ↦ (false, false)
  | some base ↦ if base == "" then (false, false) else elim (get m.confirmation_head_sha) [
    | none ↦ (true, false)
    | some confirmed ↦
        if confirmed == ""
        then (true, false)
        else if confirmed != head_sha
        then (true, false)
        else (true, true)
  ]
]

unfoldable pub resolve_store_for : CoverageSource → Handle → Option Read
resolve_store_for s h = if h.location == handle_marker then some s.marker else s.refs

pub if_current : Settling → Result LedgerError (Generation Coverage) → Option (Generation Coverage)
if_current s (err e) = none
if_current s (ok g) =
    if not (
      generation_current g (record { base = s.base; head = s.head }) file_engine_version
        (producer_for s.review s.coverage.producer))
    then none
    else some g

pub read_current : Settling → Handle → Option Read → Option (Generation Coverage)
unfolding if_current
read_current s h none = none
read_current s h (some read) = if_current s (read h)

unfoldable pub generation_if_current : Settling → Handle → Option (Generation Coverage)
unfolding read_current resolve_store_for
generation_if_current s h = read_current s h (resolve_store_for s.coverage h)

-- The counts of a generation that may be used.
pub settled_counts : Settling → Coverage → Convergence
unfolding resolve_confirmation
settled_counts s coverage =
    record (tally (record zero_convergence { ledger_current = true }) coverage.records) {
      required = length coverage.paths;
      scope_reported = coverage.examined_scope != "";
      confirmation_required = (resolve_confirmation s.review s.head.sha).0;
      confirmation_complete = (resolve_confirmation s.review s.head.sha).1;
    }

pub counts_of : Settling → Option (Generation Coverage) → Convergence
unfolding settled_counts
counts_of s none = zero_convergence
counts_of s (some g) = settled_counts s g.rest

pub convergence_for : Settling → Claim → Option Convergence
unfolding counts_of generation_if_current
convergence_for s (malformed h e) = some zero_convergence
convergence_for s unclaimed =
    if has_value s.review.coverage_manifest_id then some zero_convergence else none
convergence_for s (claimed h) = some (counts_of s (generation_if_current s h))

-- `resolveConvergence`, with `none` where its second result is false.
unfoldable pub resolve_convergence : Settling → Option Convergence
unfolding convergence_for
resolve_convergence s = convergence_for s (coverage_handle s.review)

pub escalated_in : Settling → List Marker → ℕ
escalated_in s [] = 0
escalated_in s (m ∷ ms) =
    let rest = escalated_in s ms in
    if m.leg != leg_resolve || m.pass == s.pass
    then rest
    else count_if (λ r. r.resolution == resolution_escalated) (s.resolutions m) + rest

-- `otherEscalated`.
unfoldable pub other_escalated : Settling → ℕ
unfolding escalated_in
other_escalated s = escalated_in s s.markers

pub label_with : ResolveMarker → ℕ → Option Convergence → String
label_with m other none = resolve_pass_label m other
label_with m other (some c) = resolve_pass_label_with_coverage m other c

-- The label after a pass that went through, from its marker.
unfoldable pub settled_next : Settling → ResolveMarker → String
unfolding label_with
settled_next s m =
    if resolve_pass_label m (other_escalated s) == pass_converged
    then label_with m (other_escalated s) (resolve_convergence s)
    else resolve_pass_label m (other_escalated s)

pub label_of_empty : Option Convergence → String
label_of_empty none = pass_converged
label_of_empty (some c) = if not (converged c) then pass_halted else pass_converged

-- The label after a pass that had nothing to resolve, from whether it halted.
unfoldable pub finish_empty : Settling → Bool → String
unfolding label_of_empty
finish_empty s halted = if halted then pass_halted else label_of_empty (resolve_convergence s)
