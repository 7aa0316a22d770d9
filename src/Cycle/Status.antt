-- ===== src/Cycle/Status.antt =====
-- internal/cycle/status.go: the word that a report gives to the state of the loop, from the labels,
-- the markers and the coverage that the markers name. What JSON decoding leaves of the resolutions
-- and of the findings of a marker, with its error or without, is a parameter, and so are the two
-- stores of coverage, which a report only reads.
pub mod Counts
pub mod Green
pub mod Records
mod Tests
use crossrev.Prelude.{
  ℕ, ◌+◌, String, Bool, true, false, not, ◌&&◌, ◌||◌, Option, none, some, List, [], ◌∷◌, length,
  any, count_if, ◌==◌, ◌!=◌, nat_Eq, text_Eq, ltb, Result, ok, err, if◌then◌else◌,
}
use crossrev.Core.Pass.{leg_review, leg_resolve, pass_complete, declined}
use crossrev.Core.Coverage.{file_verdict_could_not_review}
use crossrev.Core.Resolution.{resolution_escalated}
use crossrev.Core.Revision.{Revision, RevisionPair}
use crossrev.Core.Status.{
  verdict_converged, verdict_blocked, loop_stopped, loop_halted, loop_converged,
  loop_awaiting_resolution, loop_awaiting_review,
}
use crossrev.Policy.Convergence.{Convergence, converged}
use crossrev.Policy.Severity.{should_fix}
use crossrev.Policy.Labels.{
  label_stop, label_halted, label_converged, label_awaiting_resolution, label_awaiting_review,
  pass_converged, pass_halted, resolve_pass_label,
}
use crossrev.Policy.Redrive.{ResolutionRecord, ResolveMarker}
use crossrev.State.Opt.{Opt, get, value, has_value}
use crossrev.State.Marker.{
  FindingNode, Marker, Handle, handle_marker, Claim, unclaimed, claimed, malformed, coverage_handle,
}
use crossrev.State.Passes.{
  current_review_pass, marker_for, marker_converges, marker_head_current, confirmation_settled,
}
use crossrev.State.Ledger.{Producer, Generation, LedgerError, generation_current, producer_for}

-- What the report reads of a coverage record (internal/prstate/coverage.go).
pub record CoverageRecord : Type 0 where
  pub kind : String
  pub verdict : Opt String

-- What a report, and a resolve pass that settles, read of the rest of a generation.
pub record Coverage : Type 0 where
  pub paths : List String
  pub records : List CoverageRecord
  pub examined_scope : String

abbrev pub coverage_record_outstanding : String
coverage_record_outstanding = "outstanding"

abbrev pub coverage_record_unit : String
coverage_record_unit = "unit"

abbrev pub file_engine_version : String
file_engine_version = "hunk-v1"

abbrev pub Read : Type 0
Read = Handle → Result LedgerError (Generation Coverage)

-- The stores of a report: that on refs stands only where the client can read refs.
pub record CoverageSource : Type 0 where
  pub refs : Option Read
  pub marker : Read
  pub producer : Producer

pub record StatusInput : Type 0 where
  pub labels : List String
  pub markers : List Marker
  pub coverage : CoverageSource
  pub base : Revision
  pub head : Revision
  pub head_sha : String
  pub min_fix : String
  pub resolutions : Marker → List ResolutionRecord
  pub findings : Marker → List FindingNode

unfoldable pub status_has_label : List String → String → Bool
status_has_label labels want = any (λ label. label == want) labels

-- Which case of the loop over the records takes one.
pub data Tally : Type 0 where
  left covered unread ignored : Tally

pub tally_of : CoverageRecord → Tally
tally_of r =
    if r.kind == coverage_record_outstanding
    then left
    else if r.kind == coverage_record_unit
    then (if not (has_value r.verdict) || value "" r.verdict == ""
        then left
        else if value "" r.verdict == file_verdict_could_not_review
        then unread
        else covered)
    else ignored

pub count : Tally → Convergence → Convergence
count left c = record c { outstanding = c.outstanding + 1 }
count covered c = record c { covered = c.covered + 1 }
count unread c = record c { covered = c.covered + 1; could_not_review = c.could_not_review + 1 }
count ignored c = c

-- The loop over the records of a generation.
unfoldable pub tally : Convergence → List CoverageRecord → Convergence
unfolding count tally_of
tally c [] = c
tally c (r ∷ rs) = tally (count (tally_of r) c) rs

-- The counts before the loop.
abbrev pub untallied : Coverage → Convergence
untallied coverage = record {
  unresolved_fixable = 0;
  ledger_current = true;
  required = length coverage.records;
  covered = 0;
  outstanding = 0;
  could_not_review = 0;
  scope_reported = coverage.examined_scope != "";
  confirmation_required = false;
  confirmation_complete = false;
}

pub convergence_of : Coverage → Convergence
unfolding tally
convergence_of coverage = tally (untallied coverage) coverage.records

-- `storeFor`.
unfoldable pub store_for : CoverageSource → Handle → Option Read
store_for s h = if h.location == handle_marker then some s.marker else s.refs

unfoldable pub judge_generation :
    StatusInput → Marker → Result LedgerError (Generation Coverage) → Bool
unfolding convergence_of
judge_generation input review (err e) = false
judge_generation input review (ok g) =
    if not (
      generation_current g (record { base = input.base; head = input.head }) file_engine_version
        (producer_for review input.coverage.producer))
    then false
    else converged (convergence_of g.rest)

unfoldable pub judge_store : StatusInput → Marker → Handle → Option Read → Bool
unfolding judge_generation
judge_store input review h none = false
judge_store input review h (some read) = judge_generation input review (read h)

unfoldable pub judge_claim : StatusInput → Marker → Claim → Bool
unfolding judge_store store_for
judge_claim input review (malformed h e) = false
judge_claim input review unclaimed = not (has_value review.coverage_manifest_id)
judge_claim input review (claimed h) = judge_store input review h (store_for input.coverage h)

unfoldable pub status_coverage_converges : StatusInput → Marker → Bool
unfolding judge_claim
status_coverage_converges input review = judge_claim input review (coverage_handle review)

unfoldable pub status_review_converges : StatusInput → Marker → Bool
unfolding status_coverage_converges
status_review_converges input review =
    if not (marker_converges review)
    then false
    else if not (marker_head_current review input.head_sha)
    then false
    else if not (confirmation_settled review input.head_sha)
    then false
    else status_coverage_converges input review

unfoldable pub status_escalated : StatusInput → Marker → ℕ
status_escalated input m =
    count_if (λ r. r.resolution == resolution_escalated) (input.resolutions m)

unfoldable pub status_markers_escalated : StatusInput → List Marker → ℕ
unfolding status_escalated
status_markers_escalated input [] = 0
status_markers_escalated input (m ∷ ms) =
    let rest = status_markers_escalated input ms in
    if m.leg != leg_resolve then rest else status_escalated input m + rest

pub status_actionable : StatusInput → Marker → ℕ
status_actionable input m =
    count_if (λ f. should_fix f.severity input.min_fix f.pre_existing) (input.findings m)

unfoldable pub status_resolve_marker : StatusInput → Marker → ResolveMarker
status_resolve_marker input m = record {
  blocked = value false m.blocked;
  commit_sha = value "" m.commit_sha;
  resolutions = input.resolutions m;
}

-- The label that a resolve pass ended with.
unfoldable pub settled_label : StatusInput → Marker → String
unfolding status_resolve_marker status_markers_escalated
settled_label input m =
    resolve_pass_label (status_resolve_marker input m)
      (status_markers_escalated input input.markers)

pub resolve_agrees : StatusInput → Option Marker → Bool
unfolding settled_label
resolve_agrees input none = true
resolve_agrees input (some m) =
    if m.state == pass_complete
    then if settled_label input m != pass_converged
      then false
      else if not (marker_head_current m input.head_sha)
      then false
      else true
    else true

pub review_underwrites : StatusInput → Option Marker → Option Marker → Bool
unfolding resolve_agrees status_review_converges
review_underwrites input none resolve = false
review_underwrites input (some review) resolve =
    if value "" review.verdict != verdict_converged
    then false
    else if not (status_review_converges input review)
    then false
    else resolve_agrees input resolve

unfoldable pub status_markers_converge : StatusInput → Bool
unfolding review_underwrites
status_markers_converge input =
    let pass = current_review_pass input.markers in
    if pass == 0
    then false
    else review_underwrites input (marker_for input.markers pass leg_review)
        (marker_for input.markers pass leg_resolve)

abbrev pub is_declined : Option Marker → Bool
is_declined none = false
is_declined (some m) = declined m.state

-- The state after a complete review pass with no complete resolve pass.
pub unresolved_state : StatusInput → Marker → String
unfolding status_actionable status_markers_escalated
unresolved_state input review =
    if status_actionable input review == 0 && ltb 0 (status_markers_escalated input input.markers)
    then loop_halted
    else loop_awaiting_resolution

-- The state after a complete review pass that neither converged nor was blocked.
pub state_from_resolve : StatusInput → Marker → Option Marker → String
unfolding unresolved_state settled_label status_review_converges
state_from_resolve input review none = unresolved_state input review
state_from_resolve input review (some m) =
    if m.state != pass_complete
    then unresolved_state input review
    else if settled_label input m == pass_halted
    then loop_halted
    else if settled_label input m == pass_converged
    then (if value "" review.verdict == verdict_blocked
        then loop_awaiting_review
        else if status_review_converges input review
        then loop_converged
        else loop_awaiting_review)
    else loop_awaiting_review

pub state_from_review : StatusInput → Option Marker → Option Marker → String
unfolding state_from_resolve status_review_converges
state_from_review input none resolve = loop_awaiting_review
state_from_review input (some review) resolve =
    if review.state != pass_complete
    then loop_awaiting_review
    else if value "" review.verdict == verdict_converged
    then if status_review_converges input review then loop_converged else loop_awaiting_review
    else if value "" review.verdict == verdict_blocked
    then loop_halted
    else state_from_resolve input review resolve

unfoldable pub status_state_from_markers : StatusInput → String
unfolding state_from_review
status_state_from_markers input =
    let pass = current_review_pass input.markers in
    if pass == 0
    then loop_awaiting_review
    else if is_declined (marker_for input.markers (pass + 1) leg_review)
    then loop_halted
    else state_from_review input (marker_for input.markers pass leg_review)
        (marker_for input.markers pass leg_resolve)

unfoldable pub status_state : StatusInput → String
unfolding status_has_label
status_state input =
    if status_has_label input.labels label_stop
    then loop_stopped
    else if status_has_label input.labels label_halted
    then loop_halted
    else if status_has_label input.labels label_converged
    then if status_markers_converge input then loop_converged else status_state_from_markers input
    else if status_has_label input.labels label_awaiting_resolution
    then loop_awaiting_resolution
    else if status_has_label input.labels label_awaiting_review
    then loop_awaiting_review
    else status_state_from_markers input
