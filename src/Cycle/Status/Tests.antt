-- ===== src/Cycle/Status/Tests.antt =====
-- A report on a pull request whose review of the head converged with its coverage in the marker.
use crossrev.Prelude.{false, none, [], ◌∷◌, ◌≡◌, ◌≢◌, refl, ok}
use crossrev.Prelude.Bytes.{codes}
use crossrev.Core.Pass.{leg_review, pass_complete}
use crossrev.Core.Coverage.{file_verdict_no_issue}
use crossrev.Core.Status.{verdict_converged, loop_converged}
use crossrev.Core.Revision.{Revision}
use crossrev.Policy.Labels.{label_stop, label_halted}
use crossrev.State.Opt.{set}
use crossrev.State.Marker.{Marker, zero_marker, handle_marker}
use crossrev.State.Passes.{current_review_pass, marker_for}
use crossrev.State.Ledger.{Producer, Generation}
use crossrev.Cycle.Status.{
  CoverageSource, Coverage, Read, StatusInput, coverage_record_unit, file_engine_version,
  status_has_label, status_state,
}
use crossrev.Cycle.Status.Green.{IsBacked, status_state-IsBacked}

abbrev base : Revision
base = record { sha = "b"; ref = "" }

abbrev head : Revision
head = record { sha = "h"; ref = "" }

abbrev review : Marker
review = record zero_marker {
  version = 2;
  leg = leg_review;
  pass = 1;
  state = pass_complete;
  head_sha = set "h";
  verdict = set verdict_converged;
  coverage_gen = set 1;
  coverage_ref = set handle_marker;
  coverage_payload = codes "{}";
}

abbrev producer : Producer
producer = record { harness = "claude"; model = "m"; effort = ""; endpoint = "" }

abbrev covered_file : Generation Coverage
covered_file = record {
  gen = 1;
  revision = record { base = base; head = head };
  engine = file_engine_version;
  slot = "reviewer1";
  producer = producer;
  form = "full";
  rest = record {
    paths = "a.go" ∷ [];
    records = record { kind = coverage_record_unit; verdict = set file_verdict_no_issue } ∷ [];
    examined_scope = "all of it";
  };
}

abbrev input : StatusInput
input = record {
  labels = [];
  markers = review ∷ [];
  coverage = record { refs = none; marker = λ h. ok covered_file; producer = producer };
  base = base;
  head = head;
  head_sha = "h";
  min_fix = "high";
  resolutions = λ m. [];
  findings = λ m. [];
}

reports_converged : status_state input ≡ loop_converged
unfolding status_state crossrev.Cycle.Status.status_state_from_markers current_review_pass
    crossrev.Core.Pass.declined marker_for crossrev.State.Passes.marker_converges
    crossrev.State.Passes.marker_head_current crossrev.State.Passes.confirmation_settled
    crossrev.State.Marker.coverage_handle crossrev.State.Ledger.generation_current
    crossrev.Core.Revision.pair_incomplete crossrev.Core.Revision.pair_equal
    crossrev.State.Ledger.producer_for crossrev.Policy.Convergence.converged
reports_converged = refl

status_state-IsBacked_example :
    (status_has_label input.labels label_stop ≡ false)
    × (status_has_label input.labels label_halted ≡ false)
    × (current_review_pass input.markers ≢ 0)
    × IsBacked input (marker_for input.markers (current_review_pass input.markers) leg_review)
status_state-IsBacked_example = status_state-IsBacked input reports_converged
