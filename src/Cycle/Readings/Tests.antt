-- ===== src/Cycle/Readings/Tests.antt =====
-- A review with a finding, and a resolve leg that settles it.
use crossrev.Prelude.{◌≢◌, true, false, some, [], ◌∷◌, ◌≡◌, refl}
use crossrev.Core.Pass.{leg_review, leg_resolve, pass_complete}
use crossrev.Core.Status.{verdict_blocked}
use crossrev.Policy.Redrive.{
  count_resolution, resolve_unpushed_fix, resolve_unrecorded, unfiled_deferrals,
}
use crossrev.Policy.Labels.{resolve_pass_label}
use crossrev.State.Opt.{set, value}
use crossrev.State.Marker.{Marker, zero_marker}
use crossrev.State.Passes.{marker_for, marker_converges}
use crossrev.Cycle.Readings.{
  State, resolve_converged, read_resolve, escalated_count, has_stop, as_policy_resolve,
  converged_line,
}
use crossrev.Cycle.Readings.Decisions.{read_resolve-converged}

abbrev found_marker : Marker
found_marker = record zero_marker {
  version = 2;
  leg = "review";
  pass = 1;
  state = "complete";
  verdict = set "issues-remain";
  findings = some (record { severity = "high"; pre_existing = false } ∷ []);
  coverage_gen = set 1;
}

abbrev skipped_marker : Marker
skipped_marker = record zero_marker {
  version = 2;
  leg = "resolve";
  pass = 1;
  state = "complete";
  resolutions =
      some
        (record { resolution = "skipped"; tracked = record { present = false; value = "" } } ∷ []);
  outcomes = some ("skipped" ∷ []);
}

abbrev after_both : State
after_both = record {
  repo = record { owner = "o"; name = "n" };
  pr = 42;
  markers = found_marker ∷ skipped_marker ∷ [];
  labels = [];
  max_passes_per_cycle = 3;
  min_fix_severity = "medium";
  draft = false;
}

settled_reading : read_resolve after_both 1 ≡ resolve_converged (converged_line after_both 1)
unfolding read_resolve marker_for as_policy_resolve resolve_pass_label count_resolution
    resolve_unpushed_fix resolve_unrecorded unfiled_deferrals marker_converges
settled_reading = refl

read_resolve-converged_example :
    (m : Marker) × (r : Marker) × (marker_for after_both.markers 1 leg_resolve ≡ some m)
    × (marker_for after_both.markers 1 leg_review ≡ some r)
    × (m.state ≡ pass_complete)
    × (value "" m.commit_sha ≡ "")
    × (value false m.blocked ≡ false)
    × (escalated_count after_both.markers ≡ 0)
    × (has_stop after_both.labels ≡ false)
    × (marker_converges r ≡ true)
    × (value "" r.verdict ≢ verdict_blocked)
read_resolve-converged_example =
    read_resolve-converged after_both 1 (converged_line after_both 1) settled_reading
