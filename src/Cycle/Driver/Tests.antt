-- ===== src/Cycle/Driver/Tests.antt =====
-- A cycle of one pass that converges, and one whose pass is at the cap.
use crossrev.Prelude.{
  ℕ, ◌+◌, false, none, some, List, [], ◌∷◌, ok, ◌≡◌, refl, ◌==◌, nat_Eq, if◌then◌else◌, count_if,
}
use crossrev.State.Opt.{set}
use crossrev.State.Marker.{Marker, zero_marker}
use crossrev.Cycle.Readings.{State, read_review, read_resolve, actionable_count, as_policy_resolve}
use crossrev.Core.Pass.{declined}
use crossrev.Policy.Severity.{should_fix, severity_rank}
use crossrev.Policy.Redrive.{
  count_resolution, resolve_unpushed_fix, resolve_unrecorded, unfiled_deferrals,
}
use crossrev.Policy.Labels.{resolve_pass_label}
use crossrev.State.Passes.{current_pass_complete, current_review_pass, marker_for, marker_converges}
use crossrev.Cycle.Requests.{Trace, Request, Driver, trigger_human}
use crossrev.Cycle.Driver.{run}
use crossrev.Cycle.Driver.Guards.{Guarded}
use crossrev.Cycle.Driver.Safety.{run-Guarded}
use crossrev.Cycle.Driver.Counts.{AtMost, allowed_legs, run-AtMost, is_review, is_resolve}

abbrev request : Request
request = record {
  pr = 42;
  repo = record { owner = "o"; name = "n" };
  trigger = trigger_human;
  harness_override = "";
  model_override = "";
  effort_override = "";
  input_policy_override = "";
  keep_transcripts = false;
  no_tips = false;
}

abbrev reviewed_marker : Marker
reviewed_marker = record zero_marker {
  version = 2;
  leg = "review";
  pass = 1;
  state = "complete";
  verdict = set "issues-remain";
  findings = some (record { severity = "high"; pre_existing = false } ∷ []);
  coverage_gen = set 1;
}

abbrev resolved_marker : Marker
resolved_marker = record zero_marker {
  version = 2;
  leg = "resolve";
  pass = 1;
  state = "complete";
  resolutions =
      some
        (record { resolution = "skipped"; tracked = record { present = false; value = "" } } ∷ []);
  outcomes = some ("skipped" ∷ []);
}

abbrev state_with : List Marker → State
state_with markers = record {
  repo = record { owner = "o"; name = "n" };
  pr = 42;
  markers = markers;
  labels = [];
  max_passes_per_cycle = 1;
  min_fix_severity = "medium";
  draft = false;
}

-- The world counts the legs that have run.
abbrev markers_after : ℕ → List Marker
markers_after legs =
    if legs == 0
    then []
    else if legs == 1
    then reviewed_marker ∷ []
    else reviewed_marker ∷ resolved_marker ∷ []

abbrev one_pass : Driver ℕ
one_pass = record {
  review = λ leg legs. (false, legs + 1);
  resolve = λ leg legs. (false, legs + 1);
  load = λ req legs. (ok (state_with (markers_after legs)), legs);
  pairing = none;
}

-- How many legs of each kind, and the exit code.
abbrev outcome : Trace → ℕ × ℕ × ℕ
outcome (events, stopped) =
    (count_if is_review events, count_if is_resolve events, stopped.exit_code)

-- A pass that settles everything takes one leg of each kind.
one_pass_runs_both : outcome (run one_pass request 0) ≡ (1, 1, 0)
unfolding run current_review_pass read_review marker_for declined actionable_count should_fix
    severity_rank read_resolve resolve_pass_label as_policy_resolve count_resolution
    resolve_unpushed_fix resolve_unrecorded unfiled_deferrals marker_converges
one_pass_runs_both = refl

-- The pass is at the cap, and only its resolve leg is owed.
bound_runs_resolve : outcome (run one_pass request 1) ≡ (0, 1, 0)
unfolding run current_pass_complete current_review_pass read_review marker_for declined
    actionable_count should_fix severity_rank read_resolve resolve_pass_label as_policy_resolve
    count_resolution resolve_unpushed_fix resolve_unrecorded unfiled_deferrals marker_converges
bound_runs_resolve = refl

run-Guarded_example : Guarded 1 none (run one_pass request 0).0
run-Guarded_example = run-Guarded one_pass request 0 0 (state_with []) refl

run-AtMost_example :
    AtMost
      (allowed_legs (state_with (reviewed_marker ∷ [])))
      (allowed_legs (state_with (reviewed_marker ∷ [])))
      (run one_pass request 1)
run-AtMost_example = run-AtMost one_pass request 1 1 (state_with (reviewed_marker ∷ [])) refl
