-- ===== src/State/Marker/Tests.antt =====
-- A handle of the ref store on a fresh marker.
use crossrev.Prelude.{false, none, ◌≡◌, refl}
use crossrev.State.Opt.{absent}
use crossrev.State.Marker.{
  Handle, zero_marker, claimed, handle_error, coverage_handle, record_coverage,
}
use crossrev.State.Marker.Handles.{coverage_handle-record_coverage}

abbrev ref_handle : Handle
ref_handle = record {
  gen = 3;
  commit = "c0ffee";
  location = "refs/crossrev/coverage/42";
  degraded = false;
  payload = absent;
}

ref_handle_valid : handle_error ref_handle ≡ none
unfolding handle_error
ref_handle_valid = refl

coverage_handle-record_coverage_example :
    coverage_handle (record_coverage ref_handle zero_marker) ≡ claimed ref_handle
coverage_handle-record_coverage_example =
    coverage_handle-record_coverage ref_handle zero_marker ref_handle_valid tt
