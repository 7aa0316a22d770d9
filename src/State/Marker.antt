-- ===== src/State/Marker.antt =====
-- internal/prstate/pass.go and store.go: a marker, and the coverage handle that it names.
pub mod Handles
mod Tests
use crossrev.Prelude.{
  ℕ, String, Bool, true, false, not, ◌&&◌, Option, none, some, List, [], ◌∷◌, ◌==◌, ◌!=◌, nat_Eq,
  text_Eq, length, if◌then◌else◌,
}
use crossrev.Prelude.Bytes.{Bytes}
use crossrev.Prelude.Text.{◌++◌}
use crossrev.Policy.Redrive.{ResolutionRecord}
use crossrev.State.Opt.{Opt, absent, null, set, value, present, has_value}

-- internal/prstate/coverage.go.
pub record CoverageStop : Type 0 where
  pub required_count : ℕ
  pub covered_count : ℕ
  pub outstanding_count : ℕ
  pub measured_bytes : ℕ
  pub shard_count : ℕ
  pub limit : String

-- What the count of actionable findings reads of one.
pub record FindingNode : Type 0 where
  pub severity : String
  pub pre_existing : Bool

-- The fields that are read below. `findings` and `resolutions` are JSON in the source: here they are
-- what decoding gives, `none` where it fails. `outcomes` is what decoding `resolutions` gives to a
-- reader that asks for the words only.
pub record Marker : Type 0 where
  pub version : ℕ
  pub leg : String
  pub pass : ℕ
  pub state : String
  pub head_sha : Opt String
  pub verdict : Opt String
  pub blocked : Opt Bool
  pub commit_sha : Opt String
  pub findings : Option (List FindingNode)
  pub resolutions : Option (List ResolutionRecord)
  pub outcomes : Option (List String)
  pub coverage_manifest_id : Opt ℕ
  pub coverage_stop : Opt CoverageStop
  pub confirmation_base_sha : Opt String
  pub confirmation_head_sha : Opt String
  pub coverage_payload : Bytes
  pub coverage_prev_payload : Bytes
  pub coverage_gen : Opt ℕ
  pub coverage_ref : Opt String
  pub coverage_commit : Opt String
  pub coverage_degraded : Opt Bool
  pub harness : Opt String
  pub model : Opt String
  pub model_reported : Opt String
  pub effort : Opt String
  pub endpoint : Opt String

-- `Marker{}`. No payload decodes to no record.
abbrev pub zero_marker : Marker
zero_marker = record {
  version = 0;
  leg = "";
  pass = 0;
  state = "";
  head_sha = absent;
  verdict = absent;
  blocked = absent;
  commit_sha = absent;
  findings = some [];
  resolutions = some [];
  outcomes = some [];
  coverage_manifest_id = absent;
  coverage_stop = absent;
  confirmation_base_sha = absent;
  confirmation_head_sha = absent;
  coverage_payload = [];
  coverage_prev_payload = [];
  coverage_gen = absent;
  coverage_ref = absent;
  coverage_commit = absent;
  coverage_degraded = absent;
  harness = absent;
  model = absent;
  model_reported = absent;
  effort = absent;
  endpoint = absent;
}

abbrev pub marker_version : ℕ
marker_version = 2

unfoldable pub coverage_present : Marker → Bool
coverage_present m = if has_value m.coverage_gen then true else has_value m.coverage_manifest_id

unfoldable pub coverage_contribution : Marker → Bool
unfolding coverage_present
coverage_contribution m = if m.version != marker_version then false else coverage_present m

pub record Handle : Type 0 where
  pub gen : ℕ
  pub commit : String
  pub location : String
  pub degraded : Bool
  pub payload : Opt Bytes

abbrev pub handle_marker : String
handle_marker = "marker"

-- `Valid`: the error, or none.
unfoldable pub handle_error : Handle → Option String
handle_error h =
    if h.location == ""
    then some "handle location must be non-empty"
    else if h.location == handle_marker
    then (if h.commit != ""
        then some "marker handle must not carry a commit SHA"
        else if not (present h.payload)
        then some "marker handle must carry an inline payload"
        else none)
    else if h.commit == ""
    then some "ref handle must carry a commit SHA"
    else if present h.payload
    then some "ref handle must not carry an inline payload"
    else none

abbrev payload_of : Bytes → Opt Bytes
payload_of [] = absent
payload_of (c ∷ bytes) = set (c ∷ bytes)

abbrev pub named_handle : Marker → Handle
named_handle m = record {
  gen = value 0 m.coverage_gen;
  commit = value "" m.coverage_commit;
  location = value "" m.coverage_ref;
  degraded = value false m.coverage_degraded;
  payload = payload_of m.coverage_payload;
}

-- What a marker says of its coverage: nothing, a handle, or a claim that forms none.
pub data Claim : Type 0 where
  unclaimed : Claim
  claimed : Handle → Claim
  malformed : Handle → String → Claim

abbrev judge : Handle → Option String → Claim
judge h none = claimed h
judge h (some e) = malformed h ("the coverage claim on this marker does not form a handle: " ++ e)

unfoldable pub coverage_handle : Marker → Claim
unfolding handle_error
coverage_handle m =
    if not (present m.coverage_gen)
      && not (present m.coverage_ref)
      && not (present m.coverage_commit)
      && not (present m.coverage_degraded)
      && length m.coverage_payload == 0
    then unclaimed
    else judge (named_handle m) (handle_error (named_handle m))

-- The payloads after a handle is recorded: the new one, and the one that it follows.
abbrev rotate : Bytes → Opt Bytes → Bytes × Bytes
rotate old (set (c ∷ bytes)) = (c ∷ bytes, old)
rotate old (set []) = ([], [])
rotate old absent = ([], [])
rotate old null = ([], [])

unfoldable pub record_coverage : Handle → Marker → Marker
record_coverage h m = record m {
  coverage_gen = set h.gen;
  coverage_ref = set h.location;
  coverage_commit = if h.commit != "" then set h.commit else absent;
  coverage_degraded = set h.degraded;
  coverage_payload = (rotate m.coverage_payload h.payload).0;
  coverage_prev_payload = (rotate m.coverage_payload h.payload).1;
}
