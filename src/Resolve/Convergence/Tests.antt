-- ===== src/Resolve/Convergence/Tests.antt =====
-- A resolve pass that settles on a review whose coverage stands in its marker (internal/resolve).
use crossrev.Prelude.{
  false, none, some, [], ◌∷◌, ◌≡◌, refl, ok, length, Bool, true, ap, sym, ◌∙◌, ◌==◌, text_Eq,
  if◌then◌else◌,
}
use crossrev.Prelude.Bytes.{codes}
use crossrev.Core.Pass.{leg_review, pass_complete}
use crossrev.Core.Coverage.{file_verdict_no_issue}
use crossrev.Core.Resolution.{resolution_disputed}
use crossrev.Core.Status.{verdict_converged}
use crossrev.Core.Revision.{Revision}
use crossrev.Policy.Labels.{pass_converged}
use crossrev.Policy.Redrive.{ResolveMarker, resolve_redrivable}
use crossrev.State.Opt.{set}
use crossrev.State.Marker.{Marker, zero_marker, handle_marker, coverage_handle}
use crossrev.State.Ledger.{Producer, Generation}
use crossrev.Cycle.Status.{
  Coverage, Read, StatusInput, coverage_record_unit, file_engine_version, store_for,
}
use crossrev.Resolve.Convergence.{
  Settling, resolve_convergence, other_escalated, settled_next, finish_empty,
}
use crossrev.Resolve.Convergence.Agreement.{
  settling_of, PathPerRecord, Agrees, resolve_convergence-Agrees,
}
use crossrev.Resolve.Convergence.Settled.{ClaimBacks, settled_next-IsBacked}

abbrev base : Revision
base = record { sha = "b"; ref = "" }

abbrev head : Revision
head = record { sha = "h"; ref = "" }

abbrev review : Marker
review = record zero_marker {
  version = 2;
  leg = leg_review;
  pass = 1;
  state = pass_complete;
  head_sha = set "h";
  verdict = set verdict_converged;
  coverage_gen = set 1;
  coverage_ref = set handle_marker;
  coverage_payload = codes "{}";
}

abbrev producer : Producer
producer = record { harness = "claude"; model = "m"; effort = ""; endpoint = "" }

abbrev covered_file : Generation Coverage
covered_file = record {
  gen = 1;
  revision = record { base = base; head = head };
  engine = file_engine_version;
  slot = "reviewer1";
  producer = producer;
  form = "full";
  rest = record {
    paths = "a.go" ∷ [];
    records = record { kind = coverage_record_unit; verdict = set file_verdict_no_issue } ∷ [];
    examined_scope = "all of it";
  };
}

-- A marker store that reads this generation for every handle, and no store on refs.
abbrev input : StatusInput
input = record {
  labels = [];
  markers = review ∷ [];
  coverage = record { refs = none; marker = λ h. ok covered_file; producer = producer };
  base = base;
  head = head;
  head_sha = "h";
  min_fix = "high";
  resolutions = λ m. [];
  findings = λ m. [];
}

abbrev settling : Settling
settling = settling_of input review 1

-- A pass that answered its only finding without a commit.
abbrev disputed_one : ResolveMarker
disputed_one = record {
  blocked = false;
  commit_sha = "";
  resolutions =
      record { resolution = resolution_disputed; tracked = record { present = false; value = "" } }
      ∷ [];
}

abbrev reader : Read
reader h = ok covered_file

chosen : (b : Bool) (read : Read) → (if b then some reader else none) ≡ some read → reader ≡ read
chosen true read h = cc
chosen false read h = cc

reader-paths : PathPerRecord input
unfolding store_for
reader-paths h read g e k =
    let p : ok covered_file ≡ ok g =
      ap (λ f. f h) (chosen (h.location == handle_marker) read e) ∙ k in
    let q : covered_file ≡ g = cc in
    ap (λ c. length c.rest.paths) (sym q) ∙ ap (λ c. length c.rest.records) q

resolve_convergence-Agrees_example : Agrees input review 1 (resolve_convergence settling)
resolve_convergence-Agrees_example = resolve_convergence-Agrees input review 1 reader-paths

label_converges : settled_next settling disputed_one ≡ pass_converged
unfolding settled_next crossrev.Policy.Labels.resolve_pass_label
    crossrev.Policy.Redrive.count_resolution other_escalated
    crossrev.Policy.Redrive.resolve_unpushed_fix crossrev.Policy.Redrive.resolve_unrecorded
    crossrev.Policy.Redrive.unfiled_deferrals resolve_convergence coverage_handle
    crossrev.Policy.Labels.resolve_pass_label_with_coverage crossrev.Policy.Convergence.converged
    crossrev.State.Ledger.generation_current crossrev.Core.Revision.pair_incomplete
    crossrev.Core.Revision.pair_equal crossrev.State.Ledger.producer_for crossrev.Cycle.Status.tally
label_converges = refl

settled_next-IsBacked_example :
    (disputed_one.commit_sha ≡ "")
    × (resolve_redrivable disputed_one ≡ false)
    × (other_escalated settling ≡ 0)
    × ClaimBacks settling (coverage_handle settling.review)
settled_next-IsBacked_example = settled_next-IsBacked settling disputed_one label_converges

empty_converges : finish_empty settling false ≡ pass_converged
unfolding finish_empty resolve_convergence coverage_handle crossrev.Policy.Convergence.converged
    crossrev.State.Ledger.generation_current crossrev.Core.Revision.pair_incomplete
    crossrev.Core.Revision.pair_equal crossrev.State.Ledger.producer_for crossrev.Cycle.Status.tally
empty_converges = refl
