-- ===== src/Cycle/Status/Green.antt =====
-- What stands behind a report that the loop converged.
use crossrev.Prelude.{
  arith, ◌≤◌, true, false, Option, none, some, ◌≡◌, ◌≢◌, refl, length, nat_Eq, text_Eq, eq_iff, All,
  Result, ok, err,
}
use crossrev.Core.Pass.{leg_review, leg_resolve}
use crossrev.Core.Status.{
  verdict_converged, verdict_blocked, loop_stopped, loop_halted, loop_converged,
  loop_awaiting_resolution, loop_awaiting_review,
}
use crossrev.Policy.Convergence.{converged}
use crossrev.Policy.Labels.{label_stop, label_halted}
use crossrev.State.Opt.{value, has_value}
use crossrev.State.Marker.{Marker, Handle, Claim, unclaimed, claimed, malformed, coverage_handle}
use crossrev.State.Passes.{
  current_review_pass, marker_for, marker_converges, marker_head_current, confirmation_settled,
}
use crossrev.State.Ledger.{Generation, LedgerError, generation_current, producer_for}
use crossrev.Cycle.Status.Records.{IsCovered, convergence_of-All}
use crossrev.Cycle.Status.{
  Coverage, file_engine_version, Read, StatusInput, status_has_label, convergence_of, store_for,
  judge_generation, judge_store, judge_claim, status_coverage_converges, status_review_converges,
  unresolved_state, state_from_resolve, state_from_review, review_underwrites,
  status_markers_converge, status_state_from_markers, status_state,
}

-- What a claim of coverage must hold for a report of convergence: no claim and no number of an old
-- manifest, or a generation that reads, is current at the head under its producer, and covers each
-- of its records, with a scope.
abbrev pub ClaimBacks : StatusInput → Marker → Claim → Type 0
ClaimBacks input review unclaimed = has_value review.coverage_manifest_id ≡ false
ClaimBacks input review (malformed h e) = ⊥
ClaimBacks input review (claimed h) =
    (read : Read) × (g : Generation Coverage) × (store_for input.coverage h ≡ some read)
    × (read h ≡ ok g)
    × (generation_current g (record { base = input.base; head = input.head }) file_engine_version
          (producer_for review input.coverage.producer)
        ≡ true)
    × (1 ≤ length g.rest.records)
    × All IsCovered g.rest.records
    × (g.rest.examined_scope ≢ "")

judge_generation-parts :
    (input : StatusInput) (review : Marker) (g : Generation Coverage)
    → judge_generation input review (ok g) ≡ true
    → (generation_current g
          (record { base = input.base; head = input.head })
          file_engine_version
          (producer_for review input.coverage.producer)
        ≡ true)
      × (converged (convergence_of g.rest) ≡ true)
unfolding judge_generation
judge_generation-parts input review g h = ground arith

judge_store-Backs :
    (input : StatusInput) (review : Marker) (h : Handle) (o : Option Read)
    → store_for input.coverage h ≡ o
    → judge_store input review h o ≡ true
    → ClaimBacks input review (claimed h)
unfolding judge_store
judge_store-Backs input review h none s j = cc
judge_store-Backs input review h (some read) s j = judged (read h) refl j
  where
    judged :
        (r : Result LedgerError (Generation Coverage))
        → read h ≡ r
        → judge_generation input review r ≡ true
        → ClaimBacks input review (claimed h)
    judged (err e) p j = cc
    judged (ok g) p j =
        let (current, c) = judge_generation-parts input review g j in
        let (a, b, d) = convergence_of-All g.rest c in (read, g, s, p, current, a, b, d)

judge_claim-Backs :
    (input : StatusInput) (review : Marker) (c : Claim)
    → judge_claim input review c ≡ true
    → ClaimBacks input review c
unfolding judge_claim
judge_claim-Backs input review unclaimed j = ground arith
judge_claim-Backs input review (malformed h e) j = cc
judge_claim-Backs input review (claimed h) j =
    judge_store-Backs input review h (store_for input.coverage h) refl j

-- What a review marker must hold for a report of convergence.
abbrev pub Backs : StatusInput → Marker → Type 0
Backs input review =
    (marker_converges review ≡ true)
    × (marker_head_current review input.head_sha ≡ true)
    × (confirmation_settled review input.head_sha ≡ true)
    × ClaimBacks input review (coverage_handle review)

status_review_converges-Backs :
    (input : StatusInput) (review : Marker)
    → status_review_converges input review ≡ true
    → Backs input review
unfolding status_review_converges status_coverage_converges
status_review_converges-Backs input review h =
    let p : (marker_converges review ≡ true)
        × (marker_head_current review input.head_sha ≡ true)
        × (confirmation_settled review input.head_sha ≡ true)
        × (judge_claim input review (coverage_handle review) ≡ true) =
      ground arith in
    (p.0, p.1, p.2, judge_claim-Backs input review (coverage_handle review) p.3)

-- A review marker that backs the report and is not blocked.
abbrev GreenOn : StatusInput → Option Marker → Type 0
GreenOn input none = ⊥
GreenOn input (some review) =
    (status_review_converges input review ≡ true) × (value "" review.verdict ≢ verdict_blocked)

unresolved-not_green :
    (input : StatusInput) (review : Marker) → unresolved_state input review ≢ loop_converged
unfolding unresolved_state
unresolved-not_green input review h =
    ground
      (arith, eq_iff loop_halted loop_converged, eq_iff loop_awaiting_resolution loop_converged)

state_from_resolve-Green :
    (input : StatusInput) (review : Marker) (o : Option Marker)
    → state_from_resolve input review o ≡ loop_converged
    → GreenOn input (some review)
unfolding state_from_resolve
state_from_resolve-Green input review none h = absurd (unresolved-not_green input review h)
state_from_resolve-Green input review (some m) h = ground (
  arith,
  unresolved-not_green input review,
  eq_iff loop_halted loop_converged,
  eq_iff loop_awaiting_review loop_converged,
  eq_iff (value "" review.verdict) verdict_blocked,
)

state_from_review-Green :
    (input : StatusInput) (o resolve : Option Marker)
    → state_from_review input o resolve ≡ loop_converged
    → GreenOn input o
unfolding state_from_review
state_from_review-Green input none resolve h =
    ground (arith, eq_iff loop_awaiting_review loop_converged)
state_from_review-Green input (some review) resolve h = ground (
  arith,
  state_from_resolve-Green input review resolve,
  eq_iff loop_halted loop_converged,
  eq_iff loop_awaiting_review loop_converged,
  eq_iff (value "" review.verdict) verdict_blocked,
  eq_iff (value "" review.verdict) verdict_converged,
  eq_iff verdict_converged verdict_blocked,
)

review_underwrites-Green :
    (input : StatusInput) (o resolve : Option Marker)
    → review_underwrites input o resolve ≡ true
    → GreenOn input o
unfolding review_underwrites
review_underwrites-Green input none resolve h = cc
review_underwrites-Green input (some review) resolve h = ground (
  arith,
  eq_iff (value "" review.verdict) verdict_blocked,
  eq_iff (value "" review.verdict) verdict_converged,
  eq_iff verdict_converged verdict_blocked,
)

state_from_markers-Green :
    (input : StatusInput)
    → status_state_from_markers input ≡ loop_converged
    → (current_review_pass input.markers ≢ 0)
      × GreenOn input (marker_for input.markers (current_review_pass input.markers) leg_review)
unfolding status_state_from_markers
state_from_markers-Green input h =
    let pass = current_review_pass input.markers in
    ground (
      arith,
      state_from_review-Green input (marker_for input.markers pass leg_review)
          (marker_for input.markers pass leg_resolve),
      eq_iff loop_halted loop_converged,
      eq_iff loop_awaiting_review loop_converged,
    )

markers_converge-Green :
    (input : StatusInput)
    → status_markers_converge input ≡ true
    → (current_review_pass input.markers ≢ 0)
      × GreenOn input (marker_for input.markers (current_review_pass input.markers) leg_review)
unfolding status_markers_converge
markers_converge-Green input h =
    let pass = current_review_pass input.markers in
    ground (
      arith,
      review_underwrites-Green input (marker_for input.markers pass leg_review)
          (marker_for input.markers pass leg_resolve),
    )

status_state-GreenOn :
    (input : StatusInput)
    → status_state input ≡ loop_converged
    → (status_has_label input.labels label_stop ≡ false)
      × (status_has_label input.labels label_halted ≡ false)
      × (current_review_pass input.markers ≢ 0)
      × GreenOn input (marker_for input.markers (current_review_pass input.markers) leg_review)
unfolding status_state
status_state-GreenOn input h = ground (
  arith,
  markers_converge-Green input,
  state_from_markers-Green input,
  eq_iff loop_stopped loop_converged,
  eq_iff loop_halted loop_converged,
  eq_iff loop_awaiting_review loop_converged,
  eq_iff loop_awaiting_resolution loop_converged,
)

-- The newest review marker of the current pass, with what it must hold.
abbrev pub IsBacked : StatusInput → Option Marker → Type 0
IsBacked input none = ⊥
IsBacked input (some review) = Backs input review × (value "" review.verdict ≢ verdict_blocked)

GreenOn-IsBacked : (input : StatusInput) (o : Option Marker) → GreenOn input o → IsBacked input o
GreenOn-IsBacked input none h = h
GreenOn-IsBacked input (some review) h = (status_review_converges-Backs input review h.0, h.1)

-- A report says that the loop converged only where neither the stop nor the halted label stands, and
-- the newest review marker of a current pass is complete with no stop, at the head under report, with
-- its repairs confirmed and not blocked, and where it claims coverage, names a generation that reads,
-- is current, and has a verdict on each of its records, none of them that a file could not be reviewed.
pub status_state-IsBacked :
    (input : StatusInput)
    → status_state input ≡ loop_converged
    → (status_has_label input.labels label_stop ≡ false)
      × (status_has_label input.labels label_halted ≡ false)
      × (current_review_pass input.markers ≢ 0)
      × IsBacked input (marker_for input.markers (current_review_pass input.markers) leg_review)
status_state-IsBacked input h =
    let (stop, halted, pass, green) = status_state-GreenOn input h in
    (stop, halted, pass, GreenOn-IsBacked input _ green)
