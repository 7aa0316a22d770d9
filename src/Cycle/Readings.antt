-- ===== src/Cycle/Readings.antt =====
-- internal/cycle/count.go and bound.go: what a finished leg left on the pull request. A reading that
-- ends the cycle has the line that is printed.
pub mod Decisions
mod Tests
use crossrev.Prelude.{
  ℕ, ◌+◌, String, Bool, true, false, not, ◌&&◌, ◌||◌, Option, none, some, List, [], ◌∷◌, ◌==◌, ◌!=◌,
  nat_Eq, text_Eq, ltb, leb, count_if, any, if◌then◌else◌,
}
use crossrev.Prelude.Text.{itoa, ◌++◌}
use crossrev.Core.Revision.{Slug, slug_text}
use crossrev.Core.Pass.{leg_review, leg_resolve, pass_complete}
use crossrev.Core.Status.{verdict_blocked, verdict_converged}
use crossrev.Core.Resolution.{resolution_escalated}
use crossrev.Policy.Severity.{should_fix}
use crossrev.Policy.Labels.{label_stop, pass_converged, pass_halted, resolve_pass_label}
use crossrev.Policy.Redrive.{ResolveMarker}
use crossrev.State.Opt.{value}
use crossrev.State.Marker.{FindingNode, Marker}
use crossrev.State.Passes.{marker_for, or_zero, marker_converges}

-- internal/cycle/cycle.go.
pub record State : Type 0 where
  pub repo : Slug
  pub pr : ℕ
  pub markers : List Marker
  pub labels : List String
  pub max_passes_per_cycle : ℕ
  pub min_fix_severity : String
  pub draft : Bool

abbrev actionable_nodes : Option (List FindingNode) → String → ℕ
actionable_nodes none min_fix = 0
actionable_nodes (some nodes) min_fix =
    count_if (λ f. should_fix f.severity min_fix f.pre_existing) nodes

unfoldable pub actionable_count : Option (List FindingNode) → String → ℕ
actionable_count findings min_fix = actionable_nodes findings min_fix

abbrev escalations : Option (List String) → ℕ
escalations none = 0
escalations (some words) = count_if (λ r. r == resolution_escalated) words

pub escalated_count : List Marker → ℕ
escalated_count [] = 0
escalated_count (m ∷ ms) =
    let rest = escalated_count ms in
    if m.leg != leg_resolve then rest else escalations m.outcomes + rest

unfoldable pub has_stop : List String → Bool
has_stop labels = any (λ label. label == label_stop) labels

unfoldable pub as_policy_resolve : Marker → ResolveMarker
as_policy_resolve m = record {
  blocked = value false m.blocked;
  commit_sha = value "" m.commit_sha;
  resolutions = elim m.resolutions [ none ↦ [] | some records ↦ records ];
}

pub data ReviewReading : Type 0 where
  review_continues : ReviewReading
  review_halted review_finished : String → ReviewReading

abbrev converged_line : State → ℕ → String
converged_line state pass =
    "Converged after pass "
    ++ itoa pass
    ++ " — nothing at or above min_fix_severity ("
    ++ state.min_fix_severity
    ++ ") remains."

abbrev pub verdict_of : Marker → String
verdict_of m = if value "" m.verdict == "" then verdict_blocked else value "" m.verdict

-- The decision on a review marker, and the line for its end.
pub decide_review : State → ℕ → Marker → ReviewReading
decide_review state pass marker =
    let verdict = verdict_of marker in
    let actionable = actionable_count marker.findings state.min_fix_severity in
    if verdict == verdict_blocked
    then review_halted ("Halted after pass " ++ itoa pass ++ " — the reviewer could not complete.")
    else if verdict != verdict_converged && actionable != 0
    then review_continues
    else if verdict == verdict_converged && not (marker_converges marker)
    then review_continues
    else review_finished (
        if verdict != verdict_converged && ltb 0 (escalated_count state.markers)
        then "Halted after pass "
          ++ itoa pass
          ++ " — the pass raised nothing new, and the escalated findings still need a human decision."
        else converged_line state pass)

unfoldable pub read_review : State → ℕ → ReviewReading
unfolding decide_review escalated_count
read_review state pass =
    decide_review state pass (or_zero (marker_for state.markers pass leg_review))

pub data ResolveReading : Type 0 where
  resolve_continues : ResolveReading
  resolve_halted resolve_converged : String → ResolveReading

-- The label that the resolve leg has applied, or the empty text.
unfoldable pub resolve_label : List Marker → Option Marker → String
unfolding escalated_count
resolve_label markers none = ""
resolve_label markers (some m) =
    if m.state == pass_complete
    then resolve_pass_label (as_policy_resolve m) (escalated_count markers)
    else ""

-- Whether the review of the pass may stand under a report of convergence.
unfoldable pub review_supports : Option Marker → Bool
review_supports none = false
review_supports (some review) =
    not (not (marker_converges review) || value "" review.verdict == verdict_blocked)

unfoldable pub read_resolve : State → ℕ → ResolveReading
unfolding has_stop resolve_label review_supports
read_resolve state pass =
    let found = marker_for state.markers pass leg_resolve in
    let label = resolve_label state.markers found in
    if value false (or_zero found).blocked
    then resolve_halted ("Halted after pass " ++ itoa pass ++ " — the resolver reported blocked.")
    else if has_stop state.labels
    then resolve_halted (
        "Halted after pass "
        ++ itoa pass
        ++ " — a point needs a human decision, so crossrev/stop is applied.")
    else if label == pass_converged
    then (if not (review_supports (marker_for state.markers pass leg_review))
        then resolve_continues
        else resolve_converged (converged_line state pass))
    else if label == pass_halted
    then resolve_halted (
        "Halted after pass "
        ++ itoa pass
        ++ " — the resolve leg left something a person has to settle. `crossrev status --pr "
        ++ itoa state.pr
        ++ "` says what.")
    else resolve_continues
