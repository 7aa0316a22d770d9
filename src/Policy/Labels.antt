-- ===== src/Policy/Labels.antt =====
-- internal/policy/labels.go: the loop's labels, and the one that a finished pass leaves behind.
use crossrev.Prelude.{
  ℕ, String, ◌&&◌, ◌||◌, List, [], ◌∷◌, ◌==◌, ◌!=◌, text_Eq, ltb, not, if◌then◌else◌,
}
use crossrev.Prelude.Text.{itoa, ◌++◌}
use crossrev.Core.Status.{verdict_blocked, verdict_converged}
use crossrev.Core.Resolution.{resolution_escalated}
use crossrev.Core.Pass.{leg_review, leg_resolve}
use crossrev.Policy.Convergence.{Convergence, converged}
use crossrev.Policy.Redrive.{
  ResolveMarker, count_resolution, resolve_unpushed_fix, resolve_unrecorded, unfiled_deferrals,
}

abbrev pub label_awaiting_review : String
label_awaiting_review = "crossrev/awaiting-review"

abbrev pub label_awaiting_resolution : String
label_awaiting_resolution = "crossrev/awaiting-resolution"

abbrev pub label_converged : String
label_converged = "crossrev/converged"

abbrev pub label_halted : String
label_halted = "crossrev/halted"

abbrev pub label_stop : String
label_stop = "crossrev/stop"

abbrev pub label_pass_prefix : String
label_pass_prefix = "crossrev/pass-"

abbrev pub label_watchdog_retried : String
label_watchdog_retried = "crossrev/watchdog-retried"

unfoldable pub fixed_labels : List String
fixed_labels =
    label_awaiting_resolution ∷ label_awaiting_review ∷ label_converged ∷ label_halted ∷ label_stop
    ∷ []

unfoldable pub pass_label_name : ℕ → String
pass_label_name pass = label_pass_prefix ++ itoa pass

-- The four words of `PassLabelState`.
abbrev pub pass_halted : String
pass_halted = "halted"

abbrev pub pass_converged : String
pass_converged = "converged"

abbrev pub pass_awaiting_review : String
pass_awaiting_review = "awaiting-review"

abbrev pub pass_awaiting_resolution : String
pass_awaiting_resolution = "awaiting-resolution"

-- `PassLabelState.Label`.
unfoldable pub state_label : String → String
state_label p =
    if p == pass_awaiting_review
    then label_awaiting_review
    else if p == pass_awaiting_resolution
    then label_awaiting_resolution
    else if p == pass_converged
    then label_converged
    else if p == pass_halted
    then label_halted
    else "crossrev/" ++ p

unfoldable pub awaiting_label : String → String
awaiting_label leg =
    if leg == leg_review
    then label_awaiting_review
    else if leg == leg_resolve
    then label_awaiting_resolution
    else "crossrev/awaiting-" ++ leg

unfoldable pub pass_label : String → ℕ → ℕ → String
pass_label verdict actionable escalated =
    if verdict == verdict_blocked
    then pass_halted
    else if ltb 0 actionable
    then pass_awaiting_resolution
    else if ltb 0 escalated && verdict != verdict_converged
    then pass_halted
    else pass_converged

unfoldable pub pass_label_with_coverage : String → ℕ → ℕ → Convergence → String
pass_label_with_coverage verdict actionable escalated c =
    if pass_label verdict actionable escalated != pass_converged
    then pass_label verdict actionable escalated
    else if not (converged c)
    then (if ltb 0 actionable || ltb 0 c.outstanding || ltb 0 c.could_not_review
        then pass_awaiting_resolution
        else pass_halted)
    else pass_converged

unfoldable pub resolve_pass_label : ResolveMarker → ℕ → String
resolve_pass_label m other_escalated =
    if m.blocked
      || ltb 0 (count_resolution m resolution_escalated)
      || ltb 0 other_escalated
      || resolve_unpushed_fix m
      || resolve_unrecorded m
      || ltb 0 (unfiled_deferrals m)
    then pass_halted
    else if m.commit_sha == ""
    then pass_converged
    else pass_awaiting_review

unfoldable pub resolve_pass_label_with_coverage : ResolveMarker → ℕ → Convergence → String
resolve_pass_label_with_coverage m other_escalated c =
    if resolve_pass_label m other_escalated != pass_converged
    then resolve_pass_label m other_escalated
    else if not (converged c)
    then pass_awaiting_review
    else pass_converged
