-- ===== src/Core/Status.antt =====
-- internal/core/status.go: its words, the lists of them and their parsers.
use crossrev.Prelude.{String, List, [], ◌∷◌, ◌==◌, text_Eq, ok, if◌then◌else◌}
use crossrev.Core.Words.{Parsed, refuse}

abbrev pub verdict_converged : String
verdict_converged = "converged"

abbrev pub verdict_issues_remain : String
verdict_issues_remain = "issues-remain"

abbrev pub verdict_blocked : String
verdict_blocked = "blocked"

abbrev pub verdict_declined : String
verdict_declined = "declined"

abbrev pub err_verdict : String
err_verdict = "a verdict is not one the findings schema lists"

unfoldable pub verdicts : List String
verdicts = verdict_converged ∷ verdict_issues_remain ∷ verdict_blocked ∷ []

unfoldable pub parse_verdict : String → Parsed
parse_verdict s =
    if s == verdict_converged
    then ok verdict_converged
    else if s == verdict_issues_remain
    then ok verdict_issues_remain
    else if s == verdict_blocked
    then ok verdict_blocked
    else refuse err_verdict s

abbrev pub err_marker_verdict : String
err_marker_verdict = "a marker verdict is not one a marker may carry"

unfoldable pub marker_verdicts : List String
marker_verdicts =
    verdict_converged ∷ verdict_issues_remain ∷ verdict_blocked ∷ verdict_declined ∷ []

unfoldable pub parse_marker_verdict : String → Parsed
parse_marker_verdict s =
    if s == verdict_converged
    then ok verdict_converged
    else if s == verdict_issues_remain
    then ok verdict_issues_remain
    else if s == verdict_blocked
    then ok verdict_blocked
    else if s == verdict_declined
    then ok verdict_declined
    else refuse err_marker_verdict s

abbrev pub loop_stopped : String
loop_stopped = "stopped"

abbrev pub loop_halted : String
loop_halted = "halted"

abbrev pub loop_converged : String
loop_converged = "converged"

abbrev pub loop_awaiting_resolution : String
loop_awaiting_resolution = "awaiting resolution"

abbrev pub loop_awaiting_review : String
loop_awaiting_review = "awaiting review"

abbrev pub err_loop_state : String
err_loop_state = "that is not a loop state CrossRev prints"

unfoldable pub loop_states : List String
loop_states =
    loop_stopped ∷ loop_halted ∷ loop_converged ∷ loop_awaiting_resolution ∷ loop_awaiting_review
    ∷ []

unfoldable pub parse_loop_state : String → Parsed
parse_loop_state s =
    if s == loop_stopped
    then ok loop_stopped
    else if s == loop_halted
    then ok loop_halted
    else if s == loop_converged
    then ok loop_converged
    else if s == loop_awaiting_resolution
    then ok loop_awaiting_resolution
    else if s == loop_awaiting_review
    then ok loop_awaiting_review
    else refuse err_loop_state s
