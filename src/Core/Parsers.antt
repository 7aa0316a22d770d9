-- ===== src/Core/Parsers.antt =====
-- The parsers of internal/core accept the words that the lists beside them name, and no other.
use crossrev.Prelude.{String, [], ◌∷◌, ◌≡◌, arith, eq_iff}
use crossrev.Core.Words.{closed}
use crossrev.Core.Finding.{
  parse_severity, err_severity, severities, severity_high, severity_medium, severity_low,
  parse_category, err_category, categories, category_correctness, category_security,
  category_performance, category_maintainability, category_testing, category_docs, parse_side,
  err_side, sides, side_left, side_right, parse_prior_status, err_prior_status, prior_statuses,
  prior_addressed, prior_credibly_disputed, prior_still_open, prior_regressed,
}
use crossrev.Core.Resolution.{
  parse_resolution, err_resolution, resolutions, resolution_fixed, resolution_skipped,
  resolution_deferred, resolution_disputed, resolution_escalated,
}
use crossrev.Core.Status.{
  parse_verdict, err_verdict, verdicts, verdict_converged, verdict_issues_remain, verdict_blocked,
  parse_marker_verdict, err_marker_verdict, marker_verdicts, verdict_declined, parse_loop_state,
  err_loop_state, loop_states, loop_stopped, loop_halted, loop_converged, loop_awaiting_resolution,
  loop_awaiting_review,
}
use crossrev.Core.Pass.{
  parse_leg, err_leg, legs, leg_review, leg_resolve, parse_pass_state, err_pass_state, pass_states,
  pass_started, pass_complete, pass_incomplete, pass_declined, parse_halt_reason, err_halt_reason,
  halt_reasons, halt_coverage_incomplete, halt_ledger_exhausted, halt_shared_context_exceeds_window,
  parse_limit_reason, err_limit_reason, limit_reasons, limit_review_budget_reached,
  limit_too_common, limit_over_budget,
}
use crossrev.Core.Coverage.{
  parse_change_kind, err_change_kind, change_added, change_modified, change_deleted, change_renamed,
  change_type_changed, parse_file_verdict, err_file_verdict, file_verdict_no_issue,
  file_verdict_finding, file_verdict_not_affected, file_verdict_could_not_review,
}

parse_severity-closed : (s : String) → parse_severity s ≡ closed err_severity severities s
unfolding parse_severity severities
parse_severity-closed s =
    ground (arith, eq_iff s severity_high, eq_iff s severity_medium, eq_iff s severity_low)

parse_category-closed : (s : String) → parse_category s ≡ closed err_category categories s
unfolding parse_category categories
parse_category-closed s = ground (
  arith,
  eq_iff s category_correctness,
  eq_iff s category_security,
  eq_iff s category_performance,
  eq_iff s category_maintainability,
  eq_iff s category_testing,
  eq_iff s category_docs,
)

parse_side-closed : (s : String) → parse_side s ≡ closed err_side sides s
unfolding parse_side sides
parse_side-closed s = ground (arith, eq_iff s side_left, eq_iff s side_right)

parse_prior_status-closed :
    (s : String) → parse_prior_status s ≡ closed err_prior_status prior_statuses s
unfolding parse_prior_status prior_statuses
parse_prior_status-closed s = ground (
  arith,
  eq_iff s prior_addressed,
  eq_iff s prior_credibly_disputed,
  eq_iff s prior_still_open,
  eq_iff s prior_regressed,
)

parse_resolution-closed : (s : String) → parse_resolution s ≡ closed err_resolution resolutions s
unfolding parse_resolution resolutions
parse_resolution-closed s = ground (
  arith,
  eq_iff s resolution_fixed,
  eq_iff s resolution_skipped,
  eq_iff s resolution_deferred,
  eq_iff s resolution_disputed,
  eq_iff s resolution_escalated,
)

parse_verdict-closed : (s : String) → parse_verdict s ≡ closed err_verdict verdicts s
unfolding parse_verdict verdicts
parse_verdict-closed s =
    ground
      (arith, eq_iff s verdict_converged, eq_iff s verdict_issues_remain, eq_iff s verdict_blocked)

parse_marker_verdict-closed :
    (s : String) → parse_marker_verdict s ≡ closed err_marker_verdict marker_verdicts s
unfolding parse_marker_verdict marker_verdicts
parse_marker_verdict-closed s = ground (
  arith,
  eq_iff s verdict_converged,
  eq_iff s verdict_issues_remain,
  eq_iff s verdict_blocked,
  eq_iff s verdict_declined,
)

parse_loop_state-closed : (s : String) → parse_loop_state s ≡ closed err_loop_state loop_states s
unfolding parse_loop_state loop_states
parse_loop_state-closed s = ground (
  arith,
  eq_iff s loop_stopped,
  eq_iff s loop_halted,
  eq_iff s loop_converged,
  eq_iff s loop_awaiting_resolution,
  eq_iff s loop_awaiting_review,
)

parse_leg-closed : (s : String) → parse_leg s ≡ closed err_leg legs s
unfolding parse_leg legs
parse_leg-closed s = ground (arith, eq_iff s leg_review, eq_iff s leg_resolve)

parse_pass_state-closed : (s : String) → parse_pass_state s ≡ closed err_pass_state pass_states s
unfolding parse_pass_state pass_states
parse_pass_state-closed s = ground (
  arith,
  eq_iff s pass_started,
  eq_iff s pass_complete,
  eq_iff s pass_incomplete,
  eq_iff s pass_declined,
)

parse_halt_reason-closed :
    (s : String) → parse_halt_reason s ≡ closed err_halt_reason halt_reasons s
unfolding parse_halt_reason halt_reasons
parse_halt_reason-closed s = ground (
  arith,
  eq_iff s halt_coverage_incomplete,
  eq_iff s halt_ledger_exhausted,
  eq_iff s halt_shared_context_exceeds_window,
)

parse_limit_reason-closed :
    (s : String) → parse_limit_reason s ≡ closed err_limit_reason limit_reasons s
unfolding parse_limit_reason limit_reasons
parse_limit_reason-closed s = ground (
  arith,
  eq_iff s limit_review_budget_reached,
  eq_iff s limit_too_common,
  eq_iff s limit_over_budget,
)

parse_change_kind-closed :
    (s : String)
    → parse_change_kind s
      ≡ closed err_change_kind
          (change_added ∷ change_modified ∷ change_deleted ∷ change_renamed ∷ change_type_changed
            ∷ [])
          s
unfolding parse_change_kind
parse_change_kind-closed s = ground (
  arith,
  eq_iff s change_added,
  eq_iff s change_modified,
  eq_iff s change_deleted,
  eq_iff s change_renamed,
  eq_iff s change_type_changed,
)

parse_file_verdict-closed :
    (s : String)
    → parse_file_verdict s
      ≡ closed err_file_verdict
          (file_verdict_no_issue ∷ file_verdict_finding ∷ file_verdict_not_affected
            ∷ file_verdict_could_not_review ∷ [])
          s
unfolding parse_file_verdict
parse_file_verdict-closed s = ground (
  arith,
  eq_iff s file_verdict_no_issue,
  eq_iff s file_verdict_finding,
  eq_iff s file_verdict_not_affected,
  eq_iff s file_verdict_could_not_review,
)

-- Each parser of the schema's words accepts exactly its own words, each as itself, and refuses any
-- other text with its own error.
pub parsers-closed :
    (s : String)
    → (parse_severity s ≡ closed err_severity severities s)
      × (parse_category s ≡ closed err_category categories s)
      × (parse_side s ≡ closed err_side sides s)
      × (parse_prior_status s ≡ closed err_prior_status prior_statuses s)
      × (parse_resolution s ≡ closed err_resolution resolutions s)
      × (parse_verdict s ≡ closed err_verdict verdicts s)
      × (parse_marker_verdict s ≡ closed err_marker_verdict marker_verdicts s)
      × (parse_loop_state s ≡ closed err_loop_state loop_states s)
      × (parse_leg s ≡ closed err_leg legs s)
      × (parse_pass_state s ≡ closed err_pass_state pass_states s)
      × (parse_halt_reason s ≡ closed err_halt_reason halt_reasons s)
      × (parse_limit_reason s ≡ closed err_limit_reason limit_reasons s)
      × (parse_change_kind s
          ≡ closed err_change_kind
              (change_added ∷ change_modified ∷ change_deleted ∷ change_renamed
                ∷ change_type_changed ∷ [])
              s)
      × (parse_file_verdict s
          ≡ closed err_file_verdict
              (file_verdict_no_issue ∷ file_verdict_finding ∷ file_verdict_not_affected
                ∷ file_verdict_could_not_review ∷ [])
              s)
parsers-closed s = (
  parse_severity-closed s,
  parse_category-closed s,
  parse_side-closed s,
  parse_prior_status-closed s,
  parse_resolution-closed s,
  parse_verdict-closed s,
  parse_marker_verdict-closed s,
  parse_loop_state-closed s,
  parse_leg-closed s,
  parse_pass_state-closed s,
  parse_halt_reason-closed s,
  parse_limit_reason-closed s,
  parse_change_kind-closed s,
  parse_file_verdict-closed s,
)
