-- ===== src/Core/Pass.antt =====
-- internal/core/pass.go: its words, the lists of them and their parsers.
use crossrev.Prelude.{
  ℕ, leb, ltb, String, Bool, List, [], ◌∷◌, ◌==◌, text_Eq, Result, ok, err, if◌then◌else◌,
}
use crossrev.Core.Words.{Parsed, refuse}

abbrev pub leg_review : String
leg_review = "review"

abbrev pub leg_resolve : String
leg_resolve = "resolve"

abbrev pub err_leg : String
err_leg = "a leg is either review or resolve"

unfoldable pub legs : List String
legs = leg_review ∷ leg_resolve ∷ []

unfoldable pub parse_leg : String → Parsed
parse_leg s =
    if s == leg_review
    then ok leg_review
    else if s == leg_resolve
    then ok leg_resolve
    else refuse err_leg s

abbrev pub pass_started : String
pass_started = "started"

abbrev pub pass_complete : String
pass_complete = "complete"

abbrev pub pass_incomplete : String
pass_incomplete = "incomplete"

abbrev pub pass_declined : String
pass_declined = "declined"

abbrev pub err_pass_state : String
err_pass_state = "a pass state is started, complete, declined or incomplete"

unfoldable pub pass_states : List String
pass_states = pass_started ∷ pass_complete ∷ pass_incomplete ∷ pass_declined ∷ []

unfoldable pub parse_pass_state : String → Parsed
parse_pass_state s =
    if s == pass_started
    then ok pass_started
    else if s == pass_complete
    then ok pass_complete
    else if s == pass_incomplete
    then ok pass_incomplete
    else if s == pass_declined
    then ok pass_declined
    else refuse err_pass_state s

abbrev pub halt_coverage_incomplete : String
halt_coverage_incomplete = "coverage_incomplete"

abbrev pub halt_ledger_exhausted : String
halt_ledger_exhausted = "ledger_exhausted"

abbrev pub halt_shared_context_exceeds_window : String
halt_shared_context_exceeds_window = "shared_context_exceeds_window"

abbrev pub err_halt_reason : String
err_halt_reason =
    "a halt reason is coverage_incomplete, ledger_exhausted or shared_context_exceeds_window"

unfoldable pub halt_reasons : List String
halt_reasons =
    halt_coverage_incomplete ∷ halt_ledger_exhausted ∷ halt_shared_context_exceeds_window ∷ []

unfoldable pub parse_halt_reason : String → Parsed
parse_halt_reason s =
    if s == halt_coverage_incomplete
    then ok halt_coverage_incomplete
    else if s == halt_ledger_exhausted
    then ok halt_ledger_exhausted
    else if s == halt_shared_context_exceeds_window
    then ok halt_shared_context_exceeds_window
    else refuse err_halt_reason s

abbrev pub limit_review_budget_reached : String
limit_review_budget_reached = "review_budget_reached"

abbrev pub limit_too_common : String
limit_too_common = "too_common"

abbrev pub limit_over_budget : String
limit_over_budget = "over_budget"

abbrev pub err_limit_reason : String
err_limit_reason = "a limit reason is review_budget_reached, too_common or over_budget"

unfoldable pub limit_reasons : List String
limit_reasons = limit_review_budget_reached ∷ limit_too_common ∷ limit_over_budget ∷ []

unfoldable pub parse_limit_reason : String → Parsed
parse_limit_reason s =
    if s == limit_review_budget_reached
    then ok limit_review_budget_reached
    else if s == limit_too_common
    then ok limit_too_common
    else if s == limit_over_budget
    then ok limit_over_budget
    else refuse err_limit_reason s

-- `Declined` of a pass state.
unfoldable pub declined : String → Bool
declined s = s == pass_declined

abbrev pub err_pass_number : String
err_pass_number = "a pass number starts at 1"

pub data PassNumberError : Type 0 where
  below_one : String → ℕ → PassNumberError

-- `NewPassNumber`, on the numbers from zero up.
unfoldable pub new_pass_number : ℕ → Result PassNumberError ℕ
new_pass_number n = if ltb n 1 then err (below_one err_pass_number n) else ok n

-- `Valid` of a pass number.
unfoldable pub valid_pass_number : ℕ → Bool
valid_pass_number p = leb 1 p

-- A configuration names the actor, a marker the act.
abbrev pub role_reviewer : String
role_reviewer = "reviewer"

abbrev pub role_resolver : String
role_resolver = "resolver"

abbrev pub err_leg_role : String
err_leg_role = "a leg role is either reviewer or resolver"

unfoldable pub roles : List String
roles = role_reviewer ∷ role_resolver ∷ []

-- `LegRole.Leg`.
unfoldable pub role_leg : String → Parsed
role_leg r =
    if r == role_reviewer
    then ok leg_review
    else if r == role_resolver
    then ok leg_resolve
    else refuse err_leg_role r
