-- ===== src/Core/Finding.antt =====
-- internal/core/finding.go: its words, the lists of them and their parsers.
use crossrev.Prelude.{String, List, [], ◌∷◌, ◌==◌, text_Eq, ok, if◌then◌else◌}
use crossrev.Core.Words.{Parsed, refuse}

abbrev pub severity_high : String
severity_high = "high"

abbrev pub severity_medium : String
severity_medium = "medium"

abbrev pub severity_low : String
severity_low = "low"

abbrev pub err_severity : String
err_severity = "a severity is high, medium or low"

unfoldable pub severities : List String
severities = severity_high ∷ severity_medium ∷ severity_low ∷ []

unfoldable pub parse_severity : String → Parsed
parse_severity s =
    if s == severity_high
    then ok severity_high
    else if s == severity_medium
    then ok severity_medium
    else if s == severity_low
    then ok severity_low
    else refuse err_severity s

abbrev pub category_correctness : String
category_correctness = "correctness"

abbrev pub category_security : String
category_security = "security"

abbrev pub category_performance : String
category_performance = "performance"

abbrev pub category_maintainability : String
category_maintainability = "maintainability"

abbrev pub category_testing : String
category_testing = "testing"

abbrev pub category_docs : String
category_docs = "docs"

abbrev pub err_category : String
err_category = "a category is not one the findings schema lists"

unfoldable pub categories : List String
categories =
    category_correctness ∷ category_security ∷ category_performance ∷ category_maintainability
    ∷ category_testing ∷ category_docs ∷ []

unfoldable pub parse_category : String → Parsed
parse_category s =
    if s == category_correctness
    then ok category_correctness
    else if s == category_security
    then ok category_security
    else if s == category_performance
    then ok category_performance
    else if s == category_maintainability
    then ok category_maintainability
    else if s == category_testing
    then ok category_testing
    else if s == category_docs
    then ok category_docs
    else refuse err_category s

abbrev pub side_left : String
side_left = "LEFT"

abbrev pub side_right : String
side_right = "RIGHT"

abbrev pub err_side : String
err_side = "a side is LEFT or RIGHT"

unfoldable pub sides : List String
sides = side_left ∷ side_right ∷ []

unfoldable pub parse_side : String → Parsed
parse_side s =
    if s == side_left
    then ok side_left
    else if s == side_right
    then ok side_right
    else refuse err_side s

abbrev pub prior_addressed : String
prior_addressed = "addressed"

abbrev pub prior_credibly_disputed : String
prior_credibly_disputed = "credibly-disputed"

abbrev pub prior_still_open : String
prior_still_open = "still-open"

abbrev pub prior_regressed : String
prior_regressed = "regressed"

abbrev pub err_prior_status : String
err_prior_status = "a prior status is not one the findings schema lists"

unfoldable pub prior_statuses : List String
prior_statuses = prior_addressed ∷ prior_credibly_disputed ∷ prior_still_open ∷ prior_regressed ∷ []

unfoldable pub parse_prior_status : String → Parsed
parse_prior_status s =
    if s == prior_addressed
    then ok prior_addressed
    else if s == prior_credibly_disputed
    then ok prior_credibly_disputed
    else if s == prior_still_open
    then ok prior_still_open
    else if s == prior_regressed
    then ok prior_regressed
    else refuse err_prior_status s
