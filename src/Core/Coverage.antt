-- ===== src/Core/Coverage.antt =====
-- internal/core/coverage.go: its words, the lists of them and their parsers.
use crossrev.Prelude.{String, ◌==◌, text_Eq, ok, if◌then◌else◌}
use crossrev.Core.Words.{Parsed, refuse}

abbrev pub change_added : String
change_added = "added"

abbrev pub change_modified : String
change_modified = "modified"

abbrev pub change_deleted : String
change_deleted = "deleted"

abbrev pub change_renamed : String
change_renamed = "renamed"

abbrev pub change_type_changed : String
change_type_changed = "type_changed"

abbrev pub err_change_kind : String
err_change_kind = "a change kind is added, modified, deleted, renamed or type_changed"

unfoldable pub parse_change_kind : String → Parsed
parse_change_kind s =
    if s == change_added
    then ok change_added
    else if s == change_modified
    then ok change_modified
    else if s == change_deleted
    then ok change_deleted
    else if s == change_renamed
    then ok change_renamed
    else if s == change_type_changed
    then ok change_type_changed
    else refuse err_change_kind s

abbrev pub file_verdict_no_issue : String
file_verdict_no_issue = "no_issue"

abbrev pub file_verdict_finding : String
file_verdict_finding = "finding"

abbrev pub file_verdict_not_affected : String
file_verdict_not_affected = "not_affected"

abbrev pub file_verdict_could_not_review : String
file_verdict_could_not_review = "could_not_review"

abbrev pub err_file_verdict : String
err_file_verdict = "a verdict is no_issue, finding, not_affected or could_not_review"

unfoldable pub parse_file_verdict : String → Parsed
parse_file_verdict s =
    if s == file_verdict_no_issue
    then ok file_verdict_no_issue
    else if s == file_verdict_finding
    then ok file_verdict_finding
    else if s == file_verdict_not_affected
    then ok file_verdict_not_affected
    else if s == file_verdict_could_not_review
    then ok file_verdict_could_not_review
    else refuse err_file_verdict s
