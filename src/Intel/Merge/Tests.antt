-- ===== src/Intel/Merge/Tests.antt =====
-- Three parts, two of them with findings.
use crossrev.Prelude.{not, ◌&&◌, List, [], ◌∷◌, ◌≡◌, refl, ltb, length, if◌then◌else◌}
use crossrev.Core.Coverage.{
  file_verdict_no_issue, file_verdict_finding, file_verdict_not_affected,
  file_verdict_could_not_review,
}
use crossrev.Intel.Merge.{SplitVerdict, contains, merge_split_verdicts}
use crossrev.Intel.Merge.Precedence.{has, all_unaffected, merge_split_verdicts-ranked}
use crossrev.Intel.Merge.Numbers.{Ascending, names, merge_split_verdicts-numbers}

abbrev three_parts : List SplitVerdict
three_parts =
    record { verdict = "finding"; finding_numbers = 5 ∷ 2 ∷ [] }
    ∷ record { verdict = "not_affected"; finding_numbers = [] }
    ∷ record { verdict = "finding"; finding_numbers = 2 ∷ 3 ∷ [] }
    ∷ []

three_parts_merge : merge_split_verdicts three_parts ≡ ("finding", 2 ∷ 3 ∷ 5 ∷ [])
unfolding merge_split_verdicts
three_parts_merge = refl

merge_split_verdicts-ranked_example : (merge_split_verdicts three_parts).0 ≡ (
    if has file_verdict_could_not_review three_parts
    then file_verdict_could_not_review
    else if has file_verdict_finding three_parts
    then file_verdict_finding
    else if ltb 0 (length three_parts) && all_unaffected three_parts
    then file_verdict_not_affected
    else file_verdict_no_issue)
merge_split_verdicts-ranked_example = merge_split_verdicts-ranked three_parts

merge_split_verdicts-numbers_example :
    Ascending (merge_split_verdicts three_parts).1
    × (contains (merge_split_verdicts three_parts).1 3
        ≡ (not (has file_verdict_could_not_review three_parts) && names three_parts 3))
merge_split_verdicts-numbers_example = merge_split_verdicts-numbers three_parts 3
