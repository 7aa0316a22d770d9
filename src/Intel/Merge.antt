-- ===== src/Intel/Merge.antt =====
-- internal/intel/merge.go: one verdict for a file that was split. `sort.Ints` is an insertion sort
-- here.
pub mod Precedence
pub mod Numbers
mod Tests
use crossrev.Prelude.{
  ℕ, String, Bool, true, false, ◌||◌, List, [], ◌∷◌, ◌++◌, ◌==◌, nat_Eq, text_Eq, ltb, leb, length,
  any, if◌then◌else◌,
}
use crossrev.Core.Coverage.{
  file_verdict_no_issue, file_verdict_finding, file_verdict_not_affected,
  file_verdict_could_not_review,
}

pub record SplitVerdict : Type 0 where
  pub verdict : String
  pub finding_numbers : List ℕ

abbrev pub contains : List ℕ → ℕ → Bool
contains numbers n = any (λ m. m == n) numbers

-- The inner loop: `seen` holds exactly the numbers that were kept.
pub keep_new : List ℕ → List ℕ → List ℕ
keep_new numbers [] = numbers
keep_new numbers (n ∷ ns) = keep_new (if contains numbers n then numbers else numbers ++ n ∷ []) ns

pub insert_number : ℕ → List ℕ → List ℕ
insert_number n [] = n ∷ []
insert_number n (m ∷ ms) = let rest = insert_number n ms in if leb n m then n ∷ m ∷ ms else m ∷ rest

pub sort_numbers : List ℕ → List ℕ
unfolding insert_number
sort_numbers [] = []
sort_numbers (n ∷ ns) = insert_number n (sort_numbers ns)

-- After the loop.
pub settle : String → List ℕ → Bool → String × List ℕ
unfolding sort_numbers
settle verdict numbers unanimous =
    if verdict == file_verdict_finding
    then (verdict, sort_numbers numbers)
    else if unanimous
    then (file_verdict_not_affected, [])
    else (file_verdict_no_issue, [])

pub merge_from : String → List ℕ → Bool → List SplitVerdict → String × List ℕ
unfolding keep_new settle
merge_from verdict numbers unanimous [] = settle verdict numbers unanimous
merge_from verdict numbers unanimous (p ∷ ps) =
    let found = merge_from file_verdict_finding (keep_new numbers p.finding_numbers) false ps in
    let unaffected = merge_from verdict numbers unanimous ps in
    let other = merge_from verdict numbers false ps in
    if p.verdict == file_verdict_could_not_review
    then (file_verdict_could_not_review, [])
    else if p.verdict == file_verdict_finding
    then found
    else if p.verdict == file_verdict_not_affected
    then unaffected
    else other

unfoldable pub merge_split_verdicts : List SplitVerdict → String × List ℕ
unfolding merge_from
merge_split_verdicts parts = merge_from file_verdict_no_issue [] (ltb 0 (length parts)) parts
