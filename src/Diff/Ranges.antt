-- ===== src/Diff/Ranges.antt =====
-- internal/diff/ranges.go: the ranges of lines that a parsed diff shows.
pub mod Shown
use crossrev.Prelude.{ℕ, String, Bool, List, [], ◌∷◌, if◌then◌else◌}
use crossrev.Diff.Lines.{Line}
use crossrev.Core.Spans.{LineSpan, merge_line_spans}

abbrev one_line : ℕ → LineSpan
one_line n = record { start = n; end = n }

-- `oldNums`.
pub old_nums : List Line → List LineSpan
old_nums [] = []
old_nums (l ∷ ls) =
    let rest = old_nums ls in
    if l.header then rest else if l.has_old then one_line l.old_no ∷ rest else rest

-- `newNums`.
pub new_nums : List Line → List LineSpan
new_nums [] = []
new_nums (l ∷ ls) =
    let rest = new_nums ls in
    if l.header then rest else if l.has_new then one_line l.new_no ∷ rest else rest

unfoldable pub line_ranges : List Line → List LineSpan × List LineSpan
unfolding old_nums new_nums
line_ranges lines = (merge_line_spans (old_nums lines), merge_line_spans (new_nums lines))
