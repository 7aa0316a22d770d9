-- ===== src/Core/Spans.antt =====
-- internal/core/coverage.go: the line spans that a reviewer was shown, their merging and their
-- union. A line number is a natural number: the code drops a span that starts below 1.
pub mod Shown
pub mod Canonical
pub mod Merging
mod Tests
use crossrev.Prelude.{
  ℕ, ◌+◌, Bool, true, false, ◌&&◌, ◌||◌, List, [], ◌∷◌, ◌++◌, filter_if, any, leb, ltb,
  if◌then◌else◌,
}

pub record LineSpan : Type 0 where
  pub start : ℕ
  pub end : ℕ

pub record SuppliedRanges : Type 0 where
  pub base : List LineSpan
  pub head : List LineSpan

-- `s.Start >= 1 && s.End >= s.Start`.
pub is_kept : LineSpan → Bool
is_kept s = leb 1 s.start && leb s.start s.end

-- `sort.Slice` by the start, which may put spans with one start in any order.
pub insert_by_start : LineSpan → List LineSpan → List LineSpan
insert_by_start s [] = s ∷ []
insert_by_start s (t ∷ ts) =
    let rest = insert_by_start s ts in if leb s.start t.start then s ∷ t ∷ ts else t ∷ rest

pub sort_by_start : List LineSpan → List LineSpan
sort_by_start [] = []
sort_by_start (s ∷ ts) = insert_by_start s (sort_by_start ts)

-- `if s.End > last.End { last.End = s.End }`.
pub widen : LineSpan → LineSpan → LineSpan
widen last s = record last { end = if ltb last.end s.end then s.end else last.end }

-- The loop over `kept[1:]`. `last` is the newest span of `out`, which the loop widens in place.
pub fold_spans : LineSpan → List LineSpan → List LineSpan
unfolding widen
fold_spans last [] = last ∷ []
fold_spans last (s ∷ rest) =
    let widened = fold_spans (widen last s) rest in
    let opened = last ∷ fold_spans s rest in if leb s.start (last.end + 1) then widened else opened

pub fold_sorted : List LineSpan → List LineSpan
fold_sorted [] = []
fold_sorted (s ∷ rest) = fold_spans s rest

unfoldable pub merge_line_spans : List LineSpan → List LineSpan
unfolding is_kept sort_by_start insert_by_start fold_sorted fold_spans
merge_line_spans spans = fold_sorted (sort_by_start (filter_if is_kept spans))

unfoldable pub covers_span : List LineSpan → ℕ → ℕ → Bool
covers_span spans start end =
    if ltb start 1 || ltb end start
    then false
    else any (λ s. leb s.start start && leb end s.end) spans

unfoldable pub covers_base : SuppliedRanges → ℕ → ℕ → Bool
covers_base r start end = covers_span r.base start end

unfoldable pub covers_head : SuppliedRanges → ℕ → ℕ → Bool
covers_head r start end = covers_span r.head start end

unfoldable pub union : SuppliedRanges → SuppliedRanges → SuppliedRanges
union r o = record {
  base = merge_line_spans (r.base ++ o.base);
  head = merge_line_spans (r.head ++ o.head);
}
