-- ===== src/Core/Spans/Tests.antt =====
-- Spans that overlap, touch and stand apart.
use crossrev.Prelude.{arith, ℕ, ◌≤◌, ◌⊎◌, ◌↔◌, true, List, [], ◌∷◌, ◌≡◌, refl}
use crossrev.Core.Spans.{
  LineSpan, SuppliedRanges, merge_line_spans, covers_span, covers_head, union,
}
use crossrev.Core.Spans.Shown.{Shows}
use crossrev.Core.Spans.Canonical.{ShowsAll}
use crossrev.Core.Spans.Merging.{covers-merge_iff, merge_line_spans_unique, covers_head-union_iff}

abbrev span : ℕ → ℕ → LineSpan
span a b = record { start = a; end = b }

abbrev mixed : List LineSpan
mixed = span 8 9 ∷ span 1 3 ∷ span 0 5 ∷ span 4 5 ∷ []

mixed_merges : merge_line_spans mixed ≡ span 1 5 ∷ span 8 9 ∷ []
unfolding merge_line_spans
mixed_merges = refl

covers-merge_iff_example :
    (covers_span (merge_line_spans mixed) 2 5 ≡ true) ↔ ((1 ≤ 2) × (2 ≤ 5) × ShowsAll mixed 2 5)
covers-merge_iff_example = covers-merge_iff mixed 2 5

abbrev swapped : List LineSpan
swapped = span 4 5 ∷ span 1 3 ∷ []

abbrev sorted : List LineSpan
sorted = span 1 3 ∷ span 4 5 ∷ []

same_lines : (n : ℕ) → Shows swapped n ↔ Shows sorted n
same_lines n = ground arith

merge_line_spans_unique_example : merge_line_spans swapped ≡ merge_line_spans sorted
merge_line_spans_unique_example = merge_line_spans_unique swapped sorted same_lines

abbrev ranges : List LineSpan → SuppliedRanges
ranges spans = record { base = []; head = spans }

covers_head-union_iff_example :
    (covers_head (union (ranges swapped) (ranges mixed)) 3 4 ≡ true)
    ↔ ((1 ≤ 3) × (3 ≤ 4) × ((n : ℕ) → 3 ≤ n → n ≤ 4 → Shows swapped n ⊎ Shows mixed n))
covers_head-union_iff_example = covers_head-union_iff (ranges swapped) (ranges mixed) 3 4
