-- ===== src/Core/Spans/Shown.antt =====
-- The lines that a list of spans shows, and what sorting and folding do to them.
use crossrev.Prelude.{ℕ, ◌≤◌, List, [], ◌∷◌, ◌++◌, filter_if, ◌↔◌, ◌⊎◌, arith}
use crossrev.Core.Spans.{LineSpan, is_kept, insert_by_start, sort_by_start, widen, fold_spans}

abbrev pub InSpan : LineSpan → ℕ → Type 0
InSpan s n = (1 ≤ s.start) × (s.start ≤ n) × (n ≤ s.end)

-- Line `n` lies in a span that the merge keeps.
abbrev pub Shows : List LineSpan → ℕ → Type 0
Shows [] n = ⊥
Shows (s ∷ ts) n = InSpan s n ⊎ Shows ts n

-- Kept spans in the order of their starts.
abbrev pub Ascending : ℕ → List LineSpan → Type 0
Ascending lo [] = Unit
Ascending lo (s ∷ ts) = (lo ≤ s.start) × (s.start ≤ s.end) × Ascending s.start ts

pub Ascending-weaken :
    {lo hi : ℕ} (ts : List LineSpan) → lo ≤ hi → Ascending hi ts → Ascending lo ts
Ascending-weaken [] h a = tt
Ascending-weaken (t ∷ ts) h a = ground arith

pub Shows-append : (ss ts : List LineSpan) (n : ℕ) → Shows (ss ++ ts) n ↔ (Shows ss n ⊎ Shows ts n)
Shows-append [] ts n = ground arith
Shows-append (s ∷ ss) ts n = ground (arith, Shows-append ss ts n)

pub Shows-filter : (ts : List LineSpan) (n : ℕ) → Shows (filter_if is_kept ts) n ↔ Shows ts n
unfolding is_kept
Shows-filter [] n = ground arith
Shows-filter (s ∷ ts) n = ground (arith, Shows-filter ts n)

Shows-insert :
    (s : LineSpan) (ts : List LineSpan) (n : ℕ)
    → Shows (insert_by_start s ts) n ↔ (InSpan s n ⊎ Shows ts n)
unfolding insert_by_start
Shows-insert s [] n = ground arith
Shows-insert s (t ∷ ts) n = ground (arith, Shows-insert s ts n)

pub Shows-sort : (ts : List LineSpan) (n : ℕ) → Shows (sort_by_start ts) n ↔ Shows ts n
unfolding sort_by_start
Shows-sort [] n = ground arith
Shows-sort (s ∷ ts) n = ground (arith, Shows-insert s (sort_by_start ts) n, Shows-sort ts n)

Ascending-insert :
    (lo : ℕ) (s : LineSpan) (ts : List LineSpan)
    → lo ≤ s.start
    → s.start ≤ s.end
    → Ascending lo ts
    → Ascending lo (insert_by_start s ts)
unfolding insert_by_start
Ascending-insert lo s [] h k a = (h, k, tt)
Ascending-insert lo s (t ∷ ts) h k a = ground (arith, Ascending-insert t.start s ts)

pub Ascending-sort : (ts : List LineSpan) → Ascending 1 (sort_by_start (filter_if is_kept ts))
unfolding sort_by_start is_kept
Ascending-sort [] = tt
Ascending-sort (s ∷ ts) =
    ground (arith, Ascending-insert 1 s (sort_by_start (filter_if is_kept ts)), Ascending-sort ts)

pub Shows-fold :
    (last : LineSpan) (ts : List LineSpan) (n : ℕ)
    → 1 ≤ last.start
    → last.start ≤ last.end
    → Ascending last.start ts
    → Shows (fold_spans last ts) n ↔ (InSpan last n ⊎ Shows ts n)
unfolding fold_spans
Shows-fold last [] n h k a = ground arith
Shows-fold last (s ∷ ts) n h k a =
    ground (arith, Shows-fold (widen last s) ts n, Shows-fold s ts n, Ascending-weaken ts a.0 a.2)
