-- ===== src/Core/Spans/Merging.antt =====
-- What merging and union do to the lines that were shown.
use crossrev.Prelude.{ℕ, ◌+◌, ◌≤◌, true, List, [], ◌∷◌, ◌++◌, filter_if, ◌≡◌, ◌↔◌, ◌⊎◌, arith}
use crossrev.Core.Spans.{
  LineSpan, SuppliedRanges, is_kept, sort_by_start, widen, fold_spans, fold_sorted,
  merge_line_spans, covers_span, covers_head, union,
}
use crossrev.Core.Spans.Shown.{
  Shows, Ascending, Ascending-weaken, Ascending-sort, Shows-sort, Shows-filter, Shows-fold,
  Shows-append,
}
use crossrev.Core.Spans.Canonical.{Spaced, ShowsAll, covers_span-ShowsAll, Spaced-unique}

Spaced-fold :
    (lo : ℕ) (last : LineSpan) (ts : List LineSpan)
    → lo ≤ last.start
    → last.start ≤ last.end
    → Ascending last.start ts
    → Spaced lo (fold_spans last ts)
unfolding fold_spans
Spaced-fold lo last [] h k a = (h, k, tt)
Spaced-fold lo last (s ∷ ts) h k a = ground (
  arith,
  Spaced-fold (last.end + 2) s ts,
  Spaced-fold lo (widen last s) ts,
  Ascending-weaken ts a.0 a.2,
)

-- The merged spans are in order, none is empty, and a line that is not shown lies between each two.
pub merge_line_spans-Spaced : (spans : List LineSpan) → Spaced 1 (merge_line_spans spans)
unfolding merge_line_spans
merge_line_spans-Spaced spans = go (sort_by_start (filter_if is_kept spans)) (Ascending-sort spans)
  where
    go : (ts : List LineSpan) → Ascending 1 ts → Spaced 1 (fold_sorted ts)
    go [] a = tt
    go (s ∷ ts) a = Spaced-fold 1 s ts a.0 a.1 a.2

sorted_folds : (ts : List LineSpan) (n : ℕ) → Ascending 1 ts → Shows (fold_sorted ts) n ↔ Shows ts n
unfolding fold_sorted
sorted_folds [] n a = ground arith
sorted_folds (s ∷ ts) n a = Shows-fold s ts n a.0 a.1 a.2

pub merge_line_spans-Shows :
    (spans : List LineSpan) (n : ℕ) → Shows (merge_line_spans spans) n ↔ Shows spans n
unfolding merge_line_spans
merge_line_spans-Shows spans n = ground (
  arith,
  sorted_folds (sort_by_start (filter_if is_kept spans)) n (Ascending-sort spans),
  Shows-sort (filter_if is_kept spans) n,
  Shows-filter spans n,
)

-- Merging keeps what is shown: a range lies in one merged span exactly when each of its lines lies
-- in some span that was given.
pub covers-merge_iff :
    (spans : List LineSpan) (a b : ℕ)
    → (covers_span (merge_line_spans spans) a b ≡ true) ↔ ((1 ≤ a) × (a ≤ b) × ShowsAll spans a b)
covers-merge_iff spans a b =
    let (to, from) =
      covers_span-ShowsAll 1 (merge_line_spans spans) a b (omega arith)
        (merge_line_spans-Spaced spans) in
    (
      λ h. ((to h).0, (to h).1, λ n x y. (merge_line_spans-Shows spans n).0 ((to h).2 n x y)),
      λ h. from (h.0, h.1, λ n x y. (merge_line_spans-Shows spans n).1 (h.2 n x y)),
    )

-- Span lists that show the same lines merge to one list, whatever their order and overlaps.
pub merge_line_spans_unique :
    (ss ts : List LineSpan)
    → ((n : ℕ) → Shows ss n ↔ Shows ts n)
    → merge_line_spans ss ≡ merge_line_spans ts
merge_line_spans_unique ss ts e =
    Spaced-unique 1 (merge_line_spans ss) (merge_line_spans ts) (omega arith)
      (merge_line_spans-Spaced ss) (merge_line_spans-Spaced ts)
      (λ n. ground (arith, e n, merge_line_spans-Shows ss n, merge_line_spans-Shows ts n))

-- A head range is covered by the union exactly when each of its lines is shown by one of the two.
pub covers_head-union_iff :
    (r o : SuppliedRanges) (a b : ℕ)
    → (covers_head (union r o) a b ≡ true)
      ↔ ((1 ≤ a) × (a ≤ b) × ((n : ℕ) → a ≤ n → n ≤ b → Shows r.head n ⊎ Shows o.head n))
unfolding covers_head union
covers_head-union_iff r o a b =
    let (to, from) = covers-merge_iff (r.head ++ o.head) a b in
    (
      λ h. ((to h).0, (to h).1, λ n x y. (Shows-append r.head o.head n).0 ((to h).2 n x y)),
      λ h. from (h.0, h.1, λ n x y. (Shows-append r.head o.head n).1 (h.2 n x y)),
    )

swap : (ss ts : List LineSpan) → merge_line_spans (ss ++ ts) ≡ merge_line_spans (ts ++ ss)
swap ss ts =
    merge_line_spans_unique (ss ++ ts) (ts ++ ss)
      (λ n. ground (arith, Shows-append ss ts n, Shows-append ts ss n))

turn :
    (ss ts us : List LineSpan)
    → merge_line_spans (merge_line_spans (ss ++ ts) ++ us)
      ≡ merge_line_spans (ss ++ merge_line_spans (ts ++ us))
turn ss ts us =
    merge_line_spans_unique (merge_line_spans (ss ++ ts) ++ us) (ss ++ merge_line_spans (ts ++ us))
      (λ n. ground (
        arith,
        Shows-append (merge_line_spans (ss ++ ts)) us n,
        Shows-append ss (merge_line_spans (ts ++ us)) n,
        merge_line_spans-Shows (ss ++ ts) n,
        merge_line_spans-Shows (ts ++ us) n,
        Shows-append ss ts n,
        Shows-append ts us n,
      ))

-- The union does not depend on the order of its arguments or on how they are bracketed.
pub union_comm_assoc :
    (q r o : SuppliedRanges) → (union r o ≡ union o r) × (union (union q r) o ≡ union q (union r o))
unfolding union
union_comm_assoc q r o = (
  λ i. record { base = swap r.base o.base i; head = swap r.head o.head i },
  λ i. record { base = turn q.base r.base o.base i; head = turn q.head r.head o.head i },
)
