-- ===== src/Core/Spans/Canonical.antt =====
-- Spans in order with a line between each two: what such a list covers, and that the lines it
-- shows determine it.
use crossrev.Prelude.{
  ℕ, ◌+◌, ◌≤◌, Bool, true, List, [], ◌∷◌, ◌≡◌, refl, ◌↔◌, inl, arith, leb, ◌&&◌, any,
}
use native.Mathlib.Decide.{dec_le}
use crossrev.Core.Spans.{LineSpan, covers_span}
use crossrev.Core.Spans.Shown.{Shows}

abbrev pub Spaced : ℕ → List LineSpan → Type 0
Spaced lo [] = Unit
Spaced lo (s ∷ ts) = (lo ≤ s.start) × (s.start ≤ s.end) × Spaced (s.end + 2) ts

pub Spaced-weaken : {lo hi : ℕ} (ts : List LineSpan) → lo ≤ hi → Spaced hi ts → Spaced lo ts
Spaced-weaken [] h c = tt
Spaced-weaken (s ∷ ts) h c = ground arith

-- A spaced list shows no line below its bound.
pub Shows-ge : (lo : ℕ) (ts : List LineSpan) (n : ℕ) → Spaced lo ts → Shows ts n → lo ≤ n
Shows-ge lo [] n c h = absurd h
Shows-ge lo (s ∷ ts) n c h = ground (arith, Shows-ge (s.end + 2) ts n)

-- Every line from `a` to `b` is shown.
abbrev pub ShowsAll : List LineSpan → ℕ → ℕ → Type 0
ShowsAll ts a b = (n : ℕ) → a ≤ n → n ≤ b → Shows ts n

abbrev is_over : ℕ → ℕ → LineSpan → Bool
is_over a b s = leb s.start a && leb b s.end

one_span-Shows :
    (lo : ℕ) (ts : List LineSpan) (a b n : ℕ)
    → 1 ≤ lo
    → Spaced lo ts
    → any (is_over a b) ts ≡ true
    → a ≤ n
    → n ≤ b
    → Shows ts n
one_span-Shows lo [] a b n p c h x y = cc
one_span-Shows lo (s ∷ ts) a b n p c h x y = ground (arith, one_span-Shows (s.end + 2) ts a b n)

shown_by_one_span :
    (lo : ℕ) (ts : List LineSpan) (a b : ℕ)
    → Spaced lo ts
    → a ≤ b
    → ShowsAll ts a b
    → any (is_over a b) ts ≡ true
shown_by_one_span lo [] a b c h all = absurd (all a (omega arith) h)
shown_by_one_span lo (s ∷ ts) a b c h all = elim (dec_le a s.end) [
  | yes p ↦ ground (
    arith,
    all a,
    all (s.end + 1),
    Shows-ge (s.end + 2) ts a,
    Shows-ge (s.end + 2) ts (s.end + 1),
  )
  | no p ↦
      ground (arith, shown_by_one_span (s.end + 2) ts a b c.2 h (λ n x y. ground (arith, all n)))
]

-- Over a spaced list, a range is covered by one span exactly when each of its lines is shown.
pub covers_span-ShowsAll :
    (lo : ℕ) (ts : List LineSpan) (a b : ℕ)
    → 1 ≤ lo
    → Spaced lo ts
    → (covers_span ts a b ≡ true) ↔ ((1 ≤ a) × (a ≤ b) × ShowsAll ts a b)
unfolding covers_span
covers_span-ShowsAll lo ts a b p c = (
  λ h. (ground arith, ground arith, λ n x y. one_span-Shows lo ts a b n p c (ground arith) x y),
  λ h. ground (arith, shown_by_one_span lo ts a b c h.1 h.2),
)

module _ (lo : ℕ) (s t : LineSpan) (ss ts : List LineSpan) (p : 1 ≤ lo) (c : Spaced lo (s ∷ ss))
    (d : Spaced lo (t ∷ ts)) (e : (n : ℕ) → Shows (s ∷ ss) n ↔ Shows (t ∷ ts) n) where
  first_start : s.start ≡ t.start
  first_start = ground (
    arith,
    e s.start,
    e t.start,
    Shows-ge (t.end + 2) ts s.start d.2,
    Shows-ge (s.end + 2) ss t.start c.2,
  )

  first_end : s.end ≡ t.end
  first_end = ground (
    arith,
    first_start,
    e s.end,
    e t.end,
    e (s.end + 1),
    e (t.end + 1),
    Shows-ge (t.end + 2) ts s.end d.2,
    Shows-ge (s.end + 2) ss t.end c.2,
    Shows-ge (s.end + 2) ss (s.end + 1) c.2,
    Shows-ge (t.end + 2) ts (t.end + 1) d.2,
  )

  first_span : s ≡ t
  first_span = λ i. record { start = first_start i; end = first_end i }

-- Two spaced lists that show the same lines are one list.
pub Spaced-unique :
    (lo : ℕ) (ss ts : List LineSpan)
    → 1 ≤ lo
    → Spaced lo ss
    → Spaced lo ts
    → ((n : ℕ) → Shows ss n ↔ Shows ts n)
    → ss ≡ ts
Spaced-unique lo [] [] p c d e = refl
Spaced-unique lo [] (t ∷ ts) p c d e = absurd ((e t.start).1 (inl (omega arith)))
Spaced-unique lo (s ∷ ss) [] p c d e = absurd ((e s.start).0 (inl (omega arith)))
Spaced-unique lo (s ∷ ss) (t ∷ ts) p c d e = cc (
  first_span lo s t ss ts p c d e,
  Spaced-unique (s.end + 2) ss ts (omega arith) c.2 (rests_Spaced) (rests_agree),
)
  where
    same : s ≡ t
    same = first_span lo s t ss ts p c d e

    rests_Spaced : Spaced (s.end + 2) ts
    rests_Spaced = rw same d.2

    rests_agree : (n : ℕ) → Shows ss n ↔ Shows ts n
    rests_agree n =
        ground (arith, same, e n, Shows-ge (s.end + 2) ss n c.2, Shows-ge (t.end + 2) ts n d.2)
