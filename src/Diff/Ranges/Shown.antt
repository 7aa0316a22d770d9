-- ===== src/Diff/Ranges/Shown.antt =====
-- Which ranges of line numbers the ranges of a diff cover.
use crossrev.Prelude.{arith, ℕ, ◌≤◌, true, false, List, [], ◌∷◌, ◌≡◌, ◌⊎◌, ◌↔◌}
use crossrev.Core.Spans.{covers_span}
use crossrev.Core.Spans.Shown.{Shows}
use crossrev.Core.Spans.Merging.{covers-merge_iff}
use crossrev.Diff.Lines.{Line}
use crossrev.Diff.Ranges.{old_nums, new_nums, line_ranges}

-- Some body line of the diff has the number on its old side.
abbrev pub OnOld : List Line → ℕ → Type 0
OnOld [] n = ⊥
OnOld (l ∷ ls) n = ((l.header ≡ false) × (l.has_old ≡ true) × (l.old_no ≡ n)) ⊎ OnOld ls n

abbrev pub OnNew : List Line → ℕ → Type 0
OnNew [] n = ⊥
OnNew (l ∷ ls) n = ((l.header ≡ false) × (l.has_new ≡ true) × (l.new_no ≡ n)) ⊎ OnNew ls n

Shows-old : (ls : List Line) (n : ℕ) → Shows (old_nums ls) n ↔ ((1 ≤ n) × OnOld ls n)
unfolding old_nums
Shows-old [] n = ground arith
Shows-old (l ∷ ls) n = ground (arith, Shows-old ls n)

Shows-new : (ls : List Line) (n : ℕ) → Shows (new_nums ls) n ↔ ((1 ≤ n) × OnNew ls n)
unfolding new_nums
Shows-new [] n = ground arith
Shows-new (l ∷ ls) n = ground (arith, Shows-new ls n)

-- On each side of the diff, a range of lines is covered exactly when it starts at 1 or above, is not
-- empty, and each of its numbers stands on that side of some body line.
pub line_ranges-covers_iff :
    (lines : List Line) (a b : ℕ)
    → ((covers_span (line_ranges lines).0 a b ≡ true)
        ↔ ((1 ≤ a) × (a ≤ b) × ((n : ℕ) → a ≤ n → n ≤ b → OnOld lines n)))
      × ((covers_span (line_ranges lines).1 a b ≡ true)
          ↔ ((1 ≤ a) × (a ≤ b) × ((n : ℕ) → a ≤ n → n ≤ b → OnNew lines n)))
unfolding line_ranges
line_ranges-covers_iff lines a b =
    let (old_to, old_from) = covers-merge_iff (old_nums lines) a b in
    let (new_to, new_from) = covers-merge_iff (new_nums lines) a b in
    (
      (
        λ h. ((old_to h).0, (old_to h).1, λ n x y. ((Shows-old lines n).0 ((old_to h).2 n x y)).1),
        λ h. old_from (h.0, h.1, λ n x y. (Shows-old lines n).1 (omega (arith, h.0, x), h.2 n x y)),
      ),
      (
        λ h. ((new_to h).0, (new_to h).1, λ n x y. ((Shows-new lines n).0 ((new_to h).2 n x y)).1),
        λ h. new_from (h.0, h.1, λ n x y. (Shows-new lines n).1 (omega (arith, h.0, x), h.2 n x y)),
      ),
    )
