-- ===== src/Intel/Chunk/Numbers.antt =====
-- The line numbers that the headers of the chunks carry.
use crossrev.Prelude.{
  ℕ, ◌+◌, true, List, [], ◌∷◌, ◌++◌, some, ◌≡◌, refl, arith, ◌==◌, nat_Eq, leb, Bool-cases, inl,
  inr, All, if◌then◌else◌,
}
use crossrev.Prelude.Bytes.{Bytes, has_prefix}
use crossrev.Intel.Split.{Block, HunkRange, hunk_range}
use crossrev.Intel.Chunk.{
  Cell, new_cell, glue, cells_from, cells_of, groups_from, groups_of, cell_lines, hunk_head,
  render_groups, chunk_body, chunk_hunk, old_lines, new_lines,
}
use crossrev.Intel.Chunk.Bodies.{bodies, bodies-chunk_hunk}

-- A context or removed line is a line of the old side; a context or added one, of the new.
abbrev is_old : Bytes → ℕ
is_old [] = 0
is_old (c ∷ l) = if c == b' ' then 1 else if c == b'-' then 1 else 0

abbrev is_new : Bytes → ℕ
is_new [] = 0
is_new (c ∷ l) = if c == b' ' then 1 else if c == b'+' then 1 else 0

abbrev pub count_old : List Bytes → ℕ
count_old [] = 0
count_old (l ∷ ls) = is_old l + count_old ls

abbrev pub count_new : List Bytes → ℕ
count_new [] = 0
count_new (l ∷ ls) = is_new l + count_new ls

count_old-append : (ks ls : List Bytes) → count_old (ks ++ ls) ≡ count_old ks + count_old ls
count_old-append [] ls = omega arith
count_old-append (k ∷ ks) ls = omega (arith, count_old-append ks ls)

count_new-append : (ks ls : List Bytes) → count_new (ks ++ ls) ≡ count_new ks + count_new ls
count_new-append [] ls = omega arith
count_new-append (k ∷ ks) ls = omega (arith, count_new-append ks ls)

-- A cell knows how many lines it is on each side.
abbrev IsCounted : Cell → Type 0
IsCounted c = (c.old ≡ count_old c.lines) × (c.new ≡ count_new c.lines)

new_cell-IsCounted : (l : Bytes) → IsCounted (new_cell l)
unfolding new_cell
new_cell-IsCounted [] = (refl, refl)
new_cell-IsCounted (c ∷ l) = (omega arith, omega arith)

marker_uncounted : (l : Bytes) → has_prefix l (b'\\' ∷ []) ≡ true → (is_old l ≡ 0) × (is_new l ≡ 0)
unfolding has_prefix
marker_uncounted [] h = cc
marker_uncounted (c ∷ l) h = ground arith

cells_from-IsCounted :
    (last : Cell) (ls : List Bytes) → IsCounted last → All IsCounted (cells_from last ls)
unfolding cells_from glue
cells_from-IsCounted last [] h = (h, tt)
cells_from-IsCounted last (l ∷ ls) h = elim (Bool-cases (has_prefix l (b'\\' ∷ []))) [
  | inl p ↦ rw p (
      cells_from-IsCounted (glue last l) ls (
        omega (arith, count_old-append last.lines (l ∷ []), marker_uncounted l p),
        omega (arith, count_new-append last.lines (l ∷ []), marker_uncounted l p),
      ))
  | inr p ↦ rw p (h, cells_from-IsCounted (new_cell l) ls (new_cell-IsCounted l))
]

cells_of-IsCounted : (ls : List Bytes) → All IsCounted (cells_of ls)
unfolding cells_of
cells_of-IsCounted [] = tt
cells_of-IsCounted (l ∷ ls) = cells_from-IsCounted (new_cell l) ls (new_cell-IsCounted l)

IsCounted-concat :
    (g : List Cell) (c : Cell) → All IsCounted g → IsCounted c → All IsCounted (g ++ c ∷ [])
IsCounted-concat [] c h k = (k, tt)
IsCounted-concat (d ∷ g) c (hd, h) k = (hd, IsCounted-concat g c h k)

groups_from-IsCounted :
    (n : ℕ) (g : List Cell) (size : ℕ) (cs : List Cell)
    → All IsCounted g
    → All IsCounted cs
    → All (All IsCounted) (groups_from n g size cs)
unfolding groups_from
groups_from-IsCounted n g size [] h k = (h, tt)
groups_from-IsCounted n g size (c ∷ cs) h (kc, k) = elim (Bool-cases (leb (size + c.size) n)) [
  | inl p ↦
      rw p (groups_from-IsCounted n (g ++ c ∷ []) (size + c.size) cs (IsCounted-concat g c h kc) k)
  | inr p ↦ rw p (h, groups_from-IsCounted n (c ∷ []) c.size cs (kc, tt) k)
]

groups_of-IsCounted :
    (n : ℕ) (cs : List Cell) → All IsCounted cs → All (All IsCounted) (groups_of n cs)
unfolding groups_of
groups_of-IsCounted n [] h = tt
groups_of-IsCounted n (c ∷ cs) (hc, h) = groups_from-IsCounted n (c ∷ []) c.size cs (hc, tt) h

group_counts :
    (g : List Cell)
    → All IsCounted g
    → (old_lines g ≡ count_old (cell_lines g)) × (new_lines g ≡ count_new (cell_lines g))
group_counts [] h = (refl, refl)
group_counts (c ∷ g) (hc, h) = (
  omega (arith, count_old-append c.lines (cell_lines g), group_counts g h),
  omega (arith, count_new-append c.lines (cell_lines g), group_counts g h),
)

-- Each chunk's header starts where the chunk before it ended, on both sides, and counts the lines
-- below it.
abbrev pub Numbered : ℕ → ℕ → Bytes → List Block → Type 0
Numbered old new suffix [] = Unit
Numbered old new suffix ([] ∷ bs) = ⊥
Numbered old new suffix ((head ∷ body) ∷ bs) =
    (head ≡ hunk_head old (count_old body) new (count_new body) suffix)
    × Numbered (old + count_old body) (new + count_new body) suffix bs

render_groups-Numbered :
    (old new : ℕ) (suffix : Bytes) (gs : List (List Cell))
    → All (All IsCounted) gs
    → Numbered old new suffix (render_groups old new suffix gs)
unfolding render_groups
render_groups-Numbered old new suffix [] h = tt
render_groups-Numbered old new suffix (g ∷ gs) (hg, h) =
    let (o, n) = group_counts g hg in
    rw (o, n)
      (
        refl,
        render_groups-Numbered (old + count_old (cell_lines g)) (new + count_new (cell_lines g))
            suffix gs h,
      )

-- A hunk whose header names a line range is cut into chunks whose headers run through that range
-- from its start on both sides without gap or overlap, and count the lines below them; the chunks
-- hold the lines of the hunk, in order.
pub chunk_hunk-Numbered :
    (head : Bytes) (body : List Bytes) (n : ℕ) (r : HunkRange)
    → hunk_range head ≡ some r
    → Numbered r.old_start r.new_start r.suffix (chunk_hunk (head ∷ body) n)
      × (bodies (chunk_hunk (head ∷ body) n) ≡ body)
chunk_hunk-Numbered head body n r e = (numbered, bodies-chunk_hunk (head ∷ body) n)
  where
    numbered : Numbered r.old_start r.new_start r.suffix (chunk_hunk (head ∷ body) n)
    numbered =
        unfold chunk_hunk chunk_body in
        rw e (
          render_groups-Numbered r.old_start r.new_start r.suffix (groups_of n (cells_of body))
            (groups_of-IsCounted n (cells_of body) (cells_of-IsCounted body)))
