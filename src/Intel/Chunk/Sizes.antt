-- ===== src/Intel/Chunk/Sizes.antt =====
-- How large the parts of a repacked diff are.
use mathlib.Core.List.{append-nil}
use crossrev.Prelude.{
  ℕ, ◌+◌, ◌≤◌, true, List, [], ◌∷◌, ◌++◌, Option, none, some, ◌≡◌, refl, arith, ltb, leb,
  Bool-cases, inl, inr, ◌&&◌, ◌⊎◌, All, All-append, if◌then◌else◌,
}
use crossrev.Prelude.Bytes.{Bytes, has_prefix}
use crossrev.Intel.Split.{
  Block, PartContent, HunkRange, block_bytes, blocks_bytes, content_bytes, hunk_range,
}
use crossrev.Intel.Chunk.{
  Cell, new_cell, glue, cells_from, cells_of, groups_from, groups_of, cell_lines, render_groups,
  chunk_body, chunk_hunk, flush, single_parts, repack_from, repack_content, old_lines, new_lines,
}
use crossrev.Intel.Chunk.Bodies.{cell_lines-append}

-- One line of a hunk, with the "\ No newline" markers that belong to it.
abbrev pub OneLine : List Bytes → Type 0
OneLine [] = ⊥
OneLine (line ∷ markers) = All (λ m. has_prefix m (b'\\' ∷ []) ≡ true) markers

abbrev IsCell : Cell → Type 0
IsCell c = (block_bytes c.lines ≡ c.size) × OneLine c.lines

pub block_bytes-append : (xs ys : Block) → block_bytes (xs ++ ys) ≡ block_bytes xs + block_bytes ys
block_bytes-append [] ys = omega arith
block_bytes-append (x ∷ xs) ys = omega (arith, block_bytes-append xs ys)

pub blocks_bytes-append :
    (xs ys : List Block) → blocks_bytes (xs ++ ys) ≡ blocks_bytes xs + blocks_bytes ys
blocks_bytes-append [] ys = omega arith
blocks_bytes-append (x ∷ xs) ys = omega (arith, blocks_bytes-append xs ys)

OneLine-append :
    (ls : List Bytes) (m : Bytes)
    → OneLine ls
    → has_prefix m (b'\\' ∷ []) ≡ true
    → OneLine (ls ++ m ∷ [])
OneLine-append [] m h p = absurd h
OneLine-append (l ∷ ls) m h p = All-append _ ls (m ∷ []) h (p, tt)

new_cell-IsCell : (line : Bytes) → IsCell (new_cell line)
unfolding new_cell
new_cell-IsCell [] = (omega arith, tt)
new_cell-IsCell (c ∷ line) = (omega arith, tt)

cells_from-IsCell : (last : Cell) (ls : List Bytes) → IsCell last → All IsCell (cells_from last ls)
unfolding cells_from glue
cells_from-IsCell last [] h = (h, tt)
cells_from-IsCell last (l ∷ ls) h = elim (Bool-cases (has_prefix l (b'\\' ∷ []))) [
  | inl p ↦ rw p (
      cells_from-IsCell (glue last l) ls
        (omega (arith, block_bytes-append last.lines (l ∷ [])), OneLine-append last.lines l h.1 p))
  | inr p ↦ rw p (h, cells_from-IsCell (new_cell l) ls (new_cell-IsCell l))
]

cells_of-IsCell : (ls : List Bytes) → All IsCell (cells_of ls)
unfolding cells_of
cells_of-IsCell [] = tt
cells_of-IsCell (l ∷ ls) = cells_from-IsCell (new_cell l) ls (new_cell-IsCell l)

-- A body within the budget, or one line that no cut makes shorter.
abbrev pub BodyFits : ℕ → List Bytes → Type 0
BodyFits n body = (block_bytes body ≤ n) ⊎ OneLine body

block_bytes-grow :
    (g : List Cell) (c : Cell)
    → block_bytes (cell_lines (g ++ c ∷ [])) ≡ block_bytes (cell_lines g) + block_bytes c.lines
block_bytes-grow g c =
    rw (cell_lines-append g (c ∷ []), append-nil) (block_bytes-append (cell_lines g) c.lines)

groups_from-BodyFits :
    (n : ℕ) (g : List Cell) (size : ℕ) (cs : List Cell)
    → block_bytes (cell_lines g) ≡ size
    → BodyFits n (cell_lines g)
    → All IsCell cs
    → All (λ h. BodyFits n (cell_lines h)) (groups_from n g size cs)
unfolding groups_from
groups_from-BodyFits n g size [] e f h = (f, tt)
groups_from-BodyFits n g size (c ∷ cs) e f (hc, h) = elim (Bool-cases (leb (size + c.size) n)) [
  | inl p ↦ rw p (
      groups_from-BodyFits n (g ++ c ∷ []) (size + c.size) cs
        (omega (arith, block_bytes-grow g c, hc.0))
        (inl (ground (arith, block_bytes-grow g c, hc.0))) h)
  | inr p ↦ rw p (
    f,
    groups_from-BodyFits n (c ∷ []) c.size cs (rw append-nil hc.0) (inr (rw append-nil hc.1)) h,
  )
]

groups_of-BodyFits :
    (n : ℕ) (cs : List Cell) → All IsCell cs → All (λ h. BodyFits n (cell_lines h)) (groups_of n cs)
unfolding groups_of
groups_of-BodyFits n [] h = tt
groups_of-BodyFits n (c ∷ cs) (hc, h) =
    groups_from-BodyFits n (c ∷ []) c.size cs (rw append-nil hc.0) (inr (rw append-nil hc.1)) h

-- A chunk: its body fits, or its header names no line range and it was left whole.
abbrev pub ChunkFits : ℕ → Block → Type 0
ChunkFits n [] = ⊥
ChunkFits n (head ∷ body) = BodyFits n body ⊎ (hunk_range head ≡ none)

render_groups-ChunkFits :
    (n old new : ℕ) (suffix : Bytes) (gs : List (List Cell))
    → All (λ h. BodyFits n (cell_lines h)) gs
    → All (ChunkFits n) (render_groups old new suffix gs)
unfolding render_groups
render_groups-ChunkFits n old new suffix [] h = tt
render_groups-ChunkFits n old new suffix (g ∷ gs) (hg, h) =
    (inl hg, render_groups-ChunkFits n (old + old_lines g) (new + new_lines g) suffix gs h)

chunk_hunk-ChunkFits : (b : Block) (n : ℕ) → All (ChunkFits n) (chunk_hunk b n)
unfolding chunk_hunk
chunk_hunk-ChunkFits [] n = tt
chunk_hunk-ChunkFits (head ∷ body) n = go (hunk_range head) refl
  where
    go :
        (o : Option HunkRange)
        → hunk_range head ≡ o
        → All (ChunkFits n) (chunk_body (head ∷ body) n o head body)
    go none e = (inr e, tt)
    go (some r) e =
        render_groups-ChunkFits n r.old_start r.new_start r.suffix (groups_of n (cells_of body))
          (groups_of-BodyFits n (cells_of body) (cells_of-IsCell body))

abbrev IsOne : (Block → Type 0) → List Block → Type 0
IsOne P [] = ⊥
IsOne P (b ∷ []) = P b
IsOne P (b ∷ c ∷ bs) = ⊥

-- A part whose hunks fit the budget together, or one chunk.
abbrev pub PartFits : ℕ → PartContent → Type 0
PartFits n p = (content_bytes p ≤ n) ⊎ IsOne (ChunkFits n) p.blocks

flush-PartFits :
    (n : ℕ) (h : List Bytes) (bs : List Block) → blocks_bytes bs ≤ n → All (PartFits n) (flush h bs)
unfolding flush content_bytes
flush-PartFits n h [] f = tt
flush-PartFits n h (b ∷ bs) f = (inl f, tt)

single_parts-PartFits :
    (n : ℕ) (h : List Bytes) (bs : List Block)
    → All (ChunkFits n) bs
    → All (PartFits n) (single_parts h bs)
unfolding single_parts
single_parts-PartFits n h [] f = tt
single_parts-PartFits n h (b ∷ bs) (fb, f) = (inr fb, single_parts-PartFits n h bs f)

repack_from-PartFits :
    (n : ℕ) (h : List Bytes) (xs : List Block) (bytes : ℕ) (bs : List Block)
    → blocks_bytes xs ≡ bytes
    → bytes ≤ n
    → All (PartFits n) (repack_from h n xs bytes bs)
unfolding repack_from
repack_from-PartFits n h xs bytes [] e f = flush-PartFits n h xs (omega arith)
repack_from-PartFits n h xs bytes (b ∷ bs) e f = elim (Bool-cases (ltb n (block_bytes b))) [
  | inl p ↦ rw p (
      All-append _ (flush h xs) _ (flush-PartFits n h xs (omega arith)) (
        All-append _ (single_parts h (chunk_hunk b n)) _
          (single_parts-PartFits n h (chunk_hunk b n) (chunk_hunk-ChunkFits b n))
          (repack_from-PartFits n h [] 0 bs refl (omega arith))))
  | inr p ↦ rw p (elim (Bool-cases (ltb 0 bytes && ltb n (bytes + block_bytes b))) [
    | inl q ↦ rw q (
        All-append _ (flush h xs) _ (flush-PartFits n h xs (omega arith))
          (repack_from-PartFits n h (b ∷ []) (block_bytes b) bs (omega arith) (ground arith)))
    | inr q ↦ rw q (
        repack_from-PartFits n h (xs ++ b ∷ []) (bytes + block_bytes b) bs
          (omega (arith, blocks_bytes-append xs (b ∷ []))) (ground arith))
  ])
]

-- Each part of a repacked diff holds at most the budget of hunk bytes, or is one chunk: a body
-- within the budget, one line that cannot be cut, or a hunk whose header names no line range. A
-- budget of zero counts as one byte.
pub repack_content-PartFits :
    (header : List Bytes) (blocks : List Block) (max_bytes : ℕ)
    → All
        (PartFits (if ltb max_bytes 1 then 1 else max_bytes))
        (repack_content header blocks max_bytes)
unfolding repack_content
repack_content-PartFits header blocks max_bytes =
    repack_from-PartFits _ header [] 0 blocks refl (omega arith)
