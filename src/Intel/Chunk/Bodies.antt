-- ===== src/Intel/Chunk/Bodies.antt =====
-- Repacking the blocks of a diff keeps the lines below their headers, in order.
use mathlib.Core.List.{append_assoc, append-nil}
use crossrev.Prelude.{
  ℕ, ◌+◌, List, [], ◌∷◌, ◌++◌, Option, none, some, ◌≡◌, refl, ◌∙◌, ap, ltb, leb, Bool-cases, inl,
  inr, ◌&&◌,
}
use crossrev.Prelude.Bytes.{Bytes, has_prefix}
use crossrev.Intel.Split.{Block, PartContent, HunkRange, block_bytes, hunk_range}
use crossrev.Intel.Chunk.{
  Cell, new_cell, glue, cells_from, cells_of, groups_from, groups_of, cell_lines, render_groups,
  chunk_body, chunk_hunk, flush, single_parts, repack_from, repack_content, old_lines, new_lines,
}

-- The lines of a block below its `@@` line.
abbrev pub block_body : Block → List Bytes
block_body [] = []
block_body (head ∷ body) = body

abbrev pub bodies : List Block → List Bytes
bodies [] = []
bodies (b ∷ bs) = block_body b ++ bodies bs

abbrev pub part_bodies : List PartContent → List Bytes
part_bodies [] = []
part_bodies (p ∷ ps) = bodies p.blocks ++ part_bodies ps

bodies-append : (xs ys : List Block) → bodies (xs ++ ys) ≡ bodies xs ++ bodies ys
bodies-append [] ys = refl
bodies-append (x ∷ xs) ys = simp (bodies-append xs ys, append_assoc)

pub part_bodies-append :
    (ps qs : List PartContent) → part_bodies (ps ++ qs) ≡ part_bodies ps ++ part_bodies qs
part_bodies-append [] qs = refl
part_bodies-append (p ∷ ps) qs = simp (part_bodies-append ps qs, append_assoc)

pub cell_lines-append : (cs ds : List Cell) → cell_lines (cs ++ ds) ≡ cell_lines cs ++ cell_lines ds
cell_lines-append [] ds = refl
cell_lines-append (c ∷ cs) ds = simp (cell_lines-append cs ds, append_assoc)

lines-new_cell : (line : Bytes) → (new_cell line).lines ≡ line ∷ []
unfolding new_cell
lines-new_cell [] = refl
lines-new_cell (c ∷ line) = refl

cell_lines-cells_from :
    (last : Cell) (ls : List Bytes) → cell_lines (cells_from last ls) ≡ last.lines ++ ls
unfolding cells_from glue
cell_lines-cells_from last [] = refl
cell_lines-cells_from last (l ∷ ls) = elim (Bool-cases (has_prefix l (b'\\' ∷ []))) [
  | inl p ↦ rw p (simp (cell_lines-cells_from (glue last l) ls, append_assoc))
  | inr p ↦ rw p (simp (cell_lines-cells_from (new_cell l) ls, lines-new_cell))
]

cell_lines-cells_of : (ls : List Bytes) → cell_lines (cells_of ls) ≡ ls
unfolding cells_of
cell_lines-cells_of [] = refl
cell_lines-cells_of (l ∷ ls) = simp (cell_lines-cells_from (new_cell l) ls, lines-new_cell)

abbrev group_lines : List (List Cell) → List Bytes
group_lines [] = []
group_lines (g ∷ gs) = cell_lines g ++ group_lines gs

group_lines-groups_from :
    (n : ℕ) (g : List Cell) (size : ℕ) (cs : List Cell)
    → group_lines (groups_from n g size cs) ≡ cell_lines g ++ cell_lines cs
unfolding groups_from
group_lines-groups_from n g size [] = refl
group_lines-groups_from n g size (c ∷ cs) = elim (Bool-cases (leb (size + c.size) n)) [
  | inl p ↦ rw p (
      simp (
        group_lines-groups_from n (g ++ c ∷ []) (size + c.size) cs,
        cell_lines-append,
        append_assoc,
        append-nil,
      ))
  | inr p ↦ rw p (simp (group_lines-groups_from n (c ∷ []) c.size cs, append-nil, append_assoc))
]

group_lines-groups_of : (n : ℕ) (cs : List Cell) → group_lines (groups_of n cs) ≡ cell_lines cs
unfolding groups_of
group_lines-groups_of n [] = refl
group_lines-groups_of n (c ∷ cs) = simp (group_lines-groups_from n (c ∷ []) c.size cs, append-nil)

bodies-render_groups :
    (old new : ℕ) (suffix : Bytes) (gs : List (List Cell))
    → bodies (render_groups old new suffix gs) ≡ group_lines gs
unfolding render_groups
bodies-render_groups old new suffix [] = refl
bodies-render_groups old new suffix (g ∷ gs) =
    ap (λ r. cell_lines g ++ r)
      (bodies-render_groups (old + old_lines g) (new + new_lines g) suffix gs)

bodies-chunk_body :
    (n : ℕ) (o : Option HunkRange) (head : Bytes) (body : List Bytes)
    → bodies (chunk_body (head ∷ body) n o head body) ≡ body
unfolding chunk_body
bodies-chunk_body n none head body = append-nil body
bodies-chunk_body n (some r) head body =
    bodies-render_groups r.old_start r.new_start r.suffix (groups_of n (cells_of body))
    ∙ group_lines-groups_of n (cells_of body)
    ∙ cell_lines-cells_of body

-- Cutting one hunk into chunks keeps the lines below its header.
pub bodies-chunk_hunk : (b : Block) (n : ℕ) → bodies (chunk_hunk b n) ≡ block_body b
unfolding chunk_hunk
bodies-chunk_hunk [] n = refl
bodies-chunk_hunk (head ∷ body) n = bodies-chunk_body n (hunk_range head) head body

part_bodies-flush : (h : List Bytes) (bs : List Block) → part_bodies (flush h bs) ≡ bodies bs
unfolding flush
part_bodies-flush h [] = refl
part_bodies-flush h (b ∷ bs) = append-nil (bodies (b ∷ bs))

part_bodies-single_parts :
    (h : List Bytes) (bs : List Block) → part_bodies (single_parts h bs) ≡ bodies bs
unfolding single_parts
part_bodies-single_parts h [] = refl
part_bodies-single_parts h (b ∷ bs) = simp (part_bodies-single_parts h bs, append-nil)

ruleset body_laws = (
  part_bodies-append, part_bodies-flush, part_bodies-single_parts, bodies-append, bodies-chunk_hunk,
  append_assoc, append-nil,
)

part_bodies-repack_from :
    (h : List Bytes) (n : ℕ) (open_blocks : List Block) (bytes : ℕ) (bs : List Block)
    → part_bodies (repack_from h n open_blocks bytes bs) ≡ bodies open_blocks ++ bodies bs
unfolding repack_from
part_bodies-repack_from h n xs bytes [] = simp body_laws
part_bodies-repack_from h n xs bytes (b ∷ bs) = elim (Bool-cases (ltb n (block_bytes b))) [
  | inl p ↦ rw p (simp (body_laws, part_bodies-repack_from h n [] 0 bs))
  | inr p ↦ rw p (elim (Bool-cases (ltb 0 bytes && ltb n (bytes + block_bytes b))) [
    | inl q ↦ rw q (simp (body_laws, part_bodies-repack_from h n (b ∷ []) (block_bytes b) bs))
    | inr q ↦
        rw q
          (simp (body_laws, part_bodies-repack_from h n (xs ++ b ∷ []) (bytes + block_bytes b) bs))
  ])
]

-- Whatever the budget, the parts hold the body lines of the blocks, each once and in order.
pub part_bodies-repack_content :
    (header : List Bytes) (blocks : List Block) (max_bytes : ℕ)
    → part_bodies (repack_content header blocks max_bytes) ≡ bodies blocks
unfolding repack_content
part_bodies-repack_content header blocks max_bytes = part_bodies-repack_from header _ [] 0 blocks
