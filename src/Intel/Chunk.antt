-- ===== src/Intel/Chunk.antt =====
-- internal/intel/split.go: `chunkHunk`, `repackContent` and `unitBlocks`.
pub mod Bodies
pub mod Sizes
pub mod Numbers
mod Tests
use crossrev.Prelude.{
  ℕ, ◌+◌, ◌&&◌, List, [], ◌∷◌, ◌++◌, Option, none, some, ◌==◌, nat_Eq, ltb, leb, if◌then◌else◌,
}
use crossrev.Prelude.Bytes.{Bytes, codes, newline, has_prefix, trim_newline, itoa_bytes}
use crossrev.Intel.Split.{Block, PartContent, HunkRange, block_bytes, hunk_range}

-- A line with the "\ No newline" markers glued to it, its bytes, and how many lines it is on each
-- side.
pub record Cell : Type 0 where
  pub lines : List Bytes
  pub size : ℕ
  pub old : ℕ
  pub new : ℕ

pub new_cell : Bytes → Cell
new_cell [] = record { lines = [] ∷ []; size = 0; old = 0; new = 0 }
new_cell (c ∷ line) = record {
  lines = (c ∷ line) ∷ [];
  size = block_bytes ((c ∷ line) ∷ []);
  old = if c == b' ' then 1 else if c == b'-' then 1 else 0;
  new = if c == b' ' then 1 else if c == b'+' then 1 else 0;
}

pub glue : Cell → Bytes → Cell
glue last line = record last {
  lines = last.lines ++ line ∷ [];
  size = last.size + block_bytes (line ∷ []);
}

pub cells_from : Cell → List Bytes → List Cell
unfolding new_cell glue
cells_from last [] = last ∷ []
cells_from last (line ∷ lines) =
    let glued = cells_from (glue last line) lines in
    let opened = last ∷ cells_from (new_cell line) lines in
    if has_prefix line (b'\\' ∷ []) then glued else opened

-- The loop over `block[1:]`. A marker on the first line has no cell to go to and opens one.
pub cells_of : List Bytes → List Cell
unfolding cells_from
cells_of [] = []
cells_of (line ∷ lines) = cells_from (new_cell line) lines

-- The loop over the cells from `start` on: a group takes its first cell whatever its size, and then
-- each next one that fits. A first cell past the budget leaves room for no other.
pub groups_from : ℕ → List Cell → ℕ → List Cell → List (List Cell)
groups_from max_bytes group size [] = group ∷ []
groups_from max_bytes group size (c ∷ cells) =
    let taken = groups_from max_bytes (group ++ c ∷ []) (size + c.size) cells in
    let closed = group ∷ groups_from max_bytes (c ∷ []) c.size cells in
    if leb (size + c.size) max_bytes then taken else closed

pub groups_of : ℕ → List Cell → List (List Cell)
unfolding groups_from
groups_of max_bytes [] = []
groups_of max_bytes (c ∷ cells) = groups_from max_bytes (c ∷ []) c.size cells

abbrev pub old_lines : List Cell → ℕ
old_lines [] = 0
old_lines (c ∷ cells) = c.old + old_lines cells

abbrev pub new_lines : List Cell → ℕ
new_lines [] = 0
new_lines (c ∷ cells) = c.new + new_lines cells

abbrev pub cell_lines : List Cell → List Bytes
cell_lines [] = []
cell_lines (c ∷ cells) = c.lines ++ cell_lines cells

-- `fmt.Sprintf("@@ -%d,%d +%d,%d @@%s", …)`.
unfoldable pub hunk_head : ℕ → ℕ → ℕ → ℕ → Bytes → Bytes
hunk_head old old_len new new_len suffix =
    codes "@@ -"
    ++ (itoa_bytes old
        ++ (codes ","
            ++ (itoa_bytes old_len
                ++ (codes " +"
                    ++ (itoa_bytes new
                        ++ (codes ","
                            ++ (itoa_bytes new_len
                                ++ (codes " @@" ++ (trim_newline suffix ++ newline ∷ [])))))))))

-- Each chunk has a header of its own, and the next one starts where it ends.
pub render_groups : ℕ → ℕ → Bytes → List (List Cell) → List Block
render_groups old new suffix [] = []
render_groups old new suffix (g ∷ gs) =
    (hunk_head old (old_lines g) new (new_lines g) suffix ∷ cell_lines g)
    ∷ render_groups (old + old_lines g) (new + new_lines g) suffix gs

pub chunk_body : Block → ℕ → Option HunkRange → Bytes → List Bytes → List Block
chunk_body block max_bytes none head body = block ∷ []
chunk_body block max_bytes (some r) head body =
    render_groups r.old_start r.new_start r.suffix (groups_of max_bytes (cells_of body))

unfoldable pub chunk_hunk : Block → ℕ → List Block
unfolding chunk_body render_groups groups_of cells_of
chunk_hunk [] max_bytes = []
chunk_hunk (head ∷ body) max_bytes = chunk_body (head ∷ body) max_bytes (hunk_range head) head body

-- `flush`: the open part is put out unless it has no block.
pub flush : List Bytes → List Block → List PartContent
flush header [] = []
flush header (b ∷ bs) = record { header = header; blocks = b ∷ bs } ∷ []

pub single_parts : List Bytes → List Block → List PartContent
single_parts header [] = []
single_parts header (b ∷ bs) = record { header = header; blocks = b ∷ [] } ∷ single_parts header bs

-- The loop of `repackContent`: `blocks` and `bytes` are the open part's.
pub repack_from : List Bytes → ℕ → List Block → ℕ → List Block → List PartContent
unfolding flush single_parts
repack_from header max_bytes blocks bytes [] = flush header blocks
repack_from header max_bytes blocks bytes (b ∷ bs) =
    let chunked =
      flush header blocks
      ++ (single_parts header (chunk_hunk b max_bytes) ++ repack_from header max_bytes [] 0 bs) in
    let closed = flush header blocks ++ repack_from header max_bytes (b ∷ []) (block_bytes b) bs in
    let joined = repack_from header max_bytes (blocks ++ b ∷ []) (bytes + block_bytes b) bs in
    if ltb max_bytes (block_bytes b)
    then chunked
    else if ltb 0 bytes && ltb max_bytes (bytes + block_bytes b)
    then closed
    else joined

unfoldable pub repack_content : List Bytes → List Block → ℕ → List PartContent
unfolding repack_from
repack_content header blocks max_bytes =
    repack_from header (if ltb max_bytes 1 then 1 else max_bytes) [] 0 blocks
