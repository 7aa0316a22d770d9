-- ===== src/Intel/Split.antt =====
-- internal/intel/split.go: cutting one file's diff into parts. A line is a list of bytes, and sizes,
-- lengths and line numbers are natural numbers.
pub mod Lossless
mod Tests
use mathlib.Core.List.{flatten}
use crossrev.Prelude.{
  ℕ, ◌+◌, ◌-◌, ◌/◌, Bool, true, false, ◌&&◌, List, [], ◌∷◌, ◌++◌, map, Option, none, some, ◌==◌,
  nat_Eq, ltb, leb, length, if◌then◌else◌,
}
use crossrev.Prelude.Bytes.{
  Bytes, codes, newline, has_prefix, cut_prefix, cut, trim_newline, split_after_newline, atoi_nat,
  itoa_bytes, fields,
}

abbrev pub Block : Type 0
Block = List Bytes

pub record PartContent : Type 0 where
  pub header : List Bytes
  pub blocks : List Block

-- `bytes`.
unfoldable pub part_bytes : PartContent → Bytes
part_bytes p = flatten p.header ++ flatten (map flatten p.blocks)

-- `blockBytes`: the bytes of one block.
abbrev pub block_bytes : Block → ℕ
block_bytes [] = 0
block_bytes (line ∷ lines) = length line + block_bytes lines

abbrev pub blocks_bytes : List Block → ℕ
blocks_bytes [] = 0
blocks_bytes (b ∷ bs) = block_bytes b + blocks_bytes bs

-- `contentBytes`.
unfoldable pub content_bytes : PartContent → ℕ
content_bytes p = blocks_bytes p.blocks

abbrev pub hunk_mark : Bytes
hunk_mark = b'@' ∷ b'@' ∷ []

-- The loop of `splitDiffContent` after the first `@@` line: `current` is the open block.
split_blocks : Block → List Bytes → List Block
split_blocks current [] = current ∷ []
split_blocks current (line ∷ lines) =
    let closed = current ∷ split_blocks (line ∷ []) lines in
    let longer = split_blocks (current ++ line ∷ []) lines in
    if has_prefix line hunk_mark then closed else longer

-- The loop before the first `@@` line. An empty line is one that `SplitAfter` leaves at the end.
split_header : List Bytes → List Bytes → List Bytes × List Block
split_header header [] = (header, [])
split_header header (line ∷ lines) =
    let longer = split_header (header ++ line ∷ []) lines in
    if has_prefix line hunk_mark then (header, split_blocks (line ∷ []) lines) else longer

abbrev pub drop_empty : List Bytes → List Bytes
drop_empty [] = []
drop_empty ([] ∷ lines) = drop_empty lines
drop_empty ((c ∷ line) ∷ lines) = (c ∷ line) ∷ drop_empty lines

unfoldable pub split_diff_content : Bytes → List Bytes × List Block
unfolding split_header split_blocks
split_diff_content diff_bytes = split_header [] (drop_empty (split_after_newline diff_bytes))

-- `lines[n-1] == ""` is taken off.
drop_last_empty : List Bytes → List Bytes
drop_last_empty [] = []
drop_last_empty ([] ∷ []) = []
drop_last_empty (line ∷ []) = line ∷ []
drop_last_empty (line ∷ next ∷ lines) = line ∷ drop_last_empty (next ∷ lines)

context_hunk : List Bytes → List Block
context_hunk [] = []
context_hunk (line ∷ lines) =
    let n = itoa_bytes (length (line ∷ lines)) in
    ((codes "@@ -1," ++ n ++ codes " +1," ++ n ++ codes " @@" ++ newline ∷ [])
      ∷ map (λ l. 32 ∷ l) (line ∷ lines))
    ∷ []

unfoldable pub synth_blocks : Bytes → Bytes → List Bytes × List Block
unfolding drop_last_empty context_hunk
synth_blocks path body = (
  (codes "diff --git a/" ++ path ++ codes " b/" ++ path ++ newline ∷ [])
      ∷ (codes "--- a/" ++ path ++ newline ∷ [])
      ∷ (codes "+++ b/" ++ path ++ newline ∷ [])
      ∷ [],
  context_hunk (drop_last_empty (split_after_newline body)),
)

pub record HunkRange : Type 0 where
  pub old_start : ℕ
  pub old_len : ℕ
  pub new_start : ℕ
  pub new_len : ℕ
  pub suffix : Bytes

abbrev both : Option ℕ → Option ℕ → Option (ℕ × ℕ)
both (some a) (some b) = some (a, b)
both _ _ = none

start_count : Bytes → Option (Bytes × Bytes) → Option (ℕ × ℕ)
start_count text (some (start, count)) = both (atoi_nat start) (atoi_nat count)
start_count text none = both (atoi_nat text) (atoi_nat (codes "1"))

unfoldable pub hunk_field : Bytes → ℕ → Option (ℕ × ℕ)
unfolding start_count
hunk_field [] sign = none
hunk_field (c ∷ text) sign = if c == sign then start_count text (cut (b',' ∷ []) text) else none

range_of_fields : List Bytes → Bytes → Option HunkRange
range_of_fields (o ∷ n ∷ []) suffix = elim (hunk_field o b'-') [
  | none ↦ none
  | some (os, ol) ↦ elim (hunk_field n b'+') [
    | none ↦ none
    | some (ns, nl) ↦
        some
          (record { old_start = os; old_len = ol; new_start = ns; new_len = nl; suffix = suffix })
  ]
]
range_of_fields _ suffix = none

unfoldable pub hunk_range : Bytes → Option HunkRange
unfolding range_of_fields
hunk_range header = elim (cut_prefix header hunk_mark) [
  | none ↦ none
  | some rest ↦ elim (cut hunk_mark rest) [
    | none ↦ none
    | some (middle, suffix) ↦ range_of_fields (fields middle) suffix
  ]
]
