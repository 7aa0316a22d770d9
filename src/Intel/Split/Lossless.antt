-- ===== src/Intel/Split/Lossless.antt =====
-- Cutting a diff into its header and its blocks loses no byte.
use mathlib.Core.List.{flatten, append_assoc, append-nil}
use crossrev.Prelude.{
  List, [], ◌∷◌, ◌++◌, map, ◌≡◌, refl, ◌∙◌, ap, Bool-cases, inl, inr, flatten-append,
}
use crossrev.Prelude.Bytes.{Bytes, has_prefix, flatten-split_after_newline, split_after_newline}
use crossrev.Intel.Split.{
  Block, part_bytes, split_diff_content, split_header, split_blocks, drop_empty, hunk_mark,
}

flatten-drop_empty : (ls : List Bytes) → flatten (drop_empty ls) ≡ flatten ls
unfolding flatten
flatten-drop_empty [] = refl
flatten-drop_empty ([] ∷ ls) = flatten-drop_empty ls
flatten-drop_empty ((c ∷ l) ∷ ls) = ap (λ r. c ∷ (l ++ r)) (flatten-drop_empty ls)

abbrev block_text : List Block → Bytes
block_text bs = flatten (map flatten bs)

block_text-split_blocks :
    (current : Block) (ls : List Bytes)
    → block_text (split_blocks current ls) ≡ flatten current ++ flatten ls
unfolding split_blocks flatten
block_text-split_blocks current [] = refl
block_text-split_blocks current (l ∷ ls) = elim (Bool-cases (has_prefix l hunk_mark)) [
  | inl p ↦ rw p (simp (block_text-split_blocks (l ∷ []) ls, append-nil))
  | inr p ↦ rw p (
      simp
        (block_text-split_blocks (current ++ l ∷ []) ls, flatten-append, append_assoc, append-nil))
]

text-split_header :
    (header ls : List Bytes)
    → let (h, bs) = split_header header ls in
      flatten h ++ block_text bs ≡ flatten header ++ flatten ls
unfolding split_header flatten
text-split_header header [] = refl
text-split_header header (l ∷ ls) = elim (Bool-cases (has_prefix l hunk_mark)) [
  | inl p ↦ rw p (simp (block_text-split_blocks (l ∷ []) ls, append-nil))
  | inr p ↦
      rw p
        (simp (text-split_header (header ++ l ∷ []) ls, flatten-append, append_assoc, append-nil))
]

-- The header and the blocks of a diff, put together again, are the diff, byte for byte.
pub part_bytes-split_diff_content :
    (diff_bytes : Bytes)
    → let (h, bs) = split_diff_content diff_bytes in
      part_bytes (record { header = h; blocks = bs }) ≡ diff_bytes
unfolding split_diff_content part_bytes flatten
part_bytes-split_diff_content diff_bytes =
    text-split_header [] (drop_empty (split_after_newline diff_bytes))
    ∙ flatten-drop_empty (split_after_newline diff_bytes)
    ∙ flatten-split_after_newline diff_bytes
