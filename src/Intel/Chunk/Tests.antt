-- ===== src/Intel/Chunk/Tests.antt =====
-- A hunk of three changed lines.
use crossrev.Prelude.{List, [], ◌∷◌, ◌++◌, some, ◌≡◌, refl, All, ltb, if◌then◌else◌}
use crossrev.Prelude.Bytes.{Bytes, codes, newline, cut, cut_prefix, fields, atoi_nat}
use crossrev.Intel.Split.{Block, HunkRange, hunk_range, hunk_field}
use crossrev.Intel.Chunk.{chunk_hunk, repack_content}
use crossrev.Intel.Chunk.Bodies.{bodies}
use crossrev.Intel.Chunk.Sizes.{PartFits, repack_content-PartFits}
use crossrev.Intel.Chunk.Numbers.{Numbered, chunk_hunk-Numbered}

abbrev line : Bytes → Bytes
line text = text ++ newline ∷ []

abbrev hunk_line : Bytes
hunk_line = line (codes "@@ -10,2 +10,2 @@")

abbrev hunk_body : List Bytes
hunk_body = line (codes " a") ∷ line (codes "-b") ∷ line (codes "+c") ∷ []

abbrev hunk_numbers : HunkRange
hunk_numbers = record {
  old_start = 10;
  old_len = 2;
  new_start = 10;
  new_len = 2;
  suffix = newline ∷ [];
}

hunk_line_reads : hunk_range hunk_line ≡ some hunk_numbers
unfolding hunk_range cut_prefix cut fields hunk_field atoi_nat
hunk_line_reads = refl

chunk_hunk-Numbered_example :
    Numbered 10 10 (newline ∷ []) (chunk_hunk (hunk_line ∷ hunk_body) 6)
    × (bodies (chunk_hunk (hunk_line ∷ hunk_body) 6) ≡ hunk_body)
chunk_hunk-Numbered_example = chunk_hunk-Numbered hunk_line hunk_body 6 hunk_numbers hunk_line_reads

abbrev blocks : List Block
blocks = (hunk_line ∷ hunk_body) ∷ (hunk_line ∷ []) ∷ []

repack_content-PartFits_example :
    All (PartFits (if ltb 30 1 then 1 else 30)) (repack_content [] blocks 30)
repack_content-PartFits_example = repack_content-PartFits [] blocks 30
