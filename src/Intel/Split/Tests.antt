-- ===== src/Intel/Split/Tests.antt =====
-- A small diff.
use crossrev.Prelude.{◌∷◌, ◌++◌, ◌≡◌}
use crossrev.Prelude.Bytes.{Bytes, codes, newline}
use crossrev.Intel.Split.{part_bytes, split_diff_content}
use crossrev.Intel.Split.Lossless.{part_bytes-split_diff_content}

abbrev small_diff : Bytes
small_diff =
    codes "--- a" ++ newline ∷ codes "@@ -1 +1 @@" ++ newline ∷ codes "-x" ++ newline ∷ codes "+y"

part_bytes-split_diff_content_example :
    let (h, bs) = split_diff_content small_diff in
    part_bytes (record { header = h; blocks = bs }) ≡ small_diff
part_bytes-split_diff_content_example = part_bytes-split_diff_content small_diff
