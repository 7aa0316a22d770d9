-- ===== src/Intel/Plan/Tests.antt =====
-- A file with a diff of one hunk, cut into parts.
use crossrev.Prelude.{ℕ, [], ◌∷◌, ◌++◌}
use crossrev.Prelude.Bytes.{codes, newline}
use crossrev.Intel.Plan.{FileUnit, Call, files, part, unit_blocks, split_and_verify}
use crossrev.Intel.Plan.Parts.{Covers, split_and_verify-Covers}

abbrev file_unit : FileUnit
file_unit = record {
  id = "f1";
  path = codes "a.go";
  body = [];
  generated = "";
  diff = codes "@@ -1,1 +1,1 @@" ++ newline ∷ codes "-x" ++ newline ∷ codes "+y";
}

abbrev fixed_size : Call → ℕ
fixed_size (files us) = 9000
fixed_size (part p) = 500

split_and_verify-Covers_example :
    Covers (unit_blocks file_unit).1 (split_and_verify file_unit 8000 100 fixed_size)
split_and_verify-Covers_example = split_and_verify-Covers file_unit 8000 100 fixed_size
