-- ===== src/Prompt/Quote.antt =====
-- internal/prompt/quote.go: the quoting of repository text, and the body of a skill file.
pub mod Quoted
mod Tests
use crossrev.Prelude.{ℕ, ◌&&◌, ◌||◌, List, [], ◌∷◌, ◌++◌, map, ◌==◌, nat_Eq, leb, if◌then◌else◌}
use crossrev.Prelude.Bytes.{Bytes, codes, newline, has_prefix, trim_newline}
use crossrev.Prelude.Scan.{bytes_Eq, drop, split_lines}

-- The body of the loop over the bytes: a control character becomes a space.
unfoldable pub flat_byte : ℕ → ℕ
flat_byte b = if leb b 9 || leb 11 b && leb b 31 || b == 127 then 32 else b

abbrev pub indent : Bytes
indent = codes "    "

-- The loop over the lines; every line but the first has a newline before it.
unfoldable pub quote_lines : List Bytes → Bytes
quote_lines [] = []
quote_lines (l ∷ []) = indent ++ l
quote_lines (l ∷ m ∷ ls) = indent ++ l ++ newline ∷ quote_lines (m ∷ ls)

unfoldable pub quote_block : Bytes → Bytes
unfolding flat_byte quote_lines
quote_block [] = []
quote_block (b ∷ text) = quote_lines (split_lines (trim_newline (map flat_byte (b ∷ text))))

unfoldable pub skill_body : Bytes → Bytes
skill_body skill =
    if has_prefix skill (codes "---" ++ newline ∷ [])
    then drop 4 skill
    else if skill == codes "---"
    then []
    else skill
