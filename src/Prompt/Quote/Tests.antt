-- ===== src/Prompt/Quote/Tests.antt =====
-- A line with an escape sequence and a fence (internal/prompt/quote.go).
use crossrev.Prelude.{◌≡◌, refl, [], ◌∷◌, ◌++◌, map, All}
use crossrev.Prelude.Bytes.{Bytes, codes, newline, has_prefix, trim_newline}
use crossrev.Prelude.Scan.{drop, split_on, split_lines, join_lines}
use crossrev.Prompt.Quote.{flat_byte, quote_block, skill_body}
use crossrev.Prompt.Quote.Quoted.{IsQuotedLine, quote_block-IsQuoted}

-- An escape character, a newline, a fence and a newline.
abbrev text : Bytes
text = 27 ∷ codes "[31m" ++ newline ∷ codes "````" ++ newline ∷ []

text-quoted : quote_block text ≡ codes "     [31m" ++ newline ∷ codes "    ````"
unfolding quote_block split_on trim_newline
text-quoted = refl

text-is_text : text ≡ [] → ⊥
text-is_text h = cc

quote_block-IsQuoted_example :
    All IsQuotedLine (split_lines (quote_block text))
    × (join_lines (map (drop 4) (split_lines (quote_block text)))
        ≡ trim_newline (map flat_byte text))
quote_block-IsQuoted_example = quote_block-IsQuoted text text-is_text

fence-removed : skill_body (codes "---" ++ newline ∷ codes "name") ≡ codes "name"
unfolding skill_body has_prefix
fence-removed = refl

fence-alone : skill_body (codes "---") ≡ []
unfolding skill_body has_prefix
fence-alone = refl
