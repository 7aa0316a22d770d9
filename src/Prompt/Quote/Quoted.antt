-- ===== src/Prompt/Quote/Quoted.antt =====
-- What stands in a quoted block, line by line.
use crossrev.Prelude.{
  arith, ℕ, ◌≤◌, inl, inr, List, [], ◌∷◌, ◌++◌, map, ◌≡◌, ◌≢◌, refl, ◌==◌, nat_Eq, nat_eq_iff, All,
  All-weaken, Bool-cases, ap, sym, ◌∙◌, subst,
}
use crossrev.Prelude.Bytes.{Bytes, newline, trim_newline}
use crossrev.Prelude.Scan.{
  drop, prepend, split_on, split_lines, split_on-cons, Differs, split_on-part, split_on-last,
  join_lines, join-split_lines,
}
use crossrev.Prompt.Quote.{flat_byte, indent, quote_lines, quote_block}

-- A byte that a line of a block may hold: no control character and no end of a line.
abbrev pub IsShown : ℕ → Type 0
IsShown b = (32 ≤ b) × (b ≢ 127)

abbrev IsText : ℕ → Type 0
IsText b = (b ≢ newline) → IsShown b

-- Four spaces, then bytes that may be shown.
abbrev pub IsQuotedLine : Bytes → Type 0
IsQuotedLine l = (body : Bytes) × (l ≡ indent ++ body) × All IsShown body

flat_byte-IsText : (b : ℕ) → IsText (flat_byte b)
unfolding flat_byte
flat_byte-IsText b h = ground arith

flat-All : (s : Bytes) → All IsText (map flat_byte s)
flat-All [] = tt
flat-All (b ∷ s) = (flat_byte-IsText b, flat-All s)

trim_newline-All : (s : Bytes) → All IsText s → All IsText (trim_newline s)
unfolding trim_newline
trim_newline-All [] h = tt
trim_newline-All (c ∷ []) h = ground arith
trim_newline-All (c ∷ d ∷ s) h = (h.0, trim_newline-All (d ∷ s) h.1)

prepend-All :
    (c : ℕ) (ls : List Bytes) → IsShown c → All (All IsShown) ls → All (All IsShown) (prepend c ls)
prepend-All c [] h k = ((h, tt), tt)
prepend-All c (l ∷ ls) h k = ((h, k.0), k.1)

split_lines-All : (s : Bytes) → All IsText s → All (All IsShown) (split_lines s)
unfolding split_on
split_lines-All [] h = (tt, tt)
split_lines-All (c ∷ s) h = elim (Bool-cases (c == newline)) [
  | inl p ↦ rw p (tt, split_lines-All s h.1)
  | inr p ↦ rw p (
      prepend-All c (split_lines s) (h.0 (ground (arith, p, nat_eq_iff c newline)))
        (split_lines-All s h.1))
]

shown-Differs : (c : ℕ) → IsShown c → Differs newline c
shown-Differs c h = ground arith

shown-All : (l : Bytes) → All IsShown l → All (Differs newline) l
shown-All = All-weaken IsShown (Differs newline) shown-Differs

indent-All : (l : Bytes) → All IsShown l → All IsShown (indent ++ l)
indent-All l h = ground arith

-- The lines of what the loop over the lines writes are its lines, each behind the four spaces.
split_lines-quote_lines :
    (l : Bytes) (ls : List Bytes)
    → All (All IsShown) (l ∷ ls)
    → split_lines (quote_lines (l ∷ ls)) ≡ map (λ b. indent ++ b) (l ∷ ls)
unfolding quote_lines
split_lines-quote_lines l [] h =
    split_on-last newline (indent ++ l) (shown-All (indent ++ l) (indent-All l h.0))
split_lines-quote_lines l (m ∷ ls) h = simp (
  split_on-part newline (indent ++ l) (quote_lines (m ∷ ls))
      (shown-All (indent ++ l) (indent-All l h.0)),
  split_lines-quote_lines m ls h.1,
)

quoted-All : (ls : List Bytes) → All (All IsShown) ls → All IsQuotedLine (map (λ b. indent ++ b) ls)
quoted-All [] h = tt
quoted-All (l ∷ ls) h = ((l, refl, h.0), quoted-All ls h.1)

drop-indent : (ls : List Bytes) → map (drop 4) (map (λ b. indent ++ b) ls) ≡ ls
drop-indent [] = refl
drop-indent (l ∷ ls) = ap (λ t. l ∷ t) (drop-indent ls)

-- Every line of a quoted block starts with four spaces and holds no control character, and the
-- lines behind the spaces are the text with its control characters as spaces, less one newline at
-- its end.
pub quote_block-IsQuoted :
    (text : Bytes)
    → text ≢ []
    → All IsQuotedLine (split_lines (quote_block text))
      × (join_lines (map (drop 4) (split_lines (quote_block text)))
          ≡ trim_newline (map flat_byte text))
unfolding quote_block
quote_block-IsQuoted [] h = absurd (h refl)
quote_block-IsQuoted (b ∷ text) h =
    let flat = trim_newline (map flat_byte (b ∷ text)) in
    let shown = split_lines-All flat (trim_newline-All _ (flat-All (b ∷ text))) in
    let (l, ls, e) = split_on-cons newline flat in
    let lines = split_lines-quote_lines l ls (subst (All (All IsShown)) e shown) in
    let quoted = ap (λ ls'. split_lines (quote_lines ls')) e ∙ lines in
    rw quoted (
      quoted-All (l ∷ ls) (subst (All (All IsShown)) e shown),
      ap join_lines (drop-indent (l ∷ ls)) ∙ ap join_lines (sym e) ∙ join-split_lines flat,
    )
