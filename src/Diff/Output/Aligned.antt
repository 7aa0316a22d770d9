-- ===== src/Diff/Output/Aligned.antt =====
-- The gutters of `Numbered` are of one width.
use crossrev.Prelude.{
  arith, ℕ, zero, suc, ◌-◌, ◌≤◌, true, false, some, List, [], ◌∷◌, ◌++◌, ◌≡◌, refl, ◌⊎◌, inl, inr,
  length, length-append, All, Bool, Bool-cases, ap, ◌∙◌, if◌then◌else◌,
}
use mathlib.Core.List.{append_assoc}
use crossrev.Prelude.Bytes.{Bytes, newline}
use crossrev.Prelude.Bytes.Digits.{length-itoa_mono}
use crossrev.Core.Revision.{RevisionPair}
use crossrev.Diff.Lines.{Line, Diff}
use crossrev.Diff.Parser.{parse}
use crossrev.Diff.Parser.Kept.{IsKept, parse-Keeps}
use crossrev.Diff.Output.{
  gutter, spaces, padded, gutter_width, line_gutter, numbered_line, numbered_lines, numbered,
}

-- A column: a number, or the dash of a side that does not have the line, behind spaces up to `w` bytes.
abbrev pub IsColumn : ℕ → ℕ → Bool → Bytes → Type 0
IsColumn w n has column = (length column ≡ w) × (k : ℕ) × (column ≡ spaces k ++ gutter n has)

-- What stands before a line: nothing before a header, and two columns and a bar before a body line.
abbrev pub IsGutter : ℕ → Line → Bytes → Type 0
IsGutter w l before =
    ((l.header ≡ true) × (before ≡ []))
    ⊎ ((l.header ≡ false)
        × (old : Bytes) × (new : Bytes) × (before ≡ old ++ (32 ∷ (new ++ 32 ∷ b'|' ∷ [])))
        × IsColumn w l.old_no l.has_old old
        × IsColumn w l.new_no l.has_new new)

-- A text that holds each of the lines in order, unchanged, behind its gutter and before a newline.
abbrev pub IsAligned : ℕ → List Line → Bytes → Type 0
IsAligned w [] text = text ≡ []
IsAligned w (l ∷ ls) text =
    (before : Bytes) × (rest : Bytes) × (text ≡ before ++ (l.raw ++ (newline ∷ rest)))
    × IsGutter w l before
    × IsAligned w ls rest

length-spaces : (n : ℕ) → length (spaces n) ≡ n
length-spaces zero = refl
length-spaces (suc n) = omega (arith, length-spaces n)

length-padded : (w : ℕ) (s : Bytes) → length s ≤ w → length (padded w s) ≡ w
unfolding padded
length-padded w s h =
    omega (arith, length-append (spaces (w - length s)) s, length-spaces (w - length s))

length-gutter :
    (widest n : ℕ) (has : _)
    → (has ≡ false) ⊎ (n ≤ widest)
    → length (gutter n has) ≤ gutter_width widest
unfolding gutter gutter_width
length-gutter widest n true h = ground (arith, length-itoa_mono n widest)
length-gutter widest n false h = ground arith

padded-IsColumn :
    (widest n : ℕ) (has : Bool)
    → (has ≡ false) ⊎ (n ≤ widest)
    → IsColumn (gutter_width widest) n has (padded (gutter_width widest) (gutter n has))
unfolding padded
padded-IsColumn widest n has h =
    let w = gutter_width widest in
    (length-padded w (gutter n has) (length-gutter widest n has h), w - length (gutter n has), refl)

-- What `numbered_line` puts before a line.
abbrev before_line : ℕ → Line → Bytes
before_line w l = if l.header then [] else line_gutter w l

numbered_line-before :
    (w : ℕ) (l : Line) (rest : Bytes)
    → numbered_line w l ++ rest ≡ before_line w l ++ (l.raw ++ (newline ∷ rest))
unfolding numbered_line
numbered_line-before w l rest = elim (Bool-cases l.header) [
  | inl p ↦ rw p (append_assoc l.raw (newline ∷ []) rest)
  | inr p ↦ rw p (
      append_assoc (line_gutter w l) (l.raw ++ newline ∷ []) rest
      ∙ ap (λ t. line_gutter w l ++ t) (append_assoc l.raw (newline ∷ []) rest))
]

before_line-IsGutter :
    (n widest : ℕ) (l : Line)
    → IsKept n widest l
    → IsGutter (gutter_width widest) l (before_line (gutter_width widest) l)
unfolding line_gutter
before_line-IsGutter n widest l (a, old, new, inl (h, b, c)) = inl (h, rw h refl)
before_line-IsGutter n widest l (a, old, new, inr (h, b)) =
    let w = gutter_width widest in
    inr (
      h,
      padded w (gutter l.old_no l.has_old),
      padded w (gutter l.new_no l.has_new),
      rw h refl,
      padded-IsColumn widest l.old_no l.has_old old,
      padded-IsColumn widest l.new_no l.has_new new,
    )

numbered_lines-IsAligned :
    (n widest : ℕ) (ls : List Line)
    → All (IsKept n widest) ls
    → IsAligned (gutter_width widest) ls (numbered_lines (gutter_width widest) ls)
unfolding numbered_lines
numbered_lines-IsAligned n widest [] h = refl
numbered_lines-IsAligned n widest (l ∷ ls) h =
    let w = gutter_width widest in
    (
      before_line w l,
      numbered_lines w ls,
      numbered_line-before w l (numbered_lines w ls),
      before_line-IsGutter n widest l h.0,
      numbered_lines-IsAligned n widest ls h.1,
    )

-- Where a diff parses, which it does here where no hunk starts at a negative number, its numbered
-- text holds each of its lines in order and unchanged, with a newline behind it: a header as it is,
-- and a body line behind its two numbers, or the dash of a side, in columns of one width for all lines
-- of the diff, and a bar.
pub numbered-IsAligned :
    (raw : Bytes) (revisions : RevisionPair) (d : Diff)
    → parse raw revisions ≡ some d
    → IsAligned (gutter_width d.widest) d.lines (numbered d)
unfolding numbered
numbered-IsAligned raw revisions d h =
    numbered_lines-IsAligned (length d.sections) d.widest d.lines (parse-Keeps raw revisions d h).2
