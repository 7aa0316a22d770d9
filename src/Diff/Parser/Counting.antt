-- ===== src/Diff/Parser/Counting.antt =====
-- The numbers that `Parse` gives to the lines of a hunk.
use crossrev.Prelude.{
  arith, ℕ, ◌+◌, ◌≤◌, ◌<◌, Bool, true, false, not, some, List, [], ◌∷◌, ◌++◌, ◌≡◌, refl, sym, ◌∙◌,
  ap, length, All, if◌then◌else◌, nat_Eq, nat_eq_iff,
}
use mathlib.Core.List.{append_assoc, append-nil}
use crossrev.Prelude.Bytes.{Bytes, codes, has_prefix}
use crossrev.Diff.Lines.{Line}
use crossrev.Diff.Quoting.{hunk_start, words, word_at, incr, max_int}
use crossrev.Diff.Parser.{
  Parsing, keep_header, keep_body, open_hunk, added, removed, context, step, steps,
}

-- A record of a hunk that is a line of a file.
abbrev pub IsBody : Bytes → Type 0
IsBody rec =
    (has_prefix rec (codes "diff --git ") ≡ false)
    × (has_prefix rec (codes "@@") ≡ false)
    × (has_prefix rec (codes "\\") ≡ false)

abbrev pub is_added : Bytes → Bool
is_added rec = has_prefix rec (codes "+")

abbrev pub is_removed : Bytes → Bool
is_removed rec = has_prefix rec (codes "-")

-- The line of a record, where the old side stands at `o` and the new side at `n`.
abbrev pub counted_line : ℕ → ℕ → ℕ → Bytes → Line
counted_line section o n rec =
    let plus = is_added rec in
    let minus = is_removed rec in
    record {
      header = false;
      section = section;
      raw = rec;
      old_no = if plus then 0 else o;
      has_old = not plus;
      new_no = if plus then n else if minus then 0 else n;
      has_new = if plus then true else not minus;
    }

-- Each side counts up by one with each line that stands on it.
abbrev pub counted_lines : ℕ → ℕ → ℕ → List Bytes → List Line
counted_lines section o n [] = []
counted_lines section o n (rec ∷ recs) =
    counted_line section o n rec
    ∷ counted_lines section (if is_added rec then o else o + 1)
        (if is_added rec then n + 1 else if is_removed rec then n else n + 1) recs

incr_lem : (n : ℕ) → n < max_int → incr n ≡ n + 1
unfolding incr
incr_lem n h = ground (arith, nat_eq_iff n max_int)

body_step : Parsing → Bytes → Parsing
body_step p rec =
    if is_added rec then added rec p else if is_removed rec then removed rec p else context rec p

step-body :
    (p : Parsing) (rec : Bytes)
    → p.in_hunk ≡ true
    → IsBody rec
    → step p rec ≡ some (body_step p rec)
unfolding step body_step
step-body p rec h b = ground arith

-- Where the parser stands after a record of a hunk.
abbrev Stands : Parsing → Parsing → List Line → ℕ → ℕ → Type 0
Stands p q ls o n =
    (q.lines ≡ p.lines ++ ls)
    × (q.old_no ≡ o)
    × (q.new_no ≡ n)
    × (q.in_hunk ≡ true)
    × (q.cur ≡ p.cur)
    × (q.sections ≡ p.sections)

body_step-Stands :
    (p : Parsing) (rec : Bytes)
    → p.in_hunk ≡ true
    → p.old_no < max_int
    → p.new_no < max_int
    → Stands p
        (body_step p rec)
        (counted_line p.cur p.old_no p.new_no rec ∷ [])
        (if is_added rec then p.old_no else p.old_no + 1)
        (if is_added rec then p.new_no + 1 else if is_removed rec then p.new_no else p.new_no + 1)
unfolding body_step added removed context keep_body
body_step-Stands p rec h o n = ground (arith, incr_lem p.old_no, incr_lem p.new_no)

steps-body :
    (p : Parsing) (recs : List Bytes)
    → p.in_hunk ≡ true
    → All IsBody recs
    → p.old_no + length recs ≤ max_int
    → p.new_no + length recs ≤ max_int
    → (q : Parsing) × (steps (some p) recs ≡ some q)
      × (q.lines ≡ p.lines ++ counted_lines p.cur p.old_no p.new_no recs)
      × (q.sections ≡ p.sections)
unfolding steps
steps-body p [] h b o n = (p, refl, sym (append-nil p.lines), refl)
steps-body p (rec ∷ recs) h b o n =
    let e = step-body p rec h b.0 in
    let s = body_step-Stands p rec h (omega (arith, o)) (omega (arith, n)) in
    let (q, run, lines, sections) =
      steps-body (body_step p rec) recs s.3 b.1 (ground (arith, s, o)) (ground (arith, s, n)) in
    (
      q,
      ap (λ r. steps r recs) e ∙ run,
      lines
          ∙ ap
              (λ ls.
                ls
                ++ counted_lines (body_step p rec).cur (body_step p rec).old_no
                    (body_step p rec).new_no recs)
              s.0
          ∙ rw (s.1, s.2, s.4)
              (append_assoc p.lines (counted_line p.cur p.old_no p.new_no rec ∷ []) _),
      sections ∙ s.5,
    )

step-open_hunk :
    (p : Parsing) (head : Bytes) (o n : ℕ)
    → has_prefix head (codes "diff --git ") ≡ false
    → has_prefix head (codes "@@") ≡ true
    → hunk_start (word_at (words head) 1) ≡ some o
    → hunk_start (word_at (words head) 2) ≡ some n
    → step p head ≡ some (keep_header head (record p { in_hunk = true; old_no = o; new_no = n }))
unfolding step open_hunk
step-open_hunk p head o n g h a b = ground (arith, g, h, a, b)

-- Where a hunk starts at `o` on the old side and at `n` on the new, and the records under its header
-- are lines of a file, few enough for the numbers to stay below the largest `int`, the parser records
-- the header and then each line, and each side counts up by one with each line that stands on it.
pub steps-counts :
    (p : Parsing) (head : Bytes) (recs : List Bytes) (o n : ℕ)
    → has_prefix head (codes "diff --git ") ≡ false
    → has_prefix head (codes "@@") ≡ true
    → hunk_start (word_at (words head) 1) ≡ some o
    → hunk_start (word_at (words head) 2) ≡ some n
    → All IsBody recs
    → o + length recs ≤ max_int
    → n + length recs ≤ max_int
    → (q : Parsing) × (steps (some p) (head ∷ recs) ≡ some q)
      × (q.lines ≡ (keep_header head p).lines ++ counted_lines p.cur o n recs)
      × (q.sections ≡ p.sections)
unfolding steps keep_header
steps-counts p head recs o n g h a b all k l =
    let opened = record p { in_hunk = true; old_no = o; new_no = n } in
    let (q, run, lines, sections) = steps-body (keep_header head opened) recs refl all k l in
    (q, ap (λ r. steps r recs) (step-open_hunk p head o n g h a b) ∙ run, lines, sections)
