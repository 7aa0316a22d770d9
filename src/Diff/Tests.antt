-- ===== src/Diff/Tests.antt =====
-- A hunk with a removed, an added and a context line (internal/diff).
use crossrev.Prelude.{
  arith, map, All, length, ◌++◌, some, none, Option, String, ◌≤◌, ℕ, true, false, List, [], ◌∷◌,
  ◌≡◌, ◌↔◌, refl,
}
use crossrev.Core.Spans.{covers_span}
use crossrev.Prelude.Bytes.{Bytes, codes, has_prefix}
use crossrev.Core.Revision.{RevisionPair}
use crossrev.Diff.Lines.{Section, Line, Diff}
use crossrev.Diff.Parser.{Parsing, records, keep_header, start, steps, parse}
use crossrev.Diff.Parser.Kept.{IsKept, parse-Keeps}
use crossrev.Diff.Parser.Counting.{IsBody, counted_lines, steps-counts}
use crossrev.Diff.Quoting.{hunk_start, word_at, words}
use crossrev.Diff.Output.Aligned.{IsAligned, numbered-IsAligned}
use crossrev.Diff.Output.{numbered, gutter_width}
use crossrev.Diff.Anchor.{anchor, changed_line}
use crossrev.Diff.Anchor.Nearest.{Offers, IsNearest, anchor-IsNearest}
use crossrev.Diff.Ranges.{line_ranges}
use crossrev.Diff.Ranges.Shown.{OnOld, OnNew, line_ranges-covers_iff}

abbrev hunk : List Line
hunk =
    record {
      header = true;
      section = 0;
      raw = codes "@@ -8,2 +8,2 @@";
      old_no = 0;
      has_old = false;
      new_no = 0;
      has_new = false;
    }
    ∷ record {
      header = false;
      section = 0;
      raw = codes "-a";
      old_no = 8;
      has_old = true;
      new_no = 0;
      has_new = false;
    }
    ∷ record {
      header = false;
      section = 0;
      raw = codes "+b";
      old_no = 0;
      has_old = false;
      new_no = 8;
      has_new = true;
    }
    ∷ record {
      header = false;
      section = 0;
      raw = codes " c";
      old_no = 9;
      has_old = true;
      new_no = 9;
      has_new = true;
    }
    ∷ []

hunk_shows :
    line_ranges hunk ≡ (record { start = 8; end = 9 } ∷ [], record { start = 8; end = 9 } ∷ [])
unfolding line_ranges crossrev.Core.Spans.merge_line_spans
hunk_shows = refl

line_ranges-covers_iff_example :
    ((covers_span (line_ranges hunk).0 8 9 ≡ true)
      ↔ ((1 ≤ 8) × (8 ≤ 9) × ((n : ℕ) → 8 ≤ n → n ≤ 9 → OnOld hunk n)))
    × ((covers_span (line_ranges hunk).1 8 9 ≡ true)
        ↔ ((1 ≤ 8) × (8 ≤ 9) × ((n : ℕ) → 8 ≤ n → n ≤ 9 → OnNew hunk n)))
line_ranges-covers_iff_example = line_ranges-covers_iff hunk 8 9

abbrev sections : List Section
sections = record { path_a = codes "a.go"; path_b = codes "a.go" } ∷ []

anchor_snaps : anchor sections (codes "a.go") "RIGHT" hunk 11 3 ≡ some 9
unfolding anchor
anchor_snaps = refl

anchor_misses : anchor sections (codes "a.go") "RIGHT" hunk 13 3 ≡ none
unfolding anchor
anchor_misses = refl

context_is_unchanged : changed_line sections (codes "a.go") "RIGHT" hunk 9 ≡ false
unfolding changed_line
context_is_unchanged = refl

anchor-IsNearest_example :
    IsNearest
      (Offers sections (codes "a.go") "RIGHT" hunk)
      11
      3
      (anchor sections (codes "a.go") "RIGHT" hunk 11 3)
anchor-IsNearest_example = anchor-IsNearest sections (codes "a.go") "RIGHT" hunk 11 3

abbrev text : String
text =
    "diff --git a/x.go b/x.go\n--- a/x.go\n+++ \"b/x\\303\\251.go\"\n@@ -8,2 +8,2 @@\n-a\n+b\n c\n"

abbrev numbered_text : String
numbered_text =
    "diff --git a/x.go b/x.go\n--- a/x.go\n+++ \"b/x\\303\\251.go\"\n@@ -8,2 +8,2 @@\n   8    - |-a\n   -    8 |+b\n   9    9 | c\n"

abbrev pair : RevisionPair
pair = record { base = record { sha = "b"; ref = "" }; head = record { sha = "h"; ref = "" } }

abbrev read {ℓ} : {A : Type ℓ} → (Diff → A) → Option Diff → Option A
read f none = none
read f (some d) = some (f d)

parse_sections :
    read (λ d. d.sections) (parse (codes text) pair)
    ≡ some (
        record { path_a = []; path_b = [] }
        ∷ record { path_a = codes "x.go"; path_b = b'x' ∷ 195 ∷ 169 ∷ codes ".go" }
        ∷ [])
unfolding parse crossrev.Diff.Parser.records crossrev.Prelude.Scan.split_on
    crossrev.Prelude.Bytes.trim_newline crossrev.Prelude.Bytes.has_prefix
    crossrev.Diff.Quoting.hunk_start crossrev.Prelude.Scan.before_byte crossrev.Diff.Quoting.word_at
    crossrev.Diff.Quoting.words crossrev.Diff.Quoting.header_path crossrev.Prelude.Bytes.cut_prefix
parse_sections = refl

parse-numbered : read numbered (parse (codes text) pair) ≡ some (codes numbered_text)
unfolding parse numbered crossrev.Diff.Parser.records crossrev.Prelude.Scan.split_on
    crossrev.Prelude.Bytes.trim_newline crossrev.Prelude.Bytes.has_prefix
    crossrev.Diff.Quoting.hunk_start crossrev.Prelude.Scan.before_byte crossrev.Diff.Quoting.word_at
    crossrev.Diff.Quoting.words crossrev.Prelude.Bytes.itoa_bytes crossrev.Diff.Quoting.incr
    crossrev.Diff.Output.gutter
parse-numbered = refl

abbrev no_diff : Diff
no_diff = record { revisions = pair; raw = []; sections = []; lines = []; widest = 0 }

abbrev get_diff : Option Diff → Diff
get_diff none = no_diff
get_diff (some d) = d

parsed : Diff
unfolding parse
parsed = get_diff (parse (codes text) pair)

reads : parse (codes text) pair ≡ some parsed
unfolding parse parsed records crossrev.Prelude.Scan.split_on crossrev.Prelude.Bytes.trim_newline
    has_prefix hunk_start crossrev.Prelude.Scan.before_byte word_at words
reads = refl

parse-Keeps_example :
    (parsed.raw ≡ codes text)
    × (map (λ l. l.raw) parsed.lines ≡ records (codes text))
    × All (IsKept (length parsed.sections) parsed.widest) parsed.lines
parse-Keeps_example = parse-Keeps (codes text) pair parsed reads

numbered-IsAligned_example : IsAligned (gutter_width parsed.widest) parsed.lines (numbered parsed)
numbered-IsAligned_example = numbered-IsAligned (codes text) pair parsed reads

abbrev hunk_head : Bytes
hunk_head = codes "@@ -8,2 +8,2 @@"

abbrev body : List Bytes
body = codes "-a" ∷ codes "+b" ∷ codes " c" ∷ []

no_git : has_prefix hunk_head (codes "diff --git ") ≡ false
unfolding has_prefix
no_git = refl

is_hunk : has_prefix hunk_head (codes "@@") ≡ true
unfolding has_prefix
is_hunk = refl

old_start : hunk_start (word_at (words hunk_head) 1) ≡ some 8
unfolding hunk_start crossrev.Prelude.Scan.before_byte word_at words
old_start = refl

new_start : hunk_start (word_at (words hunk_head) 2) ≡ some 8
unfolding hunk_start crossrev.Prelude.Scan.before_byte word_at words
new_start = refl

All-IsBody : All IsBody body
unfolding has_prefix
All-IsBody = ground arith

steps-counts_example :
    (q : Parsing) × (steps (some start) (hunk_head ∷ body) ≡ some q)
    × (q.lines ≡ (keep_header hunk_head start).lines ++ counted_lines start.cur 8 8 body)
    × (q.sections ≡ start.sections)
steps-counts_example =
    steps-counts start hunk_head body 8 8 no_git is_hunk old_start new_start All-IsBody
      (omega arith) (omega arith)
