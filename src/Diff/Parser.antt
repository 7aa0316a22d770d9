-- ===== src/Diff/Parser.antt =====
-- internal/diff/parser.go: `Parse`, a loop over the records of a diff with the section, the hunk and
-- the two line numbers as its state. A hunk header that starts at a negative number, which git never
-- writes, is not modelled: there is no diff then.
pub mod Counting
pub mod Kept
use crossrev.Prelude.{
  ℕ, zero, suc, Bool, true, false, not, ◌&&◌, Option, none, some, List, [], ◌∷◌, ◌++◌, length, ltb,
  if◌then◌else◌, ◌==◌, nat_Eq,
}
use crossrev.Prelude.Bytes.{Bytes, codes, has_prefix, trim_newline}
use crossrev.Prelude.Scan.{bytes_Eq, drop, split_lines}
use crossrev.Core.Revision.{RevisionPair}
use crossrev.Diff.Lines.{Section, Line, Diff}
use crossrev.Diff.Quoting.{header_path, hunk_start, incr, words, word_at}

-- The variables of the loop.
pub record Parsing : Type 0 where
  pub sections : List Section
  pub lines : List Line
  pub widest : ℕ
  pub cur : ℕ
  pub in_hunk : Bool
  pub old_no : ℕ
  pub new_no : ℕ

abbrev pub no_paths : Section
no_paths = record { path_a = []; path_b = [] }

unfoldable pub records : Bytes → List Bytes
records [] = []
records (c ∷ s) = split_lines (trim_newline (c ∷ s))

abbrev pub set_section : (Section → Section) → ℕ → List Section → List Section
set_section f n [] = []
set_section f zero (s ∷ ss) = f s ∷ ss
set_section f (suc n) (s ∷ ss) = s ∷ set_section f n ss

pub widen : ℕ → ℕ → Bool → ℕ
widen widest n has = if has && ltb widest n then n else widest

pub keep_header : Bytes → Parsing → Parsing
keep_header rec p = record p {
  lines =
      p.lines
      ++ record {
        header = true;
        section = p.cur;
        raw = rec;
        old_no = 0;
        has_old = false;
        new_no = 0;
        has_new = false;
      }
        ∷ [];
}

pub keep_body : Bytes → ℕ → Bool → ℕ → Bool → Parsing → Parsing
unfolding widen
keep_body rec old has_old new has_new p = record p {
  lines =
      p.lines
      ++ record {
        header = false;
        section = p.cur;
        raw = rec;
        old_no = old;
        has_old = has_old;
        new_no = new;
        has_new = has_new;
      }
        ∷ [];
  widest = widen (widen p.widest old has_old) new has_new;
}

pub open_section : Bytes → Parsing → Parsing
open_section rec p =
    keep_header rec (record p {
      sections = p.sections ++ no_paths ∷ [];
      cur = length p.sections;
      in_hunk = false;
    })

pub open_hunk : Bytes → Parsing → Option ℕ → Option ℕ → Option Parsing
open_hunk rec p (some old) (some new) =
    some (keep_header rec (record p { in_hunk = true; old_no = old; new_no = new }))
open_hunk rec p old new = none

pub set_a : Bytes → Parsing → Parsing
set_a rec p = keep_header rec (record p {
  sections =
      set_section (λ s. record s { path_a = header_path (drop 4 rec) (codes "a/") }) p.cur
        p.sections;
})

pub set_b : Bytes → Parsing → Parsing
set_b rec p = keep_header rec (record p {
  sections =
      set_section (λ s. record s { path_b = header_path (drop 4 rec) (codes "b/") }) p.cur
        p.sections;
})

pub added : Bytes → Parsing → Parsing
added rec p = record (keep_body rec 0 false p.new_no true p) { new_no = incr p.new_no }

pub removed : Bytes → Parsing → Parsing
removed rec p = record (keep_body rec p.old_no true 0 false p) { old_no = incr p.old_no }

pub context : Bytes → Parsing → Parsing
context rec p = record (keep_body rec p.old_no true p.new_no true p) {
  old_no = incr p.old_no;
  new_no = incr p.new_no;
}

-- One round of the loop.
pub step : Parsing → Bytes → Option Parsing
step p rec =
    if has_prefix rec (codes "diff --git ")
    then some (open_section rec p)
    else if has_prefix rec (codes "@@")
    then open_hunk rec p (hunk_start (word_at (words rec) 1)) (hunk_start (word_at (words rec) 2))
    else if not p.in_hunk && has_prefix rec (codes "--- ")
    then some (set_a rec p)
    else if not p.in_hunk && has_prefix rec (codes "+++ ")
    then some (set_b rec p)
    else if not p.in_hunk
    then some (keep_header rec p)
    else if has_prefix rec (codes "\\")
    then some (keep_header rec p)
    else if has_prefix rec (codes "+")
    then some (added rec p)
    else if has_prefix rec (codes "-")
    then some (removed rec p)
    else some (context rec p)

pub steps : Option Parsing → List Bytes → Option Parsing
steps none recs = none
steps (some p) [] = some p
steps (some p) (rec ∷ recs) = steps (step p rec) recs

abbrev pub start : Parsing
start = record {
  sections = no_paths ∷ [];
  lines = [];
  widest = 0;
  cur = 0;
  in_hunk = false;
  old_no = 0;
  new_no = 0;
}

abbrev pub finish : Bytes → RevisionPair → Option Parsing → Option Diff
finish raw revisions none = none
finish raw revisions (some p) = some (record {
  revisions = revisions;
  raw = raw;
  sections = p.sections;
  lines = p.lines;
  widest = p.widest;
})

unfoldable pub parse : Bytes → RevisionPair → Option Diff
unfolding steps step added removed context set_a set_b open_section open_hunk keep_header keep_body
parse raw revisions = finish raw revisions (steps (some start) (records raw))

pub record DiffFile : Type 0 where
  pub path : Bytes
  pub old_path : Bytes
  pub deleted : Bool

files_of : List Section → List DiffFile
files_of [] = []
files_of (s ∷ ss) =
    let rest = files_of ss in
    if s.path_a == [] && s.path_b == []
    then rest
    else if s.path_b == []
    then record { path = s.path_a; old_path = s.path_a; deleted = true } ∷ rest
    else record { path = s.path_b; old_path = s.path_a; deleted = false } ∷ rest

unfoldable pub files : Diff → List DiffFile
unfolding files_of
files d = files_of d.sections
