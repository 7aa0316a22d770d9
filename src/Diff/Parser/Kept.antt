-- ===== src/Diff/Parser/Kept.antt =====
-- What `Parse` keeps of a diff: every record, and numbers and sections that are in range.
use crossrev.Prelude.{
  arith, String, ℕ, zero, suc, ◌≤◌, ◌<◌, Bool, true, false, not, ◌&&◌, Option, none, some, List, [],
  ◌∷◌, ◌++◌, ◌≡◌, refl, ◌∙◌, ap, ◌⊎◌, inl, inr, map, length, length-append, All, All-append,
  All-weaken, if_both,
}
use mathlib.Core.List.{map-append, append_assoc, append-nil}
use crossrev.Prelude.Bytes.{Bytes, codes, has_prefix}
use crossrev.Core.Revision.{RevisionPair}
use crossrev.Diff.Lines.{Section, Line, Diff}
use crossrev.Diff.Quoting.{header_path}
use crossrev.Prelude.Scan.{drop}
use crossrev.Diff.Parser.{
  Parsing, no_paths, records, set_section, widen, keep_header, keep_body, open_section, open_hunk,
  set_a, set_b, added, removed, context, step, steps, start, finish, parse,
}

-- A recorded line: its section is one of `n`, its numbers are at most `w`, and it is a header with
-- no number or a body line with a number on some side.
abbrev pub IsKept : ℕ → ℕ → Line → Type 0
IsKept n w l =
    (l.section < n)
    × ((l.has_old ≡ false) ⊎ (l.old_no ≤ w))
    × ((l.has_new ≡ false) ⊎ (l.new_no ≤ w))
    × (((l.header ≡ true) × (l.has_old ≡ false) × (l.has_new ≡ false))
        ⊎ ((l.header ≡ false) × ((l.has_old ≡ true) ⊎ (l.has_new ≡ true))))

abbrev raw_of : Line → Bytes
raw_of l = l.raw

-- The loop's state after the records `recs`.
abbrev Kept : List Bytes → Parsing → Type 0
Kept recs p =
    (p.cur < length p.sections)
    × All (IsKept (length p.sections) p.widest) p.lines
    × (map raw_of p.lines ≡ recs)

abbrev KeptIf : List Bytes → Option Parsing → Type 0
KeptIf recs none = Unit
KeptIf recs (some p) = Kept recs p

length-set_section :
    (f : Section → Section) (n : ℕ) (ss : List Section) → length (set_section f n ss) ≡ length ss
length-set_section f n [] = refl
length-set_section f zero (s ∷ ss) = refl
length-set_section f (suc n) (s ∷ ss) = ground (arith, length-set_section f n ss)

-- A step that adds one line, and neither narrows the widest number nor drops a section.
more-Kept :
    (recs : List Bytes) (p : Parsing) (n w : ℕ) (l : Line)
    → Kept recs p
    → length p.sections ≤ n
    → p.widest ≤ w
    → IsKept n w l
    → All (IsKept n w) (p.lines ++ l ∷ []) × (map raw_of (p.lines ++ l ∷ []) ≡ recs ++ l.raw ∷ [])
more-Kept recs p n w l h a b k = (
  All-append (IsKept n w) p.lines (l ∷ [])
      (All-weaken (IsKept (length p.sections) p.widest) (IsKept n w) (λ x e. ground (arith, e))
        p.lines h.1)
      (k, tt),
  map-append raw_of p.lines (l ∷ []) ∙ ap (λ r. r ++ l.raw ∷ []) h.2,
)

keep_header-Kept :
    (recs : List Bytes) (rec : Bytes) (p : Parsing)
    → Kept recs p
    → Kept (recs ++ rec ∷ []) (keep_header rec p)
unfolding keep_header
keep_header-Kept recs rec p h =
    let (a, b) =
      more-Kept recs p (length p.sections) p.widest _ h (omega arith) (omega arith)
        (ground (arith, h.0)) in
    (h.0, a, b)

keep_body-Kept :
    (recs : List Bytes) (rec : Bytes) (old new : ℕ) (has_old has_new : Bool) (p : Parsing)
    → (has_old ≡ true) ⊎ (has_new ≡ true)
    → Kept recs p
    → Kept (recs ++ rec ∷ []) (keep_body rec old has_old new has_new p)
unfolding keep_body
keep_body-Kept recs rec old new has_old has_new p side h =
    let (a, b) =
      more-Kept recs p (length p.sections) (widen (widen p.widest old has_old) new has_new) _ h
        (omega arith) (ground arith) (ground (arith, h.0, side)) in
    (h.0, a, b)

open_section-Kept :
    (recs : List Bytes) (rec : Bytes) (p : Parsing)
    → Kept recs p
    → Kept (recs ++ rec ∷ []) (open_section rec p)
unfolding open_section
open_section-Kept recs rec p h = keep_header-Kept recs rec _ (
  omega (arith, length-append p.sections (no_paths ∷ [])),
  All-weaken (IsKept (length p.sections) p.widest)
      (IsKept (length (p.sections ++ no_paths ∷ [])) p.widest)
      (λ l k. ground (arith, k, length-append p.sections (no_paths ∷ []))) p.lines h.1,
  h.2,
)

open_hunk-Kept :
    (recs : List Bytes) (rec : Bytes) (p : Parsing) (old new : Option ℕ)
    → Kept recs p
    → KeptIf (recs ++ rec ∷ []) (open_hunk rec p old new)
unfolding open_hunk
open_hunk-Kept recs rec p (some old) (some new) h = keep_header-Kept recs rec _ h
open_hunk-Kept recs rec p none new h = tt
open_hunk-Kept recs rec p (some old) none h = tt

set_section-Kept :
    (recs : List Bytes) (rec : Bytes) (p : Parsing) (f : Section → Section)
    → Kept recs p
    → Kept
        (recs ++ rec ∷ [])
        (keep_header rec (record p { sections = set_section f p.cur p.sections }))
set_section-Kept recs rec p f h =
    let e = length-set_section f p.cur p.sections in
    keep_header-Kept recs rec _ (
      omega (arith, h.0, e),
      All-weaken (IsKept (length p.sections) p.widest)
          (IsKept (length (set_section f p.cur p.sections)) p.widest) (λ l k. ground (arith, k, e))
          p.lines h.1,
      h.2,
    )

-- What holds of each way to take a record holds of the step.
pub step-cases :
    (P : Option Parsing → Type 0) (p : Parsing) (rec : Bytes)
    → P (some (open_section rec p))
    → ((old new : Option ℕ) → P (open_hunk rec p old new))
    → ((f : Section → Section)
        → P (some (keep_header rec (record p { sections = set_section f p.cur p.sections }))))
    → P (some (keep_header rec p))
    → P (some (added rec p))
    → P (some (removed rec p))
    → P (some (context rec p))
    → P (step p rec)
unfolding step set_a set_b
step-cases P p rec opens hunks sets headers adds removes contexts =
    let go = if_both P in
    let starts = λ (t : String). has_prefix rec (codes t) in
    go (starts "diff --git ") _ _ opens (
      go (starts "@@") _ _ (hunks _ _) (
        go (not p.in_hunk && starts "--- ") _ _
          (sets (λ s. record s { path_a = header_path (drop 4 rec) (codes "a/") }))
          (go (not p.in_hunk && starts "+++ ") _ _
            (sets (λ s. record s { path_b = header_path (drop 4 rec) (codes "b/") }))
            (go (not p.in_hunk) _ _ headers (
              go (starts "\\") _ _ headers
                (go (starts "+") _ _ adds (go (starts "-") _ _ removes contexts)))))))

step-Kept :
    (recs : List Bytes) (rec : Bytes) (p : Parsing)
    → Kept recs p
    → KeptIf (recs ++ rec ∷ []) (step p rec)
unfolding added removed context
step-Kept recs rec p h =
    step-cases (KeptIf (recs ++ rec ∷ [])) p rec (open_section-Kept recs rec p h)
      (λ old new. open_hunk-Kept recs rec p old new h) (λ f. set_section-Kept recs rec p f h)
      (keep_header-Kept recs rec p h) (keep_body-Kept recs rec 0 p.new_no false true p (inr refl) h)
      (keep_body-Kept recs rec p.old_no 0 true false p (inl refl) h)
      (keep_body-Kept recs rec p.old_no p.new_no true true p (inl refl) h)

steps-Kept :
    (recs more : List Bytes) (o : Option Parsing)
    → KeptIf recs o
    → KeptIf (recs ++ more) (steps o more)
unfolding steps
steps-Kept recs more none h = tt
steps-Kept recs [] (some p) h = rw (append-nil) h
steps-Kept recs (rec ∷ more) (some p) h =
    rw (← append_assoc recs (rec ∷ []) more)
      (steps-Kept (recs ++ rec ∷ []) more (step p rec) (step-Kept recs rec p h))

-- A parsed diff holds each record of its text once and in order. Each line lies in one of its
-- sections, is a header with no number or a body line with a number on some side, and has no number
-- above the widest.
pub parse-Keeps :
    (raw : Bytes) (revisions : RevisionPair) (d : Diff)
    → parse raw revisions ≡ some d
    → (d.raw ≡ raw)
      × (map (λ l. l.raw) d.lines ≡ records raw)
      × All (IsKept (length d.sections) d.widest) d.lines
unfolding parse
parse-Keeps raw revisions d h =
    finished (steps (some start) (records raw))
      (steps-Kept [] (records raw) (some start) (omega arith, tt, refl)) h
  where
    finished :
        (o : Option Parsing)
        → KeptIf (records raw) o
        → finish raw revisions o ≡ some d
        → (d.raw ≡ raw)
          × (map (λ l. l.raw) d.lines ≡ records raw)
          × All (IsKept (length d.sections) d.widest) d.lines
    finished none k e = cc
    finished (some p) k e = ground (arith, e, k)
