-- ===== src/Diff/Lines.antt =====
-- internal/diff/parser.go: the record that the parser makes of a diff. Line numbers are natural
-- numbers.
use crossrev.Prelude.{ℕ, Bool, List, [], ◌∷◌, Option, none, some, zero, suc}
use crossrev.Prelude.Bytes.{Bytes}
use crossrev.Core.Revision.{RevisionPair}

pub record Section : Type 0 where
  pub path_a : Bytes
  pub path_b : Bytes

pub record Line : Type 0 where
  pub header : Bool
  pub section : ℕ
  pub raw : Bytes
  pub old_no : ℕ
  pub has_old : Bool
  pub new_no : ℕ
  pub has_new : Bool

pub record Diff : Type 0 where
  pub revisions : RevisionPair
  pub raw : Bytes
  pub sections : List Section
  pub lines : List Line
  pub widest : ℕ

-- `d.sections[n]`, with `none` out of range, where the code would panic.
abbrev pub section_at : List Section → ℕ → Option Section
section_at [] n = none
section_at (s ∷ ss) zero = some s
section_at (s ∷ ss) (suc n) = section_at ss n
