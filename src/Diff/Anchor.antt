-- ===== src/Diff/Anchor.antt =====
-- internal/diff/anchor.go: the line of a diff that a comment is posted on, and the lines that the
-- diff changes. A section index out of range, which the parser never records, would panic; here it
-- has no path. Line numbers are natural numbers, so that no distance saturates.
pub mod Nearest
use crossrev.Prelude.{
  ℕ, ◌-◌, String, Bool, true, false, not, ◌&&◌, ◌||◌, ◌==◌, ◌!=◌, nat_Eq, text_Eq, leb, ltb, Option,
  none, some, List, [], ◌∷◌, if◌then◌else◌, zero, suc,
}
use crossrev.Core.Finding.{side_left}
use crossrev.Prelude.Bytes.{Bytes}
use crossrev.Prelude.Scan.{bytes_Eq}
use crossrev.Diff.Lines.{Section, Line}

-- The nearest line so far, with its distance.
pub record Best : Type 0 where
  pub line : ℕ
  pub dist : ℕ

unfoldable pub distance : ℕ → ℕ → ℕ
distance v want = if leb want v then v - want else want - v

-- `s.pathA != path && s.pathB != path`, negated.
pub is_in : Bytes → List Section → ℕ → Bool
is_in path [] n = false
is_in path (s ∷ ss) zero = s.path_a == path || s.path_b == path
is_in path (s ∷ ss) (suc n) = is_in path ss n

-- `!found || dist < bestDist || (dist == bestDist && v < best)`.
pub next : ℕ → Option Best → Option ℕ → Option Best
unfolding distance
next want best none = best
next want none (some v) = some (record { line = v; dist = distance v want })
next want (some b) (some v) =
    let dist = distance v want in
    if ltb dist b.dist || (dist == b.dist && ltb v b.line)
    then some (record { line = v; dist = dist })
    else some b

pub within : ℕ → Option Best → Option ℕ
within bound none = none
within bound (some b) = if leb b.dist bound then some b.line else none

module _ (sections : List Section) (path : Bytes) (side : String) where
  -- The number that a line offers, where it is not skipped.
  unfoldable pub offered : Line → Option ℕ
  unfolding is_in
  offered l =
      if l.header
      then none
      else if not (is_in path sections l.section)
      then none
      else if side == side_left
      then if l.has_old then some l.old_no else none
      else if l.has_new
      then some l.new_no
      else none

  -- The loop over the lines.
  pub nearest_from : ℕ → Option Best → List Line → Option Best
  unfolding next offered
  nearest_from want best [] = best
  nearest_from want best (l ∷ ls) = nearest_from want (next want best (offered l)) ls

  unfoldable pub anchor : List Line → ℕ → ℕ → Option ℕ
  unfolding nearest_from within
  anchor lines want bound = within bound (nearest_from want none lines)

  unfoldable pub changed_line : List Line → ℕ → Bool
  unfolding is_in
  changed_line [] want = false
  changed_line (l ∷ ls) want =
      let rest = changed_line ls want in
      if l.header
        || not (is_in path sections l.section)
        || (if l.has_old then l.has_new else not l.has_new)
      then rest
      else if side == side_left
      then if not l.has_old || l.old_no != want then rest else true
      else if not l.has_new || l.new_no != want
      then rest
      else true
