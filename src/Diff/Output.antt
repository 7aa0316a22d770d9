-- ===== src/Diff/Output.antt =====
-- internal/diff/numbered.go, exclude.go and only.go: the texts that are made of a parsed diff. A
-- section index out of range, where the code would panic, belongs to a section that is not dropped
-- and not kept; the parser records none.
pub mod Aligned
use crossrev.Prelude.{
  ℕ, zero, suc, ◌-◌, Bool, false, not, ◌&&◌, ◌||◌, Option, none, some, List, [], ◌∷◌, ◌++◌, length,
  filter_if, any, map, ltb, if◌then◌else◌, ◌==◌, nat_Eq,
}
use crossrev.Prelude.Bytes.{Bytes, codes, has_prefix, newline, itoa_bytes}
use crossrev.Prelude.Scan.{bytes_Eq, split_lines, join_lines, trim_right}
use crossrev.Diff.Lines.{Section, Line, Diff, section_at}

abbrev pub gutter_floor : ℕ
gutter_floor = 4

unfoldable pub gutter : ℕ → Bool → Bytes
gutter n has = if has then itoa_bytes n else codes "-"

abbrev pub spaces : ℕ → Bytes
spaces zero = []
spaces (suc n) = 32 ∷ spaces n

-- `%*s`: a width is the least number of bytes.
pub padded : ℕ → Bytes → Bytes
padded w s = spaces (w - length s) ++ s

pub gutter_width : ℕ → ℕ
gutter_width widest =
    let n = length (itoa_bytes widest) in if ltb gutter_floor n then n else gutter_floor

-- The gutter of a body line, up to its bar.
pub line_gutter : ℕ → Line → Bytes
unfolding padded
line_gutter w l =
    padded w (gutter l.old_no l.has_old)
    ++ (32 ∷ (padded w (gutter l.new_no l.has_new) ++ 32 ∷ b'|' ∷ []))

pub numbered_line : ℕ → Line → Bytes
unfolding line_gutter
numbered_line w l =
    if l.header then l.raw ++ newline ∷ [] else line_gutter w l ++ (l.raw ++ newline ∷ [])

pub numbered_lines : ℕ → List Line → Bytes
unfolding numbered_line
numbered_lines w [] = []
numbered_lines w (l ∷ ls) = numbered_line w l ++ numbered_lines w ls

unfoldable pub numbered : Diff → Bytes
unfolding numbered_lines gutter_width
numbered d = numbered_lines (gutter_width d.widest) d.lines

-- `hits`.
unfoldable pub hits : Bytes → List Bytes → Bool
hits path ex =
    not (path == [])
    && any (λ e. not (e == []) && (path == e || has_prefix path (e ++ b'/' ∷ []))) ex

pub raw_lines : (Line → Bool) → List Line → Bytes
raw_lines keep [] = []
raw_lines keep (l ∷ ls) =
    let rest = raw_lines keep ls in if keep l then l.raw ++ newline ∷ rest else rest

pub is_dropped : List Bytes → Option Section → Bool
is_dropped ex none = false
is_dropped ex (some s) = hits s.path_a ex || hits s.path_b ex

-- The paths as `Excluded` reads them, without slashes at their ends.
pub exclusions : List Bytes → List Bytes
exclusions list = map (trim_right b'/') (split_lines (join_lines list))

pub excluded_by : Diff → List Bytes → Bytes
unfolding raw_lines is_dropped exclusions
excluded_by d [] = d.raw
excluded_by d (p ∷ ps) =
    raw_lines (λ l. not (is_dropped (exclusions (p ∷ ps)) (section_at d.sections l.section)))
      d.lines

unfoldable pub excluded : Diff → List Bytes → Bytes
unfolding excluded_by
excluded d paths = excluded_by d (filter_if (λ p. not (p == [])) paths)

pub is_named : List Bytes → Option Section → Bool
is_named keep none = false
is_named keep (some s) = any (λ p. p == s.path_a) keep || any (λ p. p == s.path_b) keep

unfoldable pub only : Diff → List Bytes → Bytes
unfolding raw_lines is_named
only d paths =
    let keep = filter_if (λ p. not (p == [])) paths in
    raw_lines (λ l. is_named keep (section_at d.sections l.section)) d.lines
