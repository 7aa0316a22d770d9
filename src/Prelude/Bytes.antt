-- ===== src/Prelude/Bytes.antt =====
-- Go strings and byte slices as lists of bytes, with what the program uses of `strings`, `strconv`
-- and `fmt` on them.
pub mod Cuts
pub mod Digits
use Prim.Native.Char.{code}
use Prim.Native.Nat.{ℕ, zero, suc, ◌+◌, ◌-◌, ◌*◌, ◌/◌, ◌%◌, ◌^◌}
use Prim.Native.String.{String}
use mathlib.Core.Path.{◌≡◌, refl}
use mathlib.Core.Bool.{Bool, true, false, ◌&&◌, ◌||◌}
use mathlib.Core.List.{List, [], ◌∷◌, ◌++◌, flatten}
use mathlib.Core.Option.{Option, none, some}
use native.Mathlib.Omega.{arith}
use crossrev.Prelude.Tests.{◌==◌, nat_Eq, ltb, leb, if◌then◌else◌}

abbrev pub Bytes : Type 0
Bytes = List ℕ

-- The bytes of an ASCII text.
abbrev pub codes : String → Bytes
codes String.[] = []
codes (String.◌∷◌ c s) = code c ∷ codes s

abbrev pub newline : ℕ
newline = 10

-- `strings.HasPrefix`.
unfoldable pub has_prefix : Bytes → Bytes → Bool
has_prefix s [] = true
has_prefix [] (p ∷ ps) = false
has_prefix (c ∷ s) (p ∷ ps) = c == p && has_prefix s ps

drop_bytes : Bytes → Bytes → Bytes
drop_bytes [] s = s
drop_bytes (p ∷ ps) [] = []
drop_bytes (p ∷ ps) (c ∷ s) = drop_bytes ps s

-- `strings.CutPrefix`, with `none` for not found.
unfoldable pub cut_prefix : Bytes → Bytes → Option Bytes
unfolding has_prefix drop_bytes
cut_prefix s p = if has_prefix s p then some (drop_bytes p s) else none

abbrev before : ℕ → Option (Bytes × Bytes) → Option (Bytes × Bytes)
before c none = none
before c (some (a, b)) = some (c ∷ a, b)

-- `strings.Cut`, with `none` for not found.
unfoldable pub cut : Bytes → Bytes → Option (Bytes × Bytes)
unfolding has_prefix drop_bytes
cut sep [] = if has_prefix [] sep then some ([], []) else none
cut sep (c ∷ s) =
    let later = before c (cut sep s) in
    if has_prefix (c ∷ s) sep then some ([], drop_bytes sep (c ∷ s)) else later

-- `strings.TrimSuffix(s, "\n")`.
unfoldable pub trim_newline : Bytes → Bytes
trim_newline [] = []
trim_newline (c ∷ []) = if c == newline then [] else c ∷ []
trim_newline (c ∷ d ∷ s) = c ∷ trim_newline (d ∷ s)

abbrev start_line : ℕ → List Bytes → List Bytes
start_line c [] = (c ∷ []) ∷ []
start_line c (l ∷ ls) = (c ∷ l) ∷ ls

-- `strings.SplitAfter(s, "\n")`.
unfoldable pub split_after_newline : Bytes → List Bytes
split_after_newline [] = [] ∷ []
split_after_newline (c ∷ s) =
    let rest = split_after_newline s in if c == newline then (c ∷ []) ∷ rest else start_line c rest

flatten-start_line : (c : ℕ) (ls : List Bytes) → flatten (start_line c ls) ≡ c ∷ flatten ls
unfolding flatten
flatten-start_line c [] = refl
flatten-start_line c (l ∷ ls) = refl

-- Splitting loses no byte.
pub flatten-split_after_newline : (s : Bytes) → flatten (split_after_newline s) ≡ s
unfolding split_after_newline flatten
flatten-split_after_newline [] = refl
flatten-split_after_newline (c ∷ s) =
    ground (arith, flatten-split_after_newline s, flatten-start_line c (split_after_newline s))

is_digit : ℕ → Bool
is_digit c = leb b'0' c && leb c b'9'

magnitude : ℕ → Bytes → Option ℕ
unfolding is_digit
magnitude n [] = some n
magnitude n (c ∷ s) =
    let rest = magnitude (n * 10 + (c - b'0')) s in if is_digit c then rest else none

in_range : Option ℕ → Option ℕ
in_range none = none
in_range (some n) = if ltb n (2 ^ 63) then some n else none

-- The digits of `strconv.Atoi`, with its range on a 64-bit machine.
digits_value : Bytes → Option ℕ
unfolding magnitude in_range
digits_value [] = none
digits_value (c ∷ s) = in_range (magnitude 0 (c ∷ s))

-- `n, err := strconv.Atoi(s)`, followed by the refusal of an error or of a negative number.
unfoldable pub atoi_nat : Bytes → Option ℕ
unfolding digits_value
atoi_nat [] = none
atoi_nat (c ∷ s) =
    if c == b'+'
    then digits_value s
    else if c == b'-'
    then (elim (digits_value s) [ none ↦ none | some n ↦ if n == 0 then some 0 else none ])
    else digits_value (c ∷ s)

itoa_digits : ℕ → ℕ → Bytes → Bytes
itoa_digits zero n out = out
itoa_digits (suc fuel) n out =
    let d = (b'0' + n % 10) ∷ out in
    let more = itoa_digits fuel (n / 10) d in if ltb n 10 then d else more

-- `%d` and `strconv.Itoa`. A number has at most as many digits as its value plus one.
unfoldable pub itoa_bytes : ℕ → Bytes
unfolding itoa_digits
itoa_bytes n = itoa_digits (suc n) n []

-- The width of the white space of `unicode.IsSpace` that a text starts with, or zero.
space_width : Bytes → ℕ
space_width [] = 0
space_width (a ∷ s) = if a == 32 || (leb 9 a && leb a 13) then 1 else wide a s
  where
    wide : ℕ → Bytes → ℕ
    wide a [] = 0
    wide a (b ∷ []) = if a == 0xc2 && (b == 0x85 || b == 0xa0) then 2 else 0
    wide a (b ∷ c ∷ s) =
        if a == 0xc2 && (b == 0x85 || b == 0xa0)
        then 2
        else if (a == 0xe1 && b == 0x9a && c == 0x80)
            || (a == 0xe2
                && b == 0x80
                && ((leb 0x80 c && leb c 0x8a) || c == 0xa8 || c == 0xa9 || c == 0xaf))
            || (a == 0xe2 && b == 0x81 && c == 0x9f)
            || (a == 0xe3 && b == 0x80 && c == 0x80)
        then 3
        else 0

abbrev close_field : Bytes → List Bytes → List Bytes
close_field [] fs = fs
close_field (c ∷ s) fs = (c ∷ s) ∷ fs

-- `skip` counts the bytes that are left of a wide space.
fields_from : ℕ → Bytes → Bytes → List Bytes
unfolding space_width
fields_from skip field [] = close_field field []
fields_from (suc skip) field (c ∷ s) = fields_from skip field s
fields_from zero field (c ∷ s) =
    let next = fields_from (space_width (c ∷ s) - 1) [] s in
    let same = fields_from 0 (field ++ c ∷ []) s in
    if space_width (c ∷ s) == 0 then same else close_field field next

-- `strings.Fields`.
unfoldable pub fields : Bytes → List Bytes
unfolding fields_from
fields s = fields_from 0 [] s
