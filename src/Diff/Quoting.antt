-- ===== src/Diff/Quoting.antt =====
-- internal/diff/parser.go: `awkSubstr`, `unquote` and `headerPath`, which read the path of a side
-- line, and the numbers of a hunk header.
use crossrev.Prelude.{
  ℕ, zero, suc, ◌+◌, ◌-◌, ◌*◌, ◌/◌, ◌%◌, Bool, ◌&&◌, ◌||◌, Option, none, some, List, [], ◌∷◌, ◌++◌,
  ◌==◌, nat_Eq, length, leb, ltb, if◌then◌else◌,
}
use crossrev.Prelude.Bytes.{Bytes, codes, cut_prefix}
use crossrev.Prelude.Scan.{bytes_Eq, take, drop, before_byte}

-- The largest `int`.
abbrev pub max_int : ℕ
max_int = 0x7fff_ffff_ffff_ffff

-- A length that is not positive is 0 here; `start` is at least 1.
unfoldable pub awk_substr : Bytes → ℕ → ℕ → Bytes
awk_substr s start len =
    if len == 0 then [] else if ltb (length s) start then [] else take len (drop (start - 1) s)

is_octal : ℕ → Bool
is_octal c = leb b'0' c && leb c b'7'

-- The byte of an escape that is not octal.
escaped : ℕ → ℕ
escaped e =
    if e == b'a'
    then 7
    else if e == b'b'
    then 8
    else if e == b't'
    then 9
    else if e == b'n'
    then 10
    else if e == b'v'
    then 11
    else if e == b'f'
    then 12
    else if e == b'r'
    then 13
    else e

-- Where the loop of `unquote` stands: outside an escape, after a backslash, or after `count` octal
-- digits with value `n`.
pub data Place : Type 0 where
  plain slash : Place
  octal : ℕ → ℕ → Place

-- The loop of `unquote`.
unescape : Place → Bytes → Bytes
unfolding is_octal escaped
unescape plain [] = []
unescape slash [] = []
unescape (octal count n) [] = (n % 256) ∷ []
unescape plain (c ∷ s) =
    let kept = c ∷ unescape plain s in
    let opened = unescape slash s in if c == b'\\' then opened else kept
unescape slash (c ∷ s) =
    let digits = unescape (octal 1 (c - b'0')) s in
    let one = escaped c ∷ unescape plain s in if is_octal c then digits else one
unescape (octal count n) (c ∷ s) =
    let more = unescape (octal (count + 1) (n * 8 + (c - b'0'))) s in
    let opened = (n % 256) ∷ unescape slash s in
    let kept = (n % 256) ∷ c ∷ unescape plain s in
    if ltb count 3 && is_octal c then more else if c == b'\\' then opened else kept

unfoldable pub unquote : Bytes → Bytes
unfolding unescape awk_substr
unquote [] = []
unquote (c ∷ s) =
    if c == b'"' then unescape plain (awk_substr (c ∷ s) 2 (length (c ∷ s) - 2)) else c ∷ s

trim_prefix : Bytes → Option Bytes → Bytes
trim_prefix s none = s
trim_prefix s (some rest) = rest

unfoldable pub header_path : Bytes → Bytes → Bytes
unfolding unquote trim_prefix
header_path rest prefix =
    let p = unquote (before_byte 9 rest) in
    if p == codes "/dev/null" then [] else trim_prefix p (cut_prefix p prefix)

is_blank : ℕ → Bool
is_blank c = c == 32 || c == 9 || c == 10

skip_blanks : Bytes → Bytes
unfolding is_blank
skip_blanks [] = []
skip_blanks (c ∷ s) = let rest = skip_blanks s in if is_blank c then rest else c ∷ s

-- The digits, read into `n`, which stops at the largest `int`.
digits : ℕ → Bytes → ℕ
digits n [] = n
digits n (c ∷ s) =
    let d = c - b'0' in
    let rest = digits (if ltb ((max_int - d) / 10) n then max_int else n * 10 + d) s in
    if leb b'0' c && leb c b'9' then rest else n

-- `number`, with `none` for a negative number.
signed : Bytes → Option ℕ
unfolding digits
signed [] = some 0
signed (c ∷ s) =
    if c == b'+'
    then some (digits 0 s)
    else if c == b'-'
    then if digits 0 s == 0 then some 0 else none
    else some (digits 0 (c ∷ s))

-- `hunkStart`: a field such as `-8,2`.
unfoldable pub hunk_start : Bytes → Option ℕ
unfolding signed skip_blanks awk_substr
hunk_start f = signed (skip_blanks (before_byte b',' (awk_substr f 2 (length f))))

unfoldable pub incr : ℕ → ℕ
incr n = if n == max_int then n else n + 1

abbrev close_word : Bytes → List Bytes → List Bytes
close_word [] ws = ws
close_word (c ∷ s) ws = (c ∷ s) ∷ ws

words_from : Bytes → Bytes → List Bytes
unfolding is_blank
words_from word [] = close_word word []
words_from word (c ∷ s) =
    let closed = close_word word (words_from [] s) in
    let longer = words_from (word ++ c ∷ []) s in if is_blank c then closed else longer

-- `fields`.
unfoldable pub words : Bytes → List Bytes
unfolding words_from
words s = words_from [] s

-- `field`.
unfoldable pub word_at : List Bytes → ℕ → Bytes
word_at [] n = []
word_at (w ∷ ws) zero = w
word_at (w ∷ ws) (suc n) = word_at ws n
