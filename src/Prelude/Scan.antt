-- ===== src/Prelude/Scan.antt =====
-- Byte slices: equality, slices by position, cutting at a byte, and the parts between separators.
use Prim.Native.Nat.{ℕ, zero, suc}
use mathlib.Core.Path.{◌≡◌, refl}
use mathlib.Core.Logic.{◌↔◌, inl, inr}
use mathlib.Core.Bool.{Bool, true, false, ◌&&◌}
use mathlib.Core.List.{List, [], ◌∷◌, ◌++◌}
use native.Mathlib.Omega.{arith}
use crossrev.Prelude.Bytes.{Bytes, newline}
use crossrev.Prelude.Predicates.{All}
use crossrev.Prelude.Tests.{Eq, ◌==◌, nat_Eq, nat_eq_iff, Bool-cases, if◌then◌else◌}

abbrev pub same_bytes : Bytes → Bytes → Bool
same_bytes [] [] = true
same_bytes [] (d ∷ t) = false
same_bytes (c ∷ s) [] = false
same_bytes (c ∷ s) (d ∷ t) = c == d && same_bytes s t

pub bytes_eq_iff : (s t : Bytes) → (same_bytes s t ≡ true) ↔ (s ≡ t)
bytes_eq_iff [] [] = ground arith
bytes_eq_iff [] (d ∷ t) = ground arith
bytes_eq_iff (c ∷ s) [] = ground arith
bytes_eq_iff (c ∷ s) (d ∷ t) = ground (arith, bytes_eq_iff s t, nat_eq_iff c d)

instance abbrev pub bytes_Eq : Eq Bytes
bytes_Eq = record { beq = same_bytes }

module _ {ℓ} {A : Type ℓ} where
  abbrev pub take : ℕ → List A → List A
  take zero xs = []
  take (suc n) [] = []
  take (suc n) (x ∷ xs) = x ∷ take n xs

  abbrev pub drop : ℕ → List A → List A
  drop zero xs = xs
  drop (suc n) [] = []
  drop (suc n) (x ∷ xs) = drop n xs

-- What stands before the first byte `c`: the whole where there is none.
unfoldable pub before_byte : ℕ → Bytes → Bytes
before_byte c [] = []
before_byte c (d ∷ s) = let rest = before_byte c s in if d == c then [] else d ∷ rest

-- `strings.TrimRight` with one byte as its set.
unfoldable pub trim_right : ℕ → Bytes → Bytes
trim_right c [] = []
trim_right c (d ∷ s) = close d (trim_right c s)
  where
    close : ℕ → Bytes → Bytes
    close d [] = if d == c then [] else d ∷ []
    close d (e ∷ t) = d ∷ e ∷ t

abbrev pub prepend : ℕ → List Bytes → List Bytes
prepend c [] = (c ∷ []) ∷ []
prepend c (l ∷ ls) = (c ∷ l) ∷ ls

-- `strings.Split` at a byte.
unfoldable pub split_on : ℕ → Bytes → List Bytes
split_on sep [] = [] ∷ []
split_on sep (c ∷ s) = let rest = split_on sep s in if c == sep then [] ∷ rest else prepend c rest

-- `strings.Split(s, "\n")`.
abbrev pub split_lines : Bytes → List Bytes
split_lines s = split_on newline s

-- `strings.Join(parts, "\n")`.
unfoldable pub join_lines : List Bytes → Bytes
join_lines [] = []
join_lines (l ∷ []) = l
join_lines (l ∷ m ∷ ls) = l ++ newline ∷ join_lines (m ∷ ls)

join-prepend :
    (c : ℕ) (l : Bytes) (ls : List Bytes)
    → join_lines (prepend c (l ∷ ls)) ≡ c ∷ join_lines (l ∷ ls)
unfolding join_lines
join-prepend c l [] = refl
join-prepend c l (m ∷ ls) = refl

pub split_on-cons :
    (sep : ℕ) (s : Bytes) → (l : Bytes) × (ls : List Bytes) × (split_on sep s ≡ l ∷ ls)
unfolding split_on
split_on-cons sep [] = ([], [], refl)
split_on-cons sep (c ∷ s) =
    let (l, ls, e) = split_on-cons sep s in
    elim (Bool-cases (c == sep)) [
      | inl p ↦ rw p ([], split_on sep s, refl)
      | inr p ↦ rw (p, e) (c ∷ l, ls, refl)
    ]

-- A byte that does not end a part.
abbrev pub Differs : ℕ → ℕ → Type 0
Differs sep b = (b == sep) ≡ false

-- The part before a separator, and the last part.
pub split_on-part :
    (sep : ℕ) (l t : Bytes) → All (Differs sep) l → split_on sep (l ++ sep ∷ t) ≡ l ∷ split_on sep t
unfolding split_on
split_on-part sep [] t h = ground (arith, nat_eq_iff sep sep)
split_on-part sep (c ∷ l) t h = simp (h.0, split_on-part sep l t h.1)

pub split_on-last : (sep : ℕ) (l : Bytes) → All (Differs sep) l → split_on sep l ≡ l ∷ []
unfolding split_on
split_on-last sep [] h = refl
split_on-last sep (c ∷ l) h = simp (h.0, split_on-last sep l h.1)

-- The parts of both sides of a separator.
pub split_on-append :
    (sep : ℕ) (s t : Bytes) → split_on sep (s ++ sep ∷ t) ≡ split_on sep s ++ split_on sep t
unfolding split_on
split_on-append sep [] t = ground (arith, nat_eq_iff sep sep)
split_on-append sep (c ∷ s) t =
    let (l, ls, e) = split_on-cons sep s in
    elim (Bool-cases (c == sep)) [
      | inl p ↦ simp (p, split_on-append sep s t)
      | inr p ↦ simp (p, split_on-append sep s t, e)
    ]

-- Joining what was split gives the text back.
pub join-split_lines : (s : Bytes) → join_lines (split_lines s) ≡ s
unfolding split_on join_lines
join-split_lines [] = refl
join-split_lines (c ∷ s) =
    let (l, ls, e) = split_on-cons newline s in
    elim (Bool-cases (c == newline)) [
      | inl p ↦ rw (p, e) (ground (arith, p, nat_eq_iff c newline, e, join-split_lines s))
      | inr p ↦ rw (p, e) (ground (arith, join-prepend c l ls, e, join-split_lines s))
    ]
