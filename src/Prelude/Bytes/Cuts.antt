-- ===== src/Prelude/Bytes/Cuts.antt =====
-- Cutting at a separator, and reading back a printed number.
use Prim.Native.Nat.{ℕ, zero, suc, ◌+◌, ◌-◌, ◌*◌, ◌/◌, ◌%◌, ◌^◌, ◌≤◌, ◌<◌}
use mathlib.Core.Path.{◌≡◌, refl, ap, ◌∙◌}
use mathlib.Core.Bool.{true, false}
use mathlib.Core.List.{[], ◌∷◌, ◌++◌}
use mathlib.Core.Option.{some}
use native.Mathlib.Omega.{arith}
use crossrev.Prelude.Predicates.{All}
use crossrev.Prelude.Tests.{◌==◌, nat_Eq, nat_eq_iff, ltb, lt→ltb, Bool-cases}
use crossrev.Prelude.Lists.{length}
use mathlib.Core.Logic.{inl, inr}
use crossrev.Prelude.Bytes.{
  Bytes, has_prefix, drop_bytes, cut_prefix, cut, is_digit, magnitude, in_range, digits_value,
  atoi_nat, itoa_digits, itoa_bytes,
}
use crossrev.Prelude.Bytes.Digits.{IsDigit, itoa-All, length-itoa_pos}

pub has_prefix-append : (p s : Bytes) → has_prefix (p ++ s) p ≡ true
unfolding has_prefix
has_prefix-append [] [] = refl
has_prefix-append [] (c ∷ s) = refl
has_prefix-append (c ∷ p) s = ground (arith, nat_eq_iff c c, has_prefix-append p s)

drop_bytes-append : (p s : Bytes) → drop_bytes p (p ++ s) ≡ s
unfolding drop_bytes
drop_bytes-append [] s = refl
drop_bytes-append (c ∷ p) s = drop_bytes-append p s

pub cut_prefix-append : (p s : Bytes) → cut_prefix (p ++ s) p ≡ some s
unfolding cut_prefix
cut_prefix-append p s = simp (has_prefix-append p s, drop_bytes-append p s)

-- The first separator is the one after bytes that do not start it.
pub cut-first :
    (c : ℕ) (sep s t : Bytes)
    → All (λ b. (b == c) ≡ false) s
    → cut (c ∷ sep) (s ++ ((c ∷ sep) ++ t)) ≡ some (s, t)
unfolding cut has_prefix
cut-first c sep [] t h = simp (has_prefix-append (c ∷ sep) t, drop_bytes-append (c ∷ sep) t)
cut-first c sep (b ∷ s) t h = simp (h.0, cut-first c sep s t h.1)

magnitude-digit :
    (m d : ℕ) (out : Bytes) → d < 10 → magnitude m ((b'0' + d) ∷ out) ≡ magnitude (m * 10 + d) out
unfolding magnitude is_digit
magnitude-digit m d out h = let e : (b'0' + d) - b'0' ≡ d = omega arith in ground (arith, e)

magnitude-itoa :
    (f n : ℕ) (out : Bytes) → n < f → magnitude 0 (itoa_digits f n out) ≡ magnitude n out
unfolding itoa_digits
magnitude-itoa zero n out h = absurd (omega arith)
magnitude-itoa (suc f) n out h =
    let d = n % 10 in
    let small : n / 10 * 10 + d ≡ n = omega arith in
    let last = magnitude-digit 0 d out (omega arith) in
    let more = magnitude-digit (n / 10) d out (omega arith) in
    elim (Bool-cases (ltb n 10)) [
      | inl p ↦ rw p (last ∙ ap (λ k. magnitude k out) (ground arith))
      | inr p ↦ rw p (
          magnitude-itoa f (n / 10) ((b'0' + d) ∷ out) (ground arith)
          ∙ more
          ∙ ap (λ k. magnitude k out) small)
    ]

in_range-some : (n : ℕ) → n < 2 ^ 63 → in_range (magnitude n []) ≡ some n
unfolding in_range magnitude
in_range-some n h = simp (lt→ltb n (2 ^ 63) h)

-- The digits of a number below the limit read back as the number.
atoi-digits :
    (n : ℕ) (s : Bytes)
    → All IsDigit s
    → 1 ≤ length s
    → magnitude 0 s ≡ magnitude n []
    → n < 2 ^ 63
    → atoi_nat s ≡ some n
unfolding atoi_nat digits_value
atoi-digits n [] d k e h = absurd (omega arith)
atoi-digits n (c ∷ s) d k e h =
    let p : ((c == b'+') ≡ false) × ((c == b'-') ≡ false) = ground arith in
    rw (p.0, p.1) (ap in_range e ∙ in_range-some n h)

-- `strconv.Atoi` reads back what `strconv.Itoa` prints.
pub atoi-itoa : (n : ℕ) → n < 2 ^ 63 → atoi_nat (itoa_bytes n) ≡ some n
unfolding itoa_bytes
atoi-itoa n h =
    atoi-digits n (itoa_bytes n) (itoa-All n) (length-itoa_pos n)
      (magnitude-itoa (suc n) n [] (omega arith)) h
