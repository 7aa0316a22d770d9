-- ===== src/Prelude/Bytes/Digits.antt =====
-- A larger number has at least as many digits.
use Prim.Native.Nat.{ℕ, zero, suc, ◌+◌, ◌/◌, ◌%◌, ◌≤◌, ◌<◌}
use mathlib.Core.List.{[], ◌∷◌}
use native.Mathlib.Omega.{arith}
use crossrev.Prelude.Lists.{length}
use crossrev.Prelude.Predicates.{All}
use crossrev.Prelude.Tests.{ltb, if_both}
use crossrev.Prelude.Bytes.{Bytes, itoa_digits, itoa_bytes}

digits-grow : (f n : ℕ) (out : Bytes) → length out ≤ length (itoa_digits f n out)
unfolding itoa_digits
digits-grow zero n out = omega arith
digits-grow (suc f) n out = ground (arith, digits-grow f (n / 10) ((b'0' + n % 10) ∷ out))

digits_mono :
    (f g n m : ℕ) (s t : Bytes)
    → n < f
    → m < g
    → n ≤ m
    → length (itoa_digits f n s) + length t ≤ length (itoa_digits g m t) + length s
unfolding itoa_digits
digits_mono zero g n m s t h k l = absurd (omega arith)
digits_mono (suc f) zero n m s t h k l = absurd (omega arith)
digits_mono (suc f) (suc g) n m s t h k l = ground (
  arith,
  digits-grow g (m / 10) ((b'0' + m % 10) ∷ t),
  digits_mono f g (n / 10) (m / 10) ((b'0' + n % 10) ∷ s) ((b'0' + m % 10) ∷ t),
)

pub length-itoa_mono : (n m : ℕ) → n ≤ m → length (itoa_bytes n) ≤ length (itoa_bytes m)
unfolding itoa_bytes
length-itoa_mono n m h = omega (arith, digits_mono (suc n) (suc m) n m [] [])

pub length-itoa_pos : (n : ℕ) → 1 ≤ length (itoa_bytes n)
unfolding itoa_bytes itoa_digits
length-itoa_pos n = ground (arith, digits-grow n (n / 10) ((b'0' + n % 10) ∷ []))

abbrev pub IsDigit : ℕ → Type 0
IsDigit c = (b'0' ≤ c) × (c ≤ b'9')

digits-All : (f n : ℕ) (out : Bytes) → All IsDigit out → All IsDigit (itoa_digits f n out)
unfolding itoa_digits
digits-All zero n out h = h
digits-All (suc f) n out h =
    let d : All IsDigit ((b'0' + n % 10) ∷ out) = (ground arith, h) in
    if_both (All IsDigit) (ltb n 10) ((b'0' + n % 10) ∷ out)
      (itoa_digits f (n / 10) ((b'0' + n % 10) ∷ out)) d
      (digits-All f (n / 10) ((b'0' + n % 10) ∷ out) d)

-- A printed number holds digits only.
pub itoa-All : (n : ℕ) → All IsDigit (itoa_bytes n)
unfolding itoa_bytes
itoa-All n = digits-All (suc n) n [] tt
