-- ===== src/Prelude/Results.antt =====
-- A Go pair of a value and an error, as a result.
pub data Result {ℓ κ} (E : Type ℓ) (A : Type κ) : Type (ℓ ⊔ κ) where
  ok : A → Result E A
  err : E → Result E A
