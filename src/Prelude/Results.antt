-- ===== src/Prelude/Results.antt =====
-- Results of fallible operations.
pub data Result {ℓ κ} (E : Type ℓ) (A : Type κ) : Type (ℓ ⊔ κ) where
  ok : A → Result E A
  err : E → Result E A
