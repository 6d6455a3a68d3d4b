-- ===== src/Go/Strconv/Digits.antt =====
-- The bytes of a formatted number.
use kubevirt_dpdk_checkup.Base.{
  ℕ, zero, suc, ◌+◌, ◌/◌, ◌%◌, ◌<◌, [], ◌∷◌, Bytes, All, arith, ltb, ℤ, pos, negsuc, Bool-cases,
  inl, inr,
}
use kubevirt_dpdk_checkup.Go.Strconv.{digits, format_nat, format_int}

-- A property of the ten digits and of the sign is one of every byte of a formatted number.
module _ (P : ℕ → Type 0) (digit : (n : ℕ) → n < 10 → P (b'0' + n)) where
  digits-All : (fuel n : ℕ) (out : Bytes) → All P out → All P (digits fuel n out)
  unfolding digits
  digits-All zero n out h = h
  digits-All (suc fuel) n out h = elim (Bool-cases (ltb n 10)) [
    | inl small ↦ rw small (digit n (ground arith), h)
    | inr large ↦
        rw large
          (digits-All fuel (n / 10) ((b'0' + n % 10) ∷ out) (digit (n % 10) (omega arith), h))
  ]

  pub format_nat-All : (n : ℕ) → All P (format_nat n)
  unfolding format_nat
  format_nat-All n = digits-All (suc n) n [] tt

  pub format_int-All : (z : ℤ) → P b'-' → All P (format_int z)
  unfolding format_int
  format_int-All (pos n) sign = format_nat-All n
  format_int-All (negsuc n) sign = (sign, format_nat-All (suc n))
