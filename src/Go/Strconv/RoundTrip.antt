-- ===== src/Go/Strconv/RoundTrip.antt =====
-- What `%d` prints, `ParseInt` reads back.
use kubevirt_dpdk_checkup.Base.{
  ℕ, zero, suc, ◌+◌, ◌/◌, ◌%◌, ◌^◌, ◌≤◌, ◌<◌, ◌≡◌, refl, ◌∙◌, true, some, [], ◌∷◌, Bytes, arith,
  ltb, ℤ, pos, negsuc, IsInt64, Bool-cases, inl, inr,
}
use kubevirt_dpdk_checkup.Go.Strconv.{
  valid, is_digit, max_uint64, scan, parse_int, digits, format_nat, format_int,
}

-- Scanning the digits of `n` from 0 arrives at `n`, with what follows them still to be read.
scan-digits :
    (fuel n : ℕ) (out : Bytes) → n < fuel → n ≤ max_uint64 → scan 0 (digits fuel n out) ≡ scan n out
unfolding digits
scan-digits zero n out h k = absurd (omega arith)
scan-digits (suc fuel) n out h k = elim (Bool-cases (ltb n 10)) [
  | inl small ↦ rw small (unfold scan in ground arith)
  | inr large ↦ rw large (
      scan-digits fuel (n / 10) ((b'0' + n % 10) ∷ out) (ground arith) (omega arith)
      ∙ unfold scan in ground arith)
]

digits_head :
    (fuel n : ℕ) (out : Bytes)
    → n < fuel
    → (c : ℕ) × (s : Bytes) × (digits fuel n out ≡ c ∷ s) × (is_digit c ≡ true)
unfolding digits is_digit
digits_head zero n out h = absurd (omega arith)
digits_head (suc fuel) n out h = elim (Bool-cases (ltb n 10)) [
  | inl small ↦ (b'0' + n, out, rw small, ground arith)
  | inr large ↦ rw large (digits_head fuel (n / 10) ((b'0' + n % 10) ∷ out) (ground arith))
]

scan-format_nat : (n : ℕ) → n ≤ max_uint64 → scan 0 (format_nat n) ≡ some (some n)
unfolding format_nat
scan-format_nat n k = scan-digits (suc n) n [] (omega arith) k ∙ unfold scan in refl

format_nat_head : (n : ℕ) → (c : ℕ) × (s : Bytes) × (format_nat n ≡ c ∷ s) × (is_digit c ≡ true)
unfolding format_nat
format_nat_head n = digits_head (suc n) n [] (omega arith)

-- `text` starts with a digit, so it has no sign.
parse_int_unsigned :
    (n c : ℕ) (s : Bytes)
    → is_digit c ≡ true
    → scan 0 (c ∷ s) ≡ some (some n)
    → n < 2 ^ 63
    → parse_int (c ∷ s) ≡ valid (pos n)
unfolding parse_int is_digit
parse_int_unsigned n c s d e h = ground arith

parse_int_minus :
    (n c : ℕ) (s : Bytes)
    → scan 0 (c ∷ s) ≡ some (some (suc n))
    → n < 2 ^ 63
    → parse_int (b'-' ∷ c ∷ s) ≡ valid (negsuc n)
unfolding parse_int
parse_int_minus n c s e h = ground arith

-- Every `int64` is read back from its decimal text.
pub parse_int-format_int : (z : ℤ) → IsInt64 z → parse_int (format_int z) ≡ valid z
unfolding format_int
parse_int-format_int (pos n) h =
    let (c, s, e, d) = format_nat_head n in
    rw e (parse_int_unsigned n c s d (rw e at (scan-format_nat n (omega arith))) h)
parse_int-format_int (negsuc n) h =
    let (c, s, e, d) = format_nat_head (suc n) in
    rw e (parse_int_minus n c s (rw e at (scan-format_nat (suc n) (omega arith))) h)

pub format_int_head : (z : ℤ) → (c : ℕ) × (s : Bytes) × (format_int z ≡ c ∷ s)
unfolding format_int
format_int_head (pos n) = let (c, s, e, d) = format_nat_head n in (c, s, e)
format_int_head (negsuc n) = (b'-', format_nat (suc n), refl)
