-- ===== src/Go/Strconv/Bounds.antt =====
-- The range of what `ParseInt` accepts.
use kubevirt_dpdk_checkup.Base.{
  ◌≡◌, inl, inr, none, some, [], ◌∷◌, Bytes, arith, ◌==◌, ℤ, pos, negsuc, IsInt64, Bool-cases,
}
use kubevirt_dpdk_checkup.Go.Strconv.{Scanned, valid, scan_all, positive, negative, parse_int}

positive-IsInt64 : (o : Scanned) (z : ℤ) → positive o ≡ valid z → IsInt64 z
positive-IsInt64 none z h = cc
positive-IsInt64 (some none) z h = cc
positive-IsInt64 (some (some n)) (pos k) h = ground arith
positive-IsInt64 (some (some n)) (negsuc k) h = ground arith

negative-IsInt64 : (o : Scanned) (z : ℤ) → negative o ≡ valid z → IsInt64 z
negative-IsInt64 none z h = cc
negative-IsInt64 (some none) z h = cc
negative-IsInt64 (some (some n)) (pos k) h = ground arith
negative-IsInt64 (some (some n)) (negsuc k) h = ground arith

-- A number that `ParseInt` accepts fits an `int64`.
pub parse_int-IsInt64 : (s : Bytes) (z : ℤ) → parse_int s ≡ valid z → IsInt64 z
unfolding parse_int
parse_int-IsInt64 [] z h = cc
parse_int-IsInt64 (c ∷ s) z h = elim (Bool-cases (c == b'-')) [
  | inl minus ↦ negative-IsInt64 (scan_all s) z (rw minus at h)
  | inr other ↦ elim (Bool-cases (c == b'+')) [
    | inl plus ↦ positive-IsInt64 (scan_all s) z (rw (other, plus) at h)
    | inr unsigned ↦ positive-IsInt64 (scan_all (c ∷ s)) z (rw (other, unsigned) at h)
  ]
]
