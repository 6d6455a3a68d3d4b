-- ===== src/Config/Parse/Rate.antt =====
-- The language of `^[1-9]\d*([km])?$`, stated without the matcher, and what the matcher decides.
use kubevirt_dpdk_checkup.Base.{
  ℕ, ◌≤◌, ◌≡◌, refl, ap, true, false, ◌⊎◌, ◌↔◌, inl, inr, some, [], ◌∷◌, ◌++◌, Bytes, codes, arith,
  All, Bool-cases,
}
use kubevirt_dpdk_checkup.Go.Strconv.{is_digit}
use kubevirt_dpdk_checkup.Config.Parse.{
  matches_rate, rate_tail, parse_traffic_gen_packets_per_second,
}

abbrev IsDigit : ℕ → Type 0
IsDigit c = (b'0' ≤ c) × (c ≤ b'9')

abbrev IsMultiplier : Bytes → Type 0
IsMultiplier s = (s ≡ []) ⊎ (s ≡ codes "k") ⊎ (s ≡ codes "m")

-- Digits, and at most one `k` or `m` behind them.
pub record IsRateTail (s : Bytes) : Type 0 where
  pub digits : Bytes
  pub suffix : Bytes
  pub splits : s ≡ digits ++ suffix
  pub all_digits : All IsDigit digits
  pub multiplier : IsMultiplier suffix

-- A count that starts with a digit other than 0.
pub record IsRate (s : Bytes) : Type 0 where
  pub first : ℕ
  pub tail : Bytes
  pub splits : s ≡ first ∷ tail
  pub not_zero : (b'1' ≤ first) × (first ≤ b'9')
  pub is_tail : IsRateTail tail

IsRateTail-cons : (c : ℕ) (s : Bytes) → IsDigit c → IsRateTail s → IsRateTail (c ∷ s)
IsRateTail-cons c s d t = record {
  digits = c ∷ t.digits;
  suffix = t.suffix;
  splits = ap (◌∷◌ c) t.splits;
  all_digits = (d, t.all_digits);
  multiplier = t.multiplier;
}

IsRateTail-suffix : (s : Bytes) → IsMultiplier s → IsRateTail s
IsRateTail-suffix s m = record {
  digits = [];
  suffix = s;
  splits = refl;
  all_digits = tt;
  multiplier = m;
}

last-IsMultiplier :
    (c : ℕ) (s : Bytes) → is_digit c ≡ false → rate_tail (c ∷ s) ≡ true → IsMultiplier (c ∷ s)
unfolding rate_tail
last-IsMultiplier c [] n h = ground arith
last-IsMultiplier c (x ∷ s) n h = absurd (ground arith)

rate_tail-of_digit : (c : ℕ) (s : Bytes) → is_digit c ≡ true → rate_tail (c ∷ s) ≡ rate_tail s
unfolding rate_tail
rate_tail-of_digit c s d = ground arith

IsDigit-of : (c : ℕ) → is_digit c ≡ true → IsDigit c
unfolding is_digit
IsDigit-of c h = ground arith

rate_tail_sound : (s : Bytes) → rate_tail s ≡ true → IsRateTail s
rate_tail_sound [] h = IsRateTail-suffix [] (inl refl)
rate_tail_sound (c ∷ s) h = elim (Bool-cases (is_digit c)) [
  | inl d ↦
      IsRateTail-cons c s (IsDigit-of c d) (rate_tail_sound s (rw (rate_tail-of_digit c s d) at h))
  | inr n ↦ IsRateTail-suffix (c ∷ s) (last-IsMultiplier c s n h)
]

rate_tail_complete :
    (digits suffix : Bytes)
    → All IsDigit digits
    → IsMultiplier suffix
    → rate_tail (digits ++ suffix) ≡ true
unfolding rate_tail
rate_tail_complete [] suffix d m = ground arith
rate_tail_complete (c ∷ cs) suffix d m = ground (arith, rate_tail_complete cs suffix d.1 m)

IsRate-sound : (s : Bytes) → matches_rate s ≡ true → IsRate s
unfolding matches_rate
IsRate-sound [] h = cc
IsRate-sound (c ∷ s) h = record {
  first = c;
  tail = s;
  splits = refl;
  not_zero = ground arith;
  is_tail = rate_tail_sound s (ground arith);
}

IsRate-complete : (s : Bytes) → IsRate s → matches_rate s ≡ true
unfolding matches_rate
IsRate-complete s r =
    let t = r.is_tail in
    let e = rate_tail_complete t.digits t.suffix t.all_digits t.multiplier in
    rw r.splits (rw t.splits (ground (arith, e)))

-- A packet rate is accepted exactly when it is a count with no leading zero and at most one `k` or
-- `m` behind it, and it is kept as it was written.
pub parse_traffic_gen_packets_per_second_iff :
    (raw rate : Bytes)
    → (parse_traffic_gen_packets_per_second raw ≡ some rate) ↔ ((rate ≡ raw) × IsRate raw)
parse_traffic_gen_packets_per_second_iff raw rate = (
  λ h. (
    unfold parse_traffic_gen_packets_per_second in ground arith,
    IsRate-sound raw (unfold parse_traffic_gen_packets_per_second in ground arith),
  ),
  λ h. unfold parse_traffic_gen_packets_per_second in ground (arith, IsRate-complete raw h.1),
)
