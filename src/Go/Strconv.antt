-- ===== src/Go/Strconv.antt =====
-- `strconv` and the verb `%d`: integers in decimal, and Booleans.
pub mod RoundTrip
pub mod Bounds
pub mod Digits
use kubevirt_dpdk_checkup.Base.{
  ℕ, zero, suc, ◌+◌, ◌-◌, ◌*◌, ◌/◌, ◌%◌, ◌^◌, ◌≡◌, refl, Bool, true, false, ◌&&◌, ◌||◌, Option,
  none, some, List, [], ◌∷◌, ◌++◌, Bytes, codes, arith, ltb, leb, ◌==◌, if◌then◌else◌, bytes_eq, ℤ,
  pos, negsuc, sub_ℕ,
}

-- The value that is returned beside an error: 0 for a syntax error, the nearest bound for a range
-- error.
pub data Parsed : Type 0 where
  valid : ℤ → Parsed
  syntax_error : Parsed
  range_error : ℤ → Parsed

-- `v, _ = strconv.ParseInt(…)`.
abbrev pub value : Parsed → ℤ
value (valid z) = z
value syntax_error = pos 0
value (range_error z) = z

unfoldable pub is_digit : ℕ → Bool
is_digit c = leb b'0' c && leb c b'9'

abbrev pub max_uint64 : ℕ
max_uint64 = 2 ^ 64 - 1

-- `none` is a syntax error, `some none` a range error, which ends the scan.
abbrev pub Scanned : Type 0
Scanned = Option (Option ℕ)

-- The loop of `strconv.ParseUint(s, 10, 64)`.
unfoldable pub scan : ℕ → Bytes → Scanned
unfolding is_digit
scan n [] = some (some n)
scan n (c ∷ s) =
    let n' = n * 10 + (c - b'0') in
    let rest = scan n' s in
    if is_digit c then (if ltb max_uint64 n' then some none else rest) else none

abbrev scan_all : Bytes → Scanned
scan_all [] = none
scan_all (c ∷ s) = scan 0 (c ∷ s)

-- The tail of `strconv.ParseInt(s, 10, 64)`, for a magnitude with a sign.
abbrev pub positive : Scanned → Parsed
positive none = syntax_error
positive (some none) = range_error (pos (2 ^ 63 - 1))
positive (some (some n)) = if ltb n (2 ^ 63) then valid (pos n) else range_error (pos (2 ^ 63 - 1))

abbrev pub negative : Scanned → Parsed
negative none = syntax_error
negative (some none) = range_error (negsuc (2 ^ 63 - 1))
negative (some (some n)) =
    if leb n (2 ^ 63) then valid (sub_ℕ 0 n) else range_error (negsuc (2 ^ 63 - 1))

-- `strconv.ParseInt(s, 10, 64)`, and `strconv.Atoi(s)` where an `int` has 64 bits.
unfoldable pub parse_int : Bytes → Parsed
unfolding scan
parse_int [] = syntax_error
parse_int (c ∷ s) =
    if c == b'-'
    then negative (scan_all s)
    else if c == b'+'
    then positive (scan_all s)
    else positive (scan_all (c ∷ s))

-- One digit a round; `suc n` rounds are enough.
digits : ℕ → ℕ → Bytes → Bytes
digits zero n out = out
digits (suc fuel) n out =
    let rest = digits fuel (n / 10) ((b'0' + n % 10) ∷ out) in
    if ltb n 10 then (b'0' + n) ∷ out else rest

-- `%d` of a natural number.
unfoldable pub format_nat : ℕ → Bytes
unfolding digits
format_nat n = digits (suc n) n []

-- `%d`.
unfoldable pub format_int : ℤ → Bytes
unfolding format_nat
format_int (pos n) = format_nat n
format_int (negsuc n) = b'-' ∷ format_nat (suc n)

one_of : Bytes → List Bytes → Bool
one_of s [] = false
one_of s (t ∷ ts) = bytes_eq s t || one_of s ts

-- `strconv.ParseBool(s)`; `none` is its error.
unfoldable pub parse_bool : Bytes → Option Bool
unfolding one_of bytes_eq
parse_bool s =
    if one_of s
      (codes "1" ∷ codes "t" ∷ codes "T" ∷ codes "TRUE" ∷ codes "true" ∷ codes "True" ∷ [])
    then some true
    else if one_of s
        (codes "0" ∷ codes "f" ∷ codes "F" ∷ codes "FALSE" ∷ codes "false" ∷ codes "False" ∷ [])
    then some false
    else none

format_test : format_int (negsuc 1041) ≡ codes "-1042"
unfolding format_int
format_test = refl

parse_test : parse_int (codes "-1042") ≡ valid (negsuc 1041)
unfolding parse_int
parse_test = refl

range_test : parse_int (codes "9223372036854775808") ≡ range_error (pos 9223372036854775807)
unfolding parse_int
range_test = refl
