-- ===== src/Config/Parse.antt =====
-- The parsers of single parameters in pkg/internal/config/config.go.
pub mod Rate
use kubevirt_dpdk_checkup.Base.{
  ℕ, ◌≡◌, refl, Bool, true, false, ◌&&◌, ◌||◌, Option, none, some, List, [], ◌∷◌, Bytes, codes,
  arith, is_empty, leb, ltb, ◌==◌, if◌then◌else◌, ℤ, pos, negsuc,
}
use kubevirt_dpdk_checkup.Go.Strconv.{Parsed, valid, syntax_error, range_error, is_digit, parse_int}

-- `\d*([km])?$`
rate_tail : Bytes → Bool
unfolding is_digit
rate_tail [] = true
rate_tail (c ∷ s) = is_digit c && rate_tail s || (c == b'k' || c == b'm') && is_empty s

-- `^[1-9]\d*([km])?$`
matches_rate : Bytes → Bool
unfolding rate_tail
matches_rate [] = false
matches_rate (c ∷ s) = leb b'1' c && leb c b'9' && rate_tail s

-- The text itself is kept; `none` is the error.
unfoldable pub parse_traffic_gen_packets_per_second : Bytes → Option Bytes
unfolding matches_rate
parse_traffic_gen_packets_per_second raw = if matches_rate raw then some raw else none

abbrev is_positive : ℤ → Bool
is_positive (pos n) = ltb 0 n
is_positive (negsuc n) = false

-- `err != nil || val <= 0`
abbrev pub accept_positive : Parsed → Option ℤ
accept_positive (valid z) = if is_positive z then some z else none
accept_positive syntax_error = none
accept_positive (range_error z) = none

unfoldable pub parse_non_zero_positive_int : Bytes → Option ℤ
unfolding parse_int
parse_non_zero_positive_int raw = accept_positive (parse_int raw)
