-- ===== src/Go/Fmt.antt =====
-- The verbs of Go's `fmt` that the program uses: `%q` on strings and `%.0f` on seconds, and the
-- text of a hardware address.
use kubevirt_dpdk_checkup.Base.{
  ℕ, suc, ◌+◌, ◌-◌, ◌/◌, ◌%◌, ◌≡◌, refl, ◌||◌, [], ◌∷◌, ◌++◌, map, Bytes, codes, ltb, ◌==◌,
  if◌then◌else◌, ℤ, pos, negsuc,
}
use kubevirt_dpdk_checkup.Go.Strings.{join}
use kubevirt_dpdk_checkup.Go.Strconv.{format_nat}

-- A digit of `%x`.
hex_digit : ℕ → ℕ
hex_digit d = if ltb d 10 then b'0' + d else b'a' + (d - 10)

abbrev hex_byte : ℕ → Bytes
hex_byte c = hex_digit (c / 16) ∷ hex_digit (c % 16) ∷ []

abbrev escaped : ℕ → Bytes
escaped c = b'\\' ∷ c ∷ []

-- One byte of `%q`. A byte above ASCII stands for itself, as in a printable character of UTF-8.
quote_byte : ℕ → Bytes
unfolding hex_digit
quote_byte c =
    if c == b'"' || c == b'\\'
    then escaped c
    else if c == b'\n'
    then escaped b'n'
    else if c == b'\t'
    then escaped b't'
    else if c == b'\r'
    then escaped b'r'
    else if c == 7
    then escaped b'a'
    else if c == 8
    then escaped b'b'
    else if c == 11
    then escaped b'v'
    else if c == 12
    then escaped b'f'
    else if ltb c 32 || c == 127
    then b'\\' ∷ b'x' ∷ hex_byte c
    else c ∷ []

quote_bytes : Bytes → Bytes
quote_bytes [] = []
quote_bytes (c ∷ s) = quote_byte c ++ quote_bytes s

-- `%q` of a string.
unfoldable pub quote : Bytes → Bytes
unfolding quote_byte quote_bytes
quote s = b'"' ∷ (quote_bytes s ++ b'"' ∷ [])

-- `net.HardwareAddr.String()`.
unfoldable pub hardware_addr : Bytes → Bytes
unfolding hex_digit join
hardware_addr octets = join (codes ":") (map hex_byte octets)

-- Rounding to the nearest whole number of seconds, ties to the even one.
round_seconds : ℕ → ℕ
round_seconds ns =
    let q = ns / 1000000000 in
    let r = ns % 1000000000 in
    if ltb r 500000000 then q else if ltb 500000000 r then q + 1 else q + q % 2

-- `%.0f` of `d.Seconds()`, for a duration in nanoseconds. The sign stands before a rounded zero too.
unfoldable pub format_seconds : ℤ → Bytes
unfolding round_seconds format_nat
format_seconds (pos ns) = format_nat (round_seconds ns)
format_seconds (negsuc n) = b'-' ∷ format_nat (round_seconds (suc n))

quote_test : quote (codes "a\"b\n") ≡ codes "\"a\\\"b\\n\""
unfolding quote
quote_test = refl

hardware_addr_test : hardware_addr (0x50 ∷ 0xab ∷ 0 ∷ []) ≡ codes "50:ab:00"
unfolding hardware_addr
hardware_addr_test = refl

format_seconds_test : format_seconds (pos 300000000000) ≡ codes "300"
unfolding format_seconds
format_seconds_test = refl
