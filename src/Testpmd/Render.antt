-- ===== src/Testpmd/Render.antt =====
-- The counters that testpmd prints are the ones that are read.
use kubevirt_dpdk_checkup.Base.{
  ℕ, zero, suc, ◌+◌, ◌<◌, ◌≡◌, refl, ap, ◌∙◌, Bool, true, false, some, List, [], ◌∷◌, ◌++◌, Bytes,
  codes, All, arith, ◌==◌, ℤ, IsInt64, is_empty,
}
use kubevirt_dpdk_checkup.Go.Act.{ok, and_then}
use kubevirt_dpdk_checkup.Go.Strings.{join}
use kubevirt_dpdk_checkup.Go.Strings.Lines.{IsLine, split-join}
use kubevirt_dpdk_checkup.Go.Strings.{contains, fields}
use kubevirt_dpdk_checkup.Go.Strings.Fields.{
  contains-without, All-append, All-none_meets, none_meets,
}
use kubevirt_dpdk_checkup.Go.Strconv.{format_int}
use kubevirt_dpdk_checkup.Go.Strconv.Digits.{format_int-All}
use kubevirt_dpdk_checkup.Testpmd.{
  PortStats, zero_stats, parse_line, parse_lines, parse_testpmd_stats_section, counters_of,
}
use kubevirt_dpdk_checkup.Testpmd.Columns.{
  gap, counters_line, direction, counters_of-line, r_is_no_space, t_is_no_space, contains_rx,
  contains_tx,
}

-- A test that fails on the digits, the sign and the blank, and on the labels of a line, fails on the
-- whole line.
module _ (p : ℕ → Bool) (digit : (n : ℕ) → n < 10 → p (b'0' + n) ≡ false) (sign : p b'-' ≡ false)
    (blank : p b' ' ≡ false) where
  abbrev Without : ℕ → Type 0
  Without c = p c ≡ false

  gap-Without : (n : ℕ) → All Without (gap n)
  gap-Without zero = (blank, tt)
  gap-Without (suc n) = (blank, gap-Without n)

  number-Without : (z : ℤ) → All Without (format_int z)
  number-Without z = format_int-All Without digit z sign

  pub counters_line-Without :
      (d m n : ℕ) (a b c : ℤ)
      → none_meets p (codes "  " ++ (direction d ++ codes "-packets: ")) ≡ true
      → none_meets p (direction d ++ codes "-dropped: ") ≡ true
      → none_meets p (direction d ++ codes "-total: ") ≡ true
      → All Without (counters_line (direction d) m n a b c)
  counters_line-Without d m n a b c packets dropped total =
      All-append Without (codes "  " ++ (direction d ++ codes "-packets: ")) _
        (All-none_meets p (codes "  " ++ (direction d ++ codes "-packets: ")) packets)
        (All-append Without (format_int a) _ (number-Without a) (
          All-append Without (gap m) _ (gap-Without m) (
            All-append Without (direction d ++ codes "-dropped: ") _
              (All-none_meets p (direction d ++ codes "-dropped: ") dropped)
              (All-append Without (format_int b) _ (number-Without b) (
                All-append Without (gap n) _ (gap-Without n) (
                  All-append Without (direction d ++ codes "-total: ") _
                    (All-none_meets p (direction d ++ codes "-total: ") total)
                    (number-Without c)))))))

parse_line-rx_fields :
    (stats : PortStats) (line : Bytes) (a b c : ℤ)
    → is_empty line ≡ false
    → contains (codes "RX-packets") line ≡ true
    → counters_of (fields line) ≡ some (a, b, c)
    → parse_line stats line ≡ ok (record stats { rx_packets = a; rx_dropped = b; rx_total = c })
unfolding parse_line
parse_line-rx_fields stats line a b c e h k = rw (e, h, k)

parse_line-tx_fields :
    (stats : PortStats) (line : Bytes) (a b c : ℤ)
    → is_empty line ≡ false
    → contains (codes "RX-packets") line ≡ false
    → contains (codes "TX-packets") line ≡ true
    → counters_of (fields line) ≡ some (a, b, c)
    → parse_line stats line ≡ ok (record stats { tx_packets = a; tx_dropped = b; tx_total = c })
unfolding parse_line
parse_line-tx_fields stats line a b c e r h k = rw (e, r, h, k)

parse_line-rx :
    (stats : PortStats) (m n : ℕ) (a b c : ℤ)
    → IsInt64 a
    → IsInt64 b
    → IsInt64 c
    → parse_line stats (counters_line (direction b'R') m n a b c)
      ≡ ok (record stats { rx_packets = a; rx_dropped = b; rx_total = c })
parse_line-rx stats m n a b c ia ib ic =
    parse_line-rx_fields stats _ a b c refl (contains_rx m n a b c)
      (counters_of-line b'R' m n a b c r_is_no_space ia ib ic)

parse_line-tx :
    (stats : PortStats) (m n : ℕ) (a b c : ℤ)
    → IsInt64 a
    → IsInt64 b
    → IsInt64 c
    → parse_line stats (counters_line (direction b'T') m n a b c)
      ≡ ok (record stats { tx_packets = a; tx_dropped = b; tx_total = c })
parse_line-tx stats m n a b c ia ib ic =
    parse_line-tx_fields stats _ a b c refl
      (contains-without b'R' (codes "X-packets") (counters_line (direction b'T') m n a b c) (
        counters_line-Without (λ x. b'R' == x) (λ k h. ground arith) refl refl b'T' m n a b c refl
          refl refl))
      (contains_tx m n a b c) (counters_of-line b'T' m n a b c t_is_no_space ia ib ic)

-- The two lines of a port's statistics.
abbrev pub port_lines : PortStats → ℕ → ℕ → ℕ → ℕ → List Bytes
port_lines p m n m' n' =
    counters_line (direction b'R') m n p.rx_packets p.rx_dropped p.rx_total
    ∷ counters_line (direction b'T') m' n' p.tx_packets p.tx_dropped p.tx_total
    ∷ []

-- Every counter is an `int64`.
pub record IsMachine (p : PortStats) : Type 0 where
  pub rx_packets : IsInt64 p.rx_packets
  pub rx_dropped : IsInt64 p.rx_dropped
  pub rx_total : IsInt64 p.rx_total
  pub tx_packets : IsInt64 p.tx_packets
  pub tx_dropped : IsInt64 p.tx_dropped
  pub tx_total : IsInt64 p.tx_total

parse_lines-port_lines :
    (p : PortStats) (m n m' n' : ℕ)
    → IsMachine p
    → parse_lines (port_lines p m n m' n') zero_stats ≡ ok p
unfolding parse_lines
parse_lines-port_lines p m n m' n' h =
    ap
      (λ r. and_then r (λ s.
        parse_lines (counters_line (direction b'T') m' n' p.tx_packets p.tx_dropped p.tx_total ∷ [])
          s))
      (parse_line-rx zero_stats m n p.rx_packets p.rx_dropped p.rx_total h.rx_packets h.rx_dropped
        h.rx_total)
    ∙ ap (λ r. and_then r (λ s. parse_lines [] s))
        (parse_line-tx _ m' n' p.tx_packets p.tx_dropped p.tx_total h.tx_packets h.tx_dropped
          h.tx_total)

counters_line-IsLine :
    (d m n : ℕ) (a b c : ℤ) → (d == b'\n') ≡ false → IsLine (counters_line (direction d) m n a b c)
counters_line-IsLine d m n a b c h =
    counters_line-Without (λ x. x == b'\n') (λ k q. ground arith) refl refl d m n a b c (rw h)
      (rw h) (rw h)

pub port_lines-IsLine : (p : PortStats) (m n m' n' : ℕ) → All IsLine (port_lines p m n m' n')
port_lines-IsLine p m n m' n' = (
  counters_line-IsLine b'R' m n p.rx_packets p.rx_dropped p.rx_total refl,
  (counters_line-IsLine b'T' m' n' p.tx_packets p.tx_dropped p.tx_total refl, tt),
)

-- The two lines of counters that testpmd prints for a port, in columns padded by any number of
-- blanks, are read back as the same counters, if these are `int64` values.
pub parse_testpmd_stats_section-port_lines :
    (p : PortStats) (m n m' n' : ℕ)
    → IsMachine p
    → parse_testpmd_stats_section (join (codes "\n") (port_lines p m n m' n')) ≡ ok p
unfolding parse_testpmd_stats_section
parse_testpmd_stats_section-port_lines p m n m' n' h =
    ap (λ ls. parse_lines ls zero_stats) (split-join _ _ (port_lines-IsLine p m n m' n'))
    ∙ parse_lines-port_lines p m n m' n' h
