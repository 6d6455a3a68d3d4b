-- ===== src/Testpmd/Foreign.antt =====
-- Texts that are in no line of testpmd's counters: the starts and the ends of its sections.
use kubevirt_dpdk_checkup.Base.{
  ℕ, zero, suc, ◌+◌, ◌≤◌, ◌<◌, ◌≡◌, refl, true, false, ◌∷◌, ◌++◌, Bytes, codes, arith, ◌==◌, ℤ, pos,
  negsuc,
}
use kubevirt_dpdk_checkup.Go.Strings.{contains}
use kubevirt_dpdk_checkup.Go.Strings.Count.{count, count-append_≤, count-without, contains-few}
use kubevirt_dpdk_checkup.Go.Strings.Fields.{contains-without, none_meets}
use kubevirt_dpdk_checkup.Go.Strconv.{format_int, format_nat}
use kubevirt_dpdk_checkup.Go.Strconv.Digits.{format_nat-All}
use kubevirt_dpdk_checkup.Testpmd.{PortStats, port_section_end}
use kubevirt_dpdk_checkup.Testpmd.Columns.{gap, counters_line, direction}
use kubevirt_dpdk_checkup.Testpmd.Render.{port_lines, counters_line-Without}
use kubevirt_dpdk_checkup.Testpmd.Section.{Lacks}

-- A byte that is neither in the labels of the counters, nor a digit, a sign or a blank.
pub record IsForeign (c : ℕ) : Type 0 where
  digit : (n : ℕ) → n < 10 → (c == b'0' + n) ≡ false
  sign : (c == b'-') ≡ false
  blank : (c == b' ') ≡ false
  rx_packets : none_meets (λ x. c == x) (codes "  RX-packets: ") ≡ true
  rx_dropped : none_meets (λ x. c == x) (codes "RX-dropped: ") ≡ true
  rx_total : none_meets (λ x. c == x) (codes "RX-total: ") ≡ true
  tx_packets : none_meets (λ x. c == x) (codes "  TX-packets: ") ≡ true
  tx_dropped : none_meets (λ x. c == x) (codes "TX-dropped: ") ≡ true
  tx_total : none_meets (λ x. c == x) (codes "TX-total: ") ≡ true

-- A text that begins with such a byte is in no line of counters.
pub port_lines-Lacks :
    (c : ℕ) (cs : Bytes) (p : PortStats) (m n m' n' : ℕ)
    → IsForeign c
    → Lacks (c ∷ cs) (port_lines p m n m' n')
port_lines-Lacks c cs p m n m' n' f = (
  contains-without c cs (counters_line (direction b'R') m n p.rx_packets p.rx_dropped p.rx_total) (
      counters_line-Without (λ x. c == x) f.digit f.sign f.blank b'R' m n p.rx_packets p.rx_dropped
        p.rx_total f.rx_packets f.rx_dropped f.rx_total),
  (
    contains-without c cs
        (counters_line (direction b'T') m' n' p.tx_packets p.tx_dropped p.tx_total)
        (counters_line-Without (λ x. c == x) f.digit f.sign f.blank b'T' m' n' p.tx_packets
          p.tx_dropped p.tx_total f.tx_packets f.tx_dropped f.tx_total),
    tt,
  ),
)

pub letter_f-IsForeign : IsForeign b'F'
letter_f-IsForeign = record {
  digit = λ n h. ground arith;
  sign = refl;
  blank = refl;
  rx_packets = refl;
  rx_dropped = refl;
  rx_total = refl;
  tx_packets = refl;
  tx_dropped = refl;
  tx_total = refl;
}

pub letter_a-IsForeign : IsForeign b'A'
letter_a-IsForeign = record {
  digit = λ n h. ground arith;
  sign = refl;
  blank = refl;
  rx_packets = refl;
  rx_dropped = refl;
  rx_total = refl;
  tx_packets = refl;
  tx_dropped = refl;
  tx_total = refl;
}

pub plus-IsForeign : IsForeign b'+'
plus-IsForeign = record {
  digit = λ n h. ground arith;
  sign = refl;
  blank = refl;
  rx_packets = refl;
  rx_dropped = refl;
  rx_total = refl;
  tx_packets = refl;
  tx_dropped = refl;
  tx_total = refl;
}

format_nat-dashes : (n : ℕ) → count b'-' (format_nat n) ≡ 0
format_nat-dashes n =
    count-without b'-' (format_nat n)
      (format_nat-All (λ x. (b'-' == x) ≡ false) (λ k h. ground arith) n)

-- A formatted number has at most one dash.
format_int-dashes : (z : ℤ) → count b'-' (format_int z) ≤ 1
unfolding count format_int
format_int-dashes (pos n) = omega (arith, format_nat-dashes n)
format_int-dashes (negsuc n) = omega (arith, format_nat-dashes (suc n))

gap-dashes : (n : ℕ) → count b'-' (gap n) ≤ 0
unfolding count
gap-dashes zero = ground arith
gap-dashes (suc n) = gap-dashes n

counters_line-dashes :
    (d m n : ℕ) (a b c : ℤ)
    → (b'-' == d) ≡ false
    → count b'-' (counters_line (direction d) m n a b c) ≤ 6
unfolding count
counters_line-dashes d m n a b c h =
    let packets = codes "  " ++ (direction d ++ codes "-packets: ") in
    let dropped = direction d ++ codes "-dropped: " in
    let total = direction d ++ codes "-total: " in
    let last = total ++ format_int c in
    let second = format_int b ++ (gap n ++ last) in
    let first = format_int a ++ (gap m ++ (dropped ++ second)) in
    count-append_≤ b'-' 1 5 packets first (rw h (omega arith)) (
      count-append_≤ b'-' 1 4 (format_int a) (gap m ++ (dropped ++ second)) (format_int-dashes a) (
        count-append_≤ b'-' 0 4 (gap m) (dropped ++ second) (gap-dashes m) (
          count-append_≤ b'-' 1 3 dropped second (rw h (omega arith)) (
            count-append_≤ b'-' 1 2 (format_int b) (gap n ++ last) (format_int-dashes b) (
              count-append_≤ b'-' 0 2 (gap n) last (gap-dashes n) (
                count-append_≤ b'-' 1 1 total (format_int c) (rw h (omega arith))
                  (format_int-dashes c)))))))

end_dashes : count b'-' port_section_end ≡ 76
unfolding count
end_dashes = refl

few_dashes : (l : Bytes) → count b'-' l ≤ 6 → contains port_section_end l ≡ false
few_dashes l h = contains-few b'-' port_section_end l (omega (arith, end_dashes))

-- The end of a port's section, of 76 dashes, is in no line of counters.
pub port_lines-no_end :
    (p : PortStats) (m n m' n' : ℕ) → Lacks port_section_end (port_lines p m n m' n')
port_lines-no_end p m n m' n' = (
  few_dashes (counters_line (direction b'R') m n p.rx_packets p.rx_dropped p.rx_total)
      (counters_line-dashes b'R' m n p.rx_packets p.rx_dropped p.rx_total refl),
  (
    few_dashes (counters_line (direction b'T') m' n' p.tx_packets p.tx_dropped p.tx_total)
        (counters_line-dashes b'T' m' n' p.tx_packets p.tx_dropped p.tx_total refl),
    tt,
  ),
)
