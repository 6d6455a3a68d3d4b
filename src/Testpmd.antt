-- ===== src/Testpmd.antt =====
-- pkg/internal/checkup/executor/testpmd/console.go: the statistics that testpmd prints, and how they
-- are read.
pub mod Command
pub mod Console
pub mod Columns
pub mod Render
pub mod Section
pub mod Foreign
pub mod Output
pub mod Answers
mod Tests
use kubevirt_dpdk_checkup.Base.{
  ℕ, suc, ◌+◌, ◌-◌, Bool, true, false, ◌||◌, not, Option, none, some, List, [], ◌∷◌, ◌++◌, Bytes,
  codes, is_empty, length, get_elem?, take, drop, leb, ltb, if◌then◌else◌, ℤ, pos,
}
use kubevirt_dpdk_checkup.Go.Error.{Error, new, wrap}
use kubevirt_dpdk_checkup.Go.Act.{Result, ok, err, panic, map_err, and_then}
use kubevirt_dpdk_checkup.Go.Strings.{contains, split, join, fields}
use kubevirt_dpdk_checkup.Go.Strconv.{parse_int, value, format_nat}

pub record PortStats : Type 0 where
  pub rx_packets : ℤ
  pub rx_dropped : ℤ
  pub rx_total : ℤ
  pub tx_packets : ℤ
  pub tx_dropped : ℤ
  pub tx_total : ℤ

-- `PortStats{}`.
abbrev pub zero_stats : PortStats
zero_stats = record {
  rx_packets = pos 0;
  rx_dropped = pos 0;
  rx_total = pos 0;
  tx_packets = pos 0;
  tx_dropped = pos 0;
  tx_total = pos 0;
}

-- `[StatsArraySize]PortStats`, in the order of the `StatsIdx` values.
pub record Statistics : Type 0 where
  pub port0 : PortStats
  pub port1 : PortStats
  pub summary : PortStats

-- `findStringLineIndex`, the substring first; the number of the lines if none has it.
unfoldable pub find_string_line_index : Bytes → List Bytes → ℕ
unfolding contains
find_string_line_index substring [] = 0
find_string_line_index substring (line ∷ lines) =
    let rest = find_string_line_index substring lines in
    if contains substring line then 0 else suc rest

-- `%v` of a Boolean.
abbrev bool_text : Bool → Bytes
bool_text true = codes "true"
bool_text false = codes "false"

-- `lines[start+1:end]`, which panics for an end before its start.
abbrev section_lines : List Bytes → ℕ → ℕ → Result (List Bytes)
section_lines lines start end =
    if leb (suc start) end then ok (take (end - suc start) (drop (suc start) lines)) else panic

-- `extractSectionStatistics` between the split and the join.
unfoldable pub extract_section_lines : List Bytes → Bytes → Bytes → Result (List Bytes)
unfolding find_string_line_index
extract_section_lines lines section_start section_end =
    let start = find_string_line_index section_start lines in
    let end = start + find_string_line_index section_end (drop start lines) in
    if leb (length lines) start || leb (length lines) end
    then err (
        new (
          codes "could not extract statistics section. found start: "
          ++ (bool_text (ltb start (length lines))
              ++ (codes "; found end: " ++ bool_text (ltb end (length lines))))))
    else section_lines lines start end

abbrev pub joined : Result (List Bytes) → Result Bytes
joined (ok ls) = ok (join (codes "\n") ls)
joined (err e) = err e
joined panic = panic

-- `extractSectionStatistics`.
unfoldable pub extract_section_statistics : Bytes → Bytes → Bytes → Result Bytes
unfolding extract_section_lines split join
extract_section_statistics input section_start section_end =
    joined (extract_section_lines (split b'\n' input) section_start section_end)

-- Three fields of a line, parsed without a look at the error; a missing one panics.
abbrev three_counters : Option Bytes → Option Bytes → Option Bytes → Option (ℤ × ℤ × ℤ)
three_counters (some a) (some b) (some c) =
    some (value (parse_int a), value (parse_int b), value (parse_int c))
three_counters (some a) (some b) none = none
three_counters (some a) none c = none
three_counters none b c = none

abbrev pub counters_of : List Bytes → Option (ℤ × ℤ × ℤ)
counters_of fs = three_counters (get_elem? fs 1) (get_elem? fs 3) (get_elem? fs 5)

abbrev put_rx : PortStats → Option (ℤ × ℤ × ℤ) → Result PortStats
put_rx stats none = panic
put_rx stats (some (a, b, c)) = ok (record stats { rx_packets = a; rx_dropped = b; rx_total = c })

abbrev put_tx : PortStats → Option (ℤ × ℤ × ℤ) → Result PortStats
put_tx stats none = panic
put_tx stats (some (a, b, c)) = ok (record stats { tx_packets = a; tx_dropped = b; tx_total = c })

-- One round of the loop of `parseTestpmdStatsSection`.
unfoldable pub parse_line : PortStats → Bytes → Result PortStats
unfolding contains fields parse_int
parse_line stats line =
    if is_empty line
    then ok stats
    else if contains (codes "RX-packets") line
    then put_rx stats (counters_of (fields line))
    else if contains (codes "TX-packets") line
    then put_tx stats (counters_of (fields line))
    else err (new (codes "parse fail. Unknown line format " ++ line))

-- `parseTestpmdStatsSection` behind the split.
unfoldable pub parse_lines : List Bytes → PortStats → Result PortStats
unfolding parse_line
parse_lines [] stats = ok stats
parse_lines (line ∷ lines) stats = and_then (parse_line stats line) (λ s. parse_lines lines s)

-- `parseTestpmdStatsSection`, which fills zero statistics.
unfoldable pub parse_testpmd_stats_section : Bytes → Result PortStats
unfolding parse_lines split
parse_testpmd_stats_section section = parse_lines (split b'\n' section) zero_stats

abbrev pub port0_section_start : Bytes
port0_section_start = codes "Forward statistics for port 0"

abbrev port1_section_start : Bytes
port1_section_start = codes "Forward statistics for port 1"

abbrev pub summary_section_start : Bytes
summary_section_start = codes "Accumulated forward statistics for all ports"

abbrev pub port_section_end : Bytes
port_section_end =
    codes "----------------------------------------------------------------------------"

abbrev pub summary_section_end : Bytes
summary_section_end =
    codes "++++++++++++++++++++++++++++++++++++++++++++++++++++++++++++++++++++++++++++"

unfoldable pub section_failed : ℕ → Error → Error
unfolding format_nat
section_failed port e =
    wrap (codes "failed parsing section on port " ++ (format_nat port ++ codes ": ")) e []

-- One round of the loop of `parseTestpmdStats`.
unfoldable pub parse_port : Bytes → ℕ → Bytes → Bytes → Result PortStats
unfolding extract_section_statistics parse_testpmd_stats_section section_failed
parse_port input port section_start section_end =
    and_then
      (map_err (section_failed port) (extract_section_statistics input section_start section_end))
      parse_testpmd_stats_section

-- `parseTestpmdStats`.
unfoldable pub parse_testpmd_stats : Bytes → Result Statistics
unfolding parse_port
parse_testpmd_stats input = and_then (parse_port input 0 port0_section_start port_section_end) λ a.
    and_then (parse_port input 1 port1_section_start port_section_end) λ b.
      and_then (parse_port input 2 summary_section_start summary_section_end)
        λ c. ok (record { port0 = a; port1 = b; summary = c })
