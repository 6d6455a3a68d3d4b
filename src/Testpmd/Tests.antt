-- ===== src/Testpmd/Tests.antt =====
-- Testpmd's output is read at concrete counters.
use kubevirt_dpdk_checkup.Base.{
  false, ◌≡◌, refl, Bool, true, Bool-cases, inl, inr, if◌then◌else◌, List, [], ◌∷◌, Bytes, codes,
  pos, none, All, arith, ◌==◌,
}
use kubevirt_dpdk_checkup.Go.Act.{ok, panic}
use kubevirt_dpdk_checkup.Go.Strings.{join, contains}
use kubevirt_dpdk_checkup.Go.Strings.Lines.{IsLine}
use kubevirt_dpdk_checkup.Go.Strings.Fields.{All-none_meets, none_meets}
use kubevirt_dpdk_checkup.Testpmd.{
  PortStats, Statistics, parse_testpmd_stats_section, parse_testpmd_stats,
}
use kubevirt_dpdk_checkup.Checkup.Samples.{cluster}
use kubevirt_dpdk_checkup.Testpmd.Console.{TestpmdConsole, get_stats}
use kubevirt_dpdk_checkup.Testpmd.Render.{IsMachine}
use kubevirt_dpdk_checkup.World.{Env}
use kubevirt_dpdk_checkup.Testpmd.Answers.{shows, session, get_stats-Tells}
use kubevirt_dpdk_checkup.Testpmd.Output.{
  Padding, IsPreamble, shown_lines, parse_testpmd_stats-shown_lines,
}

abbrev port0 : PortStats
port0 = record {
  rx_packets = pos 2;
  rx_dropped = pos 0;
  rx_total = pos 2;
  tx_packets = pos 480000000;
  tx_dropped = pos 0;
  tx_total = pos 480000000;
}

abbrev after : List Bytes
after = [] ∷ codes "testpmd> " ∷ []

port0-IsMachine : IsMachine port0
port0-IsMachine = ground arith

abbrev are_lines : List Bytes → Bool
are_lines [] = true
are_lines (l ∷ ls) =
    let rest = are_lines ls in if none_meets (λ c. c == b'\n') l then rest else false

are_lines-IsLine : (ls : List Bytes) → are_lines ls ≡ true → All IsLine ls
are_lines-IsLine [] h = tt
are_lines-IsLine (l ∷ ls) h = elim (Bool-cases (none_meets (λ c. c == b'\n') l)) [
  | inl e ↦ (All-none_meets (λ c. c == b'\n') l e, are_lines-IsLine ls (rw e at h))
  | inr e ↦ absurd (false_ne_true (rw e at h))
]
  where
    false_ne_true : false ≡ true → ⊥
    false_ne_true q = cc

-- A whole output: both ports, and the totals.
abbrev port1 : PortStats
port1 = record {
  rx_packets = pos 480000000;
  rx_dropped = pos 0;
  rx_total = pos 480000000;
  tx_packets = pos 1;
  tx_dropped = pos 0;
  tx_total = pos 1;
}

abbrev summary : PortStats
summary = record {
  rx_packets = pos 480000002;
  rx_dropped = pos 0;
  rx_total = pos 480000002;
  tx_packets = pos 480000001;
  tx_dropped = pos 0;
  tx_total = pos 480000001;
}

abbrev statistics : Statistics
statistics = record { port0 = port0; port1 = port1; summary = summary }

abbrev right_wide : Padding
right_wide = record { rx_packets = 13; rx_dropped = 13; tx_packets = 5; tx_dropped = 13 }

abbrev left_wide : Padding
left_wide = record { rx_packets = 5; rx_dropped = 13; tx_packets = 13; tx_dropped = 13 }

abbrev narrow : Padding
narrow = record { rx_packets = 5; rx_dropped = 13; tx_packets = 5; tx_dropped = 13 }

abbrev queue_lines : List Bytes
queue_lines =
    codes "testpmd> show fwd stats all"
    ∷ []
    ∷ codes "  ------- Forward Stats for RX Port= 0/Queue= 0 -> TX Port= 1/Queue= 0 -------"
    ∷ codes "  RX-packets: 160000001      TX-packets: 160000001      TX-dropped: 0             "
    ∷ []
    ∷ []

queue_lines-IsPreamble : IsPreamble queue_lines
unfolding contains
queue_lines-IsPreamble = record {
  lines = are_lines-IsLine queue_lines refl;
  no_port0 = (refl, (refl, (refl, (refl, (refl, tt)))));
  no_port1 = (refl, (refl, (refl, (refl, (refl, tt)))));
  no_summary = (refl, (refl, (refl, (refl, (refl, tt)))));
}

parse_testpmd_stats-shown_lines_example :
    parse_testpmd_stats
      (join (codes "\n") (shown_lines queue_lines statistics right_wide left_wide narrow after))
    ≡ ok statistics
parse_testpmd_stats-shown_lines_example =
    parse_testpmd_stats-shown_lines queue_lines statistics right_wide left_wide narrow after
      queue_lines-IsPreamble (are_lines-IsLine after refl) port0-IsMachine (ground arith)
      (ground arith)

-- A line that is cut short panics.
short_line_test : parse_testpmd_stats_section (codes "  RX-packets: 2  RX-dropped: 0") ≡ panic
unfolding parse_testpmd_stats_section
short_line_test = refl

abbrev console : TestpmdConsole
console = record {
  console_expecter = record { vmi_namespace = codes "ns"; vmi_name = codes "vm" };
  vmi_east_nic_pci_address = codes "0000:06:00.0";
  vmi_east_eth_peer_mac_address = codes "50:00:00:00:00:01";
  vmi_west_nic_pci_address = codes "0000:07:00.0";
  vmi_west_eth_peer_mac_address = codes "50:00:00:00:00:02";
  verbose_prints_enabled = false;
}

-- A cluster on whose consoles testpmd shows the statistics.
abbrev showing : Env
showing = record cluster {
  expect_batch = λ h name batch timeout. (
    join (codes "\n") (shown_lines queue_lines statistics right_wide left_wide narrow after) ∷ [],
    none,
  );
}

get_stats-Tells_example :
    get_stats showing console [] ≡ (ok statistics, session console.console_expecter [])
get_stats-Tells_example = get_stats-Tells showing console [] (ok statistics) refl refl (
    shows queue_lines after right_wide left_wide narrow queue_lines-IsPreamble
      (are_lines-IsLine after refl) port0-IsMachine (ground arith) (ground arith))
