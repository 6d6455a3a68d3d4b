-- ===== src/Executor/Samples.antt =====
-- Consoles that answer each command, and what is read off their answers.
use kubevirt_dpdk_checkup.Base.{
  ℕ, ◌-64◌, ◌≡◌, refl, Bool, true, false, Option, none, inr, List, [], ◌∷◌, ◌++◌, Bytes, codes, pos,
  bytes_eq, ltb,
}
use kubevirt_dpdk_checkup.Go.Error.{Error}
use kubevirt_dpdk_checkup.Go.Act.{ok}
use kubevirt_dpdk_checkup.Go.Sequence as Sequence
use kubevirt_dpdk_checkup.Go.Strings.{join}
use kubevirt_dpdk_checkup.Go.Strconv.{format_int}
use kubevirt_dpdk_checkup.Go.Context.{Context}
use kubevirt_dpdk_checkup.World.{Env, History, Batcher}
use kubevirt_dpdk_checkup.World.Poll.{rounds, poll_rounds}
use kubevirt_dpdk_checkup.Config.Samples.{cfg}
use kubevirt_dpdk_checkup.Checkup.Samples.{cluster}
use kubevirt_dpdk_checkup.Status.{Results, empty_results}
use kubevirt_dpdk_checkup.Testpmd.{zero_stats, port_section_end, summary_section_end}
use kubevirt_dpdk_checkup.Testpmd.Render.{port_lines}
use kubevirt_dpdk_checkup.Trex.Client.{Decoder}
use kubevirt_dpdk_checkup.Trex.Types.{GlobalStats, PortStats}
use kubevirt_dpdk_checkup.Executor.{Executor, Floats, execute, new_executor}

abbrev pub port : PortStats ℕ
port = record {
  id = codes "1";
  jsonrpc = codes "2.0";
  result = record {
    ibytes = pos 0;
    ierrors = pos 0;
    ipackets = pos 0;
    m_cpu_util = 0;
    m_total_rx_bps = 0;
    m_total_rx_pps = 0;
    m_total_tx_bps = 0;
    m_total_tx_pps = 0;
    obytes = pos 30720;
    oerrors = pos 0;
    opackets = pos 480;
  };
}

abbrev pub few_drops : GlobalStats ℕ
few_drops = record {
  id = codes "2";
  jsonrpc = codes "2.0";
  result = record {
    m_active_flows = 0;
    m_active_sockets = pos 0;
    m_bw_per_core = 0;
    m_cpu_util = 0;
    m_cpu_util_raw = 0;
    m_open_flows = 0;
    m_platform_factor = 0;
    m_rx_bps = 0;
    m_rx_core_pps = 0;
    m_rx_cpu_util = 0;
    m_rx_drop_bps = 7;
    m_rx_pps = 0;
    m_socket_util = 0;
    m_total_alloc_error = pos 0;
    m_total_clients = pos 0;
    m_total_nat_active = pos 0;
    m_total_nat_learn_error = pos 0;
    m_total_nat_no_fid = pos 0;
    m_total_nat_open = pos 0;
    m_total_nat_syn_wait = pos 0;
    m_total_nat_time_out = pos 0;
    m_total_nat_time_out_wait_ack = pos 0;
    m_total_queue_drop = pos 0;
    m_total_queue_full = pos 0;
    m_total_rx_bytes = pos 0;
    m_total_rx_pkts = pos 0;
    m_total_servers = pos 0;
    m_total_tx_bytes = pos 0;
    m_total_tx_pkts = pos 0;
    m_tx_bps = 0;
    m_tx_cps = 0;
    m_tx_expected_bps = 0;
    m_tx_expected_cps = 0;
    m_tx_expected_pps = 0;
    m_tx_pps = 0;
  };
}

-- A decoder that reads 480 sent packets off any text.
abbrev pub decoder : Decoder ℕ
decoder = record { global_stats = λ text. inr few_drops; port_stats = λ text. inr port }

abbrev pub floats : Floats ℕ
floats = record { zero = 0; greater = λ a b. ltb b a }

-- What each console prints for any command.
abbrev shown_by : Bool → Bytes
shown_by true =
    codes "Forward statistics for port 0\n"
    ++ (join (codes "\n") (port_lines (record zero_stats { tx_packets = pos 2 }) 0 0 0 0)
        ++ (line
            ++ (codes "Forward statistics for port 1\n"
                ++ (join (codes "\n") (port_lines zero_stats 0 0 0 0)
                    ++ (line
                        ++ (codes "Accumulated forward statistics for all ports\n"
                            ++ (join (codes "\n")
                                  (port_lines (record zero_stats { rx_total = pos 482 }) 0 0 0 0)
                                ++ (codes "\n" ++ summary_section_end))))))))
  where
    line : Bytes
    line = codes "\n" ++ (port_section_end ++ codes "\n")
shown_by false =
    codes
      "Console Commands get_global_stats get_port_stats 1234567890123 [verbose] Server Response:\n\n{}\n\n"

abbrev pub vm_name : Bytes
vm_name = codes "vmi-under-test-abcde"

abbrev pub tg_name : Bytes
tg_name = codes "dpdk-traffic-gen-abcde"

-- The answers, by the name of the instance.
abbrev pub answers : History → Bytes → List Batcher → ℕ → List Bytes × Option Error
answers h name batch timeout =
    let text = shown_by (bytes_eq name vm_name) in (text ∷ text ∷ [], none)

abbrev pub talking : Env
talking = record cluster { expect_batch = answers }

abbrev pub all_received : Results
all_received = record empty_results {
  traffic_gen_sent_packets = pos 480;
  vm_under_test_received_packets = pos 480;
}

abbrev pub executor : Executor
executor = new_executor (codes "ns") cfg

-- The same at any history and for any context.
pub execution_passes :
    (ctx : Context) (h : History)
    → (execute talking (rounds 1) decoder floats (λ d. 300) executor ctx vm_name tg_name h).0
      ≡ ok all_received
unfolding execute poll_rounds Sequence.◌>>=◌ format_int new_executor ◌-64◌
execution_passes ctx h = refl
