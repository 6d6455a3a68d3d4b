-- ===== src/Executor.antt =====
-- pkg/internal/checkup/executor/executor.go: the execution of a checkup over both consoles.
pub mod Totals
pub mod Keeps
pub mod Steps
pub mod Rates
pub mod Samples
mod Tests
use kubevirt_dpdk_checkup.Base.{
  ℕ, Bool, true, false, Option, none, some, ◌⊎◌, inl, inr, List, [], ◌∷◌, ◌++◌, Bytes, codes, ℤ,
  ◌-64◌, if◌then◌else◌,
}
use kubevirt_dpdk_checkup.Go.Error.{Error, new, wrap, is_wait_timeout}
use kubevirt_dpdk_checkup.Go.Act.{Act, Result, ok, err, panic, map_err, pure, fail}
use kubevirt_dpdk_checkup.Go.Sequence.{◌>>=◌, ◌>>◌}
use kubevirt_dpdk_checkup.Go.Context.{Context, with_timeout}
use kubevirt_dpdk_checkup.Go.Fmt.{hardware_addr}
use kubevirt_dpdk_checkup.World.{Env, History, from_error}
use kubevirt_dpdk_checkup.World.Poll.{Poller}
use kubevirt_dpdk_checkup.Config.{Config}
use kubevirt_dpdk_checkup.Guest
use kubevirt_dpdk_checkup.Status.{Results, empty_results}
use kubevirt_dpdk_checkup.Console.{Expecter, new_expecter, get_guest_kernel_args}
use kubevirt_dpdk_checkup.Console.Login.{login_to_centos_as_root}
use kubevirt_dpdk_checkup.Testpmd.{Statistics}
use kubevirt_dpdk_checkup.Testpmd.Console as TestpmdConsole
use kubevirt_dpdk_checkup.Trex.Types.{GlobalStats, PortStats}
use kubevirt_dpdk_checkup.Trex.Client.{
  Client, new_client, Decoder, start_server, start_traffic, source_port, dest_port,
}
use kubevirt_dpdk_checkup.Trex.Client as TrexClient
use kubevirt_dpdk_checkup.Trex.Client.Stats.{
  wait_for_server_to_be_ready, get_global_stats, get_port_stats, with_error,
}

pub record Executor : Type 0 where
  pub namespace : Bytes
  pub vmi_password : Bytes
  pub vmi_under_test_east_nic_pci_address : Bytes
  pub traffic_gen_east_mac_address : Bytes
  pub vmi_under_test_west_nic_pci_address : Bytes
  pub traffic_gen_west_mac_address : Bytes
  pub test_duration : ℤ
  pub verbose_prints_enabled : Bool
  pub traffic_generator_packets_per_second : Bytes

-- `New`.
unfoldable pub new_executor : Bytes → Config → Executor
unfolding hardware_addr
new_executor namespace cfg = record {
  namespace = namespace;
  vmi_password = Guest.vmi_password;
  vmi_under_test_east_nic_pci_address = Guest.east_nic;
  traffic_gen_east_mac_address = hardware_addr cfg.traffic_gen_east_mac_address;
  vmi_under_test_west_nic_pci_address = Guest.west_nic;
  traffic_gen_west_mac_address = hardware_addr cfg.traffic_gen_west_mac_address;
  test_duration = cfg.test_duration;
  verbose_prints_enabled = cfg.verbose;
  traffic_generator_packets_per_second = cfg.traffic_gen_packets_per_second;
}

-- The floating point numbers of the drop rates.
pub record Floats (F : Type 0) : Type 0 where
  pub zero : F
  pub greater : F → F → Bool

-- `%w` behind a text, the VMI's full name in quotes, and a text.
abbrev pub on_vmi : Bytes → Bytes → Bytes → Bytes → Error → Error
on_vmi before namespace name after e =
    wrap (before ++ (codes "\"" ++ (namespace ++ (codes "/" ++ (name ++ (codes "\"" ++ after)))))) e
      []

-- An action whose only result is an error.
abbrev error_act : (History → Option Error × History) → Act History (Unit {0})
error_act m h = (from_error (m h).0, (m h).1)

-- The variable that the condition function captures, beside the state.
pub record Monitoring (F : Type 0) : Type 0 where
  pub max_drop_rate : F
  pub history : History

abbrev pub new_max : {F : Type 0} → Floats F → F → F → F
new_max floats drop max = if floats.greater drop max then drop else max

-- Beside an error the statistics are empty.
abbrev pub record_drop :
    {F : Type 0} → Floats F → Result (GlobalStats F) → F → History → Result Bool × Monitoring F
record_drop floats (ok stats) max h = (
  ok false,
  record { max_drop_rate = new_max floats stats.result.m_rx_drop_bps max; history = h },
)
record_drop floats (err e) max h =
    (err e, record { max_drop_rate = new_max floats floats.zero max; history = h })
record_drop floats panic max h = (panic, record { max_drop_rate = max; history = h })

abbrev poll_failed : {F : Type 0} → Bool → Error → F → Result F
poll_failed true e max = ok max
poll_failed false e max = err (wrap (codes "failed to poll global stats in trex-console: ") e [])

abbrev pub monitored : {F : Type 0} → Result (Unit {0}) → F → Result F
monitored (ok _) max = ok max
monitored (err e) max = poll_failed (is_wait_timeout e) e max
monitored panic max = panic

-- The results, from the statistics of both ports and of testpmd.
unfoldable pub totals : {F : Type 0} → PortStats F → PortStats F → Statistics → Results
totals source dest stats = record empty_results {
  traffic_gen_output_error_packets = source.result.oerrors;
  traffic_gen_input_error_packets = dest.result.ierrors;
  traffic_gen_sent_packets = source.result.opackets;
  vm_under_test_rx_dropped_packets = stats.summary.rx_dropped;
  vm_under_test_tx_dropped_packets = stats.summary.tx_dropped;
  vm_under_test_received_packets =
      stats.summary.rx_total -64 stats.port0.tx_packets -64 stats.port1.rx_packets;
}

module _ {F : Type 0} (env : Env) (poller : Poller) (decoder : Decoder F) (floats : Floats F)
    (seconds : ℤ → ℕ) where
  -- The condition function of `monitorDropRates`.
  unfoldable pub monitor_condition : Client → Act (Monitoring F) Bool
  unfolding get_global_stats
  monitor_condition c w =
      let (r, h) = get_global_stats env decoder c w.history in
      record_drop floats r w.max_drop_rate h

  -- `monitorDropRates`; the context's deadline is the test duration, in seconds.
  unfoldable pub monitor_drop_rates : Executor → Context → Client → Act History F
  unfolding monitor_condition is_wait_timeout
  monitor_drop_rates e ctx c h =
      let (r, w) =
        poller.poll (Monitoring F) (with_timeout ctx (seconds e.test_duration)) 10
          (monitor_condition c) (record { max_drop_rate = floats.zero; history = h }) in
      (monitored r w.max_drop_rate, w.history)

  -- `calculateStats`.
  unfoldable pub calculate_stats : Client → TestpmdConsole.TestpmdConsole → Act History Results
  unfolding get_port_stats TestpmdConsole.get_stats totals
  calculate_stats c t = do
    source ← get_port_stats env decoder c source_port
    dest ← get_port_stats env decoder c dest_port
    stats ← TestpmdConsole.get_stats env t
    pure (totals source dest stats)

  -- The kernel arguments, of which the error is dropped.
  abbrev pub print_kernel_args : Bool → Expecter → Expecter → Act History (Unit {0})
  print_kernel_args false vm tg h = (ok tt, h)
  print_kernel_args true vm tg h =
      (do a ← get_guest_kernel_args env vm; b ← get_guest_kernel_args env tg; pure tt) h

  abbrev pub client_of : Executor → Bytes → Client
  client_of e tg_name =
      new_client (new_expecter e.namespace tg_name) e.traffic_generator_packets_per_second
        e.test_duration e.verbose_prints_enabled

  abbrev pub testpmd_of : Executor → Bytes → TestpmdConsole.TestpmdConsole
  testpmd_of e vm_name =
      TestpmdConsole.new_testpmd_console (new_expecter e.namespace vm_name)
        e.vmi_under_test_east_nic_pci_address e.traffic_gen_east_mac_address
        e.vmi_under_test_west_nic_pci_address e.traffic_gen_west_mac_address
        e.verbose_prints_enabled

  abbrev pub log_in_on : Executor → Bytes → Act History (Unit {0})
  log_in_on e name =
      with_error (on_vmi (codes "failed to login to VMI ") e.namespace name (codes ": "))
        (error_act (login_to_centos_as_root env (new_expecter e.namespace name) e.vmi_password))

  -- `Execute`.
  unfoldable pub execute : Executor → Context → Bytes → Bytes → Act History Results
  unfolding login_to_centos_as_root get_guest_kernel_args start_server wait_for_server_to_be_ready
      TestpmdConsole.run TestpmdConsole.clear_stats TrexClient.clear_stats start_traffic
      monitor_drop_rates calculate_stats
  execute e ctx vm_name tg_name =
      let c = client_of e tg_name in
      let t = testpmd_of e vm_name in
      let not_started =
        on_vmi (codes "failed to Start to Trex Service on VMI ") e.namespace tg_name (codes ": ") in
      do
        log_in_on e vm_name
        log_in_on e tg_name
        print_kernel_args e.verbose_prints_enabled t.console_expecter c.console_expecter
        with_error not_started (start_server env c)
        with_error not_started (wait_for_server_to_be_ready env poller c ctx)
        TestpmdConsole.run env t
        TestpmdConsole.clear_stats env t
        with_error
              (on_vmi (codes "failed to clear trex stats on traffic generator VMI ") e.namespace
                tg_name (codes " side: "))
              (TrexClient.clear_stats env c)
            >>= λ _. pure tt
        with_error
              (on_vmi (codes "failed to run traffic from traffic generator VMI ") e.namespace
                tg_name (codes " side: "))
              (start_traffic env c source_port)
            >>= λ _. pure tt
        rate ← monitor_drop_rates e ctx c
        calculate_stats c t
