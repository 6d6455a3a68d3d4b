-- ===== src/Executor/Tests.antt =====
-- An execution on answering consoles, and the count of the received packets at concrete statistics.
use kubevirt_dpdk_checkup.Base.{ℕ, false, List, codes, ◌-◌, ◌≡◌, refl, arith, pos, IsInt64, [], ◌↔◌}
use kubevirt_dpdk_checkup.Go.Act.{Result, ok}
use kubevirt_dpdk_checkup.Go.Context.{background}
use kubevirt_dpdk_checkup.World.{History}
use kubevirt_dpdk_checkup.World.Poll.{rounds, poll_rounds}
use kubevirt_dpdk_checkup.Status.{Results}
use kubevirt_dpdk_checkup.Testpmd.{zero_stats, Statistics}
use kubevirt_dpdk_checkup.Console.{new_expecter}
use kubevirt_dpdk_checkup.Trex.Client.{new_client}
use kubevirt_dpdk_checkup.Executor.{totals, execute, monitor_drop_rates, new_executor}
use kubevirt_dpdk_checkup.Executor.Rates.{IsOrder, IsLargest, Sampled, monitor_drop_rates-IsLargest}
use kubevirt_dpdk_checkup.Executor.Steps.{Executed, execute_iff}
use kubevirt_dpdk_checkup.Executor.Totals.{totals-received}
use kubevirt_dpdk_checkup.Executor.Samples.{
  port, talking, decoder, floats, executor, vm_name, tg_name, all_received,
}

abbrev stats : Statistics
stats = record {
  port0 = record zero_stats { tx_packets = pos 2 };
  port1 = record zero_stats { rx_packets = pos 3 };
  summary = record zero_stats { rx_total = pos 485 };
}

totals-received_example :
    ((totals port port stats).vm_under_test_received_packets ≡ pos (485 - 2 - 3))
    × IsInt64 (totals port port stats).vm_under_test_received_packets
totals-received_example =
    totals-received port port stats 485 2 3 refl refl refl (omega arith) (omega arith)

abbrev executed : Result Results × History
executed =
    execute talking (rounds 1) decoder floats (λ d. 300) executor background vm_name tg_name []

execute_iff_example :
    (executed ≡ (ok all_received, executed.1))
    ↔ Executed talking
        (rounds 1)
        decoder
        floats
        (λ d. 300)
        executor
        background
        vm_name
        tg_name
        []
        all_received
        executed.1
execute_iff_example =
    execute_iff talking (rounds 1) decoder floats (λ d. 300) executor background vm_name tg_name []
      all_received executed.1

floats-IsOrder : IsOrder floats
floats-IsOrder = record {
  asymmetric = λ a b h. ground arith;
  transitive = λ a b c h k. ground arith;
}

abbrev watching : Result ℕ × History
watching =
    monitor_drop_rates talking (rounds 1) decoder floats (λ d. 300) executor background
      (new_client (new_expecter (codes "ns") tg_name) (codes "1m") (pos 300) false) []

watching_returns : watching.0 ≡ ok 7
unfolding monitor_drop_rates poll_rounds new_executor
watching_returns = refl

monitor_drop_rates-IsLargest_example :
    (rates : List ℕ) × Sampled talking decoder
      (new_client (new_expecter (codes "ns") tg_name) (codes "1m") (pos 300) false)
      []
      rates
      watching.1
    × IsLargest floats 0 rates 7
monitor_drop_rates-IsLargest_example =
    monitor_drop_rates-IsLargest talking (rounds 1) decoder floats (λ d. 300) executor background
      (new_client (new_expecter (codes "ns") tg_name) (codes "1m") (pos 300) false) [] 7
      floats-IsOrder watching_returns
