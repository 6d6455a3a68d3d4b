-- ===== src/Reporter/Tests.antt =====
-- Stored results are read back at concrete counters.
use kubevirt_dpdk_checkup.Base.{◌≡◌, codes, pos, arith}
use kubevirt_dpdk_checkup.Status.{Results}
use kubevirt_dpdk_checkup.Reporter.{format_results}
use kubevirt_dpdk_checkup.Reporter.ReadBack.{IsMachine, read_results, read_results-format_results}

abbrev measured : Results
measured = record {
  traffic_gen_sent_packets = pos 480;
  traffic_gen_output_error_packets = pos 1;
  traffic_gen_input_error_packets = pos 0;
  vm_under_test_received_packets = pos 479;
  vm_under_test_rx_dropped_packets = pos 0;
  vm_under_test_tx_dropped_packets = pos 3;
  traffic_gen_actual_node_name = codes "node1";
  vm_under_test_actual_node_name = codes "node2";
}

measured-IsMachine : IsMachine measured
measured-IsMachine = ground arith

read_results-format_results_example : read_results (format_results measured) ≡ measured
read_results-format_results_example = read_results-format_results measured measured-IsMachine
