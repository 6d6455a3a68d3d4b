-- ===== src/Reporter.antt =====
-- pkg/internal/reporter/reporter.go: the status that is stored, over kiagnose's reporter.
pub mod ReadBack
mod Tests
use kubevirt_dpdk_checkup.Base.{
  ℕ, Bool, true, false, ◌&&◌, Option, none, some, List, [], ◌∷◌, Bytes, codes, bytes_eq, is_empty,
  if◌then◌else◌, ℤ, pos, ◌==ℤ◌,
}
use kubevirt_dpdk_checkup.Go.Act.{Act}
use kubevirt_dpdk_checkup.Go.Strconv.{format_int}
use kubevirt_dpdk_checkup.Status.{Results, Status, empty_results}

-- kiagnose's `status.Status`, which `Status` embeds.
pub record StoredStatus : Type 0 where
  pub succeeded : Bool
  pub failure_reason : List Bytes
  pub results : Option (List (Bytes × Bytes))
  pub start_timestamp : Option ℕ
  pub completion_timestamp : Option ℕ

-- kiagnose's `reporter.Reporter`, over its state: `HasData` and `Report`.
pub record Store (R : Type 0) : Type 0 where
  pub has_data : R → Bool
  pub report : StoredStatus → Act R (Unit {0})

-- `checkupStatus.Status`.
abbrev pub embedded : Status → StoredStatus
embedded s = record {
  succeeded = s.succeeded;
  failure_reason = s.failure_reason;
  results = s.formatted_results;
  start_timestamp = s.start_timestamp;
  completion_timestamp = s.completion_timestamp;
}

-- Go's `==` on `status.Results`.
unfoldable pub results_eq : Results → Results → Bool
unfolding bytes_eq
results_eq a b =
    a.traffic_gen_sent_packets ==ℤ b.traffic_gen_sent_packets
    && (a.traffic_gen_output_error_packets ==ℤ b.traffic_gen_output_error_packets
        && (a.traffic_gen_input_error_packets ==ℤ b.traffic_gen_input_error_packets
            && (a.vm_under_test_received_packets ==ℤ b.vm_under_test_received_packets
                && (a.vm_under_test_rx_dropped_packets ==ℤ b.vm_under_test_rx_dropped_packets
                    && (a.vm_under_test_tx_dropped_packets ==ℤ b.vm_under_test_tx_dropped_packets
                        && (bytes_eq a.traffic_gen_actual_node_name b.traffic_gen_actual_node_name
                            && bytes_eq a.vm_under_test_actual_node_name
                                b.vm_under_test_actual_node_name))))))

abbrev traffic_gen_sent_packets_key : Bytes
traffic_gen_sent_packets_key = codes "trafficGenSentPackets"

abbrev traffic_gen_output_error_packets_key : Bytes
traffic_gen_output_error_packets_key = codes "trafficGenOutputErrorPackets"

abbrev traffic_gen_input_error_packets_key : Bytes
traffic_gen_input_error_packets_key = codes "trafficGenInputErrorPackets"

abbrev vm_under_test_received_packets_key : Bytes
vm_under_test_received_packets_key = codes "vmUnderTestReceivedPackets"

abbrev vm_under_test_rx_dropped_packets_key : Bytes
vm_under_test_rx_dropped_packets_key = codes "vmUnderTestRxDroppedPackets"

abbrev vm_under_test_tx_dropped_packets_key : Bytes
vm_under_test_tx_dropped_packets_key = codes "vmUnderTestTxDroppedPackets"

abbrev traffic_gen_actual_node_name_key : Bytes
traffic_gen_actual_node_name_key = codes "trafficGenActualNodeName"

abbrev vm_under_test_actual_node_name_key : Bytes
vm_under_test_actual_node_name_key = codes "vmUnderTestActualNodeName"

-- The entries of a map literal.
abbrev pub formatted : Results → List (Bytes × Bytes)
formatted r =
    (traffic_gen_sent_packets_key, format_int r.traffic_gen_sent_packets)
    ∷ (traffic_gen_output_error_packets_key, format_int r.traffic_gen_output_error_packets)
    ∷ (traffic_gen_input_error_packets_key, format_int r.traffic_gen_input_error_packets)
    ∷ (vm_under_test_received_packets_key, format_int r.vm_under_test_received_packets)
    ∷ (vm_under_test_rx_dropped_packets_key, format_int r.vm_under_test_rx_dropped_packets)
    ∷ (vm_under_test_tx_dropped_packets_key, format_int r.vm_under_test_tx_dropped_packets)
    ∷ (traffic_gen_actual_node_name_key, r.traffic_gen_actual_node_name)
    ∷ (vm_under_test_actual_node_name_key, r.vm_under_test_actual_node_name)
    ∷ []

-- `formatResults`.
unfoldable pub format_results : Results → List (Bytes × Bytes)
unfolding results_eq format_int
format_results r = if results_eq r empty_results then [] else formatted r

-- The status as `Report` passes it on.
unfoldable pub stored : Bool → Status → StoredStatus
unfolding format_results
stored has_data s =
    if has_data
    then embedded (record s {
      succeeded = is_empty s.failure_reason;
      formatted_results = some (format_results s.results);
    })
    else embedded s

-- `Report`.
unfoldable pub report : {R : Type 0} → Store R → Status → Act R (Unit {0})
unfolding stored
report store s r = store.report (stored (store.has_data r) s) r
