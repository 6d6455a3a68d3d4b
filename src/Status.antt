-- ===== src/Status.antt =====
-- pkg/internal/status/status.go, and the fields of kiagnose's `status.Status` that it embeds.
use kubevirt_dpdk_checkup.Base.{ℕ, Bool, false, Option, none, List, [], Bytes, ℤ, pos}

pub record Results : Type 0 where
  pub traffic_gen_sent_packets : ℤ
  pub traffic_gen_output_error_packets : ℤ
  pub traffic_gen_input_error_packets : ℤ
  pub vm_under_test_received_packets : ℤ
  pub vm_under_test_rx_dropped_packets : ℤ
  pub vm_under_test_tx_dropped_packets : ℤ
  pub traffic_gen_actual_node_name : Bytes
  pub vm_under_test_actual_node_name : Bytes

-- `status.Results{}`.
abbrev pub empty_results : Results
empty_results = record {
  traffic_gen_sent_packets = pos 0;
  traffic_gen_output_error_packets = pos 0;
  traffic_gen_input_error_packets = pos 0;
  vm_under_test_received_packets = pos 0;
  vm_under_test_rx_dropped_packets = pos 0;
  vm_under_test_tx_dropped_packets = pos 0;
  traffic_gen_actual_node_name = [];
  vm_under_test_actual_node_name = [];
}

-- `formatted_results` is the field `Results` of the embedded status, `none` in place of a nil map.
-- A timestamp is `none` where `IsZero` holds.
pub record Status : Type 0 where
  pub succeeded : Bool
  pub failure_reason : List Bytes
  pub formatted_results : Option (List (Bytes × Bytes))
  pub start_timestamp : Option ℕ
  pub completion_timestamp : Option ℕ
  pub results : Results

-- `var runStatus status.Status`.
abbrev pub zero_status : Status
zero_status = record {
  succeeded = false;
  failure_reason = [];
  formatted_results = none;
  start_timestamp = none;
  completion_timestamp = none;
  results = empty_results;
}
