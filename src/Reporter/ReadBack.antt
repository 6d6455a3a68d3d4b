-- ===== src/Reporter/ReadBack.antt =====
-- The stored results can be read back.
use kubevirt_dpdk_checkup.Base.{
  ◌≡◌, refl, sym, ◌∙◌, Bool, true, false, ◌&&◌, List, [], ◌∷◌, Bytes, codes, bytes_eq, bytes_eq_iff,
  inl, inr, if◌then◌else◌, ℤ, ◌==ℤ◌, ==ℤ_iff, Bool-cases, IsInt64,
}
use kubevirt_dpdk_checkup.Go.Strconv.{parse_int, value}
use kubevirt_dpdk_checkup.Go.Strconv.RoundTrip.{parse_int-format_int}
use kubevirt_dpdk_checkup.Status.{Results, empty_results}
use kubevirt_dpdk_checkup.Reporter.{results_eq, format_results, formatted}

-- The text of a key of a map, empty for a missing key.
abbrev text_of : Bytes → List (Bytes × Bytes) → Bytes
text_of key [] = []
text_of key ((k, v) ∷ m) = let rest = text_of key m in if bytes_eq key k then v else rest

abbrev counter_of : Bytes → List (Bytes × Bytes) → ℤ
counter_of key m = value (parse_int (text_of key m))

-- The results of a stored map, with zero for what is missing.
unfoldable pub read_results : List (Bytes × Bytes) → Results
unfolding bytes_eq parse_int
read_results m = record {
  traffic_gen_sent_packets = counter_of (codes "trafficGenSentPackets") m;
  traffic_gen_output_error_packets = counter_of (codes "trafficGenOutputErrorPackets") m;
  traffic_gen_input_error_packets = counter_of (codes "trafficGenInputErrorPackets") m;
  vm_under_test_received_packets = counter_of (codes "vmUnderTestReceivedPackets") m;
  vm_under_test_rx_dropped_packets = counter_of (codes "vmUnderTestRxDroppedPackets") m;
  vm_under_test_tx_dropped_packets = counter_of (codes "vmUnderTestTxDroppedPackets") m;
  traffic_gen_actual_node_name = text_of (codes "trafficGenActualNodeName") m;
  vm_under_test_actual_node_name = text_of (codes "vmUnderTestActualNodeName") m;
}

-- Every counter is an `int64`.
pub record IsMachine (r : Results) : Type 0 where
  pub sent : IsInt64 r.traffic_gen_sent_packets
  pub output_errors : IsInt64 r.traffic_gen_output_error_packets
  pub input_errors : IsInt64 r.traffic_gen_input_error_packets
  pub received : IsInt64 r.vm_under_test_received_packets
  pub rx_dropped : IsInt64 r.vm_under_test_rx_dropped_packets
  pub tx_dropped : IsInt64 r.vm_under_test_tx_dropped_packets

same_number : (x y : ℤ) {rest : Bool} → ((x ==ℤ y) && rest) ≡ true → (x ≡ y) × (rest ≡ true)
same_number x y {rest} h = elim (Bool-cases (x ==ℤ y)) [
  | inl e ↦ ((==ℤ_iff x y).0 e, rw e at h)
  | inr e ↦ absurd (false_ne_true (rw e at h))
]
  where
    false_ne_true : false ≡ true → ⊥
    false_ne_true q = cc

same_text : (x y : Bytes) {rest : Bool} → (bytes_eq x y && rest) ≡ true → (x ≡ y) × (rest ≡ true)
same_text x y {rest} h = elim (Bool-cases (bytes_eq x y)) [
  | inl e ↦ ((bytes_eq_iff x y).0 e, rw e at h)
  | inr e ↦ absurd (false_ne_true (rw e at h))
]
  where
    false_ne_true : false ≡ true → ⊥
    false_ne_true q = cc

results_eq_sound : (a b : Results) → results_eq a b ≡ true → a ≡ b
unfolding results_eq
results_eq_sound a b r₀ =
    let (h₁, r₁) = same_number a.traffic_gen_sent_packets b.traffic_gen_sent_packets r₀ in
    let (h₂, r₂) =
      same_number a.traffic_gen_output_error_packets b.traffic_gen_output_error_packets r₁ in
    let (h₃, r₃) =
      same_number a.traffic_gen_input_error_packets b.traffic_gen_input_error_packets r₂ in
    let (h₄, r₄) =
      same_number a.vm_under_test_received_packets b.vm_under_test_received_packets r₃ in
    let (h₅, r₅) =
      same_number a.vm_under_test_rx_dropped_packets b.vm_under_test_rx_dropped_packets r₄ in
    let (h₆, r₆) =
      same_number a.vm_under_test_tx_dropped_packets b.vm_under_test_tx_dropped_packets r₅ in
    let (h₇, r₇) = same_text a.traffic_gen_actual_node_name b.traffic_gen_actual_node_name r₆ in
    let h₈ =
      (bytes_eq_iff a.vm_under_test_actual_node_name b.vm_under_test_actual_node_name).0 r₇ in
    λ i. record {
      traffic_gen_sent_packets = h₁ i;
      traffic_gen_output_error_packets = h₂ i;
      traffic_gen_input_error_packets = h₃ i;
      vm_under_test_received_packets = h₄ i;
      vm_under_test_rx_dropped_packets = h₅ i;
      vm_under_test_tx_dropped_packets = h₆ i;
      traffic_gen_actual_node_name = h₇ i;
      vm_under_test_actual_node_name = h₈ i;
    }

read_results-empty : read_results [] ≡ empty_results
unfolding read_results
read_results-empty = refl

read_results-formatted : (r : Results) → IsMachine r → read_results (formatted r) ≡ r
unfolding read_results
read_results-formatted r m = rw (
  parse_int-format_int r.traffic_gen_sent_packets m.sent,
  parse_int-format_int r.traffic_gen_output_error_packets m.output_errors,
  parse_int-format_int r.traffic_gen_input_error_packets m.input_errors,
  parse_int-format_int r.vm_under_test_received_packets m.received,
  parse_int-format_int r.vm_under_test_rx_dropped_packets m.rx_dropped,
  parse_int-format_int r.vm_under_test_tx_dropped_packets m.tx_dropped,
)

-- No counter and no node name is lost in the map that is stored: for counters that are `int64`
-- values, reading the stored map, with zero for a missing counter, gives the results back, also
-- where the map is empty because the results are.
pub read_results-format_results : (r : Results) → IsMachine r → read_results (format_results r) ≡ r
unfolding format_results
read_results-format_results r m = elim (Bool-cases (results_eq r empty_results)) [
  | inl e ↦ rw e (read_results-empty ∙ sym (results_eq_sound r empty_results e))
  | inr e ↦ rw e (read_results-formatted r m)
]
