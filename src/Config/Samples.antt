-- ===== src/Config/Samples.antt =====
-- Sample parameters, and the configuration that they give.
use kubevirt_dpdk_checkup.Base.{true, List, [], ◌∷◌, Bytes, codes, pos}
use kubevirt_dpdk_checkup.Config.{BaseConfig, Config, Random}
use kubevirt_dpdk_checkup.Config.Key

abbrev pub mandatory_params : List (Bytes × Bytes)
mandatory_params =
    (Key.network_attachment_definition_name, codes "net")
    ∷ (Key.traffic_gen_container_disk_image, codes "tg:main")
    ∷ (Key.vm_under_test_container_disk_image, codes "vm:main")
    ∷ (Key.port_bandwidth_gbps, codes "25")
    ∷ (Key.verbose, codes "T")
    ∷ []

abbrev pub base_with : List (Bytes × Bytes) → BaseConfig
base_with params = record {
  pod_name = codes "pod";
  pod_uid = codes "uid";
  params = params;
  timeout = pos 600000000000;
  config_map_namespace = codes "ns";
  config_map_name = codes "cm";
}

abbrev pub base : BaseConfig
base = base_with mandatory_params

abbrev octets : Bytes
octets = 1 ∷ 2 ∷ 3 ∷ 4 ∷ 5 ∷ 6 ∷ []

abbrev pub random : Random
random = record {
  traffic_gen_east = octets;
  traffic_gen_west = octets;
  vm_under_test_east = octets;
  vm_under_test_west = octets;
}

abbrev pub cfg : Config
cfg = record {
  pod_name = codes "pod";
  pod_uid = codes "uid";
  network_attachment_definition_name = codes "net";
  traffic_gen_container_disk_image = codes "tg:main";
  traffic_gen_target_node_name = [];
  traffic_gen_packets_per_second = codes "8m";
  traffic_gen_east_mac_address = 0x50 ∷ 2 ∷ 3 ∷ 4 ∷ 5 ∷ 0x01 ∷ [];
  traffic_gen_west_mac_address = 0x50 ∷ 2 ∷ 3 ∷ 4 ∷ 5 ∷ 0x02 ∷ [];
  vm_under_test_container_disk_image = codes "vm:main";
  vm_under_test_target_node_name = [];
  vm_under_test_east_mac_address = 0x60 ∷ 2 ∷ 3 ∷ 4 ∷ 5 ∷ 0x01 ∷ [];
  vm_under_test_west_mac_address = 0x60 ∷ 2 ∷ 3 ∷ 4 ∷ 5 ∷ 0x02 ∷ [];
  test_duration = pos 300000000000;
  port_bandwidth_gbps = pos 25;
  verbose = true;
}
