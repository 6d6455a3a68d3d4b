-- ===== src/Checkup/ConfigMaps.antt =====
-- pkg/internal/checkup/configmap/configmap.go, and the two ConfigMaps that checkup.go builds with it.
use kubevirt_dpdk_checkup.Base.{List, [], ◌∷◌, Bytes}
use kubevirt_dpdk_checkup.Api.{ConfigMap}
use kubevirt_dpdk_checkup.Vmi.{pod_owner}
use kubevirt_dpdk_checkup.Config.{Config}
use kubevirt_dpdk_checkup.Guest
use kubevirt_dpdk_checkup.Trex.ConfigFiles.{
  new_config, systemd_unit_file_name, execution_script_name, cfg_file_name, stream_py_file_name,
  stream_peer_params_py_file_name, generate_systemd_unit_file, generate_execution_script,
  generate_cfg_file, generate_stream_py_file, generate_stream_addr_py_file,
}
use kubevirt_dpdk_checkup.Checkup.Instances.{generate_boot_script}

-- `configmap.New`.
unfoldable pub new : Bytes → Bytes → Bytes → List (Bytes × Bytes) → ConfigMap
new name owner_name owner_uid contents = record {
  name = name;
  owner_references = pod_owner owner_name owner_uid ∷ [];
  contents = contents;
}

-- `newVMIUnderTestConfigMap`.
unfoldable pub new_vmi_under_test_config_map : Bytes → Config → ConfigMap
unfolding new
new_vmi_under_test_config_map name cfg =
    new name cfg.pod_name cfg.pod_uid ((Guest.boot_script_name, generate_boot_script) ∷ [])

-- `newTrafficGenConfigMap`.
unfoldable pub new_traffic_gen_config_map : Bytes → Config → ConfigMap
unfolding new
new_traffic_gen_config_map name cfg =
    let trex = new_config cfg in
    new name cfg.pod_name cfg.pod_uid (
      (systemd_unit_file_name, generate_systemd_unit_file)
      ∷ (execution_script_name, generate_execution_script trex)
      ∷ (cfg_file_name, generate_cfg_file trex)
      ∷ (stream_py_file_name, generate_stream_py_file trex)
      ∷ (stream_peer_params_py_file_name, generate_stream_addr_py_file trex)
      ∷ (Guest.boot_script_name, generate_boot_script)
      ∷ [])
