-- ===== src/Checkup/Instances.antt =====
-- pkg/internal/checkup/vmi.go: the two virtual machine instances of a checkup, their cloud-init data
-- and their boot script.
pub mod Attachments
pub mod Placement
pub mod Streams
mod Tests
use kubevirt_dpdk_checkup.Base.{ℕ, ℤ, Option, none, some, List, [], ◌∷◌, ◌++◌, Bytes, codes, pos}
use kubevirt_dpdk_checkup.Go.Fmt.{quote, hardware_addr}
use kubevirt_dpdk_checkup.Go.Path.{path_join}
use kubevirt_dpdk_checkup.Api.{Vmi, Affinity}
use kubevirt_dpdk_checkup.Vmi.{
  VmiOption, new, with_owner_reference, with_labels, without_crio_cpu_load_balancing,
  without_crio_cpu_quota, without_crio_irq_load_balancing, with_dedicated_cpu, with_memory,
  with_network_interface_multi_queue, with_random_number_generator,
  with_termination_grace_period_seconds, with_multus_network, with_virt_io_disk, with_affinity,
  with_sriov_interface, with_container_disk, with_cloud_init_no_cloud_volume,
  with_config_map_volume, with_config_map_disk, with_readiness_file_probe,
}
use kubevirt_dpdk_checkup.Vmi.NodePlacement.{
  new_required_node_affinity, new_preferred_pod_anti_affinity,
}
use kubevirt_dpdk_checkup.Config.{Config}
use kubevirt_dpdk_checkup.Guest
use kubevirt_dpdk_checkup.Trex.ConfigFiles.{
  concat, systemd_unit_file_name, execution_script_name, bin_directory, cfg_file_name,
  streams_py_path,
}

-- `DPDKCheckupUIDLabelKey`.
abbrev uid_label_key : Bytes
uid_label_key = codes "kubevirt-dpdk-checkup/uid"

abbrev cpu_sockets_count : ℕ
cpu_sockets_count = 1

abbrev cpu_cores_count : ℕ
cpu_cores_count = 4

abbrev cpu_treads_count : ℕ
cpu_treads_count = 2

abbrev huge_page_size : Bytes
huge_page_size = codes "1Gi"

abbrev guest_memory : Bytes
guest_memory = codes "4Gi"

abbrev termination_grace_period_seconds : ℤ
termination_grace_period_seconds = pos 0

abbrev root_disk_name : Bytes
root_disk_name = codes "rootdisk"

abbrev cloud_init_disk_name : Bytes
cloud_init_disk_name = codes "cloudinitdisk"

abbrev pub east_network_name : Bytes
east_network_name = codes "nic-east"

abbrev pub west_network_name : Bytes
west_network_name = codes "nic-west"

abbrev config_disk_serial : Bytes
config_disk_serial = codes "DEADBEEF"

-- `Affinity`: a given node is required; without one the checkup's instances keep apart.
unfoldable pub affinity : Bytes → Bytes → Affinity
unfolding new_required_node_affinity new_preferred_pod_anti_affinity
affinity [] owner_uid = record {
  node_affinity = none;
  pod_anti_affinity = some (new_preferred_pod_anti_affinity uid_label_key owner_uid);
}
affinity (c ∷ s) owner_uid = record {
  node_affinity = some (new_required_node_affinity (c ∷ s));
  pod_anti_affinity = none;
}

unfoldable base_options : Config → List VmiOption
unfolding with_owner_reference with_labels without_crio_cpu_load_balancing without_crio_cpu_quota
    without_crio_irq_load_balancing with_dedicated_cpu with_memory
    with_network_interface_multi_queue with_random_number_generator
    with_termination_grace_period_seconds with_multus_network with_virt_io_disk
base_options cfg =
    with_owner_reference cfg.pod_name cfg.pod_uid
    ∷ with_labels ((uid_label_key, cfg.pod_uid) ∷ [])
    ∷ without_crio_cpu_load_balancing
    ∷ without_crio_cpu_quota
    ∷ without_crio_irq_load_balancing
    ∷ with_dedicated_cpu cpu_sockets_count cpu_cores_count cpu_treads_count
    ∷ with_memory huge_page_size guest_memory
    ∷ with_network_interface_multi_queue
    ∷ with_random_number_generator
    ∷ with_termination_grace_period_seconds termination_grace_period_seconds
    ∷ with_multus_network east_network_name cfg.network_attachment_definition_name
    ∷ with_multus_network west_network_name cfg.network_attachment_definition_name
    ∷ with_virt_io_disk root_disk_name
    ∷ with_virt_io_disk cloud_init_disk_name
    ∷ []

-- `generateBootScript`.
unfoldable pub generate_boot_script : Bytes
unfolding concat
generate_boot_script = concat (
    codes "#!/bin/bash\n"
    ∷ codes "set -x\n"
    ∷ codes "\n"
    ∷ codes "checkup_tuned_adm_set_marker_full_path="
    ∷ Guest.boot_script_tuned_adm_set_marker_file_full_path
    ∷ codes "\n"
    ∷ codes "\n"
    ∷ codes "if [ ! -f \"$checkup_tuned_adm_set_marker_full_path\" ]; then\n"
    ∷ codes "  echo \"isolated_cores=2-7\" > /etc/tuned/cpu-partitioning-variables.conf\n"
    ∷ codes "  tuned-adm profile cpu-partitioning\n\n"
    ∷ codes "  touch $checkup_tuned_adm_set_marker_full_path\n"
    ∷ codes "  reboot\n"
    ∷ codes "  exit 0\n"
    ∷ codes "fi\n"
    ∷ codes "\n"
    ∷ codes "driverctl set-override "
    ∷ Guest.east_nic
    ∷ codes " vfio-pci\n"
    ∷ codes "driverctl set-override "
    ∷ Guest.west_nic
    ∷ codes " vfio-pci\n"
    ∷ codes "touch "
    ∷ Guest.boot_script_readiness_marker_file_full_path
    ∷ codes "\n"
    ∷ codes "chcon -t virt_qemu_ga_exec_t "
    ∷ Guest.boot_script_readiness_marker_file_full_path
    ∷ codes "\n"
    ∷ [])

boot_commands : List Bytes → Bytes
boot_commands [] = []
boot_commands (command ∷ commands) =
    codes "  - " ++ (quote command ++ (codes "\n" ++ boot_commands commands))

-- `CloudInit`.
unfoldable pub cloud_init : List Bytes → Bytes
unfolding boot_commands quote
cloud_init [] = codes "#cloud-config\n"
cloud_init (command ∷ commands) =
    codes "#cloud-config\n" ++ (codes "bootcmd:\n" ++ boot_commands (command ∷ commands))

abbrev config_mount_directory : Bytes
config_mount_directory = codes "/mnt/app-config"

abbrev mkdir_command : Bytes
mkdir_command = codes "mkdir " ++ config_mount_directory

abbrev mount_command : Bytes → Bytes
mount_command serial =
    codes "mount /dev/$(lsblk --nodeps -no name,serial | grep "
    ++ (serial ++ (codes " | cut -f1 -d' ') " ++ config_mount_directory))

-- `cp A B`.
abbrev cp_command : Bytes → Bytes → Bytes
cp_command from to = codes "cp " ++ (from ++ (codes " " ++ to))

-- `chmod 744 A`.
abbrev chmod_command : Bytes → Bytes
chmod_command file = codes "chmod 744 " ++ file

-- The commands that copy the boot script and start it, with which both lists end.
boot_script_commands : List Bytes
boot_script_commands =
    cp_command (path_join config_mount_directory Guest.boot_script_name)
      Guest.boot_script_bin_directory
    ∷ chmod_command (path_join Guest.boot_script_bin_directory Guest.boot_script_name)
    ∷ path_join Guest.boot_script_bin_directory Guest.boot_script_name
    ∷ []

unfoldable pub traffic_gen_boot_commands : Bytes → List Bytes
unfolding boot_script_commands path_join
traffic_gen_boot_commands serial =
    mkdir_command
    ∷ mount_command serial
    ∷ cp_command (path_join config_mount_directory systemd_unit_file_name)
        (codes "/etc/systemd/system")
    ∷ cp_command (path_join config_mount_directory execution_script_name) bin_directory
    ∷ chmod_command (path_join bin_directory execution_script_name)
    ∷ cp_command (path_join config_mount_directory cfg_file_name) (codes "/etc")
    ∷ (codes "mkdir -p " ++ streams_py_path)
    ∷ cp_command (config_mount_directory ++ codes "/*.py") streams_py_path
    ∷ boot_script_commands

unfoldable pub vmi_under_test_boot_commands : Bytes → List Bytes
unfolding boot_script_commands path_join
vmi_under_test_boot_commands serial = mkdir_command ∷ mount_command serial ∷ boot_script_commands

-- `newVMIUnderTest`.
unfoldable pub new_vmi_under_test : Bytes → Config → Bytes → Vmi
unfolding new base_options affinity with_affinity with_sriov_interface with_container_disk
    with_cloud_init_no_cloud_volume with_config_map_volume with_config_map_disk
    with_readiness_file_probe
new_vmi_under_test name cfg config_map_name =
    let config_volume_name = codes "vmi-under-test-config" in
    new name (
      base_options cfg
      ++ with_affinity (some (affinity cfg.vm_under_test_target_node_name cfg.pod_uid))
        ∷ with_sriov_interface east_network_name (hardware_addr cfg.vm_under_test_east_mac_address)
            Guest.east_nic
        ∷ with_sriov_interface west_network_name (hardware_addr cfg.vm_under_test_west_mac_address)
            Guest.west_nic
        ∷ with_container_disk root_disk_name cfg.vm_under_test_container_disk_image
        ∷ with_cloud_init_no_cloud_volume cloud_init_disk_name
            (cloud_init (vmi_under_test_boot_commands config_disk_serial))
        ∷ with_config_map_volume config_volume_name config_map_name
        ∷ with_config_map_disk config_volume_name config_disk_serial
        ∷ with_readiness_file_probe Guest.boot_script_readiness_marker_file_full_path
        ∷ [])

-- `newTrafficGen`.
unfoldable pub new_traffic_gen : Bytes → Config → Bytes → Vmi
unfolding new base_options affinity with_affinity with_sriov_interface with_container_disk
    with_cloud_init_no_cloud_volume with_config_map_volume with_config_map_disk
    with_readiness_file_probe
new_traffic_gen name cfg config_map_name =
    let config_volume_name = codes "trex-config" in
    new name (
      base_options cfg
      ++ with_affinity (some (affinity cfg.traffic_gen_target_node_name cfg.pod_uid))
        ∷ with_sriov_interface east_network_name (hardware_addr cfg.traffic_gen_east_mac_address)
            Guest.east_nic
        ∷ with_sriov_interface west_network_name (hardware_addr cfg.traffic_gen_west_mac_address)
            Guest.west_nic
        ∷ with_container_disk root_disk_name cfg.traffic_gen_container_disk_image
        ∷ with_cloud_init_no_cloud_volume cloud_init_disk_name
            (cloud_init (traffic_gen_boot_commands config_disk_serial))
        ∷ with_config_map_volume config_volume_name config_map_name
        ∷ with_config_map_disk config_volume_name config_disk_serial
        ∷ with_readiness_file_probe Guest.boot_script_readiness_marker_file_full_path
        ∷ [])
