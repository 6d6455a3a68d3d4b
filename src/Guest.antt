-- ===== src/Guest.antt =====
-- The constants of pkg/internal/config/config.go that the guests are set up with.
use kubevirt_dpdk_checkup.Base.{Bytes, codes}

-- `VMIEastNICPCIAddress` and `VMIWestNICPCIAddress`.
abbrev pub east_nic : Bytes
east_nic = codes "0000:06:00.0"

abbrev pub west_nic : Bytes
west_nic = codes "0000:07:00.0"

abbrev pub vmi_password : Bytes
vmi_password = codes "redhat"

abbrev pub boot_script_name : Bytes
boot_script_name = codes "dpdk-checkup-boot.sh"

abbrev pub boot_script_bin_directory : Bytes
boot_script_bin_directory = codes "/usr/bin/"

abbrev pub boot_script_tuned_adm_set_marker_file_full_path : Bytes
boot_script_tuned_adm_set_marker_file_full_path = codes "/var/dpdk-checkup-tuned-adm-set-marker"

abbrev pub boot_script_readiness_marker_file_full_path : Bytes
boot_script_readiness_marker_file_full_path = codes "/tmp/dpdk-checkup-ready-marker"
