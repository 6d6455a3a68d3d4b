-- ===== src/Config/Key.antt =====
-- The parameters' names.
use kubevirt_dpdk_checkup.Base.{Bytes, codes}

abbrev pub network_attachment_definition_name : Bytes
network_attachment_definition_name = codes "networkAttachmentDefinitionName"

abbrev pub traffic_gen_container_disk_image : Bytes
traffic_gen_container_disk_image = codes "trafficGenContainerDiskImage"

abbrev pub traffic_gen_target_node_name : Bytes
traffic_gen_target_node_name = codes "trafficGenTargetNodeName"

abbrev pub traffic_gen_packets_per_second : Bytes
traffic_gen_packets_per_second = codes "trafficGenPacketsPerSecond"

abbrev pub vm_under_test_container_disk_image : Bytes
vm_under_test_container_disk_image = codes "vmUnderTestContainerDiskImage"

abbrev pub vm_under_test_target_node_name : Bytes
vm_under_test_target_node_name = codes "vmUnderTestTargetNodeName"

abbrev pub test_duration : Bytes
test_duration = codes "testDuration"

abbrev pub port_bandwidth_gbps : Bytes
port_bandwidth_gbps = codes "portBandwidthGbps"

abbrev pub verbose : Bytes
verbose = codes "verbose"
