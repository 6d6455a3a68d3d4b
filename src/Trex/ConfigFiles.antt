-- ===== src/Trex/ConfigFiles.antt =====
-- pkg/internal/checkup/trex/configfiles.go: the files that the traffic generator is given. A file is
-- the concatenation of its pieces: the text of the template, line by line, and what its verbs print.
use kubevirt_dpdk_checkup.Base.{List, [], ◌∷◌, ◌++◌, Bytes, codes}
use kubevirt_dpdk_checkup.Go.Fmt.{quote, hardware_addr}
use kubevirt_dpdk_checkup.Go.Strconv.{format_int}
use kubevirt_dpdk_checkup.Go.Path.{path_join}
use kubevirt_dpdk_checkup.Config.{Config as CheckupConfig}
use kubevirt_dpdk_checkup.Guest.{east_nic, west_nic}

abbrev pub cfg_file_name : Bytes
cfg_file_name = codes "trex_cfg.yaml"

abbrev pub stream_py_file_name : Bytes
stream_py_file_name = codes "testpmd.py"

abbrev pub stream_peer_params_py_file_name : Bytes
stream_peer_params_py_file_name = codes "testpmd_addr.py"

abbrev pub streams_py_path : Bytes
streams_py_path = codes "/opt/tests"

abbrev pub execution_script_name : Bytes
execution_script_name = codes "run_trex_daemon"

abbrev pub bin_directory : Bytes
bin_directory = codes "/opt/trex"

abbrev pub systemd_unit_file_name : Bytes
systemd_unit_file_name = codes "trex.service"

pub record TrexConfig : Type 0 where
  pub master_cpu : Bytes
  pub latency_cpu : Bytes
  pub traffic_cpus : Bytes
  pub num_of_traffic_cpus : Bytes
  pub port_bandwidth_gb : Bytes
  pub traffic_generator_east_mac_address : Bytes
  pub traffic_generator_west_mac_address : Bytes
  pub dpdk_east_mac_address : Bytes
  pub dpdk_west_mac_address : Bytes
  pub rx_desc : Bytes
  pub tx_desc : Bytes

-- `NewConfig`.
unfoldable pub new_config : CheckupConfig → TrexConfig
new_config cfg = record {
  master_cpu = codes "2";
  latency_cpu = codes "3";
  traffic_cpus = codes "4,5,6,7";
  num_of_traffic_cpus = codes "4";
  port_bandwidth_gb = format_int cfg.port_bandwidth_gbps;
  traffic_generator_east_mac_address = hardware_addr cfg.traffic_gen_east_mac_address;
  traffic_generator_west_mac_address = hardware_addr cfg.traffic_gen_west_mac_address;
  dpdk_east_mac_address = hardware_addr cfg.vm_under_test_east_mac_address;
  dpdk_west_mac_address = hardware_addr cfg.vm_under_test_west_mac_address;
  rx_desc = codes "4096";
  tx_desc = codes "4096";
}

unfoldable pub concat : List Bytes → Bytes
concat [] = []
concat (piece ∷ pieces) = piece ++ concat pieces

-- The pieces of the file, in their order.
abbrev pub cfg_pieces : TrexConfig → List Bytes
cfg_pieces c =
    (codes "- port_limit: 2\n")
    ∷ (codes "  version: 2\n")
    ∷ (codes "  interfaces:\n")
    ∷ (codes "    - ")
    ∷ (quote east_nic)
    ∷ (codes "\n")
    ∷ (codes "    - ")
    ∷ (quote west_nic)
    ∷ (codes "\n")
    ∷ (codes "  rx_desc: ")
    ∷ c.rx_desc
    ∷ (codes "\n")
    ∷ (codes "  tx_desc: ")
    ∷ c.tx_desc
    ∷ (codes "\n")
    ∷ (codes "  port_bandwidth_gb: ")
    ∷ c.port_bandwidth_gb
    ∷ (codes "\n")
    ∷ (codes "  port_info:\n")
    ∷ (codes "    - ip: 10.10.10.2\n")
    ∷ (codes "      default_gw: 10.10.10.1\n")
    ∷ (codes "    - ip: 10.10.20.2\n")
    ∷ (codes "      default_gw: 10.10.20.1\n")
    ∷ (codes "  platform:\n")
    ∷ (codes "    master_thread_id: ")
    ∷ c.master_cpu
    ∷ (codes "\n")
    ∷ (codes "    latency_thread_id: ")
    ∷ c.latency_cpu
    ∷ (codes "\n")
    ∷ (codes "    dual_if:\n")
    ∷ (codes "      - socket: 0\n")
    ∷ (codes "        threads: [")
    ∷ c.traffic_cpus
    ∷ (codes "]\n")
    ∷ []

-- `GenerateCfgFile`.
unfoldable pub generate_cfg_file : TrexConfig → Bytes
unfolding concat quote
generate_cfg_file c = concat (cfg_pieces c)

-- The pieces of the file, in their order.
abbrev pub stream_py_pieces : TrexConfig → List Bytes
stream_py_pieces c =
    (codes "from trex_stl_lib.api import *\n")
    ∷ (codes "\n")
    ∷ (codes "from testpmd_addr import *\n")
    ∷ (codes "\n")
    ∷ (codes "# Wild local MACs\n")
    ∷ (codes "mac_localport0=")
    ∷ (quote c.traffic_generator_east_mac_address)
    ∷ (codes "\n")
    ∷ (codes "mac_localport1=")
    ∷ (quote c.traffic_generator_west_mac_address)
    ∷ (codes "\n")
    ∷ (codes "\n")
    ∷ (codes "class STLS1(object):\n")
    ∷ (codes "\n")
    ∷ (codes "    def __init__ (self):\n")
    ∷ (codes "        self.fsize  =64; # the size of the packet\n")
    ∷ (codes "        self.number = 0\n")
    ∷ (codes "\n")
    ∷ (codes "    def create_stream (self, direction = 0):\n")
    ∷ (codes "        size = self.fsize - 4; # HW will add 4 bytes ethernet FCS\n")
    ∷ (codes "        dport = 1026 + self.number\n")
    ∷ (codes "        self.number = self.number + 1\n")
    ∷ (codes "        if direction == 0:\n")
    ∷ (codes
        "            base_pkt =  Ether(dst=mac_telco0,src=mac_localport0)/IP(src=\"16.0.0.1\",dst=ip_telco0)/UDP(dport=dport,sport=1026)\n")
    ∷ (codes "        else:\n")
    ∷ (codes
        "            base_pkt =  Ether(dst=mac_telco1,src=mac_localport1)/IP(src=\"16.1.0.1\",dst=ip_telco1)/UDP(dport=dport,sport=1026)\n")
    ∷ (codes "        pad = (60 - len(base_pkt)) * 'x'\n")
    ∷ (codes "\n")
    ∷ (codes "        return STLStream(\n")
    ∷ (codes "            packet =\n")
    ∷ (codes "            STLPktBuilder(\n")
    ∷ (codes "                pkt = base_pkt / pad\n")
    ∷ (codes "            ),\n")
    ∷ (codes "            mode = STLTXCont())\n")
    ∷ (codes "\n")
    ∷ (codes "\n")
    ∷ (codes "    def get_streams (self, direction = 0, **kwargs):\n")
    ∷ (codes "        # create multiple streams, one stream per core generating traffic...\n")
    ∷ (codes "        s = []\n")
    ∷ (codes "        for i in range(")
    ∷ c.num_of_traffic_cpus
    ∷ (codes "):\n")
    ∷ (codes "            s.append(self.create_stream(direction = direction))\n")
    ∷ (codes "        return s\n")
    ∷ (codes "\n")
    ∷ (codes "# dynamic load - used for trex console or simulator\n")
    ∷ (codes "def register():\n")
    ∷ (codes "    return STLS1()\n")
    ∷ []

-- `GenerateStreamPyFile`.
unfoldable pub generate_stream_py_file : TrexConfig → Bytes
unfolding concat quote
generate_stream_py_file c = concat (stream_py_pieces c)

-- The pieces of the file, in their order.
abbrev pub stream_addr_py_pieces : TrexConfig → List Bytes
stream_addr_py_pieces c =
    (codes "# wild first XL710 mac\n")
    ∷ (codes "mac_telco0 = ")
    ∷ (quote c.dpdk_east_mac_address)
    ∷ (codes "\n")
    ∷ (codes "# wild second XL710 mac\n")
    ∷ (codes "mac_telco1 = ")
    ∷ (quote c.dpdk_west_mac_address)
    ∷ (codes "\n")
    ∷ (codes "# we don")
    ∷ (226 ∷ 128 ∷ 153 ∷ [])
    ∷ (codes "t care of the IP in this phase\n")
    ∷ (codes "ip_telco0  = '10.0.0.1'\n")
    ∷ (codes "ip_telco1 = '10.1.1.1'\n")
    ∷ []

-- `GenerateStreamAddrPyFile`.
unfoldable pub generate_stream_addr_py_file : TrexConfig → Bytes
unfolding concat quote
generate_stream_addr_py_file c = concat (stream_addr_py_pieces c)

-- `GenerateExecutionScript`.
unfoldable pub generate_execution_script : TrexConfig → Bytes
unfolding concat
generate_execution_script c = concat (
    (codes "#!/usr/bin/env bash\n")
    ∷ (codes "./t-rex-64 --no-ofed-check --no-scapy-server --no-hw-flow-stat -i -c ")
    ∷ c.num_of_traffic_cpus
    ∷ (codes " --iom 0\n")
    ∷ [])

-- `GenerateSystemdUnitFile`.
unfoldable pub generate_systemd_unit_file : Bytes
unfolding concat path_join
generate_systemd_unit_file = concat (
    (codes "[Unit]\n")
    ∷ (codes "Description=TRex Server\n")
    ∷ (codes "[Service]\n")
    ∷ (codes "WorkingDirectory=")
    ∷ bin_directory
    ∷ (codes "\n")
    ∷ (codes "ExecStart=")
    ∷ (path_join bin_directory execution_script_name)
    ∷ (codes "\n")
    ∷ (codes "Restart=no\n")
    ∷ (codes "User=root\n")
    ∷ (codes "Group=root\n")
    ∷ [])
