-- ===== src/Checkup/Instances/Streams.antt =====
-- Which addresses the generated traffic uses: the files of trex/configfiles.go, as the ConfigMap of
-- the traffic generator has them, against the interfaces of both instances.
use kubevirt_dpdk_checkup.Base.{
  ℕ, zero, suc, ◌≡◌, refl, sym, ap, ◌∙◌, Option, none, some, List, [], ◌∷◌, ◌++◌, append_assoc,
  take, drop, Bytes, codes, bytes_eq, if◌then◌else◌,
}
use kubevirt_dpdk_checkup.Api.{Vmi, Interface}
use kubevirt_dpdk_checkup.Go.Fmt.{quote}
use kubevirt_dpdk_checkup.Guest.{east_nic, west_nic}
use kubevirt_dpdk_checkup.Config.{Config}
use kubevirt_dpdk_checkup.Trex.ConfigFiles.{
  TrexConfig, new_config, concat, generate_cfg_file, generate_stream_py_file,
  generate_stream_addr_py_file, cfg_pieces, stream_py_pieces, stream_addr_py_pieces,
}
use kubevirt_dpdk_checkup.Checkup.ConfigMaps.{new_traffic_gen_config_map}
use kubevirt_dpdk_checkup.Checkup.Instances.{
  new_vmi_under_test, new_traffic_gen, east_network_name, west_network_name,
}
use kubevirt_dpdk_checkup.Checkup.Instances.Placement.{lookup}

-- The address and the PCI address of the interface of a name.
unfoldable pub nic_of : Bytes → List Interface → Option (Bytes × Bytes)
unfolding bytes_eq
nic_of name [] = none
nic_of name (i ∷ is) =
    if bytes_eq i.name name then some (i.mac_address, i.pci_address) else nic_of name is

-- The text stands in the file.
pub record Holds (file text : Bytes) : Type 0 where
  pub before : Bytes
  pub after : Bytes
  pub parts : file ≡ before ++ (text ++ after)

-- The file has a line that sets the variable to the quoted value, the text between them being what
-- follows the variable's name.
abbrev pub Assigns : Bytes → Bytes → Bytes → Type 0
Assigns file name value = Holds file (codes "\n" ++ (name ++ (quote value ++ codes "\n")))

concat-split :
    (n : ℕ) (pieces : List Bytes) → concat pieces ≡ concat (take n pieces) ++ concat (drop n pieces)
unfolding concat
concat-split zero pieces = refl
concat-split (suc n) [] = refl
concat-split (suc n) (p ∷ pieces) =
    ap (◌++◌ p) (concat-split n pieces)
    ∙ sym (append_assoc p (concat (take n pieces)) (concat (drop n pieces)))

-- A text that begins at the end of a piece.
Holds-concat :
    (n : ℕ) (pieces : List Bytes) (line text after : Bytes)
    → concat (drop n pieces) ≡ line ++ (text ++ after)
    → Holds (concat pieces) text
Holds-concat n pieces line text after h = record {
  before = concat (take n pieces) ++ line;
  after = after;
  parts =
      concat-split n pieces
      ∙ ap (λ s. concat (take n pieces) ++ s) h
      ∙ sym (append_assoc (concat (take n pieces)) line (text ++ after));
}

quoted :
    (value after : Bytes)
    → quote value ++ (codes "\n" ++ after) ≡ (quote value ++ codes "\n") ++ after
quoted value after = sym (append_assoc (quote value) (codes "\n") after)

-- The lines of the address file and of the streams' file, and the ports of the configuration file.
mac_telco0 :
    (c : TrexConfig)
    → Assigns (generate_stream_addr_py_file c) (codes "mac_telco0 = ") c.dpdk_east_mac_address
unfolding generate_stream_addr_py_file concat
mac_telco0 c =
    Holds-concat 0 (stream_addr_py_pieces c) (codes "# wild first XL710 mac") _
      (concat (drop 4 (stream_addr_py_pieces c)))
      (ap (λ s. codes "# wild first XL710 mac\nmac_telco0 = " ++ s)
        (quoted c.dpdk_east_mac_address _))

mac_telco1 :
    (c : TrexConfig)
    → Assigns (generate_stream_addr_py_file c) (codes "mac_telco1 = ") c.dpdk_west_mac_address
unfolding generate_stream_addr_py_file concat
mac_telco1 c =
    Holds-concat 4 (stream_addr_py_pieces c) (codes "# wild second XL710 mac") _
      (concat (drop 8 (stream_addr_py_pieces c)))
      (ap (λ s. codes "# wild second XL710 mac\nmac_telco1 = " ++ s)
        (quoted c.dpdk_west_mac_address _))

mac_localport0 :
    (c : TrexConfig)
    → Assigns
        (generate_stream_py_file c)
        (codes "mac_localport0=")
        c.traffic_generator_east_mac_address
unfolding generate_stream_py_file concat
mac_localport0 c =
    Holds-concat 4 (stream_py_pieces c) (codes "# Wild local MACs") _
      (concat (drop 8 (stream_py_pieces c)))
      (ap (λ s. codes "# Wild local MACs\nmac_localport0=" ++ s)
        (quoted c.traffic_generator_east_mac_address _))

mac_localport1 :
    (c : TrexConfig)
    → Assigns
        (generate_stream_py_file c)
        (codes "mac_localport1=")
        c.traffic_generator_west_mac_address
unfolding generate_stream_py_file concat
mac_localport1 c =
    Holds-concat 7 (stream_py_pieces c) [] _ (concat (drop 11 (stream_py_pieces c)))
      (ap (λ s. codes "\nmac_localport1=" ++ s) (quoted c.traffic_generator_west_mac_address _))

-- The streams of either direction.
abbrev pub forward_stream : Bytes
forward_stream =
    codes
      "        if direction == 0:\n            base_pkt =  Ether(dst=mac_telco0,src=mac_localport0)/"

abbrev pub backward_stream : Bytes
backward_stream =
    codes "        else:\n            base_pkt =  Ether(dst=mac_telco1,src=mac_localport1)/"

forward_stream-Holds : (c : TrexConfig) → Holds (generate_stream_py_file c) forward_stream
unfolding generate_stream_py_file concat
forward_stream-Holds c =
    Holds-concat 22 (stream_py_pieces c) [] _
      (codes "IP(src=\"16.0.0.1\",dst=ip_telco0)/UDP(dport=dport,sport=1026)\n"
        ++ concat (drop 24 (stream_py_pieces c)))
      refl

backward_stream-Holds : (c : TrexConfig) → Holds (generate_stream_py_file c) backward_stream
unfolding generate_stream_py_file concat
backward_stream-Holds c =
    Holds-concat 24 (stream_py_pieces c) [] _
      (codes "IP(src=\"16.1.0.1\",dst=ip_telco1)/UDP(dport=dport,sport=1026)\n"
        ++ concat (drop 26 (stream_py_pieces c)))
      refl

abbrev pub port_lines : Bytes → Bytes → Bytes
port_lines first second =
    codes "  interfaces:\n    - "
    ++ (quote first ++ (codes "\n    - " ++ (quote second ++ codes "\n")))

port_lines-Holds : (c : TrexConfig) → Holds (generate_cfg_file c) (port_lines east_nic west_nic)
unfolding generate_cfg_file concat quote
port_lines-Holds c = Holds-concat 2 (cfg_pieces c) [] _ (concat (drop 9 (cfg_pieces c))) refl

-- The files of the generator let it send from its first port, with the address of its east
-- interface, to that of the other instance, and the same from its second port in the west.
pub record Routed (files : List (Bytes × Bytes)) (tg vm : Vmi) : Type 0 where
  pub ports : Bytes
  pub streams : Bytes
  pub addresses : Bytes
  pub ports_file : lookup (codes "trex_cfg.yaml") files ≡ some ports
  pub streams_file : lookup (codes "testpmd.py") files ≡ some streams
  pub addresses_file : lookup (codes "testpmd_addr.py") files ≡ some addresses
  pub tg_east : Bytes × Bytes
  pub tg_west : Bytes × Bytes
  pub vm_east : Bytes × Bytes
  pub vm_west : Bytes × Bytes
  pub tg_east_nic : nic_of east_network_name tg.interfaces ≡ some tg_east
  pub tg_west_nic : nic_of west_network_name tg.interfaces ≡ some tg_west
  pub vm_east_nic : nic_of east_network_name vm.interfaces ≡ some vm_east
  pub vm_west_nic : nic_of west_network_name vm.interfaces ≡ some vm_west
  pub first_and_second : Holds ports (port_lines tg_east.1 tg_west.1)
  pub forward : Holds streams forward_stream
  pub backward : Holds streams backward_stream
  pub from_east : Assigns streams (codes "mac_localport0=") tg_east.0
  pub from_west : Assigns streams (codes "mac_localport1=") tg_west.0
  pub to_east : Assigns addresses (codes "mac_telco0 = ") vm_east.0
  pub to_west : Assigns addresses (codes "mac_telco1 = ") vm_west.0

module _ (vm_name tg_name : Bytes) (cfg : Config) (vm_map tg_map : Bytes) where
  -- By the files in the ConfigMap of the traffic generator, its first port is the PCI address of its
  -- east interface and its second that of its west one; a stream in the direction of the first port
  -- has the address of the generator's east interface as its source and that of the VM under test's
  -- east interface as its destination, and one in the other direction those of the west interfaces.
  pub streams_use_interfaces :
      Routed
        (new_traffic_gen_config_map tg_map cfg).contents
        (new_traffic_gen tg_name cfg tg_map)
        (new_vmi_under_test vm_name cfg vm_map)
  unfolding lookup nic_of new_vmi_under_test new_traffic_gen new_traffic_gen_config_map new_config
  streams_use_interfaces = record {
    ports = generate_cfg_file (new_config cfg);
    streams = generate_stream_py_file (new_config cfg);
    addresses = generate_stream_addr_py_file (new_config cfg);
    ports_file = refl;
    streams_file = refl;
    addresses_file = refl;
    tg_east = ((new_config cfg).traffic_generator_east_mac_address, east_nic);
    tg_west = ((new_config cfg).traffic_generator_west_mac_address, west_nic);
    vm_east = ((new_config cfg).dpdk_east_mac_address, east_nic);
    vm_west = ((new_config cfg).dpdk_west_mac_address, west_nic);
    tg_east_nic = refl;
    tg_west_nic = refl;
    vm_east_nic = refl;
    vm_west_nic = refl;
    first_and_second = port_lines-Holds (new_config cfg);
    forward = forward_stream-Holds (new_config cfg);
    backward = backward_stream-Holds (new_config cfg);
    from_east = mac_localport0 (new_config cfg);
    from_west = mac_localport1 (new_config cfg);
    to_east = mac_telco0 (new_config cfg);
    to_west = mac_telco1 (new_config cfg);
  }
