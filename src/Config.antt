-- ===== src/Config.antt =====
-- pkg/internal/config/config.go: the checkup's parameters, read from the user's ConfigMap.
pub mod Parse
pub mod Valid
pub mod Refusals
pub mod Mac
pub mod Bounds
pub mod Samples
mod Tests
use kubevirt_dpdk_checkup.Base.{
  ℕ, ◌≡◌, refl, Bool, true, false, not, ◌&&◌, ◌||◌, Option, none, some, List, [], ◌∷◌, Bytes, codes,
  is_empty, if◌then◌else◌, bytes_eq, ℤ, pos,
}
use kubevirt_dpdk_checkup.Go.Error.{Error, new as new_error}
use kubevirt_dpdk_checkup.Go.Strconv.{parse_bool}
use kubevirt_dpdk_checkup.Go.Duration.{parse_duration}
use Parse.{parse_traffic_gen_packets_per_second, parse_non_zero_positive_int}
use Mac.{generate_mac_address}
pub mod Key

-- `kconfig.Config`: what the library kiagnose read from the environment and the ConfigMap.
pub record BaseConfig : Type 0 where
  pub pod_name : Bytes
  pub pod_uid : Bytes
  pub params : List (Bytes × Bytes)
  pub timeout : ℤ
  pub config_map_namespace : Bytes
  pub config_map_name : Bytes

pub record Config : Type 0 where
  pub pod_name : Bytes
  pub pod_uid : Bytes
  pub network_attachment_definition_name : Bytes
  pub traffic_gen_container_disk_image : Bytes
  pub traffic_gen_target_node_name : Bytes
  pub traffic_gen_packets_per_second : Bytes
  pub traffic_gen_east_mac_address : Bytes
  pub traffic_gen_west_mac_address : Bytes
  pub vm_under_test_container_disk_image : Bytes
  pub vm_under_test_target_node_name : Bytes
  pub vm_under_test_east_mac_address : Bytes
  pub vm_under_test_west_mac_address : Bytes
  pub test_duration : ℤ
  pub port_bandwidth_gbps : ℤ
  pub verbose : Bool

-- The `Err…` values.
pub data ConfigError : Type 0 where
  invalid_network_attachment_definition_name : ConfigError
  invalid_traffic_gen_container_disk_image : ConfigError
  illegal_target_node_names_combination : ConfigError
  invalid_traffic_gen_packets_per_second : ConfigError
  invalid_vm_under_test_container_disk_image : ConfigError
  invalid_test_duration : ConfigError
  invalid_port_bandwidth_gbps : ConfigError
  invalid_verbose : ConfigError

-- The errors that these values are.
unfoldable pub error_of : ConfigError → Error
error_of invalid_network_attachment_definition_name =
    new_error (codes "invalid Network-Attachment-Definition Name")
error_of invalid_traffic_gen_container_disk_image =
    new_error (codes "invalid Traffic Generator container disk image")
error_of illegal_target_node_names_combination =
    new_error (codes "illegal Traffic Generator and VM under test target node names combination")
error_of invalid_traffic_gen_packets_per_second =
    new_error (codes "invalid Traffic Generator Packets Per Second")
error_of invalid_vm_under_test_container_disk_image =
    new_error (codes "invalid VM Under test container disk image")
error_of invalid_test_duration = new_error (codes "invalid Test Duration")
error_of invalid_port_bandwidth_gbps = new_error (codes "invalid Port Bandwidth [Gbps]")
error_of invalid_verbose = new_error (codes "invalid Verbose value [true|false]")

-- `(Config, error)`, where the configuration beside an error is empty.
pub data Checked (A : Type 0) : Type 0 where
  accepted : A → Checked A
  refused : ConfigError → Checked A

infixl 10 ◌>>=◌
abbrev pub ◌>>=◌ : {A B : Type 0} → Checked A → (A → Checked B) → Checked B
accepted a >>= f = f a
refused e >>= f = refused e

-- A missing key of a Go map reads as the empty string.
get_param : List (Bytes × Bytes) → Bytes → Bytes
unfolding bytes_eq
get_param [] key = []
get_param ((k, v) ∷ ps) key = if bytes_eq k key then v else get_param ps key

unfoldable pub param : BaseConfig → Bytes → Bytes
unfolding get_param
param base key = get_param base.params key

abbrev parsed_or : {A : Type 0} → Option A → ConfigError → Checked A
parsed_or none e = refused e
parsed_or (some a) e = accepted a

-- `if rawVal := …; rawVal != "" { … }`: an absent parameter keeps its default.
abbrev optional : {A : Type 0} → Bytes → A → (Bytes → Option A) → ConfigError → Checked A
optional [] current parse e = accepted current
optional (c ∷ s) current parse e = parsed_or (parse (c ∷ s)) e

abbrev pub rate_option : BaseConfig → Config → Checked Bytes
rate_option base c =
    optional (param base Key.traffic_gen_packets_per_second) c.traffic_gen_packets_per_second
      parse_traffic_gen_packets_per_second invalid_traffic_gen_packets_per_second

abbrev pub duration_option : BaseConfig → Config → Checked ℤ
duration_option base c =
    optional (param base Key.test_duration) c.test_duration parse_duration invalid_test_duration

abbrev pub bandwidth_option : BaseConfig → Config → Checked ℤ
bandwidth_option base c =
    optional (param base Key.port_bandwidth_gbps) c.port_bandwidth_gbps parse_non_zero_positive_int
      invalid_port_bandwidth_gbps

abbrev pub verbose_option : BaseConfig → Config → Checked Bool
verbose_option base c = optional (param base Key.verbose) c.verbose parse_bool invalid_verbose

-- The four `if`s of `setOptionalParams`, in their order.
unfoldable pub set_optional_params : BaseConfig → Config → Checked Config
set_optional_params base c = do
  rate ← rate_option base c
  duration ← duration_option base c
  bandwidth ← bandwidth_option base c
  verbosity ← verbose_option base c
  accepted (record c {
    traffic_gen_packets_per_second = rate;
    test_duration = duration;
    port_bandwidth_gbps = bandwidth;
    verbose = verbosity;
  })

abbrev traffic_gen_default_packets_per_second : Bytes
traffic_gen_default_packets_per_second = codes "8m"

-- Five minutes, in nanoseconds.
abbrev test_duration_default : ℤ
test_duration_default = pos 300000000000

abbrev port_bandwidth_gbps_default : ℤ
port_bandwidth_gbps_default = pos 10

abbrev verbose_default : Bool
verbose_default = false

abbrev traffic_gen_mac_address_prefix_octet : ℕ
traffic_gen_mac_address_prefix_octet = 0x50

abbrev vm_under_test_mac_address_prefix_octet : ℕ
vm_under_test_mac_address_prefix_octet = 0x60

abbrev east_mac_address_suffix_octet : ℕ
east_mac_address_suffix_octet = 0x01

abbrev west_mac_address_suffix_octet : ℕ
west_mac_address_suffix_octet = 0x02

-- The four reads of `crypto/rand`, in the order of the calls.
pub record Random : Type 0 where
  pub traffic_gen_east : Bytes
  pub traffic_gen_west : Bytes
  pub vm_under_test_east : Bytes
  pub vm_under_test_west : Bytes

-- `newConfig` before the checks: the mandatory parameters and the defaults.
unfoldable pub initial_config : BaseConfig → Random → Config
initial_config base random = record {
  pod_name = base.pod_name;
  pod_uid = base.pod_uid;
  network_attachment_definition_name = param base Key.network_attachment_definition_name;
  traffic_gen_container_disk_image = param base Key.traffic_gen_container_disk_image;
  traffic_gen_target_node_name = param base Key.traffic_gen_target_node_name;
  traffic_gen_packets_per_second = traffic_gen_default_packets_per_second;
  traffic_gen_east_mac_address =
      generate_mac_address random.traffic_gen_east traffic_gen_mac_address_prefix_octet
        east_mac_address_suffix_octet;
  traffic_gen_west_mac_address =
      generate_mac_address random.traffic_gen_west traffic_gen_mac_address_prefix_octet
        west_mac_address_suffix_octet;
  vm_under_test_container_disk_image = param base Key.vm_under_test_container_disk_image;
  vm_under_test_target_node_name = param base Key.vm_under_test_target_node_name;
  vm_under_test_east_mac_address =
      generate_mac_address random.vm_under_test_east vm_under_test_mac_address_prefix_octet
        east_mac_address_suffix_octet;
  vm_under_test_west_mac_address =
      generate_mac_address random.vm_under_test_west vm_under_test_mac_address_prefix_octet
        west_mac_address_suffix_octet;
  test_duration = test_duration_default;
  port_bandwidth_gbps = port_bandwidth_gbps_default;
  verbose = verbose_default;
}

unfoldable pub check_config : BaseConfig → Config → Checked Config
check_config base c =
    if is_empty c.network_attachment_definition_name
    then refused invalid_network_attachment_definition_name
    else if is_empty c.traffic_gen_container_disk_image
    then refused invalid_traffic_gen_container_disk_image
    else if is_empty c.vm_under_test_container_disk_image
    then refused invalid_vm_under_test_container_disk_image
    else if is_empty c.traffic_gen_target_node_name
          && not (is_empty c.vm_under_test_target_node_name)
        || not (is_empty c.traffic_gen_target_node_name)
          && is_empty c.vm_under_test_target_node_name
    then refused illegal_target_node_names_combination
    else set_optional_params base c

-- `config.New`.
unfoldable pub new : BaseConfig → Random → Checked Config
unfolding initial_config check_config set_optional_params
new base random = check_config base (initial_config base random)
