-- ===== src/Checkup/State.antt =====
-- The object `Checkup` of pkg/internal/checkup/checkup.go, and what its methods read and write.
use kubevirt_dpdk_checkup.Base.{◌++◌, Bytes, codes}
use kubevirt_dpdk_checkup.Api.{Vmi, ConfigMap}
use kubevirt_dpdk_checkup.World.{History}
use kubevirt_dpdk_checkup.Config.{Config}
use kubevirt_dpdk_checkup.Status.{Results, empty_results}
use kubevirt_dpdk_checkup.Checkup.Instances.{new_vmi_under_test, new_traffic_gen}
use kubevirt_dpdk_checkup.Checkup.ConfigMaps.{
  new_vmi_under_test_config_map, new_traffic_gen_config_map,
}

pub record Checkup : Type 0 where
  pub namespace : Bytes
  pub params : Config
  pub vmi_under_test : Vmi
  pub traffic_gen : Vmi
  pub traffic_gen_config_map : ConfigMap
  pub vmi_under_test_config_map : ConfigMap
  pub results : Results

-- The object, and the calls that were made.
pub record State : Type 0 where
  pub checkup : Checkup
  pub history : History

-- The prefixes of the names.
abbrev vmi_under_test_name_prefix : Bytes
vmi_under_test_name_prefix = codes "vmi-under-test"

abbrev traffic_gen_name_prefix : Bytes
traffic_gen_name_prefix = codes "dpdk-traffic-gen"

abbrev traffic_gen_config_map_name_prefix : Bytes
traffic_gen_config_map_name_prefix = codes "dpdk-traffic-gen-config"

abbrev vmi_under_test_config_map_name_prefix : Bytes
vmi_under_test_config_map_name_prefix = codes "vmi-under-test-config"

abbrev pub vmi_under_test_name : Bytes → Bytes
vmi_under_test_name suffix = vmi_under_test_name_prefix ++ (codes "-" ++ suffix)

abbrev pub traffic_gen_name : Bytes → Bytes
traffic_gen_name suffix = traffic_gen_name_prefix ++ (codes "-" ++ suffix)

abbrev traffic_gen_config_map_name : Bytes → Bytes
traffic_gen_config_map_name suffix = traffic_gen_config_map_name_prefix ++ (codes "-" ++ suffix)

abbrev vmi_under_test_config_map_name : Bytes → Bytes
vmi_under_test_config_map_name suffix =
    vmi_under_test_config_map_name_prefix ++ (codes "-" ++ suffix)

-- `New`; the suffix is the random string of five characters that it draws.
unfoldable pub new_checkup : Bytes → Config → Bytes → Checkup
new_checkup namespace cfg suffix =
    let traffic_gen_map = traffic_gen_config_map_name suffix in
    let vmi_under_test_map = vmi_under_test_config_map_name suffix in
    record {
      namespace = namespace;
      params = cfg;
      vmi_under_test = new_vmi_under_test (vmi_under_test_name suffix) cfg vmi_under_test_map;
      traffic_gen = new_traffic_gen (traffic_gen_name suffix) cfg traffic_gen_map;
      traffic_gen_config_map = new_traffic_gen_config_map traffic_gen_map cfg;
      vmi_under_test_config_map = new_vmi_under_test_config_map vmi_under_test_map cfg;
      results = empty_results;
    }

-- `Results`.
abbrev pub results : State → Results
results s = s.checkup.results

-- `ObjectFullName`.
unfoldable pub object_full_name : Bytes → Bytes → Bytes
object_full_name namespace name = namespace ++ (codes "/" ++ name)
