-- ===== src/Checkup/Instances/Attachments.antt =====
-- How the parts of an instance refer to one another: disks to volumes, interfaces to networks, the
-- affinity to the label, and the generated traffic to the instances' addresses.
use kubevirt_dpdk_checkup.Base.{
  ◌≡◌, refl, Bool, true, false, not, ◌&&◌, ◌||◌, List, [], ◌∷◌, map, Bytes, bytes_eq,
}
use kubevirt_dpdk_checkup.Api.{Vmi, Disk, Volume, Interface, Network}
use kubevirt_dpdk_checkup.Config.{Config}
use kubevirt_dpdk_checkup.Checkup.Instances.{new_vmi_under_test, new_traffic_gen}

is_among : Bytes → List Bytes → Bool
unfolding bytes_eq
is_among s [] = false
is_among s (t ∷ ts) = bytes_eq s t || is_among s ts

-- No text of the list equals a later one.
pub all_different : List Bytes → Bool
unfolding is_among
all_different [] = true
all_different (s ∷ ss) = not (is_among s ss) && all_different ss

-- Disks and volumes pair up by name, and so do interfaces and networks, and no name is taken twice.
pub record IsAttached (vmi : Vmi) : Type 0 where
  pub disks_volumes :
      map (λ (d : Disk). d.name) vmi.disks ≡ map (λ (v : Volume). v.name) vmi.volumes
  pub interfaces_networks :
      map (λ (i : Interface). i.name) vmi.interfaces ≡ map (λ (n : Network). n.name) vmi.networks
  pub disks_different : all_different (map (λ (d : Disk). d.name) vmi.disks) ≡ true
  pub interfaces_different : all_different (map (λ (i : Interface). i.name) vmi.interfaces) ≡ true

module _ (name : Bytes) (cfg : Config) (config_map_name : Bytes) where
  new_vmi_under_test-IsAttached : IsAttached (new_vmi_under_test name cfg config_map_name)
  unfolding new_vmi_under_test all_different
  new_vmi_under_test-IsAttached = record {
    disks_volumes = refl;
    interfaces_networks = refl;
    disks_different = refl;
    interfaces_different = refl;
  }

  new_traffic_gen-IsAttached : IsAttached (new_traffic_gen name cfg config_map_name)
  unfolding new_traffic_gen all_different
  new_traffic_gen-IsAttached = record {
    disks_volumes = refl;
    interfaces_networks = refl;
    disks_different = refl;
    interfaces_different = refl;
  }

-- In both instances, whatever the configuration, each disk has the volume of its name and each
-- interface the network of its name, in the same order, and all these names differ.
pub instances-IsAttached :
    (name : Bytes) (cfg : Config) (config_map_name : Bytes)
    → IsAttached (new_vmi_under_test name cfg config_map_name)
      × IsAttached (new_traffic_gen name cfg config_map_name)
instances-IsAttached name cfg config_map_name = (
  new_vmi_under_test-IsAttached name cfg config_map_name,
  new_traffic_gen-IsAttached name cfg config_map_name,
)
