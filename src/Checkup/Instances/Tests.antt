-- ===== src/Checkup/Instances/Tests.antt =====
-- The instances' theorems at a concrete configuration.
use kubevirt_dpdk_checkup.Base.{◌≡◌, ◌↔◌, refl, true, false, some, [], ◌∷◌, codes}
use kubevirt_dpdk_checkup.Config.{Config}
use kubevirt_dpdk_checkup.Config.Samples.{cfg}
use kubevirt_dpdk_checkup.Checkup.ConfigMaps.{new_traffic_gen_config_map}
use kubevirt_dpdk_checkup.Checkup.Instances.{new_vmi_under_test, new_traffic_gen}
use kubevirt_dpdk_checkup.Checkup.Instances.Attachments.{IsAttached, instances-IsAttached}
use kubevirt_dpdk_checkup.Checkup.Instances.Streams.{Routed, streams_use_interfaces}
use kubevirt_dpdk_checkup.Checkup.Instances.Placement.{
  avoids, required_on, permits, hostname, instances_keep_apart, instances_on_nodes,
}

abbrev pinned : Config
pinned = record cfg {
  traffic_gen_target_node_name = codes "node1";
  vm_under_test_target_node_name = codes "node2";
}

instances-IsAttached_example :
    IsAttached (new_vmi_under_test (codes "a") cfg (codes "m"))
    × IsAttached (new_traffic_gen (codes "a") cfg (codes "m"))
instances-IsAttached_example = instances-IsAttached (codes "a") cfg (codes "m")

instances_keep_apart_example :
    (avoids
        (new_vmi_under_test (codes "a") cfg (codes "m"))
        (new_traffic_gen (codes "b") cfg (codes "n"))
      ≡ true)
    × (avoids
          (new_traffic_gen (codes "b") cfg (codes "n"))
          (new_vmi_under_test (codes "a") cfg (codes "m"))
        ≡ true)
    × (required_on (new_vmi_under_test (codes "a") cfg (codes "m")) ≡ [])
    × (required_on (new_traffic_gen (codes "b") cfg (codes "n")) ≡ [])
instances_keep_apart_example =
    instances_keep_apart (codes "a") (codes "b") cfg (codes "m") (codes "n") refl refl

instances_on_nodes_example :
    ((permits
          (new_vmi_under_test (codes "a") pinned (codes "m"))
          ((codes "kubernetes.io/hostname", codes "node2") ∷ [])
        ≡ true)
      ↔ (hostname ((codes "kubernetes.io/hostname", codes "node2") ∷ []) ≡ some (codes "node2")))
    × ((permits
            (new_traffic_gen (codes "b") pinned (codes "n"))
            ((codes "kubernetes.io/hostname", codes "node2") ∷ [])
          ≡ true)
        ↔ (hostname ((codes "kubernetes.io/hostname", codes "node2") ∷ []) ≡ some (codes "node1")))
    × (avoids
          (new_vmi_under_test (codes "a") pinned (codes "m"))
          (new_traffic_gen (codes "b") pinned (codes "n"))
        ≡ false)
    × (avoids
          (new_traffic_gen (codes "b") pinned (codes "n"))
          (new_vmi_under_test (codes "a") pinned (codes "m"))
        ≡ false)
instances_on_nodes_example =
    instances_on_nodes (codes "a") (codes "b") pinned (codes "m") (codes "n")
      ((codes "kubernetes.io/hostname", codes "node2") ∷ []) (λ e. cc) (λ e. cc)

streams_use_interfaces_example :
    Routed
      (new_traffic_gen_config_map (codes "n") cfg).contents
      (new_traffic_gen (codes "b") cfg (codes "n"))
      (new_vmi_under_test (codes "a") cfg (codes "m"))
streams_use_interfaces_example =
    streams_use_interfaces (codes "a") (codes "b") cfg (codes "m") (codes "n")
