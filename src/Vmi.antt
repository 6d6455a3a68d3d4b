-- ===== src/Vmi.antt =====
-- pkg/internal/checkup/vmi/spec.go: a virtual machine instance built by options.
pub mod NodePlacement
use kubevirt_dpdk_checkup.Base.{
  ℕ, Bool, true, false, not, ◌&&◌, Option, none, some, List, [], ◌∷◌, ◌++◌, Bytes, codes, is_empty,
  if◌then◌else◌, bytes_eq, ℤ,
}
use kubevirt_dpdk_checkup.Api.{
  Vmi, OwnerReference, Requirement, NodeAffinity, PodAffinityTerm, WeightedPodAffinityTerm,
  PodAntiAffinity, Affinity, Cpu, Memory, Disk, Interface, Network, Volume, container_disk,
  config_map, cloud_init_no_cloud, Probe,
}

-- An option writes to the instance; here it returns the new one.
abbrev pub VmiOption : Type 0
VmiOption = Vmi → Vmi

-- `m[k] = v` on a Go map.
unfoldable pub put : Bytes → Bytes → List (Bytes × Bytes) → List (Bytes × Bytes)
unfolding bytes_eq
put k v [] = (k, v) ∷ []
put k v ((j, w) ∷ m) = if bytes_eq j k then (k, v) ∷ m else (j, w) ∷ put k v m

-- A write to a map that is made first if it is nil.
unfoldable put_or_make :
    Bytes → Bytes → Option (List (Bytes × Bytes)) → Option (List (Bytes × Bytes))
unfolding put
put_or_make k v none = some (put k v [])
put_or_make k v (some m) = some (put k v m)

-- The instance that `New` starts from.
abbrev pub empty : Bytes → Vmi
empty name = record {
  kind = codes "VirtualMachineInstance";
  api_version = codes "kubevirt.io/v1";
  name = name;
  owner_references = [];
  labels = none;
  annotations = none;
  affinity = none;
  cpu = none;
  memory = none;
  disks = [];
  interfaces = [];
  network_interface_multi_queue = none;
  rng = false;
  termination_grace_period_seconds = none;
  networks = [];
  volumes = [];
  readiness_probe = none;
  node_name = [];
  conditions = [];
}

unfoldable apply : List VmiOption → Vmi → Vmi
apply [] vmi = vmi
apply (f ∷ fs) vmi = apply fs (f vmi)

-- `vmi.New`.
unfoldable pub new : Bytes → List VmiOption → Vmi
unfolding apply
new name options = apply options (empty name)

-- The owner reference to a pod, in `WithOwnerReference` and in `configmap.New`.
abbrev pub pod_owner : Bytes → Bytes → OwnerReference
pod_owner name uid = record { api_version = codes "v1"; kind = codes "Pod"; name = name; uid = uid }

unfoldable pub with_owner_reference : Bytes → Bytes → VmiOption
with_owner_reference owner_name owner_uid vmi = record vmi {
  owner_references =
      if not (is_empty owner_uid) && not (is_empty owner_name)
      then vmi.owner_references ++ pod_owner owner_name owner_uid ∷ []
      else vmi.owner_references;
}

abbrev disable : Bytes
disable = codes "disable"

abbrev crio_cpu_load_balancing_annotation : Bytes
crio_cpu_load_balancing_annotation = codes "cpu-load-balancing.crio.io"

abbrev crio_cpu_quota_annotation : Bytes
crio_cpu_quota_annotation = codes "cpu-quota.crio.io"

abbrev crio_irq_load_balancing_annotation : Bytes
crio_irq_load_balancing_annotation = codes "irq-load-balancing.crio.io"

unfoldable pub without_crio_cpu_load_balancing : VmiOption
unfolding put_or_make
without_crio_cpu_load_balancing vmi = record vmi {
  annotations = put_or_make crio_cpu_load_balancing_annotation disable vmi.annotations;
}

unfoldable pub without_crio_cpu_quota : VmiOption
unfolding put_or_make
without_crio_cpu_quota vmi = record vmi {
  annotations = put_or_make crio_cpu_quota_annotation disable vmi.annotations;
}

unfoldable pub without_crio_irq_load_balancing : VmiOption
unfolding put_or_make
without_crio_irq_load_balancing vmi = record vmi {
  annotations = put_or_make crio_irq_load_balancing_annotation disable vmi.annotations;
}

unfoldable pub with_dedicated_cpu : ℕ → ℕ → ℕ → VmiOption
with_dedicated_cpu sockets cores threads vmi = record vmi {
  cpu = some (record {
    sockets = sockets;
    cores = cores;
    threads = threads;
    dedicated_cpu_placement = true;
    isolate_emulator_thread = true;
  });
}

unfoldable pub with_virt_io_disk : Bytes → VmiOption
with_virt_io_disk name vmi = record vmi {
  disks = vmi.disks ++ record { name = name; serial = []; bus = some (codes "virtio") } ∷ [];
}

unfoldable pub with_config_map_disk : Bytes → Bytes → VmiOption
with_config_map_disk name serial vmi = record vmi {
  disks = vmi.disks ++ record { name = name; serial = serial; bus = none } ∷ [];
}

unfoldable pub with_sriov_interface : Bytes → Bytes → Bytes → VmiOption
with_sriov_interface name mac_address pci_address vmi = record vmi {
  interfaces =
      vmi.interfaces
      ++ record {
        name = name;
        model = codes "virtio";
        mac_address = mac_address;
        pci_address = pci_address;
      }
        ∷ [];
}

unfoldable pub with_network_interface_multi_queue : VmiOption
with_network_interface_multi_queue vmi = record vmi { network_interface_multi_queue = some true }

unfoldable pub with_random_number_generator : VmiOption
with_random_number_generator vmi = record vmi { rng = true }

unfoldable pub with_memory : Bytes → Bytes → VmiOption
with_memory huge_page_size guest_memory vmi = record vmi {
  memory = some (record { hugepages_page_size = huge_page_size; guest = guest_memory });
}

unfoldable pub with_termination_grace_period_seconds : ℤ → VmiOption
with_termination_grace_period_seconds seconds vmi = record vmi {
  termination_grace_period_seconds = some seconds;
}

unfoldable pub with_multus_network : Bytes → Bytes → VmiOption
with_multus_network name definition_name vmi = record vmi {
  networks = vmi.networks ++ record { name = name; multus_network_name = definition_name } ∷ [];
}

abbrev append_volume : Volume → VmiOption
append_volume volume vmi = record vmi { volumes = vmi.volumes ++ volume ∷ [] }

unfoldable pub with_container_disk : Bytes → Bytes → VmiOption
with_container_disk name image =
    append_volume (record { name = name; source = container_disk image (codes "Always") })

unfoldable pub with_config_map_volume : Bytes → Bytes → VmiOption
with_config_map_volume name config_map_name =
    append_volume (record { name = name; source = config_map config_map_name false })

unfoldable pub with_cloud_init_no_cloud_volume : Bytes → Bytes → VmiOption
with_cloud_init_no_cloud_volume name user_data =
    append_volume (record { name = name; source = cloud_init_no_cloud user_data })

put_all : List (Bytes × Bytes) → List (Bytes × Bytes) → List (Bytes × Bytes)
unfolding put
put_all [] m = m
put_all ((k, v) ∷ labels) m = put_all labels (put k v m)

abbrev map_or_empty : Option (List (Bytes × Bytes)) → List (Bytes × Bytes)
map_or_empty none = []
map_or_empty (some m) = m

unfoldable pub with_labels : List (Bytes × Bytes) → VmiOption
unfolding put_all
with_labels labels vmi = record vmi { labels = some (put_all labels (map_or_empty vmi.labels)) }

abbrev keep_or : Option Affinity → Option Affinity → Option Affinity
keep_or none old = old
keep_or (some affinity) old = some affinity

unfoldable pub with_affinity : Option Affinity → VmiOption
with_affinity affinity vmi = record vmi { affinity = keep_or affinity vmi.affinity }

unfoldable pub with_readiness_file_probe : Bytes → VmiOption
with_readiness_file_probe file_name vmi = record vmi {
  readiness_probe = some (record {
    exec_command = codes "cat" ∷ file_name ∷ [];
    failure_threshold = 30;
    initial_delay_seconds = 90;
    period_seconds = 10;
    timeout_seconds = 10;
  });
}
