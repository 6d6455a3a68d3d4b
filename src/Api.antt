-- ===== src/Api.antt =====
-- The objects of the Kubernetes and KubeVirt APIs, with the fields that the program writes or reads.
-- A pointer is an `Option`, and so is a map that may be nil.
use kubevirt_dpdk_checkup.Base.{ℕ, Bool, Option, List, Bytes, ℤ}

pub record OwnerReference : Type 0 where
  pub api_version : Bytes
  pub kind : Bytes
  pub name : Bytes
  pub uid : Bytes

-- A node selector requirement or a label selector requirement, which have the same fields.
pub record Requirement : Type 0 where
  pub key : Bytes
  pub operator : Bytes
  pub values : List Bytes

-- The node selector's terms, each a list of requirements.
pub record NodeAffinity : Type 0 where
  pub required_during_scheduling : List (List Requirement)

pub record PodAffinityTerm : Type 0 where
  pub topology_key : Bytes
  pub match_expressions : List Requirement

pub record WeightedPodAffinityTerm : Type 0 where
  pub weight : ℕ
  pub term : PodAffinityTerm

pub record PodAntiAffinity : Type 0 where
  pub preferred_during_scheduling : List WeightedPodAffinityTerm

pub record Affinity : Type 0 where
  pub node_affinity : Option NodeAffinity
  pub pod_anti_affinity : Option PodAntiAffinity

pub record Cpu : Type 0 where
  pub sockets : ℕ
  pub cores : ℕ
  pub threads : ℕ
  pub dedicated_cpu_placement : Bool
  pub isolate_emulator_thread : Bool

-- `guest` is the text from which `resource.MustParse` reads the quantity.
pub record Memory : Type 0 where
  pub hugepages_page_size : Bytes
  pub guest : Bytes

-- A disk on a bus, or one with no device given.
pub record Disk : Type 0 where
  pub name : Bytes
  pub serial : Bytes
  pub bus : Option Bytes

-- Every interface of the program is bound by SR-IOV.
pub record Interface : Type 0 where
  pub name : Bytes
  pub model : Bytes
  pub mac_address : Bytes
  pub pci_address : Bytes

pub record Network : Type 0 where
  pub name : Bytes
  pub multus_network_name : Bytes

pub data VolumeSource : Type 0 where
  container_disk : Bytes → Bytes → VolumeSource
  config_map : Bytes → Bool → VolumeSource
  cloud_init_no_cloud : Bytes → VolumeSource

pub record Volume : Type 0 where
  pub name : Bytes
  pub source : VolumeSource

pub record Probe : Type 0 where
  pub exec_command : List Bytes
  pub failure_threshold : ℕ
  pub initial_delay_seconds : ℕ
  pub period_seconds : ℕ
  pub timeout_seconds : ℕ

pub record Condition : Type 0 where
  pub type : Bytes
  pub status : Bytes

-- `VirtualMachineInstance`: metadata, then the specification, then the status.
pub record Vmi : Type 0 where
  pub kind : Bytes
  pub api_version : Bytes
  pub name : Bytes
  pub owner_references : List OwnerReference
  pub labels : Option (List (Bytes × Bytes))
  pub annotations : Option (List (Bytes × Bytes))
  pub affinity : Option Affinity
  pub cpu : Option Cpu
  pub memory : Option Memory
  pub disks : List Disk
  pub interfaces : List Interface
  pub network_interface_multi_queue : Option Bool
  pub rng : Bool
  pub termination_grace_period_seconds : Option ℤ
  pub networks : List Network
  pub volumes : List Volume
  pub readiness_probe : Option Probe
  pub node_name : Bytes
  pub conditions : List Condition

pub record ConfigMap : Type 0 where
  pub name : Bytes
  pub owner_references : List OwnerReference
  pub contents : List (Bytes × Bytes)
