-- ===== src/Vmi/NodePlacement.antt =====
-- pkg/internal/checkup/vmi/affinity.go: on which node an instance may run.
use kubevirt_dpdk_checkup.Base.{[], ◌∷◌, Bytes, codes}
use kubevirt_dpdk_checkup.Api.{NodeAffinity, PodAntiAffinity}

-- `corev1.LabelHostname`.
abbrev pub label_hostname : Bytes
label_hostname = codes "kubernetes.io/hostname"

unfoldable pub new_required_node_affinity : Bytes → NodeAffinity
new_required_node_affinity node_name = record {
  required_during_scheduling =
      (record { key = label_hostname; operator = codes "In"; values = node_name ∷ [] } ∷ []) ∷ [];
}

unfoldable pub new_preferred_pod_anti_affinity : Bytes → Bytes → PodAntiAffinity
new_preferred_pod_anti_affinity label_key label_val = record {
  preferred_during_scheduling =
      record {
        weight = 1;
        term = record {
          topology_key = label_hostname;
          match_expressions =
              record { key = label_key; operator = codes "In"; values = label_val ∷ [] } ∷ [];
        };
      }
      ∷ [];
}
