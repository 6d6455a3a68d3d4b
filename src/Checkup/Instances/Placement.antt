-- ===== src/Checkup/Instances/Placement.antt =====
-- Where the instances may run, by the meaning of their affinities.
use kubevirt_dpdk_checkup.Base.{
  ◌≡◌, ◌≢◌, ◌↔◌, refl, Bool, true, false, ◌&&◌, ◌||◌, Option, none, some, List, [], ◌∷◌, map, Bytes,
  codes, bytes_eq, bytes_eq_iff, bytes_eq_refl, sym, ap, if◌then◌else◌,
}
use kubevirt_dpdk_checkup.Api.{
  Vmi, Affinity, PodAntiAffinity, WeightedPodAffinityTerm, NodeAffinity, Requirement,
}
use kubevirt_dpdk_checkup.Vmi.NodePlacement.{label_hostname}
use kubevirt_dpdk_checkup.Config.{Config}
use kubevirt_dpdk_checkup.Checkup.Instances.{affinity, new_vmi_under_test, new_traffic_gen}

unfoldable pub lookup : Bytes → List (Bytes × Bytes) → Option Bytes
unfolding bytes_eq
lookup k [] = none
lookup k ((j, v) ∷ m) = if bytes_eq j k then some v else lookup k m

-- The meaning of a requirement with operator In: the label is there, with one of the values.
value_among : List Bytes → Option Bytes → Bool
value_among [] v = false
value_among (w ∷ ws) none = false
value_among (w ∷ ws) (some v) = bytes_eq w v || value_among ws (some v)

abbrev labels_of : Option (List (Bytes × Bytes)) → List (Bytes × Bytes)
labels_of none = []
labels_of (some m) = m

all_match : List Requirement → List (Bytes × Bytes) → Bool
unfolding lookup value_among
all_match [] labels = true
all_match (r ∷ rs) labels =
    bytes_eq r.operator (codes "In")
    && value_among r.values (lookup r.key labels)
    && all_match rs labels

some_term_matches : List WeightedPodAffinityTerm → List (Bytes × Bytes) → Bool
unfolding all_match bytes_eq
some_term_matches [] labels = false
some_term_matches (t ∷ ts) labels =
    bytes_eq t.term.topology_key label_hostname && all_match t.term.match_expressions labels
    || some_term_matches ts labels

anti_affinity_avoids : Option PodAntiAffinity → List (Bytes × Bytes) → Bool
unfolding some_term_matches
anti_affinity_avoids none labels = false
anti_affinity_avoids (some p) labels = some_term_matches p.preferred_during_scheduling labels

affinity_avoids : Option Affinity → List (Bytes × Bytes) → Bool
unfolding anti_affinity_avoids
affinity_avoids none labels = false
affinity_avoids (some a) labels = anti_affinity_avoids a.pod_anti_affinity labels

-- The scheduler is asked to keep the first instance off the node of a pod with the second's labels.
unfoldable pub avoids : Vmi → Vmi → Bool
unfolding affinity_avoids
avoids vmi other = affinity_avoids vmi.affinity (labels_of other.labels)

required : List Requirement → List Bytes
unfolding bytes_eq
required [] = []
required (r ∷ rs) = if bytes_eq r.key label_hostname then r.values else required rs

required_nodes : Option NodeAffinity → List (List Bytes)
required_nodes none = []
required_nodes (some n) = map required n.required_during_scheduling

required_by : Option Affinity → List (List Bytes)
unfolding required required_nodes
required_by none = []
required_by (some a) = required_nodes a.node_affinity

-- The nodes that the terms of the instance's required node affinity name.
unfoldable pub required_on : Vmi → List (List Bytes)
unfolding required_by
required_on vmi = required_by vmi.affinity

-- Some term of a required node affinity has all its requirements met by the node's labels.
some_term_met : List (List Requirement) → List (Bytes × Bytes) → Bool
unfolding all_match
some_term_met [] labels = false
some_term_met (t ∷ ts) labels = all_match t labels || some_term_met ts labels

node_affinity_permits : Option NodeAffinity → List (Bytes × Bytes) → Bool
unfolding some_term_met
node_affinity_permits none labels = true
node_affinity_permits (some n) labels = some_term_met n.required_during_scheduling labels

affinity_permits : Option Affinity → List (Bytes × Bytes) → Bool
unfolding node_affinity_permits
affinity_permits none labels = true
affinity_permits (some a) labels = node_affinity_permits a.node_affinity labels

-- The scheduler may put the instance on a node with the labels.
unfoldable pub permits : Vmi → List (Bytes × Bytes) → Bool
unfolding affinity_permits
permits vmi labels = affinity_permits vmi.affinity labels

-- The host name of a node with the labels.
abbrev pub hostname : List (Bytes × Bytes) → Option Bytes
hostname labels = lookup label_hostname labels

-- Among one value there is only that one.
among_one :
    (w : Bytes) (v : Option Bytes)
    → ((value_among (w ∷ []) v && true) || false ≡ true) ↔ (v ≡ some w)
unfolding value_among
among_one w none = (λ h. cc, λ h. cc)
among_one w (some v) = (
  λ h. ap some (sym ((bytes_eq_iff w v).0 (alone (bytes_eq w v) h))),
  λ e. rw (some-injective e) (rw bytes_eq_refl refl),
)
  where
    alone : (b : Bool) → ((b || false) && true) || false ≡ true → b ≡ true
    alone true h = refl
    alone false h = cc

    some-injective : some v ≡ some w → v ≡ w
    some-injective e = cc

-- The node that the affinity for a target node permits.
affinity-permits :
    (node owner_uid : Bytes) (labels : List (Bytes × Bytes))
    → node ≢ []
    → (affinity_permits (some (affinity node owner_uid)) labels ≡ true)
      ↔ (hostname labels ≡ some node)
unfolding affinity_permits affinity
affinity-permits [] owner_uid labels h = absurd (h refl)
affinity-permits (c ∷ s) owner_uid labels h = among_one (c ∷ s) (hostname labels)

-- With a target node an instance asks to avoid no pod.
affinity-avoids :
    (node owner_uid : Bytes) (labels : List (Bytes × Bytes))
    → node ≢ []
    → affinity_avoids (some (affinity node owner_uid)) labels ≡ false
unfolding affinity_avoids affinity
affinity-avoids [] owner_uid labels h = absurd (h refl)
affinity-avoids (c ∷ s) owner_uid labels h = refl

module _ (vm_name tg_name : Bytes) (cfg : Config) (vm_map tg_map : Bytes) where
  abbrev pub vm : Vmi
  vm = new_vmi_under_test vm_name cfg vm_map

  abbrev pub tg : Vmi
  tg = new_traffic_gen tg_name cfg tg_map

  -- Without target nodes no node is required, and each of the two instances asks not to share a
  -- node with the other: its anti-affinity term matches the other's label.
  pub instances_keep_apart :
      cfg.vm_under_test_target_node_name ≡ []
      → cfg.traffic_gen_target_node_name ≡ []
      → (avoids vm tg ≡ true)
        × (avoids tg vm ≡ true)
        × (required_on vm ≡ [])
        × (required_on tg ≡ [])
  unfolding avoids required_on new_vmi_under_test new_traffic_gen
  instances_keep_apart h k = rw (h, k) (rw bytes_eq_refl refl, rw bytes_eq_refl refl, refl, refl)

  -- With target nodes, each instance may run on a node exactly if this is the node's host name, and
  -- asks to avoid no pod.
  pub instances_on_nodes :
      (labels : List (Bytes × Bytes))
      → cfg.vm_under_test_target_node_name ≢ []
      → cfg.traffic_gen_target_node_name ≢ []
      → ((permits vm labels ≡ true) ↔ (hostname labels ≡ some cfg.vm_under_test_target_node_name))
        × ((permits tg labels ≡ true) ↔ (hostname labels ≡ some cfg.traffic_gen_target_node_name))
        × (avoids vm tg ≡ false)
        × (avoids tg vm ≡ false)
  unfolding avoids permits new_vmi_under_test new_traffic_gen
  instances_on_nodes labels h k = (
    affinity-permits cfg.vm_under_test_target_node_name cfg.pod_uid labels h,
    affinity-permits cfg.traffic_gen_target_node_name cfg.pod_uid labels k,
    affinity-avoids cfg.vm_under_test_target_node_name cfg.pod_uid _ h,
    affinity-avoids cfg.traffic_gen_target_node_name cfg.pod_uid _ k,
  )
