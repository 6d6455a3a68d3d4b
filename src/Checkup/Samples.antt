-- ===== src/Checkup/Samples.antt =====
-- A cluster in which every request succeeds, and a checkup on it.
use kubevirt_dpdk_checkup.Base.{
  ℕ, ◌≡◌, refl, sym, ap, ◌∙◌, Bool, true, false, none, ◌⊎◌, inl, inr, List, [], ◌∷◌, Bytes, codes,
  bytes_eq, bytes_eq_refl, bytes_eq_iff, pos, if◌then◌else◌, arith, Bool-cases,
}
use mathlib.Core.List.{Memᴰ}
use kubevirt_dpdk_checkup.Checkup.Requests.{is_ready}
use kubevirt_dpdk_checkup.Checkup.Progress.{Serves, ready}
use kubevirt_dpdk_checkup.Checkup.Removal.{Deletes, absent}
use kubevirt_dpdk_checkup.Go.Error.{Error, not_found, is_not_found}
use kubevirt_dpdk_checkup.Go.Act.{Act, ok}
use kubevirt_dpdk_checkup.Go.Context.{Context}
use kubevirt_dpdk_checkup.Api.{Vmi, ConfigMap}
use kubevirt_dpdk_checkup.Vmi.{empty}
use kubevirt_dpdk_checkup.World.{Env, History}
use kubevirt_dpdk_checkup.Config.Samples.{cfg}
use kubevirt_dpdk_checkup.Status.{Results}
use kubevirt_dpdk_checkup.Checkup.State.{State, new_checkup}
use kubevirt_dpdk_checkup.Checkup.Frame.{undeleted}
use kubevirt_dpdk_checkup.Checkup.Readiness.{KeepsNames}

abbrev pub is_in : Bytes → List Bytes → Bool
is_in name [] = false
is_in name (n ∷ ns) = let rest = is_in name ns in if bytes_eq n name then true else rest

abbrev pub answer_for : Bytes → Bool → Error ⊎ Vmi
answer_for name true = inr (record (empty name) {
  node_name = codes "node1";
  conditions = record { type = codes "Ready"; status = codes "True" } ∷ [];
})
answer_for name false = inl (not_found (codes "not found"))

-- An instance is ready as soon as it is created, and gone as soon as its deletion is asked for.
abbrev pub cluster : Env
cluster = record {
  create_vmi = λ h ctx ns vmi. inr vmi;
  get_vmi = λ h ctx ns name. answer_for name (is_in name (undeleted h));
  delete_vmi = λ h ctx ns name. none;
  create_config_map = λ h ctx ns m. inr m;
  delete_config_map = λ h ctx ns name. none;
  serial_console = λ h ns name timeout. none;
  spawn = λ h name. none;
  send_text = λ h name text. none;
  expect_batch = λ h name batch timeout. ([], none);
}

answer_for-name : (name : Bytes) (b : Bool) (v : Vmi) → answer_for name b ≡ inr v → v.name ≡ name
answer_for-name name true v e = ground arith
answer_for-name name false v e = cc

pub cluster-KeepsNames : KeepsNames cluster
cluster-KeepsNames = record { named = λ h ctx ns name v e. answer_for-name name _ v e }

abbrev pub start : State
start = record { checkup = new_checkup (codes "ns") cfg (codes "abcde"); history = [] }

abbrev pub clean_results : Results
clean_results = record {
  traffic_gen_sent_packets = pos 480;
  traffic_gen_output_error_packets = pos 0;
  traffic_gen_input_error_packets = pos 0;
  vm_under_test_received_packets = pos 480;
  vm_under_test_rx_dropped_packets = pos 0;
  vm_under_test_tx_dropped_packets = pos 0;
  traffic_gen_actual_node_name = [];
  vm_under_test_actual_node_name = [];
}

-- An execution without a loss.
abbrev pub passing : Context → Bytes → Bytes → Act History Results
passing ctx vm tg h = (ok clean_results, h)

is_in-Mem : (name : Bytes) (ns : List Bytes) → Memᴰ name ns → is_in name ns ≡ true
is_in-Mem name [] m = elim m [ ]
is_in-Mem name (n ∷ ns) (Memᴰ.head p) = rw (p, bytes_eq_refl)
is_in-Mem name (n ∷ ns) (Memᴰ.tail m) = elim (Bool-cases (bytes_eq n name)) [
  | inl e ↦ rw e
  | inr e ↦ rw e (is_in-Mem name ns m)
]

is_in-absent : (name : Bytes) (ns : List Bytes) → (Memᴰ name ns → ⊥) → is_in name ns ≡ false
is_in-absent name [] h = refl
is_in-absent name (n ∷ ns) h = elim (Bool-cases (bytes_eq n name)) [
  | inl e ↦ absurd (h (Memᴰ.head (sym ((bytes_eq_iff n name).0 e))))
  | inr e ↦ rw e (is_in-absent name ns (λ m. h (Memᴰ.tail m)))
]

-- Other consoles may stand beside the same cluster.
module _ (env : Env)
    (creates_map : (h : History) (ctx : Context) (ns : Bytes) (m : ConfigMap)
      → env.create_config_map h ctx ns m ≡ inr m)
    (creates : (h : History) (ctx : Context) (ns : Bytes) (vmi : Vmi)
      → env.create_vmi h ctx ns vmi ≡ inr vmi)
    (reads : (h : History) (ctx : Context) (ns name : Bytes)
      → env.get_vmi h ctx ns name ≡ answer_for name (is_in name (undeleted h)))
    (deletes : (h : History) (ctx : Context) (ns name : Bytes)
      → env.delete_vmi h ctx ns name ≡ none)
    (deletes_map : (h : History) (ctx : Context) (ns name : Bytes)
      → env.delete_config_map h ctx ns name ≡ none) where
  pub Serves-of_answers : (n : ℕ) → Serves env n
  unfolding is_ready
  Serves-of_answers n = record {
    config_maps = λ h ctx ns m. (m, creates_map h ctx ns m);
    instances = λ h ctx ns vmi. (vmi, creates h ctx ns vmi);
    readiness = λ h ctx ns name m.
        ready (reads h ctx ns name ∙ ap (answer_for name) (is_in-Mem name (undeleted h) m)) refl;
  }

  pub Deletes-of_answers : (n : ℕ) → Deletes env n
  unfolding is_not_found
  Deletes-of_answers n = record {
    instances = deletes;
    config_maps = deletes_map;
    absence = λ h ctx ns name m.
        absent (reads h ctx ns name ∙ ap (answer_for name) (is_in-absent name (undeleted h) m))
          refl;
  }

pub cluster-Serves : Serves cluster 0
cluster-Serves =
    Serves-of_answers cluster (λ h ctx ns m. refl) (λ h ctx ns vmi. refl) (λ h ctx ns name. refl)
      (λ h ctx ns name. refl) (λ h ctx ns name. refl) 0

pub cluster-Deletes : Deletes cluster 0
cluster-Deletes =
    Deletes-of_answers cluster (λ h ctx ns m. refl) (λ h ctx ns vmi. refl) (λ h ctx ns name. refl)
      (λ h ctx ns name. refl) (λ h ctx ns name. refl) 0
