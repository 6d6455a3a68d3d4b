-- ===== src/Config/Refusals.antt =====
-- The errors of `config.New`, and the MAC addresses of what it accepts.
use kubevirt_dpdk_checkup.Base.{
  ◌≡◌, ◌≢◌, refl, ◌⊎◌, ◌↔◌, inl, inr, Bool, Option, none, [], ◌∷◌, Bytes, arith, ℤ,
}
use kubevirt_dpdk_checkup.Go.Strconv.{parse_bool}
use kubevirt_dpdk_checkup.Go.Duration.{parse_duration}
use kubevirt_dpdk_checkup.Config.{
  BaseConfig, Config, ConfigError, Checked, accepted, refused, ◌>>=◌, param, optional, rate_option,
  duration_option, bandwidth_option, verbose_option, Random, set_optional_params, initial_config,
  check_config, new, invalid_traffic_gen_packets_per_second, invalid_test_duration,
  invalid_port_bandwidth_gbps, invalid_verbose, invalid_network_attachment_definition_name,
  invalid_traffic_gen_container_disk_image, illegal_target_node_names_combination,
  invalid_vm_under_test_container_disk_image,
}
use kubevirt_dpdk_checkup.Config.Key
use kubevirt_dpdk_checkup.Config.Valid.{new_lem}
use kubevirt_dpdk_checkup.Config.Parse.{
  parse_traffic_gen_packets_per_second, parse_non_zero_positive_int,
}

-- A parameter that is given, and whose text does not parse.
abbrev pub Unreadable : {A : Type 0} → BaseConfig → Bytes → (Bytes → Option A) → Type 0
Unreadable base key parse = (param base key ≢ []) × (parse (param base key) ≡ none)

-- What each error says of the parameters.
abbrev pub Blames : BaseConfig → ConfigError → Type 0
Blames base invalid_network_attachment_definition_name =
    param base Key.network_attachment_definition_name ≡ []
Blames base invalid_traffic_gen_container_disk_image =
    param base Key.traffic_gen_container_disk_image ≡ []
Blames base invalid_vm_under_test_container_disk_image =
    param base Key.vm_under_test_container_disk_image ≡ []
Blames base illegal_target_node_names_combination = ¬ (
    (param base Key.traffic_gen_target_node_name ≡ [])
    ↔ (param base Key.vm_under_test_target_node_name ≡ []))
Blames base invalid_traffic_gen_packets_per_second =
    Unreadable base Key.traffic_gen_packets_per_second parse_traffic_gen_packets_per_second
Blames base invalid_test_duration = Unreadable base Key.test_duration parse_duration
Blames base invalid_port_bandwidth_gbps =
    Unreadable base Key.port_bandwidth_gbps parse_non_zero_positive_int
Blames base invalid_verbose = Unreadable base Key.verbose parse_bool

optional-refused :
    {A : Type 0} (raw : Bytes) (default : A) (parse : Bytes → Option A) (e e' : ConfigError)
    → optional raw default parse e ≡ refused e'
    → (e' ≡ e) × (raw ≢ []) × (parse raw ≡ none)
optional-refused [] default parse e e' h = cc
optional-refused (c ∷ s) default parse e e' h = (ground arith, λ p. cc, ground arith)

-- An error of the four options is the error of one of them.
options_refused :
    (rate : Checked Bytes) (duration bandwidth : Checked ℤ) (verbosity : Checked Bool) (c : Config)
    (e : ConfigError)
    → (do
      r ← rate
      d ← duration
      b ← bandwidth
      v ← verbosity
      accepted (record c {
        traffic_gen_packets_per_second = r;
        test_duration = d;
        port_bandwidth_gbps = b;
        verbose = v;
      }))
      ≡ refused e
    → (rate ≡ refused e)
      ⊎ (duration ≡ refused e)
      ⊎ (bandwidth ≡ refused e)
      ⊎ (verbosity ≡ refused e)
options_refused (refused r) d b v c e h = inl (ground arith)
options_refused (accepted r) (refused d) b v c e h = inr (inl (ground arith))
options_refused (accepted r) (accepted d) (refused b) v c e h = inr (inr (inl (ground arith)))
options_refused (accepted r) (accepted d) (accepted b) (refused v) c e h =
    inr (inr (inr (ground arith)))
options_refused (accepted r) (accepted d) (accepted b) (accepted v) c e h = cc

-- The pattern of one option's error.
Blames-optional :
    {A : Type 0} (base : BaseConfig) (key : Bytes) (default : A) (parse : Bytes → Option A)
    (e e' : ConfigError)
    → Blames base e ≡ Unreadable base key parse
    → optional (param base key) default parse e ≡ refused e'
    → Blames base e'
Blames-optional base key default parse e e' p h =
    let (q, given, unread) = optional-refused (param base key) default parse e e' h in
    rw (q, p) (given, unread)

set_optional_params-Blames :
    (base : BaseConfig) (c : Config) (e : ConfigError)
    → set_optional_params base c ≡ refused e
    → Blames base e
unfolding set_optional_params
set_optional_params-Blames base c e h =
    let rate = rate_option base c in
    let duration = duration_option base c in
    let bandwidth = bandwidth_option base c in
    let verbosity = verbose_option base c in
    elim (options_refused rate duration bandwidth verbosity c e h) [
      | inl r ↦
          Blames-optional base Key.traffic_gen_packets_per_second c.traffic_gen_packets_per_second
            parse_traffic_gen_packets_per_second invalid_traffic_gen_packets_per_second e refl r
      | inr (inl r) ↦
          Blames-optional base Key.test_duration c.test_duration parse_duration
            invalid_test_duration e refl r
      | inr (inr (inl r)) ↦
          Blames-optional base Key.port_bandwidth_gbps c.port_bandwidth_gbps
            parse_non_zero_positive_int invalid_port_bandwidth_gbps e refl r
      | inr (inr (inr r)) ↦
          Blames-optional base Key.verbose c.verbose parse_bool invalid_verbose e refl r
    ]

check_config_refused :
    (base : BaseConfig) (c : Config) (e : ConfigError)
    → check_config base c ≡ refused e
    → ((e ≡ invalid_network_attachment_definition_name)
        × (c.network_attachment_definition_name ≡ []))
      ⊎ ((e ≡ invalid_traffic_gen_container_disk_image) × (c.traffic_gen_container_disk_image ≡ []))
      ⊎ ((e ≡ invalid_vm_under_test_container_disk_image)
          × (c.vm_under_test_container_disk_image ≡ []))
      ⊎ ((e ≡ illegal_target_node_names_combination)
          × ¬ ((c.traffic_gen_target_node_name ≡ []) ↔ (c.vm_under_test_target_node_name ≡ [])))
      ⊎ (set_optional_params base c ≡ refused e)
unfolding check_config
check_config_refused base c e h = ground arith

check_config-Blames :
    (base : BaseConfig) (random : Random) (e : ConfigError)
    → check_config base (initial_config base random) ≡ refused e
    → Blames base e
unfolding initial_config
check_config-Blames base random e h =
    elim (check_config_refused base (initial_config base random) e h) [
      | inl (p, missing) ↦ rw p missing
      | inr (inl (p, missing)) ↦ rw p missing
      | inr (inr (inl (p, missing))) ↦ rw p missing
      | inr (inr (inr (inl (p, apart)))) ↦ rw p apart
      | inr (inr (inr (inr r))) ↦ set_optional_params-Blames base (initial_config base random) e r
    ]

-- The error that `config.New` returns names a parameter that is missing, that does not go with its
-- counterpart, or that does not parse.
pub new-Blames :
    (base : BaseConfig) (random : Random) (e : ConfigError)
    → new base random ≡ refused e
    → Blames base e
new-Blames base random e h = check_config-Blames base random e (rw new_lem at h)
