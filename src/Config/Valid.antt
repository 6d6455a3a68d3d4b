-- ===== src/Config/Valid.antt =====
-- What a configuration that `config.New` accepts holds.
use kubevirt_dpdk_checkup.Base.{
  ◌≡◌, ◌≢◌, refl, sym, ap, ◌∙◌, ◌⊎◌, ◌↔◌, inl, inr, Bool, true, false, Option, some, List, [], ◌∷◌,
  Bytes, codes, arith, is_empty, ℤ, pos,
}
use kubevirt_dpdk_checkup.Go.Strconv.{parse_bool}
use kubevirt_dpdk_checkup.Go.Duration.{parse_duration}
use kubevirt_dpdk_checkup.Config.{
  BaseConfig, Config, ConfigError, Checked, accepted, ◌>>=◌, param, optional, Random,
  set_optional_params, initial_config, check_config, new, invalid_traffic_gen_packets_per_second,
  invalid_test_duration, invalid_port_bandwidth_gbps, invalid_verbose,
}
use kubevirt_dpdk_checkup.Config.Key
use kubevirt_dpdk_checkup.Config.Parse.{
  parse_traffic_gen_packets_per_second, parse_non_zero_positive_int,
}

-- The four parsed options of a configuration that was accepted.
options_inv :
    (rate : Checked Bytes) (duration bandwidth : Checked ℤ) (verbosity : Checked Bool)
    (c cfg : Config)
    → (do
      r ← rate
      d ← duration
      b ← bandwidth
      v ← verbosity
      accepted (record c {
        traffic_gen_packets_per_second = r;
        test_duration = d;
        port_bandwidth_gbps = b;
        verbose = v;
      }))
      ≡ accepted cfg
    → (rate ≡ accepted cfg.traffic_gen_packets_per_second)
      × (duration ≡ accepted cfg.test_duration)
      × (bandwidth ≡ accepted cfg.port_bandwidth_gbps)
      × (verbosity ≡ accepted cfg.verbose)
      × (cfg ≡ record c {
        traffic_gen_packets_per_second = cfg.traffic_gen_packets_per_second;
        test_duration = cfg.test_duration;
        port_bandwidth_gbps = cfg.port_bandwidth_gbps;
        verbose = cfg.verbose;
      })
options_inv (accepted r) (accepted d) (accepted b) (accepted v) c cfg h = ground arith
options_inv _ _ _ _ c cfg h = cc

-- The value of an optional parameter: its default if it is absent, or what its text parses to.
abbrev Chosen : {A : Type 0} → Bytes → A → (Bytes → Option A) → A → Type 0
Chosen raw default parse v = ((raw ≡ []) × (v ≡ default)) ⊎ ((raw ≢ []) × (parse raw ≡ some v))

optional-Chosen :
    {A : Type 0} (raw : Bytes) (default : A) (parse : Bytes → Option A) (e : ConfigError) (v : A)
    → optional raw default parse e ≡ accepted v
    → Chosen raw default parse v
optional-Chosen [] default parse e v h = inl (refl, ground arith)
optional-Chosen (c ∷ s) default parse e v h = inr (λ p. cc, ground arith)

-- The optional parameters of an accepted configuration.
pub record Options (base : BaseConfig) (cfg : Config) : Type 0 where
  pub rate :
      Chosen
        (param base Key.traffic_gen_packets_per_second)
        (codes "8m")
        parse_traffic_gen_packets_per_second
        cfg.traffic_gen_packets_per_second
  pub duration :
      Chosen (param base Key.test_duration) (pos 300000000000) parse_duration cfg.test_duration
  pub bandwidth :
      Chosen
        (param base Key.port_bandwidth_gbps)
        (pos 10)
        parse_non_zero_positive_int
        cfg.port_bandwidth_gbps
  pub verbosity : Chosen (param base Key.verbose) false parse_bool cfg.verbose

-- The parameters that every configuration needs.
pub record Mandatory (cfg : Config) : Type 0 where
  pub network_given : cfg.network_attachment_definition_name ≢ []
  pub traffic_gen_image_given : cfg.traffic_gen_container_disk_image ≢ []
  pub vm_under_test_image_given : cfg.vm_under_test_container_disk_image ≢ []
  -- Either both node names are given, or neither.
  pub nodes_together :
      (cfg.traffic_gen_target_node_name ≡ []) ↔ (cfg.vm_under_test_target_node_name ≡ [])

-- The parameters that `set_optional_params` leaves alone.
abbrev pub SameMandatory : Config → Config → Type 0
SameMandatory cfg c = cfg ≡ record c {
  traffic_gen_packets_per_second = cfg.traffic_gen_packets_per_second;
  test_duration = cfg.test_duration;
  port_bandwidth_gbps = cfg.port_bandwidth_gbps;
  verbose = cfg.verbose;
}

set_optional_params_inv :
    (base : BaseConfig) (random : Random) (cfg : Config)
    → set_optional_params base (initial_config base random) ≡ accepted cfg
    → Options base cfg × SameMandatory cfg (initial_config base random)
unfolding set_optional_params initial_config
set_optional_params_inv base random cfg h =
    let (r, d, b, v, same) = options_inv _ _ _ _ (initial_config base random) cfg h in
    (
      record {
        rate = optional-Chosen _ _ _ invalid_traffic_gen_packets_per_second _ r;
        duration = optional-Chosen _ _ _ invalid_test_duration _ d;
        bandwidth = optional-Chosen _ _ _ invalid_port_bandwidth_gbps _ b;
        verbosity = optional-Chosen _ _ _ invalid_verbose _ v;
      },
      same,
    )

IsEmpty_iff {ℓ} : {A : Type ℓ} (s : List A) → (is_empty s ≡ true) ↔ (s ≡ [])
IsEmpty_iff [] = ground arith
IsEmpty_iff (c ∷ s) = ground arith

check_config_inv :
    (base : BaseConfig) (c cfg : Config)
    → check_config base c ≡ accepted cfg
    → Mandatory c × (set_optional_params base c ≡ accepted cfg)
unfolding check_config
check_config_inv base c cfg h = (
  record {
    network_given = ground (arith, IsEmpty_iff c.network_attachment_definition_name);
    traffic_gen_image_given = ground (arith, IsEmpty_iff c.traffic_gen_container_disk_image);
    vm_under_test_image_given = ground (arith, IsEmpty_iff c.vm_under_test_container_disk_image);
    nodes_together = ground arith;
  },
  ground arith,
)

optional-of_Chosen :
    {A : Type 0} (raw : Bytes) (default : A) (parse : Bytes → Option A) (e : ConfigError) (v : A)
    → Chosen raw default parse v
    → optional raw default parse e ≡ accepted v
optional-of_Chosen [] default parse e v h = ground arith
optional-of_Chosen (c ∷ s) default parse e v h = ground arith

check_config-Mandatory :
    (base : BaseConfig) (c : Config)
    → Mandatory c
    → check_config base c ≡ set_optional_params base c
unfolding check_config
check_config-Mandatory base c m = ground arith

set_optional_params-of_Options :
    (base : BaseConfig) (random : Random) (cfg : Config)
    → Options base cfg
    → SameMandatory cfg (initial_config base random)
    → set_optional_params base (initial_config base random) ≡ accepted cfg
unfolding set_optional_params initial_config
set_optional_params-of_Options base random cfg o same =
    rw
      (
        optional-of_Chosen _ _ _ invalid_traffic_gen_packets_per_second _ o.rate,
        optional-of_Chosen _ _ _ invalid_test_duration _ o.duration,
        optional-of_Chosen _ _ _ invalid_port_bandwidth_gbps _ o.bandwidth,
        optional-of_Chosen _ _ _ invalid_verbose _ o.verbosity,
      )
      (ap accepted (sym same))

Mandatory-same : (cfg c : Config) → SameMandatory cfg c → Mandatory cfg ↔ Mandatory c
Mandatory-same cfg c same = (
  λ m. record {
    network_given = ground (arith, m.network_given);
    traffic_gen_image_given = ground (arith, m.traffic_gen_image_given);
    vm_under_test_image_given = ground (arith, m.vm_under_test_image_given);
    nodes_together = ground (arith, m.nodes_together);
  },
  λ m. record {
    network_given = ground (arith, m.network_given);
    traffic_gen_image_given = ground (arith, m.traffic_gen_image_given);
    vm_under_test_image_given = ground (arith, m.vm_under_test_image_given);
    nodes_together = ground (arith, m.nodes_together);
  },
)

pub new_lem :
    (base : BaseConfig) (random : Random)
    → new base random ≡ check_config base (initial_config base random)
unfolding new
new_lem base random = refl

-- `config.New` returns the configuration `cfg` exactly when the network and both images are given,
-- the two node names are given together or not at all, each optional parameter has its default or
-- the value that its text parses to, and the rest is copied from the parameters and the random MAC
-- addresses.
pub new_iff :
    (base : BaseConfig) (random : Random) (cfg : Config)
    → (new base random ≡ accepted cfg)
      ↔ (Mandatory cfg × Options base cfg × SameMandatory cfg (initial_config base random))
new_iff base random cfg = (
  λ h.
      let (m, e) = check_config_inv base (initial_config base random) cfg (rw new_lem at h) in
      let (o, same) = set_optional_params_inv base random cfg e in
      ((Mandatory-same cfg _ same).1 m, o, same),
  λ (m, o, same).
      new_lem base random
      ∙ check_config-Mandatory base _ ((Mandatory-same cfg _ same).0 m)
      ∙ set_optional_params-of_Options base random cfg o same,
)
