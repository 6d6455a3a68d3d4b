-- ===== src/Main/Refusal.antt =====
-- How a process ends whose configuration is not read, and that it launches the checkup otherwise:
-- cmd/main.go, pkg/mainflow.go and the errors of config.go.
use kubevirt_dpdk_checkup.Base.{◌≡◌, refl, ap, ◌⊎◌, inl, inr, ◌↔◌, List, [], ◌++◌, Bytes, codes}
use kubevirt_dpdk_checkup.Go.Error.{Error, message}
use kubevirt_dpdk_checkup.Go.Act.{Result, ok, err, panic}
use kubevirt_dpdk_checkup.Go.Strconv.{parse_bool}
use kubevirt_dpdk_checkup.Go.Duration.{parse_duration}
use kubevirt_dpdk_checkup.Cluster.{KubevirtClient}
use kubevirt_dpdk_checkup.Cluster
use kubevirt_dpdk_checkup.Config.{
  BaseConfig, Config, ConfigError, Checked, accepted, refused, error_of, param,
  invalid_network_attachment_definition_name, invalid_traffic_gen_container_disk_image,
  invalid_vm_under_test_container_disk_image, illegal_target_node_names_combination,
  invalid_traffic_gen_packets_per_second, invalid_test_duration, invalid_port_bandwidth_gbps,
  invalid_verbose,
}
use kubevirt_dpdk_checkup.Config
use kubevirt_dpdk_checkup.Config.Parse.{
  parse_traffic_gen_packets_per_second, parse_non_zero_positive_int,
}
use kubevirt_dpdk_checkup.Config.Refusals.{Blames, Unreadable, new-Blames}
use kubevirt_dpdk_checkup.Main.Entry.{
  Platform, Surroundings, Prepared, Exit, returned, fatal, panicked, failed, prepare, run_prepared,
  exit_of, main,
}
use kubevirt_dpdk_checkup.Main.Exit.{
  Reads, Refused, no_namespace, outside_cluster, not_connected, not_read, invalid, prepared-inv,
  run-Reads, main-Refused,
}

-- A text that complains of the parameters, and what is wrong with them.
pub data Complaint (base : BaseConfig) : Bytes → Type 0 where
  no_network :
      param base (codes "networkAttachmentDefinitionName") ≡ []
      → Complaint base (codes "invalid Network-Attachment-Definition Name")
  no_traffic_gen_image :
      param base (codes "trafficGenContainerDiskImage") ≡ []
      → Complaint base (codes "invalid Traffic Generator container disk image")
  no_vm_image :
      param base (codes "vmUnderTestContainerDiskImage") ≡ []
      → Complaint base (codes "invalid VM Under test container disk image")
  one_node :
      ¬ (
        (param base (codes "trafficGenTargetNodeName") ≡ [])
        ↔ (param base (codes "vmUnderTestTargetNodeName") ≡ []))
      → Complaint base
          (codes "illegal Traffic Generator and VM under test target node names combination")
  rate :
      Unreadable base (codes "trafficGenPacketsPerSecond") parse_traffic_gen_packets_per_second
      → Complaint base (codes "invalid Traffic Generator Packets Per Second")
  duration :
      Unreadable base (codes "testDuration") parse_duration
      → Complaint base (codes "invalid Test Duration")
  bandwidth :
      Unreadable base (codes "portBandwidthGbps") parse_non_zero_positive_int
      → Complaint base (codes "invalid Port Bandwidth [Gbps]")
  verbosity :
      Unreadable base (codes "verbose") parse_bool
      → Complaint base (codes "invalid Verbose value [true|false]")

Blames-Complaint :
    (base : BaseConfig) (c : ConfigError) → Blames base c → Complaint base (message (error_of c))
unfolding message error_of
Blames-Complaint base invalid_network_attachment_definition_name b = no_network b
Blames-Complaint base invalid_traffic_gen_container_disk_image b = no_traffic_gen_image b
Blames-Complaint base invalid_vm_under_test_container_disk_image b = no_vm_image b
Blames-Complaint base illegal_target_node_names_combination b = one_node b
Blames-Complaint base invalid_traffic_gen_packets_per_second b = rate b
Blames-Complaint base invalid_test_duration b = duration b
Blames-Complaint base invalid_port_bandwidth_gbps b = bandwidth b
Blames-Complaint base invalid_verbose b = verbosity b

-- The calls ahead of a launch, up to the first that fails, with the text of its error.
pub data Stops {K F R : Type 0} (p : Platform K F R) (raw_env : List (Bytes × Bytes))
    : Error ⊎ Bytes → Bytes → Type 0 where
  unnamed : {e : Error} → Stops p raw_env (inl e) (message e)
  no_cluster :
      {name : Bytes} {e : Error}
      → p.in_cluster_config ≡ inl e
      → Stops p raw_env (inr name) (message e)
  no_client :
      {name : Bytes} {config : K} {e : Error}
      → p.in_cluster_config ≡ inr config
      → p.connect config ≡ inl e
      → Stops p raw_env (inr name) (message e)
  unread :
      {name : Bytes} {config : K} {api : KubevirtClient} {e : Error}
      → p.in_cluster_config ≡ inr config
      → p.connect config ≡ inr api
      → p.read_config (record { kubevirt_client = api }) raw_env ≡ inl e
      → Stops p raw_env (inr name) (message e)
  misconfigured :
      {name : Bytes} {config : K} {api : KubevirtClient} {base : BaseConfig} {text : Bytes}
      → p.in_cluster_config ≡ inr config
      → p.connect config ≡ inr api
      → p.read_config (record { kubevirt_client = api }) raw_env ≡ inr base
      → Complaint base text
      → Stops p raw_env (inr name) text

sum-cases : {A B : Type 0} (x : A ⊎ B) → ((a : A) × (x ≡ inl a)) ⊎ ((b : B) × (x ≡ inr b))
sum-cases (inl a) = inl (a, refl)
sum-cases (inr b) = inr (b, refl)

checked-cases :
    (c : Checked Config)
    → ((e : ConfigError) × (c ≡ refused e)) ⊎ ((cfg : Config) × (c ≡ accepted cfg))
checked-cases (refused e) = inl (e, refl)
checked-cases (accepted cfg) = inr (cfg, refl)

module _ {K F R : Type 0} (p : Platform K F R) where
  Refused-Stops :
      (raw_env : List (Bytes × Bytes)) {namespace : Error ⊎ Bytes} {e : Error}
      → Refused p raw_env namespace e
      → Stops p raw_env namespace (message e)
  Refused-Stops raw_env no_namespace = unnamed
  Refused-Stops raw_env (outside_cluster a) = no_cluster a
  Refused-Stops raw_env (not_connected a b) = no_client a b
  Refused-Stops raw_env (not_read a b c) = unread a b c
  Refused-Stops raw_env (invalid {base = base} {c = e} a b c d) =
      misconfigured a b c (Blames-Complaint base e (new-Blames base p.random e d))

  -- The calls ahead of a launch fail, or the configuration is read.
  reading_cases :
      (raw_env : List (Bytes × Bytes)) (name : Bytes)
      → ((e : Error) × Refused p raw_env (inr name) e) ⊎ ((q : Prepared) × Reads p raw_env q)
  unfolding prepare Cluster.new
  reading_cases raw_env name = elim (sum-cases p.in_cluster_config) [
    | inl (e, a) ↦ inl (e, outside_cluster a)
    | inr (config, a) ↦ elim (sum-cases (p.connect config)) [
      | inl (e, b) ↦ inl (e, not_connected a b)
      | inr (api, b) ↦ elim (sum-cases (p.read_config (record { kubevirt_client = api }) raw_env)) [
        | inl (e, c) ↦ inl (e, not_read a b c)
        | inr (base, c) ↦ elim (checked-cases (Config.new base p.random)) [
          | inl (e, d) ↦ inl (error_of e, invalid a b c d)
          | inr (cfg, d) ↦
              let q : Prepared = record {
                client = record { kubevirt_client = api };
                base = base;
                cfg = cfg;
              } in
              inr (q, prepared-inv p raw_env q (rw (a, b, c, d)))
        ]
      ]
    ]
  ]

-- The text that the process ends with.
abbrev pub log_line : Bytes → Bytes
log_line text = codes "kubevirt-dpdk-checkup failed: " ++ (text ++ codes "\n")

-- How the process ends behind a launch with the result.
pub data Ends : Result (Unit {0}) → Exit → Type 0 where
  returns : Ends (ok tt) returned
  stops : {e : Error} → Ends (err e) (fatal (log_line (message e)))
  breaks : Ends panic panicked

exit_of-Ends : (r : Result (Unit {0})) → Ends r (exit_of r)
unfolding failed
exit_of-Ends (ok tt) = returns
exit_of-Ends (err e) = stops
exit_of-Ends panic = breaks

-- A process that stops ahead of the launch: with the text, and in the state that it began in.
abbrev pub Stopped : {R : Type 0} → Bytes → Surroundings R → Exit × Surroundings R → Type 0
Stopped text s (exit, t) = (exit ≡ fatal (log_line text)) × (t ≡ s)

-- A process that ends as the launch does.
abbrev pub Launched :
    {R : Type 0} → Result (Unit {0}) × Surroundings R → Exit × Surroundings R → Type 0
Launched (r, t) (exit, u) = Ends r exit × (u ≡ t)

module _ {K F R : Type 0} (p : Platform K F R) where
  main-Stopped :
      (env_to_map : List Bytes → List (Bytes × Bytes)) (environ : List Bytes)
      (namespace : Error ⊎ Bytes) (e : Error) (s : Surroundings R)
      → Refused p (env_to_map environ) namespace e
      → (text : Bytes) × Stops p (env_to_map environ) namespace text
        × Stopped text s (main p env_to_map environ namespace s)
  unfolding failed
  main-Stopped env_to_map environ namespace e s r =
      let q = main-Refused p env_to_map environ namespace e s r in
      (
        message e,
        Refused-Stops p (env_to_map environ) r,
        (ap (λ (x : Exit × Surroundings R). x.0) q, ap (λ (x : Exit × Surroundings R). x.1) q),
      )

  -- Every process either stops ahead of the launch or ends as the launch does. It stops with the
  -- text of the first error of reading the namespace, making the client, reading the configuration
  -- and its check, of which the last one's complains of a parameter that is missing, does not go
  -- with its counterpart or does not parse; then nothing was asked of the cluster by the checkup and
  -- nothing reported. Otherwise the configuration is valid, and the process returns, stops with the
  -- text of the launch's error, or panics, as the launch did.
  pub main_cases :
      (env_to_map : List Bytes → List (Bytes × Bytes)) (environ : List Bytes)
      (namespace : Error ⊎ Bytes) (s : Surroundings R)
      → ((text : Bytes) × Stops p (env_to_map environ) namespace text
          × Stopped text s (main p env_to_map environ namespace s))
        ⊎ ((q : Prepared) × (name : Bytes) × (namespace ≡ inr name)
            × Reads p (env_to_map environ) q
            × Launched (run_prepared p name q s) (main p env_to_map environ namespace s))
  unfolding main
  main_cases env_to_map environ (inl e) s =
      inl (main-Stopped env_to_map environ (inl e) e s no_namespace)
  main_cases env_to_map environ (inr name) s = elim (reading_cases p (env_to_map environ) name) [
    | inl (e, r) ↦ inl (main-Stopped env_to_map environ (inr name) e s r)
    | inr (q, r) ↦
        let same = run-Reads p (env_to_map environ) name q s r in
        inr (q, name, refl, r, (rw same (exit_of-Ends (run_prepared p name q s).0), rw same))
  ]
