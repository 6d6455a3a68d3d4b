-- ===== src/Main/Exit.antt =====
-- How the process ends, and what it leaves behind.
use kubevirt_dpdk_checkup.Base.{◌≡◌, refl, ap, ◌∙◌, arith, ◌⊎◌, inl, inr, List, Bytes, ◌↔◌}
use kubevirt_dpdk_checkup.Go.Error.{Error}
use mathlib.Core.Path.{subst}
use kubevirt_dpdk_checkup.Go.Act.{Result, ok, err, panic, and_then-inv, Result-cases}
use kubevirt_dpdk_checkup.World.{from_answer, from_answer-ok}
use kubevirt_dpdk_checkup.Cluster.{Client, KubevirtClient, Consoles, env_of, client_of, connected}
use kubevirt_dpdk_checkup.Cluster
use kubevirt_dpdk_checkup.Config.{
  BaseConfig, Config, ConfigError, Checked, accepted, refused, Random, initial_config, error_of,
}
use kubevirt_dpdk_checkup.Config
use kubevirt_dpdk_checkup.Config.Valid.{Mandatory, Options, SameMandatory, new_iff}
use kubevirt_dpdk_checkup.Checkup.Frame.{undeleted}
use kubevirt_dpdk_checkup.Checkup.Readiness.{KeepsNames}
use kubevirt_dpdk_checkup.Launcher.Passing.{Passed, launch_iff}
use kubevirt_dpdk_checkup.Main.NoLeak.{Unused}
use kubevirt_dpdk_checkup.Main.Program.{program, program-no_leak}
use kubevirt_dpdk_checkup.Main.Entry.{
  Platform, Surroundings, Prepared, checked, prepare, start_of, deadline, run_prepared, run,
  returned, failed, exit_of, main,
}

-- A configuration that `Run` reads without an error.
pub record Reads {K F R : Type 0} (p : Platform K F R) (raw_env : List (Bytes × Bytes))
    (q : Prepared) : Type 0 where
  pub config : K
  pub in_cluster : p.in_cluster_config ≡ inr config
  pub connects : p.connect config ≡ inr q.client.kubevirt_client
  pub read : p.read_config q.client raw_env ≡ inr q.base
  pub mandatory : Mandatory q.cfg
  pub options : Options q.base q.cfg
  pub same : SameMandatory q.cfg (initial_config q.base p.random)

-- Each client that is made returns an instance under the name that was asked for.
pub record NamesKept {K F R : Type 0} (p : Platform K F R) : Type 0 where
  pub kept :
      (config : K) (api : KubevirtClient)
      → p.connect config ≡ inr api
      → KeepsNames (env_of (record { kubevirt_client = api }) p.consoles)

-- The first of the calls ahead of a launch that fails, with its error.
pub data Refused {K F R : Type 0} (p : Platform K F R) (raw_env : List (Bytes × Bytes))
    : Error ⊎ Bytes → Error → Type 0 where
  no_namespace : {e : Error} → Refused p raw_env (inl e) e
  outside_cluster :
      {namespace : Bytes} {e : Error}
      → p.in_cluster_config ≡ inl e
      → Refused p raw_env (inr namespace) e
  not_connected :
      {namespace : Bytes} {config : K} {e : Error}
      → p.in_cluster_config ≡ inr config
      → p.connect config ≡ inl e
      → Refused p raw_env (inr namespace) e
  not_read :
      {namespace : Bytes} {config : K} {api : KubevirtClient} {e : Error}
      → p.in_cluster_config ≡ inr config
      → p.connect config ≡ inr api
      → p.read_config (record { kubevirt_client = api }) raw_env ≡ inl e
      → Refused p raw_env (inr namespace) e
  invalid :
      {namespace : Bytes} {config : K} {api : KubevirtClient} {base : BaseConfig} {c : ConfigError}
      → p.in_cluster_config ≡ inr config
      → p.connect config ≡ inr api
      → p.read_config (record { kubevirt_client = api }) raw_env ≡ inr base
      → Config.new base p.random ≡ refused c
      → Refused p raw_env (inr namespace) (error_of c)

exit_of-returned : (r : Result (Unit {0})) → (exit_of r ≡ returned) ↔ (r ≡ ok tt)
unfolding failed
exit_of-returned (ok tt) = (λ h. refl, λ h. refl)
exit_of-returned (err e) = (λ h. cc, λ h. cc)
exit_of-returned panic = (λ h. cc, λ h. cc)

connected-inv :
    {K : Type 0} (connect : K → Error ⊎ KubevirtClient) (a : Error ⊎ K) (c : Client)
    → connected connect a ≡ ok c
    → (config : K) × (a ≡ inr config) × (connect config ≡ inr c.kubevirt_client)
connected-inv connect (inl e) c h = cc
connected-inv connect (inr config) c h = (config, refl, client_of-inv (connect config) c h)
  where
    client_of-inv :
        (k : Error ⊎ KubevirtClient) (c : Client) → client_of k ≡ ok c → k ≡ inr c.kubevirt_client
    client_of-inv (inl e) c h = cc
    client_of-inv (inr k) c h = ground arith

inr-injective : {x y : Bytes} → ◌≡◌ {A = Error ⊎ Bytes} (inr x) (inr y) → x ≡ y
inr-injective h = cc

err-ne_ok : (e : Error) → err e ≡ ok (tt {0}) → ⊥
err-ne_ok e h = cc

panic-ne_ok : panic ≡ ok (tt {0}) → ⊥
panic-ne_ok h = cc

checked-inv : (c : Checked Config) (cfg : Config) → checked c ≡ ok cfg → c ≡ accepted cfg
checked-inv (accepted c) cfg h = ground arith
checked-inv (refused e) cfg h = cc

module _ {K F R : Type 0} (p : Platform K F R) where
  prepare-err :
      (raw_env : List (Bytes × Bytes)) (namespace : Bytes) (e : Error) (s : Surroundings R)
      → prepare p raw_env ≡ err e
      → run p raw_env namespace s ≡ (err e, s)
  unfolding run
  prepare-err raw_env namespace e s h = rw h

  prepare-Reads :
      (raw_env : List (Bytes × Bytes)) (q : Prepared) → Reads p raw_env q → prepare p raw_env ≡ ok q
  unfolding prepare Cluster.new
  prepare-Reads raw_env q r = rw (
    r.in_cluster,
    r.connects,
    r.read,
    (new_iff q.base p.random q.cfg).1 (r.mandatory, r.options, r.same),
  )

  pub prepared-inv :
      (raw_env : List (Bytes × Bytes)) (q : Prepared) → prepare p raw_env ≡ ok q → Reads p raw_env q
  unfolding prepare Cluster.new
  prepared-inv raw_env q h =
      let (c, connects, h₁) = and_then-inv (Cluster.new p.in_cluster_config p.connect) _ q h in
      let (base, reads, h₂) = and_then-inv (from_answer (p.read_config c raw_env)) _ q h₁ in
      let (cfg, checks, h₃) = and_then-inv (checked (Config.new base p.random)) _ q h₂ in
      let (config, in_cluster, connected) =
        connected-inv p.connect p.in_cluster_config c (unfold Cluster.new in connects) in
      let (mandatory, options, same) =
        (new_iff base p.random cfg).0 (checked-inv (Config.new base p.random) cfg checks) in
      let same_q : record { client = c; base = base; cfg = cfg } ≡ q = cc in
      subst (λ q. Reads p raw_env q) same_q
        (record {
          config = config;
          in_cluster = in_cluster;
          connects = connected;
          read = from_answer-ok _ base reads;
          mandatory = mandatory;
          options = options;
          same = same;
        })

  -- The calls that passed to the launch.
  pub run-Reads :
      (raw_env : List (Bytes × Bytes)) (namespace : Bytes) (q : Prepared) (s : Surroundings R)
      → Reads p raw_env q
      → run p raw_env namespace s ≡ run_prepared p namespace q s
  unfolding run
  run-Reads raw_env namespace q s r = rw (prepare-Reads raw_env q r)

  -- An error ahead of the launch ends the process with the text of this error, and nothing was
  -- asked of the cluster and nothing reported.
  pub main-Refused :
      (env_to_map : List Bytes → List (Bytes × Bytes)) (environ : List Bytes)
      (namespace : Error ⊎ Bytes) (e : Error) (s : Surroundings R)
      → Refused p (env_to_map environ) namespace e
      → main p env_to_map environ namespace s ≡ (failed e, s)
  unfolding main run prepare Cluster.new
  main-Refused env_to_map environ namespace e s no_namespace = refl
  main-Refused env_to_map environ namespace e s (outside_cluster a) = rw a
  main-Refused env_to_map environ namespace e s (not_connected a b) = rw (a, b)
  main-Refused env_to_map environ namespace e s (not_read a b c) = rw (a, b, c)
  main-Refused env_to_map environ namespace e s (invalid a b c d) = rw (a, b, c, d)

  -- Whatever the calls ahead of a launch return, the instances are those from before, if those of
  -- the launch are.
  run-restores :
      (raw_env : List (Bytes × Bytes)) (namespace : Bytes) (s : Surroundings R)
      → ((q : Prepared)
          → prepare p raw_env ≡ ok q
          → undeleted (run_prepared p namespace q s).1.history ≡ undeleted s.history)
      → undeleted (run p raw_env namespace s).1.history ≡ undeleted s.history
  unfolding run
  run-restores raw_env namespace s h = elim (Result-cases (prepare p raw_env)) [
    | inl (q, e) ↦ rw e (h q e)
    | inr (inl (x, e)) ↦ rw e
    | inr (inr e) ↦ rw e
  ]

  prepared-no_leak :
      (namespace : Bytes) (q : Prepared) (s : Surroundings R)
      → KeepsNames (env_of q.client p.consoles)
      → Unused p.suffix s.history
      → undeleted (run_prepared p namespace q s).1.history ≡ undeleted s.history
  unfolding run_prepared
  prepared-no_leak namespace q s k u =
      program-no_leak (env_of q.client p.consoles) p.poller p.outside
        (p.store q.base.config_map_namespace q.base.config_map_name) p.now k (deadline p q)
        namespace p.suffix q.cfg s.history s.reporter u

  -- However the process ends, if the clients that are made return an instance under the name that
  -- was asked for and no undeleted instance has a name that the checkup draws: the undeleted
  -- instances at the end are those from before.
  pub main-no_leak :
      (env_to_map : List Bytes → List (Bytes × Bytes)) (environ : List Bytes)
      (namespace : Error ⊎ Bytes) (s : Surroundings R)
      → NamesKept p
      → Unused p.suffix s.history
      → undeleted (main p env_to_map environ namespace s).1.history ≡ undeleted s.history
  unfolding main
  main-no_leak env_to_map environ (inl e) s k u = refl
  main-no_leak env_to_map environ (inr namespace) s k u =
      run-restores (env_to_map environ) namespace s (λ q h.
        let r = prepared-inv (env_to_map environ) q h in
        prepared-no_leak namespace q s (k.kept r.config _ r.connects) u)

-- A process that succeeds: the namespace and a valid configuration are read, and every step of the
-- launch of the program succeeds.
pub record Succeeds {K F R : Type 0} (p : Platform K F R) (raw_env : List (Bytes × Bytes))
    (namespace_file : Error ⊎ Bytes) (s : Surroundings R) : Type 0 where
  pub namespace : Bytes
  pub named : namespace_file ≡ inr namespace
  pub prepared : Prepared
  pub reads : Reads p raw_env prepared
  pub passes :
      Passed
        (program
          (env_of prepared.client p.consoles)
          p.poller
          p.outside
          (p.store prepared.base.config_map_namespace prepared.base.config_map_name)
          p.now
          namespace
          prepared.cfg)
        (deadline p prepared)
        (start_of p namespace prepared s)

module _ {K F R : Type 0} (p : Platform K F R) where
  run_prepared_iff :
      (namespace : Bytes) (q : Prepared) (s : Surroundings R)
      → ((run_prepared p namespace q s).0 ≡ ok tt)
        ↔ Passed
            (program
              (env_of q.client p.consoles)
              p.poller
              p.outside
              (p.store q.base.config_map_namespace q.base.config_map_name)
              p.now
              namespace
              q.cfg)
            (deadline p q)
            (start_of p namespace q s)
  unfolding run_prepared
  run_prepared_iff namespace q s =
      launch_iff
        (program (env_of q.client p.consoles) p.poller p.outside
          (p.store q.base.config_map_namespace q.base.config_map_name) p.now namespace q.cfg)
        (deadline p q) (start_of p namespace q s)

  run-prepared :
      (raw_env : List (Bytes × Bytes)) (namespace : Bytes) (s : Surroundings R)
      → (run p raw_env namespace s).0 ≡ ok tt
      → (q : Prepared) × (prepare p raw_env ≡ ok q) × ((run_prepared p namespace q s).0 ≡ ok tt)
  unfolding run
  run-prepared raw_env namespace s h = elim (Result-cases (prepare p raw_env)) [
    | inl (q, e) ↦ (q, e, rw e at h)
    | inr (inl (x, e)) ↦ absurd (err-ne_ok x (rw e at h))
    | inr (inr e) ↦ absurd (panic-ne_ok (rw e at h))
  ]

  -- The process returns from `main` exactly if the file with the namespace is read, the client is
  -- made, the configuration is read, its mandatory parameters are given and its optional ones parse,
  -- and the first report, the setup, the run, the teardown and the last report of the program with
  -- this configuration all succeed.
  pub main_iff :
      (env_to_map : List Bytes → List (Bytes × Bytes)) (environ : List Bytes)
      (namespace : Error ⊎ Bytes) (s : Surroundings R)
      → ((main p env_to_map environ namespace s).0 ≡ returned)
        ↔ Succeeds p (env_to_map environ) namespace s
  unfolding main failed
  main_iff env_to_map environ (inl e) s = (λ h. cc, λ t. cc (t.named))
  main_iff env_to_map environ (inr namespace) s = (
    λ h.
        let raw_env = env_to_map environ in
        let (q, e, passes) =
          run-prepared raw_env namespace s ((exit_of-returned (run p raw_env namespace s).0).0 h) in
        record {
          namespace = namespace;
          named = refl;
          prepared = q;
          reads = prepared-inv p raw_env q e;
          passes = (run_prepared_iff namespace q s).0 passes;
        },
    λ t.
        let same : namespace ≡ t.namespace = inr-injective t.named in
        (exit_of-returned (run p (env_to_map environ) namespace s).0).1 (
          rw same (
            ap (λ (x : Result (Unit {0}) × Surroundings R). x.0)
              (run-Reads p (env_to_map environ) t.namespace t.prepared s t.reads)
            ∙ (run_prepared_iff t.namespace t.prepared s).1 t.passes)),
  )
