-- ===== src/Main/Entry.antt =====
-- pkg/mainflow.go and cmd/main.go: what is read before a launch, and how the process ends.
use kubevirt_dpdk_checkup.Base.{ℕ, ◌⊎◌, inl, inr, List, ◌++◌, Bytes, codes}
use kubevirt_dpdk_checkup.Go.Error.{Error, message}
use kubevirt_dpdk_checkup.Go.Act.{Act, Result, ok, err, panic, and_then, continue}
use kubevirt_dpdk_checkup.Go.Context.{Context, background, with_timeout}
use kubevirt_dpdk_checkup.World.{History, from_answer}
use kubevirt_dpdk_checkup.World.Poll.{Poller}
use kubevirt_dpdk_checkup.Cluster.{Client, KubevirtClient, Consoles, env_of}
use kubevirt_dpdk_checkup.Cluster
use kubevirt_dpdk_checkup.Config.{
  BaseConfig, Config, ConfigError, Checked, accepted, refused, Random, error_of,
}
use kubevirt_dpdk_checkup.Config
use kubevirt_dpdk_checkup.Reporter.{Store}
use kubevirt_dpdk_checkup.Checkup.State.{new_checkup}
use kubevirt_dpdk_checkup.Launcher.{launch}
use kubevirt_dpdk_checkup.Main.{Whole}
use kubevirt_dpdk_checkup.Main.Program.{Outside, program}

-- What `Run` calls of other packages: the configuration in the cluster, of a type `K`, and the
-- constructor of KubeVirt's client; kiagnose's reader of the configuration and its reporter; the
-- random source, the consoles, the poll of k8s.io/apimachinery and the clock.
pub record Platform (K F R : Type 0) : Type 1 where
  pub in_cluster_config : Error ⊎ K
  pub connect : K → Error ⊎ KubevirtClient
  pub read_config : Client → List (Bytes × Bytes) → Error ⊎ BaseConfig
  pub random : Random
  pub suffix : Bytes
  pub consoles : Consoles
  pub poller : Poller
  pub outside : Outside F
  pub store : Bytes → Bytes → Store R
  pub now : Whole R → ℕ

-- The calls that were made, and the reporter's state.
pub record Surroundings (R : Type 0) : Type 0 where
  pub history : History
  pub reporter : R

-- What a launch starts from.
pub record Prepared : Type 0 where
  pub client : Client
  pub base : BaseConfig
  pub cfg : Config

abbrev pub checked : Checked Config → Result Config
checked (accepted cfg) = ok cfg
checked (refused e) = err (error_of e)

module _ {K F R : Type 0} (p : Platform K F R) where
  -- The three calls of `Run` whose errors are returned before anything is done.
  unfoldable pub prepare : List (Bytes × Bytes) → Result Prepared
  unfolding Cluster.new Config.new error_of
  prepare raw_env = and_then (Cluster.new p.in_cluster_config p.connect) λ c.
      and_then (from_answer (p.read_config c raw_env)) λ base.
        and_then (checked (Config.new base p.random))
          λ cfg. ok (record { client = c; base = base; cfg = cfg })

  -- What the launch of `Run` starts in, and its context.
  abbrev pub start_of : Bytes → Prepared → Surroundings R → Whole R
  start_of namespace q s = record {
    state = record { checkup = new_checkup namespace q.cfg p.suffix; history = s.history };
    reporter = s.reporter;
  }

  abbrev pub deadline : Prepared → Context
  deadline q = with_timeout background (p.outside.seconds q.base.timeout)

  -- `Run` behind these calls.
  unfoldable pub run_prepared : Bytes → Prepared → Act (Surroundings R) (Unit {0})
  unfolding launch program new_checkup env_of
  run_prepared namespace q s =
      let store = p.store q.base.config_map_namespace q.base.config_map_name in
      let l = program (env_of q.client p.consoles) p.poller p.outside store p.now namespace q.cfg in
      let (r, w) = launch l (deadline q) (start_of namespace q s) in
      (r, record { history = w.state.history; reporter = w.reporter })

  -- `Run`.
  unfoldable pub run : List (Bytes × Bytes) → Bytes → Act (Surroundings R) (Unit {0})
  unfolding prepare run_prepared
  run raw_env namespace = continue (prepare raw_env) (run_prepared namespace)

-- How the process ends: with a return of `main`, with `log.Fatalf`, or with a panic.
pub data Exit : Type 0 where
  returned : Exit
  fatal : Bytes → Exit
  panicked : Exit

unfoldable pub failed : Error → Exit
unfolding message
failed e = fatal (codes "kubevirt-dpdk-checkup failed: " ++ (message e ++ codes "\n"))

abbrev pub exit_of : Result (Unit {0}) → Exit
exit_of (ok _) = returned
exit_of (err e) = failed e
exit_of panic = panicked

module _ {K F R : Type 0} (p : Platform K F R) where
  abbrev pub with_namespace :
      List (Bytes × Bytes) → Error ⊎ Bytes → Surroundings R → Exit × Surroundings R
  with_namespace raw_env (inl e) s = (failed e, s)
  with_namespace raw_env (inr namespace) s =
      let (r, t) = run p raw_env namespace s in (exit_of r, t)

  -- `main`, over kiagnose's `EnvToMap`, the process's environment, and the file with the namespace.
  unfoldable pub main :
      (List Bytes → List (Bytes × Bytes))
      → List Bytes
      → Error ⊎ Bytes
      → Surroundings R
      → Exit × Surroundings R
  unfolding run failed
  main env_to_map environ namespace = with_namespace (env_to_map environ) namespace
