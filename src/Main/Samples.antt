-- ===== src/Main/Samples.antt =====
-- A platform on which the whole program succeeds.
use kubevirt_dpdk_checkup.Base.{ℕ, suc, true, none, ◌⊎◌, inr, [], ◌≡◌, refl, codes, arith}
use kubevirt_dpdk_checkup.Go.Error.{Error}
use kubevirt_dpdk_checkup.Go.Act.{ok}
use kubevirt_dpdk_checkup.Go.Context.{Context}
use kubevirt_dpdk_checkup.World.{Env}
use kubevirt_dpdk_checkup.World.Poll.{rounds}
use kubevirt_dpdk_checkup.Cluster.{KubevirtClient, env_of}
use kubevirt_dpdk_checkup.Config
use kubevirt_dpdk_checkup.Config.{accepted}
use kubevirt_dpdk_checkup.Config.Valid.{new_iff}
use kubevirt_dpdk_checkup.Config.Samples.{cfg, base, random}
use kubevirt_dpdk_checkup.Config.Parse.{parse_non_zero_positive_int}
use kubevirt_dpdk_checkup.Config.Mac.{generate_mac_address}
use kubevirt_dpdk_checkup.Go.Strconv.{parse_bool}
use kubevirt_dpdk_checkup.Reporter.{Store, report}
use kubevirt_dpdk_checkup.Checkup.State.{State, new_checkup}
use kubevirt_dpdk_checkup.Checkup.Instances.{new_vmi_under_test, new_traffic_gen}
use kubevirt_dpdk_checkup.Checkup.Frame.{undeleted}
use kubevirt_dpdk_checkup.Checkup.Lifecycle.{setup, run}
use kubevirt_dpdk_checkup.Checkup.Cleanup.{setup-Outcome}
use kubevirt_dpdk_checkup.Checkup.Verdict.{Clean, run-Judged}
use kubevirt_dpdk_checkup.Checkup.Progress.{Serves, setup-succeeds}
use kubevirt_dpdk_checkup.Checkup.Removal.{Deletes, teardown-succeeds}
use kubevirt_dpdk_checkup.Checkup.Samples.{
  cluster, cluster-KeepsNames, Serves-of_answers, Deletes-of_answers,
}
use kubevirt_dpdk_checkup.Executor.{execute}
use kubevirt_dpdk_checkup.Executor.Samples.{
  answers, decoder, floats, executor, all_received, execution_passes, vm_name, tg_name,
}
use kubevirt_dpdk_checkup.Launcher.Passing.{Passed}
use kubevirt_dpdk_checkup.Main.NoLeak.{Unused}
use kubevirt_dpdk_checkup.Main.Program.{Outside, program}
use kubevirt_dpdk_checkup.Main.Entry.{
  Platform, Surroundings, Prepared, deadline, start_of, main, returned,
}
use kubevirt_dpdk_checkup.Main.Exit.{NamesKept, Reads, main_iff}

-- A reporter that counts its reports.
abbrev pub counting : Store ℕ
counting = record { has_data = λ n. true; report = λ status n. (ok tt, suc n) }

pub abcde-Unused : Unused (codes "abcde") []
unfolding undeleted
abcde-Unused = record { vm = tt; tg = tt }

abbrev pub outside : Outside ℕ
outside = record { decoder = decoder; floats = floats; seconds = λ d. 300 }

-- A client on a cluster in which every request succeeds.
abbrev pub api : KubevirtClient
api = record {
  virtual_machine_instance = λ ns. record {
    create = λ h ctx vmi. cluster.create_vmi h ctx ns vmi;
    get = λ h ctx name. cluster.get_vmi h ctx ns name;
    delete = λ h ctx name. cluster.delete_vmi h ctx ns name;
    serial_console = λ h name options. none;
  };
  config_maps = λ ns. record {
    create = λ h ctx m. cluster.create_config_map h ctx ns m;
    delete = λ h ctx name. cluster.delete_config_map h ctx ns name;
  };
}

-- A platform whose only configuration leads to this client, and whose consoles answer.
abbrev pub platform : Platform ℕ ℕ ℕ
platform = record {
  in_cluster_config = inr 0;
  connect = λ config. inr api;
  read_config = λ c raw_env. inr base;
  random = random;
  suffix = codes "abcde";
  consoles = record {
    spawn = λ h name. none;
    send_text = λ h name text. none;
    expect_batch = answers;
  };
  poller = rounds 1;
  outside = outside;
  store = λ namespace name. counting;
  now = λ w. w.reporter;
}

pub platform-NamesKept : NamesKept platform
unfolding env_of
platform-NamesKept = record {
  kept = λ config a e. record {
    named = λ h ctx ns name v q. cluster-KeepsNames.named h ctx ns name v (rw (← (api_of e)) at q);
  };
}
  where
    api_of : {a : KubevirtClient} → ◌≡◌ {A = Error ⊎ KubevirtClient} (inr api) (inr a) → api ≡ a
    api_of e = cc

abbrev pub nothing_done : Surroundings ℕ
nothing_done = record { history = []; reporter = 0 }

base_accepted : Config.new base random ≡ accepted cfg
unfolding Config.new Config.param parse_non_zero_positive_int parse_bool generate_mac_address
base_accepted = refl

abbrev prepared : Prepared
prepared = record { client = record { kubevirt_client = api }; base = base; cfg = cfg }

base-Reads : Reads platform [] prepared
base-Reads =
    let (mandatory, options, same) = (new_iff base random cfg).0 base_accepted in
    record {
      config = 0;
      in_cluster = refl;
      connects = refl;
      read = refl;
      mandatory = mandatory;
      options = options;
      same = same;
    }

all_received-Clean : Clean all_received
all_received-Clean = record {
  sent = λ q. ground arith;
  output_errors = refl;
  input_errors = refl;
  rx_dropped = refl;
  tx_dropped = refl;
  all_received = refl;
}

abbrev env : Env
env = env_of (record { kubevirt_client = api }) platform.consoles

env-Serves : Serves env 1
unfolding env_of
env-Serves =
    Serves-of_answers env (λ h ctx ns m. refl) (λ h ctx ns vmi. refl) (λ h ctx ns name. refl)
      (λ h ctx ns name. refl) (λ h ctx ns name. refl) 1

env-Deletes : Deletes env 1
unfolding env_of
env-Deletes =
    Deletes-of_answers env (λ h ctx ns m. refl) (λ h ctx ns vmi. refl) (λ h ctx ns name. refl)
      (λ h ctx ns name. refl) (λ h ctx ns name. refl) 1

-- The names of the instances, behind the setup.
abbrev begun_at : State
begun_at = (start_of platform (codes "ns") prepared nothing_done).state

names_kept :
    (ctx : Context)
    → let c = (setup env (rounds 1) ctx begun_at).1.checkup in
      (c.vmi_under_test.name ≡ vm_name) × (c.traffic_gen.name ≡ tg_name)
unfolding new_checkup new_vmi_under_test new_traffic_gen
names_kept ctx =
    let o =
      setup-Outcome env (rounds 1) (platform-NamesKept.kept 0 api refl) ctx begun_at
        (record { vm = abcde-Unused.vm; tg = abcde-Unused.tg; different = λ q. ground arith }) in
    (o.vm, o.tg)

run_passes :
    (ctx : Context) (s : State)
    → s.checkup.vmi_under_test.name ≡ vm_name
    → s.checkup.traffic_gen.name ≡ tg_name
    → (run (execute env (rounds 1) decoder floats (λ d. 300) executor) ctx s).0 ≡ ok tt
run_passes ctx s v g =
    (run-Judged (execute env (rounds 1) decoder floats (λ d. 300) executor) ctx s).passes.1 (
      all_received,
      rw (v, g) (unfold env_of in execution_passes ctx s.history),
      all_received-Clean,
    )

program_passes :
    Passed
      (program env (rounds 1) outside counting platform.now (codes "ns") cfg)
      (deadline platform prepared)
      (start_of platform (codes "ns") prepared nothing_done)
unfolding program report
program_passes =
    let ctx = deadline platform prepared in
    let (vm, tg) = names_kept ctx in
    record {
      begins = refl;
      sets_up = setup-succeeds env 1 env-Serves ctx begun_at;
      runs = run_passes ctx (setup env (rounds 1) ctx begun_at).1 vm tg;
      tears_down = teardown-succeeds env 1 env-Deletes ctx _;
      reports = refl;
    }

-- The whole program succeeds.
pub process_succeeds : (main platform (λ env. []) [] (inr (codes "ns")) nothing_done).0 ≡ returned
process_succeeds = (main_iff platform (λ env. []) [] (inr (codes "ns")) nothing_done).1 (record {
  namespace = codes "ns";
  named = refl;
  prepared = prepared;
  reads = base-Reads;
  passes = program_passes;
})
