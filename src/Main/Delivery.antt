-- ===== src/Main/Delivery.antt =====
-- The execution behind a process that succeeds: cmd/main.go down to executor.go.
use kubevirt_dpdk_checkup.Base.{ℕ, ◌≡◌, ◌≢◌, refl, ◌∙◌, arith, ◌⊎◌, List, Bytes, pos, ◌-64◌}
use mathlib.Core.Path.{subst}
use kubevirt_dpdk_checkup.Go.Error.{Error}
use kubevirt_dpdk_checkup.Go.Act.{Act, ok}
use kubevirt_dpdk_checkup.Go.Context.{Context}
use kubevirt_dpdk_checkup.World.{Env, History}
use kubevirt_dpdk_checkup.World.Poll.{Poller}
use kubevirt_dpdk_checkup.Cluster.{env_of}
use kubevirt_dpdk_checkup.Config.{Config}
use kubevirt_dpdk_checkup.Status.{Results}
use kubevirt_dpdk_checkup.Reporter.{Store}
use kubevirt_dpdk_checkup.Checkup.State.{State, new_checkup, vmi_under_test_name, traffic_gen_name}
use kubevirt_dpdk_checkup.Checkup.Instances.{new_vmi_under_test, new_traffic_gen}
use kubevirt_dpdk_checkup.Checkup.Readiness.{KeepsNames}
use kubevirt_dpdk_checkup.Checkup.Outcome.{Fresh}
use kubevirt_dpdk_checkup.Checkup.Cleanup.{setup-Outcome}
use kubevirt_dpdk_checkup.Checkup.Lifecycle.{setup, run}
use kubevirt_dpdk_checkup.Checkup.Verdict.{Clean, run-Judged}
use kubevirt_dpdk_checkup.Testpmd.{Statistics}
use kubevirt_dpdk_checkup.Trex.Types.{PortStats}
use kubevirt_dpdk_checkup.Executor.{Executor, totals, execute, new_executor}
use kubevirt_dpdk_checkup.Executor.Steps.{Executed, execute_iff}
use kubevirt_dpdk_checkup.Launcher.Passing.{Passed}
use kubevirt_dpdk_checkup.Main.{Whole}
use kubevirt_dpdk_checkup.Main.Program.{Outside, program}
use kubevirt_dpdk_checkup.Main.Entry.{Platform, Surroundings, Prepared, deadline, main, returned}
use kubevirt_dpdk_checkup.Main.Exit.{Reads, NamesKept, main_iff}
use kubevirt_dpdk_checkup.Main.NoLeak.{Unused}

-- The counters that were read: TRex sent packets and saw no error on either port, testpmd dropped
-- none, and those that it received, less those that are not of the test, are as many as were sent.
pub record Delivered {F : Type 0} (source dest : PortStats F) (stats : Statistics) : Type 0 where
  pub sent : source.result.opackets ≢ pos 0
  pub output_errors : source.result.oerrors ≡ pos 0
  pub input_errors : dest.result.ierrors ≡ pos 0
  pub rx_dropped : stats.summary.rx_dropped ≡ pos 0
  pub tx_dropped : stats.summary.tx_dropped ≡ pos 0
  pub received :
      source.result.opackets
      ≡ stats.summary.rx_total -64 stats.port0.tx_packets -64 stats.port1.rx_packets

-- The steps of an execution from a history on, and what its statistics tell.
pub record Told {F : Type 0} (env : Env) (poller : Poller) (outside : Outside F) (e : Executor)
    (ctx : Context) (vm_name tg_name : Bytes) (start : History) : Type 0 where
  pub results : Results
  pub end : History
  pub executed :
      Executed env poller outside.decoder outside.floats outside.seconds e ctx vm_name tg_name start
        results end
  pub delivered : Delivered executed.source executed.dest executed.stats

Delivered-of_Clean :
    {F : Type 0} (source dest : PortStats F) (stats : Statistics)
    → Clean (totals source dest stats)
    → Delivered source dest stats
unfolding totals
Delivered-of_Clean source dest stats c = record {
  sent = c.sent;
  output_errors = c.output_errors;
  input_errors = c.input_errors;
  rx_dropped = c.rx_dropped;
  tx_dropped = c.tx_dropped;
  received = c.all_received;
}

module _ {F : Type 0} (env : Env) (poller : Poller) (outside : Outside F) (e : Executor)
    (ctx : Context) where
  abbrev executing : Context → Bytes → Bytes → Act History Results
  executing = execute env poller outside.decoder outside.floats outside.seconds e

  -- A run of the checkup with the program's own executor that passes.
  run-Told :
      (s : State)
      → (run executing ctx s).0 ≡ ok tt
      → Told env poller outside e ctx s.checkup.vmi_under_test.name s.checkup.traffic_gen.name
          s.history
  run-Told s h =
      let vm = s.checkup.vmi_under_test.name in
      let tg = s.checkup.traffic_gen.name in
      let (x, returns, clean) = (run-Judged executing ctx s).passes.0 h in
      let end = (executing ctx vm tg s.history).1 in
      let p =
        (execute_iff env poller outside.decoder outside.floats outside.seconds e ctx vm tg s.history
            x end).0
          (λ i. (returns i, end)) in
      record {
        results = x;
        end = end;
        executed = p;
        delivered = Delivered-of_Clean p.source p.dest p.stats (subst Clean p.counts clean);
      }

-- The state that a launch of a new checkup starts in.
abbrev pub fresh_state : Bytes → Bytes → Config → History → State
fresh_state namespace suffix cfg h = record {
  checkup = new_checkup namespace cfg suffix;
  history = h;
}

fresh_state-Fresh :
    (namespace suffix : Bytes) (cfg : Config) (h : History)
    → Unused suffix h
    → Fresh (fresh_state namespace suffix cfg h)
unfolding new_checkup new_vmi_under_test new_traffic_gen
fresh_state-Fresh namespace suffix cfg h u = record {
  vm = u.vm;
  tg = u.tg;
  different = λ q. ground arith;
}

fresh_names :
    (namespace suffix : Bytes) (cfg : Config) (h : History)
    → let c = (fresh_state namespace suffix cfg h).checkup in
      (c.vmi_under_test.name ≡ vmi_under_test_name suffix)
      × (c.traffic_gen.name ≡ traffic_gen_name suffix)
unfolding new_checkup new_vmi_under_test new_traffic_gen
fresh_names namespace suffix cfg h = (refl, refl)

module _ {F R : Type 0} (env : Env) (poller : Poller) (outside : Outside F) (store : Store R)
    (now : Whole R → ℕ) (k : KeepsNames env) (ctx : Context) where
  -- A launch of the program in which every step succeeds.
  program-Told :
      (namespace suffix : Bytes) (cfg : Config) (h : History) (r : R)
      → Unused suffix h
      → Passed
          (program env poller outside store now namespace cfg)
          ctx
          (record { state = fresh_state namespace suffix cfg h; reporter = r })
      → Told env poller outside
          (new_executor namespace cfg)
          ctx
          (vmi_under_test_name suffix)
          (traffic_gen_name suffix)
          (setup env poller ctx (fresh_state namespace suffix cfg h)).1.history
  unfolding program
  program-Told namespace suffix cfg h r u p =
      let s = fresh_state namespace suffix cfg h in
      let o = setup-Outcome env poller k ctx s (fresh_state-Fresh namespace suffix cfg h u) in
      let (vm, tg) = fresh_names namespace suffix cfg h in
      rw (← (o.vm ∙ vm), ← (o.tg ∙ tg))
        (run-Told env poller outside (new_executor namespace cfg) ctx (setup env poller ctx s).1
          p.runs)

-- If the process returns from `main`, the clients that are made return an instance under the name
-- that was asked for, and no undeleted instance has a name that the checkup draws, then behind the
-- setup each step of an execution has succeeded on what the one before left, on the consoles of the
-- two instances that the setup made, and the counters that TRex and testpmd gave at its end tell
-- that packets were sent, none was dropped or in error, and as many were received as sent.
pub main-Told :
    {K F R : Type 0} (p : Platform K F R) (env_to_map : List Bytes → List (Bytes × Bytes))
    (environ : List Bytes) (namespace : Error ⊎ Bytes) (s : Surroundings R)
    → NamesKept p
    → Unused p.suffix s.history
    → (main p env_to_map environ namespace s).0 ≡ returned
    → (q : Prepared) × (name : Bytes) × Reads p (env_to_map environ) q
      × Told
          (env_of q.client p.consoles)
          p.poller
          p.outside
          (new_executor name q.cfg)
          (deadline p q)
          (vmi_under_test_name p.suffix)
          (traffic_gen_name p.suffix)
          (setup
            (env_of q.client p.consoles)
            p.poller
            (deadline p q)
            (fresh_state name p.suffix q.cfg s.history)).1.history
main-Told p env_to_map environ namespace s k u h =
    let t = (main_iff p env_to_map environ namespace s).0 h in
    let q = t.prepared in
    (
      q,
      t.namespace,
      t.reads,
      program-Told (env_of q.client p.consoles) p.poller p.outside
          (p.store q.base.config_map_namespace q.base.config_map_name) p.now
          (k.kept t.reads.config _ t.reads.connects) (deadline p q) t.namespace p.suffix q.cfg
          s.history s.reporter u t.passes,
    )
