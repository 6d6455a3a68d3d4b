-- ===== src/Main/Liveness.antt =====
-- A launch on a cluster that serves its requests, with an execution that passes, succeeds.
use kubevirt_dpdk_checkup.Base.{ℕ, ◌≡◌, Bytes}
use kubevirt_dpdk_checkup.Go.Act.{Act, ok}
use kubevirt_dpdk_checkup.Go.Context.{Context}
use kubevirt_dpdk_checkup.World.{Env, History}
use kubevirt_dpdk_checkup.World.Poll.{rounds}
use kubevirt_dpdk_checkup.Status.{Results}
use kubevirt_dpdk_checkup.Reporter.{Store, StoredStatus, report}
use kubevirt_dpdk_checkup.Checkup.State.{State}
use kubevirt_dpdk_checkup.Checkup.Lifecycle.{run}
use kubevirt_dpdk_checkup.Checkup.Verdict.{Clean, run-Judged}
use kubevirt_dpdk_checkup.Checkup.Progress.{Serves, setup-succeeds}
use kubevirt_dpdk_checkup.Checkup.Removal.{Deletes, teardown-succeeds}
use kubevirt_dpdk_checkup.Launcher.{launch}
use kubevirt_dpdk_checkup.Launcher.Passing.{launch_iff}
use kubevirt_dpdk_checkup.Main.{Whole, launcher}

-- Each execution returns results without a loss.
pub record Executes (execute : Context → Bytes → Bytes → Act History Results) : Type 0 where
  pub results :
      (ctx : Context) (vm tg : Bytes) (h : History)
      → (x : Results) × ((execute ctx vm tg h).0 ≡ ok x) × Clean x

-- Each status is stored.
pub record Stores {R : Type 0} (store : Store R) : Type 0 where
  pub stored : (status : StoredStatus) (r : R) → (store.report status r).0 ≡ ok tt

run-passes :
    (execute : Context → Bytes → Bytes → Act History Results)
    → Executes execute
    → (ctx : Context) (s : State) → (run execute ctx s).0 ≡ ok tt
run-passes execute executes ctx s =
    (run-Judged execute ctx s).passes.1
      (executes.results ctx s.checkup.vmi_under_test.name s.checkup.traffic_gen.name s.history)

-- If the cluster creates what it is asked for and accepts each deletion, each undeleted instance is
-- ready and each other one is gone within `n` reads, each execution returns results without a loss
-- and each status is stored, then a launch with a poll of `n` more tries returns no error, from any
-- state.
pub launch-succeeds :
    {R : Type 0} (env : Env) (n : ℕ) (execute : Context → Bytes → Bytes → Act History Results)
    (store : Store R) (now : Whole R → ℕ)
    → Serves env n
    → Deletes env n
    → Executes execute
    → Stores store
    → (ctx : Context) (w : Whole R)
    → (launch (launcher env (rounds n) execute store now) ctx w).0 ≡ ok tt
unfolding launcher report
launch-succeeds env n execute store now serves deletes executes stores ctx w =
    (launch_iff (launcher env (rounds n) execute store now) ctx w).1 (record {
      begins = stores.stored _ _;
      sets_up = setup-succeeds env n serves ctx _;
      runs = run-passes execute executes ctx _;
      tears_down = teardown-succeeds env n deletes ctx _;
      reports = stores.stored _ _;
    })
