-- ===== src/Checkup/Tests.antt =====
-- The checkup's theorems at a concrete cluster and configuration.
use kubevirt_dpdk_checkup.Base.{◌≡◌, ◌↔◌, arith}
use kubevirt_dpdk_checkup.Go.Act.{ok}
use kubevirt_dpdk_checkup.Go.Context.{background}
use kubevirt_dpdk_checkup.World.Poll.{rounds}
use kubevirt_dpdk_checkup.Checkup.Frame.{undeleted}
use kubevirt_dpdk_checkup.Checkup.State.{new_checkup}
use kubevirt_dpdk_checkup.Checkup.Instances.{new_vmi_under_test, new_traffic_gen}
use kubevirt_dpdk_checkup.Checkup.Lifecycle.{setup, run, teardown, verdict}
use kubevirt_dpdk_checkup.Checkup.Outcome.{Fresh, Outcome}
use kubevirt_dpdk_checkup.Checkup.Cleanup.{setup-Outcome, created_by}
use kubevirt_dpdk_checkup.Checkup.Deletion.{TornDown, teardown-TornDown}
use kubevirt_dpdk_checkup.Checkup.Verdict.{Judged, Clean, verdict_iff, run-Judged, executed}
use kubevirt_dpdk_checkup.Checkup.Samples.{
  cluster, cluster-KeepsNames, cluster-Serves, cluster-Deletes, start, passing, clean_results,
}
use kubevirt_dpdk_checkup.Checkup.Progress.{setup-succeeds}
use kubevirt_dpdk_checkup.Checkup.Removal.{teardown-succeeds}

start-Fresh : Fresh start
unfolding undeleted new_checkup new_vmi_under_test new_traffic_gen
start-Fresh = record { vm = tt; tg = tt; different = λ q. ground arith }

setup-Outcome_example :
    Outcome start.checkup
      (created_by start)
      (undeleted start.history)
      (setup cluster (rounds 3) background start)
setup-Outcome_example =
    setup-Outcome cluster (rounds 3) cluster-KeepsNames background start start-Fresh

teardown-TornDown_example :
    TornDown cluster background start (teardown cluster (rounds 3) background start)
teardown-TornDown_example = teardown-TornDown cluster (rounds 3) background start

run-Judged_example :
    Judged start.checkup (executed passing background start).0 (run passing background start)
run-Judged_example = run-Judged passing background start

verdict_iff_example : (verdict clean_results ≡ ok tt) ↔ Clean clean_results
verdict_iff_example = verdict_iff clean_results

setup-succeeds_example : (setup cluster (rounds 0) background start).0 ≡ ok tt
setup-succeeds_example = setup-succeeds cluster 0 cluster-Serves background start

teardown-succeeds_example : (teardown cluster (rounds 0) background start).0 ≡ ok tt
teardown-succeeds_example = teardown-succeeds cluster 0 cluster-Deletes background start
