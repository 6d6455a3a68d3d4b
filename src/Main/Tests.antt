-- ===== src/Main/Tests.antt =====
-- The whole program at a concrete cluster.
use kubevirt_dpdk_checkup.Base.{ℕ, suc, ◌≡◌, ◌↔◌, refl, true, [], codes, arith}
use kubevirt_dpdk_checkup.Go.Act.{Result, ok, err, panic}
use kubevirt_dpdk_checkup.Go.Error.{new}
use kubevirt_dpdk_checkup.Go.Context.{background}
use kubevirt_dpdk_checkup.World.Poll.{rounds}
use kubevirt_dpdk_checkup.Config.Samples.{cfg}
use kubevirt_dpdk_checkup.Executor.Samples.{talking}
use kubevirt_dpdk_checkup.Main.Samples.{counting, abcde-Unused, outside}
use kubevirt_dpdk_checkup.Status.{Status, empty_results}
use kubevirt_dpdk_checkup.Reporter.{stored}
use kubevirt_dpdk_checkup.Checkup.State.{new_checkup}
use kubevirt_dpdk_checkup.Checkup.Frame.{undeleted}
use kubevirt_dpdk_checkup.Checkup.Verdict.{Clean}
use kubevirt_dpdk_checkup.Checkup.Samples.{
  cluster, cluster-KeepsNames, cluster-Serves, cluster-Deletes, start, passing, clean_results,
}
use kubevirt_dpdk_checkup.Main.{Whole, launcher}
use kubevirt_dpdk_checkup.Main.Liveness.{Executes, launch-succeeds}
use kubevirt_dpdk_checkup.Main.Success.{success-Clean}
use kubevirt_dpdk_checkup.Launcher.{Launcher, launch, failure_reason}
use kubevirt_dpdk_checkup.Launcher.Protocol.{
  Trace, idle, over, recording, forgotten, launch-refines,
}
use kubevirt_dpdk_checkup.Launcher.Passing.{launch_iff, Passed}
use kubevirt_dpdk_checkup.Launcher.LastReport.{calls_of, calls}
use kubevirt_dpdk_checkup.Main.Panic.{panic-succeeded}
use kubevirt_dpdk_checkup.Main.Program.{program, program-no_leak}
use kubevirt_dpdk_checkup.Checkup.Readiness.{KeepsNames}

-- A checkup whose run fails and whose steps count.
abbrev failing : Launcher ℕ
failing = record {
  setup = λ ctx n. (ok tt, suc n);
  run = λ ctx n. (err (new (codes "lost packets")), suc n);
  teardown = λ ctx n. (ok tt, suc n);
  results = λ n. empty_results;
  report = λ status n. (ok tt, suc n);
  now = λ n. n;
}

launch_iff_example : ((launch failing background 0).0 ≡ ok tt) ↔ Passed failing background 0
launch_iff_example = launch_iff failing background 0

-- The same with a run that panics.
abbrev panicking : Launcher ℕ
panicking = record failing { run = λ ctx n. (panic, suc n) }

panic-succeeded_example :
    (first : Status) × (last : Status) × (end : Result (Unit {0})) × ((launch panicking background
        0).0
      ≡ panic)
    × (calls_of panicking background 0 ≡ calls first last panic end)
    × ((stored true last).succeeded ≡ true)
    × ((stored true last).failure_reason ≡ [])
panic-succeeded_example = panic-succeeded panicking background 0 refl refl refl refl

talking-KeepsNames : KeepsNames talking
talking-KeepsNames = record { named = cluster-KeepsNames.named }

program-no_leak_example :
    undeleted
      (launch
        (program talking (rounds 3) outside counting (λ w. w.reporter) (codes "ns") cfg)
        background
        (record {
          state = record { checkup = new_checkup (codes "ns") cfg (codes "abcde"); history = [] };
          reporter = 0;
        })).1.state.history
    ≡ undeleted []
program-no_leak_example =
    program-no_leak talking (rounds 3) outside counting (λ w. w.reporter) talking-KeepsNames
      background (codes "ns") (codes "abcde") cfg [] 0 abcde-Unused

launch-refines_example :
    Trace idle (launch (recording failing) background (record { world = 0; log = [] })).1.log over
    × (forgotten (launch (recording failing) background (record { world = 0; log = [] }))
        ≡ launch failing background 0)
launch-refines_example = launch-refines failing background 0

-- A launch without a loss.
abbrev whole : Whole ℕ
whole = record { state = start; reporter = 0 }

abbrev passes : Launcher (Whole ℕ)
passes = launcher cluster (rounds 0) passing counting (λ w. w.reporter)

passing-Executes : Executes passing
passing-Executes = record {
  results = λ ctx vm tg h. (
    clean_results,
    refl,
    record {
      sent = λ q. ground arith;
      output_errors = refl;
      input_errors = refl;
      rx_dropped = refl;
      tx_dropped = refl;
      all_received = refl;
    },
  );
}

whole-succeeds : (launch passes background whole).0 ≡ ok tt
whole-succeeds =
    launch-succeeds cluster 0 passing counting (λ w. w.reporter) cluster-Serves cluster-Deletes
      passing-Executes (record { stored = λ status r. refl }) background whole

launch-succeeds_example : (launch passes background whole).0 ≡ ok tt
launch-succeeds_example =
    launch-succeeds cluster 0 passing counting (λ w. w.reporter) cluster-Serves cluster-Deletes
      passing-Executes (record { stored = λ status r. refl }) background whole

success-Clean_example :
    (first : Status) × (last : Status) × (calls_of passes background whole
      ≡ calls first last (ok tt) (ok tt))
    × Clean last.results
    × ((stored true last).succeeded ≡ true)
    × ((stored true last).failure_reason ≡ [])
success-Clean_example =
    success-Clean cluster (rounds 0) passing background counting (λ w. w.reporter) whole
      whole-succeeds
