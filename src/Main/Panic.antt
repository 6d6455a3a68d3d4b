-- ===== src/Main/Panic.antt =====
-- What is reported when the run of a checkup panics.
use kubevirt_dpdk_checkup.Base.{◌≡◌, refl, true, []}
use kubevirt_dpdk_checkup.Go.Act.{Result, ok, panic}
use kubevirt_dpdk_checkup.Go.Context.{Context}
use kubevirt_dpdk_checkup.Status.{Status}
use kubevirt_dpdk_checkup.Reporter.{stored}
use kubevirt_dpdk_checkup.Launcher.{Launcher, launch}
use kubevirt_dpdk_checkup.Launcher.Reasons.{begun}
use kubevirt_dpdk_checkup.Launcher.Passing.{set_up, ran, torn_down, passed_status}
use kubevirt_dpdk_checkup.Launcher.LastReport.{calls_of, calls, launch-panicked, calls_of-panicked}

module _ {W : Type 0} (l : Launcher W) (ctx : Context) where
  -- A panic of the run is not among the failure reasons: if the first report, the setup and the
  -- teardown behind the panic succeed, then the launch panics too, and its calls, as a log records
  -- them, end with a report behind the teardown; the status that this report is given, as a reporter
  -- with data stores it, is that of a success, with no failure reason.
  pub panic-succeeded :
      (w : W)
      → (l.report (begun l ctx w).status w).0 ≡ ok tt
      → (set_up l ctx w).0 ≡ ok tt
      → (ran l ctx w).0 ≡ panic
      → (torn_down l ctx w).0 ≡ ok tt
      → (first : Status) × (last : Status) × (end : Result (Unit {0})) × ((launch l ctx w).0
          ≡ panic)
        × (calls_of l ctx w ≡ calls first last panic end)
        × ((stored true last).succeeded ≡ true)
        × ((stored true last).failure_reason ≡ [])
  unfolding stored
  panic-succeeded w b s p t = (
    (begun l ctx w).status,
    passed_status l ctx w,
    (l.report (passed_status l ctx w) (torn_down l ctx w).1).0,
    (launch-panicked l ctx w b s p t).0,
    calls_of-panicked l ctx w b s p t,
    refl,
    refl,
  )
