-- ===== src/Main/Success.antt =====
-- What a launch that returns no error has found and reported.
use kubevirt_dpdk_checkup.Base.{ℕ, ◌≡◌, refl, sym, ap, ◌∙◌, true, [], Bytes}
use mathlib.Core.Path.{subst}
use kubevirt_dpdk_checkup.Go.Act.{Act, ok}
use kubevirt_dpdk_checkup.Go.Context.{Context}
use kubevirt_dpdk_checkup.World.{Env, History}
use kubevirt_dpdk_checkup.World.Poll.{Poller}
use kubevirt_dpdk_checkup.Status.{Results, Status}
use kubevirt_dpdk_checkup.Reporter.{Store, stored}
use kubevirt_dpdk_checkup.Checkup.State.{Checkup, State}
use kubevirt_dpdk_checkup.Checkup.Lifecycle.{run, teardown}
use kubevirt_dpdk_checkup.Checkup.Deletion.{teardown-TornDown}
use kubevirt_dpdk_checkup.Checkup.Verdict.{Clean, run-Judged, Clean-on_nodes}
use kubevirt_dpdk_checkup.Launcher.{launch}
use kubevirt_dpdk_checkup.Launcher.Reasons.{begun}
use kubevirt_dpdk_checkup.Launcher.Passing.{launch_iff, set_up, passed_status}
use kubevirt_dpdk_checkup.Launcher.LastReport.{calls_of, calls, calls_of-passed}
use kubevirt_dpdk_checkup.Main.{Whole, launcher}

module _ (env : Env) (poller : Poller) (execute : Context → Bytes → Bytes → Act History Results)
    (ctx : Context) where
  -- A run that passes, and the teardown behind it, leave clean results in the object.
  results-Clean :
      (s : State)
      → (run execute ctx s).0 ≡ ok tt
      → Clean (teardown env poller ctx (run execute ctx s).1).1.checkup.results
  results-Clean s h =
      let j = run-Judged execute ctx s in
      let (x, e, clean) = j.passes.0 h in
      let t = teardown-TornDown env poller ctx (run execute ctx s).1 in
      subst Clean (sym (ap (λ (c : Checkup). c.results) t.keeps ∙ j.stores x e))
        ((Clean-on_nodes s.checkup x).1 clean)

  -- If a launch returns no error, whatever the cluster and the executor did, then its calls, as a
  -- log records them, are a first report, the setup, the run, the teardown and a last report, all of
  -- which succeeded; by the results of the status that the last report was given, packets were sent
  -- and every one of them arrived, without a loss or an error; and this status, as a reporter with
  -- data stores it, is that of a success without a failure reason.
  pub success-Clean :
      {R : Type 0} (store : Store R) (now : Whole R → ℕ) (w : Whole R)
      → (launch (launcher env poller execute store now) ctx w).0 ≡ ok tt
      → (first : Status) × (last : Status) × (calls_of (launcher env poller execute store now) ctx w
          ≡ calls first last (ok tt) (ok tt))
        × Clean last.results
        × ((stored true last).succeeded ≡ true)
        × ((stored true last).failure_reason ≡ [])
  unfolding launcher stored
  success-Clean store now w h =
      let l = launcher env poller execute store now in
      let p = (launch_iff l ctx w).0 h in
      (
        (begun l ctx w).status,
        passed_status l ctx w,
        calls_of-passed l ctx w p,
        results-Clean (set_up l ctx w).1.state p.runs,
        refl,
        refl,
      )
