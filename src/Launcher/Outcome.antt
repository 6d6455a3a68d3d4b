-- ===== src/Launcher/Outcome.antt =====
-- What a launch leaves behind, and when it returns no error.
use kubevirt_dpdk_checkup.Base.{◌≡◌, ◌≢◌, refl}
use kubevirt_dpdk_checkup.Go.Error.{Error}
use kubevirt_dpdk_checkup.Go.Act.{Result, ok, err, panic}
use kubevirt_dpdk_checkup.Go.Context.{Context}
use kubevirt_dpdk_checkup.Status.{Status}
use kubevirt_dpdk_checkup.Launcher.{
  Launcher, Running, noting, teardown_deferred, report_deferred, after_setup, checkup_run,
  after_report, launch,
}
use kubevirt_dpdk_checkup.Launcher.Reasons.{noting-world}

-- What the parts of a launcher owe each other: from `P`, a setup ends in `Q` or undoes what it did,
-- a run stays in `Q`, a teardown leads from `Q` back to `P`, and a report keeps `P`.
pub record Restores {W : Type 0} (P Q : W → Type 0) (l : Launcher W) (ctx : Context) : Type 0 where
  pub returns : (w : W) → P w → (l.setup ctx w).0 ≢ panic
  pub sets_up : (w : W) → P w → (l.setup ctx w).0 ≡ ok tt → Q (l.setup ctx w).1
  pub undoes : (w : W) (e : Error) → P w → (l.setup ctx w).0 ≡ err e → P (l.setup ctx w).1
  pub runs : (w : W) → Q w → Q (l.run ctx w).1
  pub tears_down : (w : W) → Q w → P (l.teardown ctx w).1
  pub reports : (status : Status) (w : W) → P w → P (l.report status w).1

module _ {W : Type 0} (P Q : W → Type 0) (l : Launcher W) (ctx : Context)
    (o : Restores P Q l ctx) where
  after_setup-restores :
      (r : Result (Unit {0})) (s : Running W)
      → r ≢ panic
      → (r ≡ ok tt → Q s.world)
      → ((e : Error) → r ≡ err e → P s.world)
      → P (after_setup l ctx r s).1.world
  unfolding teardown_deferred
  after_setup-restores (ok tt) s h q p =
      let (u, w) = l.run ctx s.world in
      rw
        (
          noting-world (l.teardown ctx (noting u (record s { world = w })).1.world).0 _,
          noting-world u (record s { world = w }),
        )
        (o.tears_down w (o.runs s.world (q refl)))
  after_setup-restores (err e) s h q p = p e refl
  after_setup-restores panic s h q p = absurd (h refl)

  checkup_run-restores : (s : Running W) → P s.world → P (checkup_run l ctx s).1.world
  unfolding checkup_run
  checkup_run-restores s p =
      after_setup-restores (l.setup ctx s.world).0 _ (o.returns s.world p) (o.sets_up s.world p)
        (λ e h. o.undoes s.world e p h)

  after_report-restores :
      (r : Result (Unit {0})) (s : Running W) → P s.world → P (after_report l ctx r s).1
  unfolding report_deferred
  after_report-restores (ok _) s p = o.reports _ _ (checkup_run-restores s p)
  after_report-restores (err e) s p = p
  after_report-restores panic s p = p

  -- If the launcher's parts meet these obligations, a launch that starts in `P` ends in `P`, also
  -- when a report, the setup, the run or the teardown fails, and when the run panics.
  pub launch-restores : (w : W) → P w → P (launch l ctx w).1
  unfolding launch
  launch-restores w p = after_report-restores _ _ (o.reports _ w p)
