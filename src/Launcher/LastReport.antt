-- ===== src/Launcher/LastReport.antt =====
-- The calls of a launch, and the status that is given to the reporter last, when every step passes
-- and when the run panics.
use kubevirt_dpdk_checkup.Base.{◌≡◌, ap, ◌∙◌, List, [], ◌∷◌}
use kubevirt_dpdk_checkup.Go.Act.{Result, ok, panic}
use kubevirt_dpdk_checkup.Go.Context.{Context}
use kubevirt_dpdk_checkup.Status.{Status}
use kubevirt_dpdk_checkup.Launcher.{
  Launcher, failure_reason, teardown_deferred, report_deferred, checkup_run, launch,
}
use kubevirt_dpdk_checkup.Launcher.Reasons.{begun}
use kubevirt_dpdk_checkup.Launcher.Passing.{Passed, passed_status, set_up, ran, torn_down}
use kubevirt_dpdk_checkup.Launcher.Protocol.{Event, reported, Logged, recording}
use kubevirt_dpdk_checkup.Launcher.Protocol as Protocol

-- The calls of a launch that reaches its end behind a run with the result: two reports with the
-- statuses that they are given, and between them the setup, the run and the teardown.
abbrev pub calls : Status → Status → Result (Unit {0}) → Result (Unit {0}) → List Event
calls first last run_result last_result =
    reported last last_result
    ∷ Protocol.torn_down (ok tt)
    ∷ Protocol.run run_result
    ∷ Protocol.set_up (ok tt)
    ∷ reported first (ok tt)
    ∷ []

module _ {W : Type 0} (l : Launcher W) (ctx : Context) where
  -- What a launch leaves behind when it reaches the last report.
  launch-passed :
      (w : W)
      → Passed l ctx w
      → (launch l ctx w).1 ≡ (l.report (passed_status l ctx w) (torn_down l ctx w).1).1
  unfolding launch checkup_run teardown_deferred report_deferred failure_reason
  launch-passed w p = rw (p.begins, p.sets_up, p.runs, p.tears_down)

  pub launch-panicked :
      (w : W)
      → (l.report (begun l ctx w).status w).0 ≡ ok tt
      → (set_up l ctx w).0 ≡ ok tt
      → (ran l ctx w).0 ≡ panic
      → (torn_down l ctx w).0 ≡ ok tt
      → ((launch l ctx w).0 ≡ panic)
        × ((launch l ctx w).1 ≡ (l.report (passed_status l ctx w) (torn_down l ctx w).1).1)
  unfolding launch checkup_run teardown_deferred report_deferred failure_reason
  launch-panicked w b s p t = (rw (b, s, p, t), rw (b, s, p, t))

module _ {W : Type 0} (l : Launcher W) (ctx : Context) where
  -- The calls of a launch, as a launcher with a log records them, the latest first.
  abbrev pub calls_of : W → List Event
  calls_of w = (launch (recording l) ctx (record { world = w; log = [] })).1.log

  same_calls :
      {first last : Status} {a b c d e : Result (Unit {0})}
      → a ≡ ok tt
      → b ≡ ok tt
      → d ≡ ok tt
      → ◌≡◌ {A = List Event}
          (reported last e
            ∷ Protocol.torn_down d
            ∷ Protocol.run c
            ∷ Protocol.set_up b
            ∷ reported first a
            ∷ [])
          (calls first last c e)
  same_calls h k m = rw (h, k, m)

  abbrev unlogged : W → Logged W
  unlogged w = record { world = w; log = [] }

  pub calls_of-passed :
      (w : W)
      → Passed l ctx w
      → calls_of w ≡ calls (begun l ctx w).status (passed_status l ctx w) (ok tt) (ok tt)
  calls_of-passed w p =
      ap (λ (s : Logged W). s.log)
        (launch-passed (recording l) ctx (unlogged w) (record {
          begins = p.begins;
          sets_up = p.sets_up;
          runs = p.runs;
          tears_down = p.tears_down;
          reports = p.reports;
        }))
      ∙ same_calls p.begins p.sets_up p.tears_down
      ∙ λ i. calls (begun l ctx w).status (passed_status l ctx w) (p.runs i) (p.reports i)

  -- Behind a run that panicked the teardown and the report follow, and the panic goes on.
  pub calls_of-panicked :
      (w : W)
      → (l.report (begun l ctx w).status w).0 ≡ ok tt
      → (set_up l ctx w).0 ≡ ok tt
      → (ran l ctx w).0 ≡ panic
      → (torn_down l ctx w).0 ≡ ok tt
      → calls_of w
        ≡ calls
            (begun l ctx w).status
            (passed_status l ctx w)
            panic
            (l.report (passed_status l ctx w) (torn_down l ctx w).1).0
  calls_of-panicked w b s p t =
      ap (λ (s : Logged W). s.log) (launch-panicked (recording l) ctx (unlogged w) b s p t).1
      ∙ same_calls b s t
      ∙ λ i.
          calls (begun l ctx w).status (passed_status l ctx w) (p i)
            (l.report (passed_status l ctx w) (torn_down l ctx w).1).0
