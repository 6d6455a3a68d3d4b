-- ===== src/Launcher/Protocol.antt =====
-- The protocol of a launch: which calls of the checkup and of the reporter are made, in which order,
-- as a state machine that knows of each call only how it ended.
use kubevirt_dpdk_checkup.Base.{◌≡◌, refl, ap, ◌∙◌, List, [], ◌∷◌}
use kubevirt_dpdk_checkup.Go.Error.{Error}
use kubevirt_dpdk_checkup.Go.Act.{Act, Result, ok, err, panic}
use kubevirt_dpdk_checkup.Go.Context.{Context}
use kubevirt_dpdk_checkup.Status.{Status}
use kubevirt_dpdk_checkup.Launcher.{
  Launcher, Running, noting, deferred, concluded, failure_reason, teardown_deferred,
  report_deferred, after_setup, checkup_run, after_report, launch,
}
use kubevirt_dpdk_checkup.Launcher.Reasons.{noting-world, final_status}

-- A call, with its result, and a report with the status that it was given.
pub data Event : Type 0 where
  reported : Status → Result (Unit {0}) → Event
  set_up : Result (Unit {0}) → Event
  run : Result (Unit {0}) → Event
  torn_down : Result (Unit {0}) → Event

-- How far a launch is: nothing called; to be set up; to be run; to be torn down; to be reported last;
-- over.
pub data Phase : Type 0 where
  idle : Phase
  begun : Phase
  up : Phase
  used : Phase
  ending : Phase
  over : Phase

-- What a call may lead to. A run is followed by the teardown however it ended, a failed setup by the
-- last report, a failed first report by nothing.
pub data Step : Phase → Event → Phase → Type 0 where
  begins : {s : Status} → Step idle (reported s (ok tt)) begun
  refused : {s : Status} {e : Error} → Step idle (reported s (err e)) over
  broken : {s : Status} → Step idle (reported s panic) over
  sets_up : Step begun (set_up (ok tt)) up
  gives_up : {e : Error} → Step begun (set_up (err e)) ending
  breaks : Step begun (set_up panic) ending
  runs : {r : Result (Unit {0})} → Step up (run r) used
  tears_down : {r : Result (Unit {0})} → Step used (torn_down r) ending
  ends : {s : Status} {r : Result (Unit {0})} → Step ending (reported s r) over

-- A sequence of calls, the latest first, as a history.
pub data Trace (a : Phase) : List Event → Phase → Type 0 where
  start : Trace a [] a
  next :
      {b c : Phase} {e : Event} {es : List Event} → Trace a es b → Step b e c → Trace a (e ∷ es) c

-- A state with the calls that were made.
pub record Logged (W : Type 0) : Type 0 where
  pub world : W
  pub log : List Event

module _ {W : Type 0} where
  abbrev recorded : (Result (Unit {0}) → Event) → Act W (Unit {0}) → Act (Logged W) (Unit {0})
  recorded event m s = let (r, w) = m s.world in (r, record { world = w; log = event r ∷ s.log })

  -- The same launcher, with a log.
  abbrev pub recording : Launcher W → Launcher (Logged W)
  recording l = record {
    setup = λ ctx. recorded set_up (l.setup ctx);
    run = λ ctx. recorded run (l.run ctx);
    teardown = λ ctx. recorded torn_down (l.teardown ctx);
    results = λ s. l.results s.world;
    report = λ status. recorded (reported status) (l.report status);
    now = λ s. l.now s.world;
  }

  -- A result and a state, without the log.
  abbrev pub forgotten : Result (Unit {0}) × Logged W → Result (Unit {0}) × W
  forgotten (r, s) = (r, s.world)

module _ {W : Type 0} (l : Launcher W) (ctx : Context) where
  abbrev rl : Launcher (Logged W)
  rl = recording l

  -- The teardown behind a run.
  teardown_deferred-Trace :
      (r : Result (Unit {0})) (s : Running (Logged W))
      → Trace idle s.world.log used
      → Trace idle (teardown_deferred rl ctx (r, s)).1.world.log ending
  unfolding teardown_deferred
  teardown_deferred-Trace r s p =
      rw
        (noting-world (l.teardown ctx s.world.world).0
          (record s { world = (rl.teardown ctx s.world).1 }))
        (next p tears_down)

  after_setup-Trace :
      (r : Result (Unit {0})) (s : Running (Logged W)) (log : List Event)
      → Trace idle log begun
      → s.world.log ≡ set_up r ∷ log
      → Trace idle (after_setup rl ctx r s).1.world.log ending
  after_setup-Trace (ok tt) s log p e =
      let ran = rl.run ctx s.world in
      teardown_deferred-Trace (noting ran.0 (record s { world = ran.1 })).0 _
        (rw (noting-world ran.0 (record s { world = ran.1 }), e) (next (next p sets_up) runs))
  after_setup-Trace (err x) s log p e = rw e (next p gives_up)
  after_setup-Trace panic s log p e = rw e (next p breaks)

  checkup_run-Trace :
      (s : Running (Logged W))
      → Trace idle s.world.log begun
      → Trace idle (checkup_run rl ctx s).1.world.log ending
  unfolding checkup_run
  checkup_run-Trace s p = after_setup-Trace (l.setup ctx s.world.world).0 _ s.world.log p refl

  after_report-Trace :
      (status : Status) (r : Result (Unit {0})) (s : Running (Logged W)) (log : List Event)
      → Trace idle log idle
      → s.world.log ≡ reported status r ∷ log
      → Trace idle (after_report rl ctx r s).1.log over
  unfolding report_deferred
  after_report-Trace status (ok tt) s log p e =
      next (checkup_run-Trace s (rw e (next p begins))) ends
  after_report-Trace status (err x) s log p e = rw e (next p refused)
  after_report-Trace status panic s log p e = rw e (next p broken)

  launch-Trace : (w : W) → Trace idle (launch rl ctx (record { world = w; log = [] })).1.log over
  unfolding launch
  launch-Trace w = after_report-Trace _ (l.report _ w).0 _ [] start refl

  -- Without its log, a recorded launch is the launch.
  abbrev erased : Running (Logged W) → Running W
  erased s = record { status = s.status; world = s.world.world }

  noting-erased :
      (r : Result (Unit {0})) (s : Running (Logged W))
      → erased (noting r s).1 ≡ (noting r (erased s)).1
  noting-erased (ok _) s = refl
  noting-erased (err e) s = refl
  noting-erased panic s = refl

  abbrev passed_on : Result (Unit {0}) × Running (Logged W) → Result (Unit {0}) × Running W
  passed_on (r, s) = (r, erased s)

  noting-forgotten :
      (r : Result (Unit {0})) (s : Running (Logged W))
      → passed_on (noting r s) ≡ noting r (erased s)
  noting-forgotten (ok _) s = refl
  noting-forgotten (err e) s = refl
  noting-forgotten panic s = refl

  teardown_deferred-erased :
      (p : Result (Unit {0}) × Running (Logged W))
      → passed_on (teardown_deferred rl ctx p) ≡ teardown_deferred l ctx (passed_on p)
  unfolding teardown_deferred
  teardown_deferred-erased (r, s) =
      let t = l.teardown ctx s.world.world in
      ap (λ (u : Running W). (deferred r t.0, u))
        (noting-erased t.0 (record s { world = (rl.teardown ctx s.world).1 }))

  after_setup-erased :
      (r : Result (Unit {0})) (s : Running (Logged W))
      → passed_on (after_setup rl ctx r s) ≡ after_setup l ctx r (erased s)
  after_setup-erased (ok tt) s =
      let ran = rl.run ctx s.world in
      teardown_deferred-erased (noting ran.0 (record s { world = ran.1 }))
      ∙ ap (teardown_deferred l ctx) (noting-forgotten ran.0 (record s { world = ran.1 }))
  after_setup-erased (err e) s = refl
  after_setup-erased panic s = refl

  checkup_run-erased :
      (s : Running (Logged W)) → passed_on (checkup_run rl ctx s) ≡ checkup_run l ctx (erased s)
  unfolding checkup_run
  checkup_run-erased s = after_setup-erased (l.setup ctx s.world.world).0 _

  report_deferred-erased :
      (p : Result (Unit {0}) × Running (Logged W))
      → forgotten (report_deferred rl ctx p) ≡ report_deferred l ctx (passed_on p)
  unfolding report_deferred
  report_deferred-erased (r, s) =
      let status = final_status rl ctx s in
      let (t, w) = rl.report status s.world in
      ap (λ (u : Running W). (concluded r t (failure_reason u.status.failure_reason), w.world))
        (noting-erased t (record { status = status; world = w }))

  after_report-erased :
      (r : Result (Unit {0})) (s : Running (Logged W))
      → forgotten (after_report rl ctx r s) ≡ after_report l ctx r (erased s)
  after_report-erased (ok _) s =
      report_deferred-erased (checkup_run rl ctx s)
      ∙ ap (report_deferred l ctx) (checkup_run-erased s)
  after_report-erased (err e) s = refl
  after_report-erased panic s = refl

  launch-erased :
      (w : W) → forgotten (launch rl ctx (record { world = w; log = [] })) ≡ launch l ctx w
  unfolding launch
  launch-erased w = after_report-erased (l.report _ w).0 _

  -- The calls of a launch, as a launcher with a log records them, are a path of the protocol from
  -- its start to its end, whatever the calls return and also if one of them panics; and but for the
  -- log the recorded launch returns what the launch returns, and ends in the same state.
  pub launch-refines :
      (w : W)
      → let recorded_launch = launch rl ctx (record { world = w; log = [] }) in
        Trace idle recorded_launch.1.log over × (forgotten recorded_launch ≡ launch l ctx w)
  launch-refines w = (launch-Trace w, launch-erased w)
