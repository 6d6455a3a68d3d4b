-- ===== src/Launcher.antt =====
-- pkg/internal/launcher/launcher.go: the order of a checkup's life, and the status that is reported
-- before and after it.
pub mod Outcome
pub mod Reasons
pub mod Passing
pub mod Protocol
pub mod LastReport
use kubevirt_dpdk_checkup.Base.{ℕ, Bool, Option, none, some, List, [], ◌∷◌, ◌++◌, Bytes, codes}
use kubevirt_dpdk_checkup.Go.Error.{Error, new, message}
use kubevirt_dpdk_checkup.Go.Act.{Act, Result, ok, err, panic}
use kubevirt_dpdk_checkup.Go.Context.{Context}
use kubevirt_dpdk_checkup.Go.Strings.{join}
use kubevirt_dpdk_checkup.World.{from_error}
use kubevirt_dpdk_checkup.Status.{Results, Status, zero_status}

-- The interfaces `checkup` and `reporter`, and the clock, over the state `W` that they act on.
pub record Launcher (W : Type 0) : Type 0 where
  pub setup : Context → Act W (Unit {0})
  pub run : Context → Act W (Unit {0})
  pub teardown : Context → Act W (Unit {0})
  pub results : W → Results
  pub report : Status → Act W (Unit {0})
  pub now : W → ℕ

-- The interfaces as they are.
pub record CheckupMethods (W : Type 0) : Type 0 where
  pub setup : Context → Act W (Unit {0})
  pub run : Context → Act W (Unit {0})
  pub teardown : Context → Act W (Unit {0})
  pub results : W → Results

pub record ReporterMethods (W : Type 0) : Type 0 where
  pub report : Status → Act W (Unit {0})

-- `New`, with the clock.
abbrev pub new_launcher : {W : Type 0} → CheckupMethods W → ReporterMethods W → (W → ℕ) → Launcher W
new_launcher checkup reporter now = record {
  setup = checkup.setup;
  run = checkup.run;
  teardown = checkup.teardown;
  results = checkup.results;
  report = reporter.report;
  now = now;
}

-- The variable `runStatus` that the deferred functions capture, beside the state.
pub record Running (W : Type 0) : Type 0 where
  pub status : Status
  pub world : W

-- `failureReason`.
unfoldable pub failure_reason : List Bytes → Option Error
failure_reason [] = none
failure_reason (e ∷ es) = some (new (join (codes ", ") (e ∷ es)))

-- What a deferred function that does not set the result leaves of it: a panic goes on.
abbrev pub deferred : Result (Unit {0}) → Result (Unit {0}) → Result (Unit {0})
deferred r (ok _) = r
deferred r (err e) = r
deferred r panic = panic

-- What the assignment to the named result leaves: a panic goes on.
abbrev pub concluded : Result (Unit {0}) → Result (Unit {0}) → Option Error → Result (Unit {0})
concluded panic t o = panic
concluded r panic o = panic
concluded r (ok _) o = from_error o
concluded r (err e) o = from_error o

module _ {W : Type 0} where
  -- `runStatus.FailureReason = append(runStatus.FailureReason, err.Error())`.
  abbrev note : Error → Running W → Running W
  note e s = record s {
    status = record s.status { failure_reason = s.status.failure_reason ++ (message e ∷ []) };
  }

  -- A call whose error is noted and returned.
  abbrev pub noting : Result (Unit {0}) → Running W → Result (Unit {0}) × Running W
  noting (ok _) s = (ok tt, s)
  noting (err e) s = (err e, note e s)
  noting panic s = (panic, s)

module _ {W : Type 0} (l : Launcher W) (ctx : Context) where
  -- The deferred teardown, behind a setup that succeeded.
  unfoldable pub teardown_deferred : Result (Unit {0}) × Running W → Result (Unit {0}) × Running W
  teardown_deferred (r, s) =
      let (t, w) = l.teardown ctx s.world in
      let (_, s') = noting t (record s { world = w }) in (deferred r t, s')

  -- The deferred final report.
  unfoldable pub report_deferred : Result (Unit {0}) × Running W → Result (Unit {0}) × W
  unfolding failure_reason
  report_deferred (r, s) =
      let status = record s.status {
        completion_timestamp = some (l.now s.world);
        results = l.results s.world;
      } in
      let (t, w) = l.report status s.world in
      let (_, s') = noting t (record { status = status; world = w }) in
      (concluded r t (failure_reason s'.status.failure_reason), w)

  -- Behind a setup: the run, and the deferred teardown.
  abbrev pub after_setup : Result (Unit {0}) → Running W → Result (Unit {0}) × Running W
  after_setup (ok _) s =
      let (r, w) = l.run ctx s.world in teardown_deferred (noting r (record s { world = w }))
  after_setup (err e) s = (err e, note e s)
  after_setup panic s = (panic, s)

  -- Behind the first report.
  unfoldable pub checkup_run : Running W → Result (Unit {0}) × Running W
  unfolding teardown_deferred
  checkup_run s = let (r, w) = l.setup ctx s.world in after_setup r (record s { world = w })

  abbrev pub after_report : Result (Unit {0}) → Running W → Result (Unit {0}) × W
  after_report (ok _) s = report_deferred (checkup_run s)
  after_report (err e) s = (err e, s.world)
  after_report panic s = (panic, s.world)

  -- `Run`.
  unfoldable pub launch : W → Result (Unit {0}) × W
  unfolding checkup_run report_deferred
  launch w =
      let status = record zero_status { start_timestamp = some (l.now w) } in
      let (r, w') = l.report status w in after_report r (record { status = status; world = w' })
