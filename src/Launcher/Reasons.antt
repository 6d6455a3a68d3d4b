-- ===== src/Launcher/Reasons.antt =====
-- The error that a launch returns names every step that failed, in order, and no other.
use kubevirt_dpdk_checkup.Base.{
  ◌≡◌, ◌≢◌, refl, sym, ap, ◌∙◌, Option, some, List, [], ◌∷◌, ◌++◌, append_assoc, append-nil, Bytes,
}
use kubevirt_dpdk_checkup.Go.Error.{Error, message}
use kubevirt_dpdk_checkup.Go.Act.{Result, ok, err, panic}
use kubevirt_dpdk_checkup.Go.Context.{Context}
use kubevirt_dpdk_checkup.World.{from_error}
use kubevirt_dpdk_checkup.Status.{Status, zero_status}
use kubevirt_dpdk_checkup.Launcher.{
  Launcher, Running, failure_reason, noting, concluded, teardown_deferred, report_deferred,
  after_setup, checkup_run, launch,
}

-- The text that a step leaves if it fails.
abbrev pub failed : Result (Unit {0}) → List Bytes
failed (ok _) = []
failed (err e) = message e ∷ []
failed panic = []

module _ {W : Type 0} where
  noting-reasons :
      (r : Result (Unit {0})) (s : Running W)
      → (noting r s).1.status.failure_reason ≡ s.status.failure_reason ++ failed r
  noting-reasons (ok _) s = sym (append-nil _)
  noting-reasons (err e) s = refl
  noting-reasons panic s = sym (append-nil _)

  pub noting-world : (r : Result (Unit {0})) (s : Running W) → (noting r s).1.world ≡ s.world
  noting-world (ok _) s = refl
  noting-world (err e) s = refl
  noting-world panic s = refl

module _ {W : Type 0} (l : Launcher W) (ctx : Context) where
  -- The failures of a run and of the teardown behind it; the teardown follows in each case.
  abbrev run_failures : W → List Bytes
  run_failures w =
      let (u, w₁) = l.run ctx w in let (v, w₂) = l.teardown ctx w₁ in failed u ++ failed v

  abbrev pub failures_after : Result (Unit {0}) → W → List Bytes
  failures_after (ok _) w = run_failures w
  failures_after (err e) w = message e ∷ []
  failures_after panic w = []

  -- The failures of a checkup's life: its setup's, or its run's and its teardown's.
  abbrev pub failures : W → List Bytes
  failures w = failures_after (l.setup ctx w).0 (l.setup ctx w).1

  teardown_deferred-reasons :
      (r : Result (Unit {0})) (s : Running W)
      → (teardown_deferred l ctx (r, s)).1.status.failure_reason
        ≡ s.status.failure_reason ++ failed (l.teardown ctx s.world).0
  unfolding teardown_deferred
  teardown_deferred-reasons r s = noting-reasons (l.teardown ctx s.world).0 _

  after_setup-reasons :
      (r : Result (Unit {0})) (s : Running W)
      → (after_setup l ctx r s).1.status.failure_reason
        ≡ s.status.failure_reason ++ failures_after r s.world
  after_setup-reasons (ok _) s =
      let (u, w) = l.run ctx s.world in
      teardown_deferred-reasons _ _
      ∙ ap
          (λ t.
            (noting u (record s { world = w })).1.status.failure_reason
            ++ failed (l.teardown ctx t).0)
          (noting-world u (record s { world = w }))
      ∙ ap (λ x. x ++ failed (l.teardown ctx w).0) (noting-reasons u (record s { world = w }))
      ∙ append_assoc s.status.failure_reason (failed (l.run ctx s.world).0)
          (failed (l.teardown ctx (l.run ctx s.world).1).0)
  after_setup-reasons (err e) s = refl
  after_setup-reasons panic s = sym (append-nil _)

  -- The status that is reported last carries the failures of the checkup's life.
  pub checkup_run-reasons :
      (s : Running W)
      → (checkup_run l ctx s).1.status.failure_reason ≡ s.status.failure_reason ++ failures s.world
  unfolding checkup_run
  checkup_run-reasons s = after_setup-reasons (l.setup ctx s.world).0 _

  -- The status that is reported first, and what the rest starts from.
  abbrev pub begun : W → Running W
  begun w =
      let status = record zero_status { start_timestamp = some (l.now w) } in
      record { status = status; world = (l.report status w).1 }

  -- Where the checkup's life ends, and what is reported then.
  abbrev pub ended : W → Running W
  ended w = (checkup_run l ctx (begun w)).1

  abbrev pub final_status : Running W → Status
  final_status s = record s.status {
    completion_timestamp = some (l.now s.world);
    results = l.results s.world;
  }

  abbrev pub final_report : W → Result (Unit {0}) × W
  final_report w = l.report (final_status (ended w)) (ended w).world

  concluded-told :
      (r t : Result (Unit {0})) (o : Option Error)
      → concluded r t o ≢ panic
      → concluded r t o ≡ from_error o
  concluded-told panic t o h = absurd (h refl)
  concluded-told (ok _) panic o h = absurd (h refl)
  concluded-told (err e) panic o h = absurd (h refl)
  concluded-told (ok _) (ok _) o h = refl
  concluded-told (ok _) (err e) o h = refl
  concluded-told (err e) (ok _) o h = refl
  concluded-told (err e) (err f) o h = refl

  report_deferred-told :
      (p : Result (Unit {0}) × Running W)
      → (report_deferred l ctx p).0 ≢ panic
      → (report_deferred l ctx p).0
        ≡ from_error (
            failure_reason
              (p.1.status.failure_reason ++ failed (l.report (final_status p.1) p.1.world).0))
  unfolding report_deferred
  report_deferred-told (r, s) h =
      let t = (l.report (final_status s) s.world).0 in
      let s' : Running W = record {
        status = final_status s;
        world = (l.report (final_status s) s.world).1;
      } in
      concluded-told r t (failure_reason (noting t s').1.status.failure_reason) h
      ∙ ap (λ x. from_error (failure_reason x)) (noting-reasons t s')

  pub launch-begun :
      (w : W)
      → (l.report (begun w).status w).0 ≡ ok tt
      → (launch l ctx w).0 ≡ (report_deferred l ctx (checkup_run l ctx (begun w))).0
  unfolding launch
  launch-begun w first = rw first

  pub launch-failures :
      (w : W)
      → (l.report (begun w).status w).0 ≡ ok tt
      → (launch l ctx w).0 ≢ panic
      → ((final_status (ended w)).failure_reason ≡ failures (begun w).world)
        × ((launch l ctx w).0
            ≡ from_error (failure_reason (failures (begun w).world ++ failed (final_report w).0)))
  launch-failures w first h =
      let reported = checkup_run-reasons (begun w) in
      (
        reported,
        launch-begun w first
            ∙ report_deferred-told (checkup_run l ctx (begun w)) (λ q. h (launch-begun w first ∙ q))
            ∙ ap (λ x. from_error (failure_reason (x ++ failed (final_report w).0))) reported,
      )
