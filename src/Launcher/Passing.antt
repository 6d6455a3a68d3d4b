-- ===== src/Launcher/Passing.antt =====
-- A launch returns no error exactly if every step of it succeeds.
use kubevirt_dpdk_checkup.Base.{
  ◌≡◌, ◌≢◌, refl, sym, ap, ◌∙◌, Option, some, ◌⊎◌, inl, inr, List, [], ◌∷◌, append-empty, Bytes,
  ◌↔◌,
}
use kubevirt_dpdk_checkup.Go.Error.{Error}
use kubevirt_dpdk_checkup.Go.Act.{Result, ok, err, panic}
use kubevirt_dpdk_checkup.Go.Context.{Context}
use kubevirt_dpdk_checkup.World.{from_error}
use kubevirt_dpdk_checkup.Status.{Status, zero_status}
use kubevirt_dpdk_checkup.Launcher.{
  Launcher, Running, failure_reason, noting, deferred, concluded, teardown_deferred,
  report_deferred, after_setup, checkup_run, after_report, launch,
}
use kubevirt_dpdk_checkup.Launcher.Reasons.{
  begun, ended, final_report, launch-failures, failed, final_status, failures, failures_after,
  noting-world, launch-begun,
}

deferred-panic : (r t : Result (Unit {0})) → r ≡ panic → deferred r t ≡ panic
deferred-panic r (ok _) h = h
deferred-panic r (err e) h = h
deferred-panic r panic h = refl

concluded-panic :
    (r t : Result (Unit {0})) (o : Option Error)
    → (r ≡ panic) ⊎ (t ≡ panic)
    → concluded r t o ≡ panic
concluded-panic (ok _) t o (inl h) = cc
concluded-panic (err e) t o (inl h) = cc
concluded-panic panic t o h = refl
concluded-panic (ok _) t o (inr h) = rw h
concluded-panic (err e) t o (inr h) = rw h

-- A step that left no text and did not panic succeeded.
quiet : (r : Result (Unit {0})) → failed r ≡ [] → r ≢ panic → r ≡ ok tt
quiet (ok tt) h n = refl
quiet (err e) h n = cc
quiet panic h n = absurd (n refl)

ok-ne_panic : ok (tt {0}) ≡ panic → ⊥
ok-ne_panic h = cc

no_reason : (es : List Bytes) → from_error (failure_reason es) ≡ ok tt → es ≡ []
unfolding failure_reason
no_reason [] h = refl
no_reason (e ∷ es) h = cc

module _ {W : Type 0} (l : Launcher W) (ctx : Context) where
  -- The states between the steps of a launch.
  abbrev pub set_up : W → Result (Unit {0}) × W
  set_up w = l.setup ctx (begun l ctx w).world

  abbrev pub ran : W → Result (Unit {0}) × W
  ran w = l.run ctx (set_up w).1

  abbrev pub torn_down : W → Result (Unit {0}) × W
  torn_down w = l.teardown ctx (ran w).1

  -- What is reported last if nothing failed before.
  abbrev pub passed_status : W → Status
  passed_status w = record zero_status {
    start_timestamp = some (l.now w);
    completion_timestamp = some (l.now (torn_down w).1);
    results = l.results (torn_down w).1;
  }

  -- Both reports, the setup, the run and the teardown succeed.
  pub record Passed (w : W) : Type 0 where
    pub begins : (l.report (begun l ctx w).status w).0 ≡ ok tt
    pub sets_up : (set_up w).0 ≡ ok tt
    pub runs : (ran w).0 ≡ ok tt
    pub tears_down : (torn_down w).0 ≡ ok tt
    pub reports : (l.report (passed_status w) (torn_down w).1).0 ≡ ok tt

  launch-Passed : (w : W) → Passed w → (launch l ctx w).0 ≡ ok tt
  unfolding launch checkup_run teardown_deferred report_deferred failure_reason
  launch-Passed w p = rw (p.begins, p.sets_up, p.runs, p.tears_down, p.reports)

  report_deferred-panic :
      (p : Result (Unit {0}) × Running W) → p.0 ≡ panic → (report_deferred l ctx p).0 ≡ panic
  unfolding report_deferred
  report_deferred-panic (r, s) h = concluded-panic r _ _ (inl h)

  final-panic :
      (p : Result (Unit {0}) × Running W)
      → (l.report (final_status l ctx p.1) p.1.world).0 ≡ panic
      → (report_deferred l ctx p).0 ≡ panic
  unfolding report_deferred
  final-panic (r, s) h = concluded-panic r _ _ (inr h)

  after_report-ok :
      (r : Result (Unit {0})) (s : Running W) → (after_report l ctx r s).0 ≡ ok tt → r ≡ ok tt
  after_report-ok (ok tt) s h = refl
  after_report-ok (err e) s h = cc
  after_report-ok panic s h = cc

  launch-begins :
      (w : W) → (launch l ctx w).0 ≡ ok tt → (l.report (begun l ctx w).status w).0 ≡ ok tt
  unfolding launch
  launch-begins w h = after_report-ok _ _ h

  after_setup-panic :
      (r : Result (Unit {0})) (s : Running W) → r ≡ panic → (after_setup l ctx r s).0 ≡ panic
  after_setup-panic (ok _) s h = cc
  after_setup-panic (err e) s h = cc
  after_setup-panic panic s h = refl

  noting-result : (r : Result (Unit {0})) (s : Running W) → (noting r s).0 ≡ r
  noting-result (ok tt) s = refl
  noting-result (err e) s = refl
  noting-result panic s = refl

  -- Behind a setup that succeeded, a panic of the run or of the teardown goes on.
  run-panic :
      (s : Running W) → (l.run ctx s.world).0 ≡ panic → (after_setup l ctx (ok tt) s).0 ≡ panic
  unfolding teardown_deferred
  run-panic s h = deferred-panic _ _ (noting-result (l.run ctx s.world).0 _ ∙ h)

  teardown-panic :
      (s : Running W)
      → (l.teardown ctx (l.run ctx s.world).1).0 ≡ panic
      → (after_setup l ctx (ok tt) s).0 ≡ panic
  unfolding teardown_deferred
  teardown-panic s h =
      rw (noting-world (l.run ctx s.world).0 (record s { world = (l.run ctx s.world).1 }), h)

  -- The steps behind the first report, if the launch did not panic and nothing failed.
  after_setup-ok :
      (r : Result (Unit {0})) (s : Running W)
      → (after_setup l ctx r s).0 ≢ panic
      → failures_after l ctx r s.world ≡ []
      → (r ≡ ok tt)
        × ((l.run ctx s.world).0 ≡ ok tt)
        × ((l.teardown ctx (l.run ctx s.world).1).0 ≡ ok tt)
  after_setup-ok (ok tt) s n h =
      let (a, b) = append-empty (failed (l.run ctx s.world).0) _ h in
      (
        refl,
        quiet (l.run ctx s.world).0 a (λ q. n (run-panic s q)),
        quiet (l.teardown ctx (l.run ctx s.world).1).0 b (λ q. n (teardown-panic s q)),
      )
  after_setup-ok (err e) s n h = cc
  after_setup-ok panic s n h = absurd (n refl)

  checkup_run-ok :
      (s : Running W)
      → (checkup_run l ctx s).0 ≢ panic
      → failures l ctx s.world ≡ []
      → ((l.setup ctx s.world).0 ≡ ok tt)
        × ((l.run ctx (l.setup ctx s.world).1).0 ≡ ok tt)
        × ((l.teardown ctx (l.run ctx (l.setup ctx s.world).1).1).0 ≡ ok tt)
  unfolding checkup_run
  checkup_run-ok s n h = after_setup-ok (l.setup ctx s.world).0 _ n h

  after_setup-passed :
      (r : Result (Unit {0})) (s : Running W)
      → r ≡ ok tt
      → (l.run ctx s.world).0 ≡ ok tt
      → (l.teardown ctx (l.run ctx s.world).1).0 ≡ ok tt
      → (after_setup l ctx r s).1 ≡ record s { world = (l.teardown ctx (l.run ctx s.world).1).1 }
  unfolding teardown_deferred
  after_setup-passed (ok tt) s h r t = rw (r, t)
  after_setup-passed (err e) s h r t = cc
  after_setup-passed panic s h r t = cc

  pub ended-passed :
      (w : W)
      → (set_up w).0 ≡ ok tt
      → (ran w).0 ≡ ok tt
      → (torn_down w).0 ≡ ok tt
      → ended l ctx w ≡ record {
        status = record zero_status { start_timestamp = some (l.now w) };
        world = (torn_down w).1;
      }
  unfolding checkup_run
  ended-passed w s r t = after_setup-passed (set_up w).0 _ s r t

  Passed-launch : (w : W) → (launch l ctx w).0 ≡ ok tt → Passed w
  Passed-launch w h =
      let begins = launch-begins w h in
      let told = (launch-failures l ctx w begins (λ q. cc)).1 in
      let back = launch-begun l ctx w begins in
      let (none_failed, last) =
        append-empty (failures l ctx (begun l ctx w).world) _ (no_reason _ (sym told ∙ h)) in
      let (s, r, t) =
        checkup_run-ok (begun l ctx w)
          (λ q.
            ok-ne_panic
              (sym h ∙ back ∙ report_deferred-panic (checkup_run l ctx (begun l ctx w)) q))
          none_failed in
      let reported =
        quiet (final_report l ctx w).0 last
          (λ q. ok-ne_panic (sym h ∙ back ∙ final-panic (checkup_run l ctx (begun l ctx w)) q)) in
      record {
        begins = begins;
        sets_up = s;
        runs = r;
        tears_down = t;
        reports =
            ap (λ (u : Running W). (l.report (final_status l ctx u) u.world).0)
              (sym (ended-passed w s r t))
            ∙ reported;
      }

  -- A launch returns no error exactly if the first report, the setup, the run, the teardown and the
  -- report of a status without a failure reason all succeed, one behind the other.
  pub launch_iff : (w : W) → ((launch l ctx w).0 ≡ ok tt) ↔ Passed w
  launch_iff w = (Passed-launch w, launch-Passed w)
