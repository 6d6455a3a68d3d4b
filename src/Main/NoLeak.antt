-- ===== src/Main/NoLeak.antt =====
-- No instance is left behind.
use kubevirt_dpdk_checkup.Base.{
  ℕ, ◌≡◌, ◌≢◌, refl, sym, ap, ◌∙◌, true, false, List, [], ◌∷◌, ◌++◌, Bytes, bytes_eq_iff, arith,
  All,
}
use kubevirt_dpdk_checkup.Go.Error.{Error}
use kubevirt_dpdk_checkup.Go.Act.{Act, Result, ok, err, panic}
use kubevirt_dpdk_checkup.Go.Context.{Context}
use kubevirt_dpdk_checkup.Config.{Config}
use kubevirt_dpdk_checkup.Checkup.Instances.{new_vmi_under_test, new_traffic_gen}
use kubevirt_dpdk_checkup.World.{Env, Call, History}
use kubevirt_dpdk_checkup.World.Poll.{Poller}
use kubevirt_dpdk_checkup.Status.{Results}
use kubevirt_dpdk_checkup.Reporter.{Store}
use kubevirt_dpdk_checkup.Checkup.State.{
  Checkup, State, new_checkup, vmi_under_test_name, traffic_gen_name,
}
use kubevirt_dpdk_checkup.Checkup.Frame.{undeleted, remove, remove_fresh}
use kubevirt_dpdk_checkup.Checkup.Readiness.{KeepsNames}
use kubevirt_dpdk_checkup.Checkup.Outcome.{Fresh}
use kubevirt_dpdk_checkup.Checkup.Cleanup.{setup-Outcome}
use kubevirt_dpdk_checkup.Checkup.Deletion.{teardown-TornDown}
use kubevirt_dpdk_checkup.Checkup.Steps.{changes, deletions}
use kubevirt_dpdk_checkup.Checkup.Lifecycle.{setup, run, teardown, after_execute}
use kubevirt_dpdk_checkup.Launcher.{launch}
use kubevirt_dpdk_checkup.Launcher.Outcome.{Restores, launch-restores}
use kubevirt_dpdk_checkup.Main.{Whole, launcher}

-- The instances of a checkup, and those that others have created.
pub record Names : Type 0 where
  pub vm : Bytes
  pub tg : Bytes
  pub others : List Bytes

record Free (n : Names) : Type 0 where
  pub vm : All (λ m. m ≢ n.vm) n.others
  pub tg : All (λ m. m ≢ n.tg) n.others
  pub different : n.vm ≢ n.tg

-- The checkup's instances have the names `n`, and `pending` are undeleted.
record At (n : Names) (pending : List Bytes) (s : State) : Type 0 where
  vm : s.checkup.vmi_under_test.name ≡ n.vm
  tg : s.checkup.traffic_gen.name ≡ n.tg
  undeleted : undeleted s.history ≡ pending

-- Reads do not change what is undeleted.
undeleted-changes : (h : History) → undeleted (changes h) ≡ undeleted h
unfolding undeleted changes
undeleted-changes [] = refl
undeleted-changes (Call.create_vmi ctx ns vmi true ∷ h) =
    ap (λ ns. vmi.name ∷ ns) (undeleted-changes h)
undeleted-changes (Call.create_vmi ctx ns vmi false ∷ h) = undeleted-changes h
undeleted-changes (Call.delete_vmi ctx ns name ∷ h) = ap (remove name) (undeleted-changes h)
undeleted-changes (Call.get_vmi ctx ns name ∷ h) = undeleted-changes h
undeleted-changes (Call.create_config_map ctx ns m b ∷ h) = undeleted-changes h
undeleted-changes (Call.delete_config_map ctx ns name ∷ h) = undeleted-changes h
undeleted-changes (Call.serial_console ns name n ∷ h) = undeleted-changes h
undeleted-changes (Call.spawn name ∷ h) = undeleted-changes h
undeleted-changes (Call.send_text a b ∷ h) = undeleted-changes h
undeleted-changes (Call.expect_batch a b n ∷ h) = undeleted-changes h
undeleted-changes (Call.close a ∷ h) = undeleted-changes h

-- The two names are taken off again.
remove_both : (n : Names) → Free n → remove n.tg (remove n.vm (n.tg ∷ n.vm ∷ n.others)) ≡ n.others
unfolding remove
remove_both n f = ground (
  arith,
  bytes_eq_iff n.tg n.vm,
  bytes_eq_iff n.vm n.vm,
  bytes_eq_iff n.tg n.tg,
  f.different,
  remove_fresh n.vm n.others f.vm,
  remove_fresh n.tg n.others f.tg,
)

undeleted-deletions :
    (ctx : Context) (c : Checkup) (h : History)
    → undeleted (deletions ctx c ++ h)
      ≡ remove c.traffic_gen.name (remove c.vmi_under_test.name (undeleted h))
unfolding undeleted
undeleted-deletions ctx c h = refl

-- The executor creates and deletes no instance.
pub record KeepsInstances (execute : Context → Bytes → Bytes → Act History Results) : Type 0 where
  pub keeps :
      (ctx : Context) (vm tg : Bytes) (h : History)
      → undeleted (execute ctx vm tg h).1 ≡ undeleted h

module _ (env : Env) (poller : Poller) (k : KeepsNames env) (ctx : Context) (n : Names)
    (f : Free n) where
  abbrev both : List Bytes
  both = n.tg ∷ n.vm ∷ n.others

  Fresh-of : (s : State) → At n n.others s → Fresh s
  Fresh-of s a = record {
    vm = rw (a.vm, a.undeleted) f.vm;
    tg = rw (a.tg, a.undeleted) f.tg;
    different = rw (a.vm, a.tg) f.different;
  }

  setup-At :
      (s : State)
      → At n n.others s
      → ((setup env poller ctx s).0 ≡ ok tt → At n both (setup env poller ctx s).1)
        × ((e : Error)
            → (setup env poller ctx s).0 ≡ err e
            → At n n.others (setup env poller ctx s).1)
  setup-At s a =
      let o = setup-Outcome env poller k ctx s (Fresh-of s a) in
      (
        λ h. record {
          vm = o.vm ∙ a.vm;
          tg = o.tg ∙ a.tg;
          undeleted = (o.on_ok h).0 ∙ rw (a.vm, a.tg, a.undeleted);
        },
        λ e h. record {
          vm = o.vm ∙ a.vm;
          tg = o.tg ∙ a.tg;
          undeleted = o.on_err e h ∙ a.undeleted;
        },
      )

  teardown-At : (s : State) → At n both s → At n n.others (teardown env poller ctx s).1
  teardown-At s a =
      let t = teardown-TornDown env poller ctx s in
      let same = t.keeps in
      record {
        vm = ap (λ (c : Checkup). c.vmi_under_test.name) same ∙ a.vm;
        tg = ap (λ (c : Checkup). c.traffic_gen.name) same ∙ a.tg;
        undeleted =
            sym (undeleted-changes (teardown env poller ctx s).1.history)
            ∙ ap undeleted t.asks
            ∙ undeleted-deletions ctx s.checkup (changes s.history)
            ∙ rw (undeleted-changes s.history, a.vm, a.tg, a.undeleted) (remove_both n f);
      }

  run-At :
      (execute : Context → Bytes → Bytes → Act History Results)
      → KeepsInstances execute
      → (s : State) → At n both s
      → At n both (run execute ctx s).1
  unfolding run
  run-At execute e s a =
      let (r, h) = execute ctx s.checkup.vmi_under_test.name s.checkup.traffic_gen.name s.history in
      after_execute-At r (record s { history = h })
        (record { vm = a.vm; tg = a.tg; undeleted = e.keeps ctx _ _ s.history ∙ a.undeleted })
    where
      after_execute-At :
          (r : Result Results) (s : State) → At n both s → At n both (after_execute r s).1
      after_execute-At (ok x) s a = record { vm = a.vm; tg = a.tg; undeleted = a.undeleted }
      after_execute-At (err x) s a = record { vm = a.vm; tg = a.tg; undeleted = a.undeleted }
      after_execute-At panic s a = record { vm = a.vm; tg = a.tg; undeleted = a.undeleted }

-- The names that `New` makes of its random suffix, behind a history.
abbrev pub drawn : Bytes → History → Names
drawn suffix h = record {
  vm = vmi_under_test_name suffix;
  tg = traffic_gen_name suffix;
  others = undeleted h;
}

-- No undeleted instance has one of these names.
pub record Unused (suffix : Bytes) (h : History) : Type 0 where
  pub vm : All (λ m. m ≢ vmi_under_test_name suffix) (undeleted h)
  pub tg : All (λ m. m ≢ traffic_gen_name suffix) (undeleted h)

Free-drawn : (suffix : Bytes) (h : History) → Unused suffix h → Free (drawn suffix h)
Free-drawn suffix h u = record { vm = u.vm; tg = u.tg; different = λ q. ground arith }

module _ {R : Type 0} where
  launcher-Restores :
      (env : Env) (poller : Poller) (execute : Context → Bytes → Bytes → Act History Results)
      (store : Store R) (now : Whole R → ℕ)
      → KeepsNames env
      → KeepsInstances execute
      → (ctx : Context) (n : Names) → Free n
      → Restores
          (λ (w : Whole R). At n n.others w.state)
          (λ w. At n (n.tg ∷ n.vm ∷ n.others) w.state)
          (launcher env poller execute store now)
          ctx
  unfolding launcher
  launcher-Restores env poller execute store now k e ctx n f = record {
    returns = λ w a.
        (setup-Outcome env poller k ctx w.state (Fresh-of env poller k ctx n f w.state a)).returns;
    sets_up = λ w a. (setup-At env poller k ctx n f w.state a).0;
    undoes = λ w x a. (setup-At env poller k ctx n f w.state a).1 x;
    runs = λ w. run-At env poller k ctx n f execute e w.state;
    tears_down = λ w. teardown-At env poller k ctx n f w.state;
    reports = λ status w a. a;
  }

  -- A launch from `checkup.New` on, if the API returns an instance under the name that was asked for,
  -- the executor creates and deletes no instance, and no undeleted instance has a name that the
  -- checkup draws: whatever else the cluster and the reporter answer, and also if a step fails or
  -- the run panics, the undeleted instances at the end are those from before, so each instance that
  -- was created was asked to be deleted after its creation.
  pub launch-no_leak :
      (env : Env) (poller : Poller) (execute : Context → Bytes → Bytes → Act History Results)
      (store : Store R) (now : Whole R → ℕ)
      → KeepsNames env
      → KeepsInstances execute
      → (ctx : Context) (namespace suffix : Bytes) (cfg : Config) (h : History) (r : R)
      → Unused suffix h
      → undeleted
          (launch (launcher env poller execute store now) ctx (record {
            state = record { checkup = new_checkup namespace cfg suffix; history = h };
            reporter = r;
          })).1.state.history
        ≡ undeleted h
  unfolding new_checkup new_vmi_under_test new_traffic_gen
  launch-no_leak env poller execute store now k e ctx namespace suffix cfg h r u =
      let n = drawn suffix h in
      let f = Free-drawn suffix h u in
      (launch-restores (λ (w : Whole R). At n n.others w.state)
        (λ w. At n (n.tg ∷ n.vm ∷ n.others) w.state) (launcher env poller execute store now) ctx
        (launcher-Restores env poller execute store now k e ctx n f)
        (record {
          state = record { checkup = new_checkup namespace cfg suffix; history = h };
          reporter = r;
        })
        (record { vm = refl; tg = refl; undeleted = refl })).undeleted
