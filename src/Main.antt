-- ===== src/Main.antt =====
-- pkg/mainflow.go: the components put together.
pub mod NoLeak
pub mod Panic
pub mod Program
pub mod Entry
pub mod Exit
pub mod Refusal
pub mod Liveness
pub mod Success
pub mod Delivery
pub mod Samples
mod Tests
mod ProcessTests
use kubevirt_dpdk_checkup.Base.{ℕ, Bool, Option, none, some, ◌⊎◌, inl, inr, List, [], ◌∷◌, Bytes}
use kubevirt_dpdk_checkup.Go.Error.{Error}
use kubevirt_dpdk_checkup.Go.Act.{Act, Result, ok, err, panic}
use kubevirt_dpdk_checkup.Go.Context.{Context, background, with_timeout}
use kubevirt_dpdk_checkup.World.{Env, History}
use kubevirt_dpdk_checkup.World.Poll.{Poller}
use kubevirt_dpdk_checkup.Config.{Config}
use kubevirt_dpdk_checkup.Status.{Results, Status}
use kubevirt_dpdk_checkup.Reporter.{Store, report}
use kubevirt_dpdk_checkup.Checkup.State.{State, results}
use kubevirt_dpdk_checkup.Checkup.Lifecycle.{setup, run, teardown}
use kubevirt_dpdk_checkup.Launcher.{Launcher, new_launcher}

-- The checkup's state and the reporter's.
pub record Whole (R : Type 0) : Type 0 where
  pub state : State
  pub reporter : R

module _ {R : Type 0} where
  abbrev on_state : {A : Type 0} → Act State A → Act (Whole R) A
  on_state m w = ((m w.state).0, record w { state = (m w.state).1 })

  abbrev on_reporter : {A : Type 0} → Act R A → Act (Whole R) A
  on_reporter m w = ((m w.reporter).0, record w { reporter = (m w.reporter).1 })

-- `launcher.New(checkup.New(…), reporter.New(…))`; the clock may read the whole state.
unfoldable pub launcher :
    {R : Type 0}
    → Env
    → Poller
    → (Context → Bytes → Bytes → Act History Results)
    → Store R
    → (Whole R → ℕ)
    → Launcher (Whole R)
unfolding setup run teardown report
launcher env poller execute store now =
    new_launcher
      (record {
        setup = λ ctx. on_state (setup env poller ctx);
        run = λ ctx. on_state (run execute ctx);
        teardown = λ ctx. on_state (teardown env poller ctx);
        results = λ w. results w.state;
      })
      (record { report = λ status. on_reporter (report store status) }) now
