-- ===== src/Main/Program.antt =====
-- The program with its own executor.
use kubevirt_dpdk_checkup.Base.{ℕ, ◌≡◌, Bytes, ℤ}
use kubevirt_dpdk_checkup.Go.Context.{Context}
use kubevirt_dpdk_checkup.World.{Env, History}
use kubevirt_dpdk_checkup.World.Poll.{Poller}
use kubevirt_dpdk_checkup.Config.{Config}
use kubevirt_dpdk_checkup.Reporter.{Store}
use kubevirt_dpdk_checkup.Checkup.State.{new_checkup}
use kubevirt_dpdk_checkup.Checkup.Frame.{undeleted}
use kubevirt_dpdk_checkup.Checkup.Readiness.{KeepsNames}
use kubevirt_dpdk_checkup.Trex.Client.{Decoder}
use kubevirt_dpdk_checkup.Executor.{Floats, execute, new_executor}
use kubevirt_dpdk_checkup.Executor.Keeps.{execute-Keeps}
use kubevirt_dpdk_checkup.Launcher.{Launcher, launch}
use kubevirt_dpdk_checkup.Main.{Whole, launcher}
use kubevirt_dpdk_checkup.Main.NoLeak.{Unused, launch-no_leak}

-- What the program takes from outside: the JSON decoder, the floating point numbers and the seconds
-- of a duration.
pub record Outside (F : Type 0) : Type 0 where
  pub decoder : Decoder F
  pub floats : Floats F
  pub seconds : ℤ → ℕ

-- The launcher of `Run`, with the executor that `executor.New` makes of the same configuration.
unfoldable pub program :
    {F R : Type 0}
    → Env
    → Poller
    → Outside F
    → Store R
    → (Whole R → ℕ)
    → Bytes
    → Config
    → Launcher (Whole R)
unfolding launcher execute new_executor
program env poller outside store now namespace cfg =
    launcher env poller
      (execute env poller outside.decoder outside.floats outside.seconds
        (new_executor namespace cfg))
      store now

-- A run of the program, if the API returns an instance under the name that was asked for and no
-- undeleted instance has a name that the checkup draws: whatever else the cluster, the consoles and
-- the reporter answer, and also if a step fails or panics, the undeleted instances at the end are
-- those from before.
pub program-no_leak :
    {F R : Type 0} (env : Env) (poller : Poller) (outside : Outside F) (store : Store R)
    (now : Whole R → ℕ)
    → KeepsNames env
    → (ctx : Context) (namespace suffix : Bytes) (cfg : Config) (h : History) (r : R)
    → Unused suffix h
    → undeleted
        (launch (program env poller outside store now namespace cfg) ctx (record {
          state = record { checkup = new_checkup namespace cfg suffix; history = h };
          reporter = r;
        })).1.state.history
      ≡ undeleted h
unfolding program
program-no_leak env poller outside store now k ctx namespace suffix cfg h r u =
    launch-no_leak env poller
      (execute env poller outside.decoder outside.floats outside.seconds
        (new_executor namespace cfg))
      store now k
      (record {
        keeps = λ ctx vm tg.
            execute-Keeps env poller outside.decoder outside.floats outside.seconds
              (new_executor namespace cfg) ctx vm tg;
      })
      ctx namespace suffix cfg h r u
