-- ===== src/Main/ProcessTests.antt =====
-- The process on a platform on which it succeeds, and on one with a configuration that is refused.
use kubevirt_dpdk_checkup.Base.{ℕ, ◌⊎◌, inr, [], ◌≡◌, ◌↔◌, codes, Bytes}
use kubevirt_dpdk_checkup.Go.Error.{Error}
use kubevirt_dpdk_checkup.Cluster.{env_of}
use kubevirt_dpdk_checkup.Config.Samples.{base_with}
use kubevirt_dpdk_checkup.Checkup.Frame.{undeleted}
use kubevirt_dpdk_checkup.Checkup.State.{vmi_under_test_name, traffic_gen_name}
use kubevirt_dpdk_checkup.Executor.{new_executor}
use kubevirt_dpdk_checkup.Main.Entry.{Platform, Prepared, deadline, run_prepared, main, returned}
use kubevirt_dpdk_checkup.Main.Exit.{Reads, Succeeds, main-no_leak, main_iff}
use kubevirt_dpdk_checkup.Main.Refusal.{Stops, Stopped, Launched, main_cases}
use kubevirt_dpdk_checkup.Checkup.Lifecycle.{setup}
use kubevirt_dpdk_checkup.Main.Delivery.{Told, fresh_state, main-Told}
use kubevirt_dpdk_checkup.Main.Samples.{
  platform, platform-NamesKept, abcde-Unused, nothing_done, process_succeeds,
}

main-no_leak_example :
    undeleted (main platform (λ env. []) [] (inr (codes "ns")) nothing_done).1.history
    ≡ undeleted []
main-no_leak_example =
    main-no_leak platform (λ env. []) [] (inr (codes "ns")) nothing_done platform-NamesKept
      abcde-Unused

main_iff_example :
    ((main platform (λ env. []) [] (inr (codes "ns")) nothing_done).0 ≡ returned)
    ↔ Succeeds platform [] (inr (codes "ns")) nothing_done
main_iff_example = main_iff platform (λ env. []) [] (inr (codes "ns")) nothing_done

-- The same with parameters that `config.New` refuses.
abbrev misconfigured : Platform ℕ ℕ ℕ
misconfigured = record platform { read_config = λ c raw_env. inr (base_with []) }

main_cases_example :
    ((text : Bytes) × Stops misconfigured [] (inr (codes "ns")) text
      × Stopped text nothing_done
          (main misconfigured (λ env. []) [] (inr (codes "ns")) nothing_done))
    ⊎ ((q : Prepared) × (name : Bytes) × (◌≡◌ {A = Error ⊎ Bytes} (inr (codes "ns")) (inr name))
        × Reads misconfigured [] q
        × Launched
            (run_prepared misconfigured name q nothing_done)
            (main misconfigured (λ env. []) [] (inr (codes "ns")) nothing_done))
main_cases_example = main_cases misconfigured (λ env. []) [] (inr (codes "ns")) nothing_done

main-Told_example :
    (q : Prepared) × (name : Bytes) × Reads platform [] q
    × Told
        (env_of q.client platform.consoles)
        platform.poller
        platform.outside
        (new_executor name q.cfg)
        (deadline platform q)
        (vmi_under_test_name (codes "abcde"))
        (traffic_gen_name (codes "abcde"))
        (setup
          (env_of q.client platform.consoles)
          platform.poller
          (deadline platform q)
          (fresh_state name (codes "abcde") q.cfg [])).1.history
main-Told_example =
    main-Told platform (λ env. []) [] (inr (codes "ns")) nothing_done platform-NamesKept
      abcde-Unused process_succeeds
