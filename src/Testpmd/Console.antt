-- ===== src/Testpmd/Console.antt =====
-- The three calls of the testpmd console.
use kubevirt_dpdk_checkup.Base.{
  ◌≡◌, Bool, true, false, none, some, List, [], ◌∷◌, ◌++◌, Bytes, codes,
}
use kubevirt_dpdk_checkup.Go.Act.{Act, Result, ok, err, panic}
use kubevirt_dpdk_checkup.World.{Env, History, Batcher, send, expect}
use kubevirt_dpdk_checkup.Checkup.Frame.{undeleted}
use kubevirt_dpdk_checkup.Console.{Expecter, Response, safe_expect_batch_with_response}
use kubevirt_dpdk_checkup.Console.Sessions.{safe_expect_batch_with_response-undeleted}
use kubevirt_dpdk_checkup.Testpmd.{Statistics, parse_testpmd_stats}
use kubevirt_dpdk_checkup.Testpmd.Command.{build_testpmd_cmd}

pub record TestpmdConsole : Type 0 where
  pub console_expecter : Expecter
  pub vmi_east_nic_pci_address : Bytes
  pub vmi_east_eth_peer_mac_address : Bytes
  pub vmi_west_nic_pci_address : Bytes
  pub vmi_west_eth_peer_mac_address : Bytes
  pub verbose_prints_enabled : Bool

-- `NewTestpmdConsole`.
abbrev pub new_testpmd_console : Expecter → Bytes → Bytes → Bytes → Bytes → Bool → TestpmdConsole
new_testpmd_console console_expecter east_nic east_mac west_nic west_mac verbose = record {
  console_expecter = console_expecter;
  vmi_east_nic_pci_address = east_nic;
  vmi_east_eth_peer_mac_address = east_mac;
  vmi_west_nic_pci_address = west_nic;
  vmi_west_eth_peer_mac_address = west_mac;
  verbose_prints_enabled = verbose;
}

abbrev testpmd_prompt : Bytes
testpmd_prompt = codes "testpmd> "

-- The commands of the three calls, each with the prompt behind it.
unfoldable start_batch : TestpmdConsole → List Batcher
unfolding build_testpmd_cmd
start_batch t =
    send (
      build_testpmd_cmd t.vmi_east_nic_pci_address t.vmi_west_nic_pci_address
        t.vmi_east_eth_peer_mac_address t.vmi_west_eth_peer_mac_address
      ++ codes "\n")
    ∷ expect testpmd_prompt
    ∷ send (codes "start\n")
    ∷ expect testpmd_prompt
    ∷ []

abbrev clear_batch : List Batcher
clear_batch = send (codes "clear fwd stats all\n") ∷ expect testpmd_prompt ∷ []

abbrev show_batch : List Batcher
show_batch = send (codes "show fwd stats all\n") ∷ expect testpmd_prompt ∷ []

-- `resp[0].Output` and `resp[1].Output` are only read for the verbose print.
abbrev printed : Bool → List Bytes → Result (Unit {0})
printed false rs = ok tt
printed true (a ∷ b ∷ rs) = ok tt
printed true (a ∷ []) = panic
printed true [] = panic

abbrev run_result : Bool → Response → Result (Unit {0})
run_result verbose (rs, some e) = err e
run_result verbose (rs, none) = printed verbose rs

abbrev clear_result : Response → Result (Unit {0})
clear_result (rs, some e) = err e
clear_result (rs, none) = ok tt

abbrev pub stats_result : Response → Result Statistics
stats_result (rs, some e) = err e
stats_result ([], none) = panic
stats_result (r ∷ rs, none) = parse_testpmd_stats r

module _ (env : Env) where
  -- `Run`.
  unfoldable pub run : TestpmdConsole → Act History (Unit {0})
  unfolding safe_expect_batch_with_response start_batch
  run t h =
      let (r, h') = safe_expect_batch_with_response env t.console_expecter (start_batch t) 30 h in
      (run_result t.verbose_prints_enabled r, h')

  -- `ClearStats`.
  unfoldable pub clear_stats : TestpmdConsole → Act History (Unit {0})
  unfolding safe_expect_batch_with_response
  clear_stats t h =
      let (r, h') = safe_expect_batch_with_response env t.console_expecter clear_batch 30 h in
      (clear_result r, h')

  -- `GetStats`; the output is printed, if at all, before it is parsed.
  unfoldable pub get_stats : TestpmdConsole → Act History Statistics
  unfolding safe_expect_batch_with_response parse_testpmd_stats
  get_stats t h =
      let (r, h') = safe_expect_batch_with_response env t.console_expecter show_batch 30 h in
      (stats_result r, h')

  pub run-undeleted : (t : TestpmdConsole) (h : History) → undeleted (run t h).1 ≡ undeleted h
  unfolding run
  run-undeleted t h =
      safe_expect_batch_with_response-undeleted env t.console_expecter (start_batch t) 30 h

  pub clear_stats-undeleted :
      (t : TestpmdConsole) (h : History) → undeleted (clear_stats t h).1 ≡ undeleted h
  unfolding clear_stats
  clear_stats-undeleted t h =
      safe_expect_batch_with_response-undeleted env t.console_expecter clear_batch 30 h

  pub get_stats-undeleted :
      (t : TestpmdConsole) (h : History) → undeleted (get_stats t h).1 ≡ undeleted h
  unfolding get_stats
  get_stats-undeleted t h =
      safe_expect_batch_with_response-undeleted env t.console_expecter show_batch 30 h
