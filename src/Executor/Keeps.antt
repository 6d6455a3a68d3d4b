-- ===== src/Executor/Keeps.antt =====
-- An execution neither creates nor deletes an instance.
use kubevirt_dpdk_checkup.Base.{ℕ, ◌≡◌, refl, ap, ◌∙◌, ◌++◌, Bool, true, false, [], Bytes, codes, ℤ}
use kubevirt_dpdk_checkup.Go.Error.{Error, is_wait_timeout}
use kubevirt_dpdk_checkup.Go.Act.{Act, Result, ok, err, panic, continue}
use kubevirt_dpdk_checkup.Go.Sequence.{◌>>=◌}
use kubevirt_dpdk_checkup.Go.Context.{Context, with_timeout}
use kubevirt_dpdk_checkup.Go.Strconv.{format_nat}
use kubevirt_dpdk_checkup.World.{Env, History}
use kubevirt_dpdk_checkup.World.Poll.{Poller, PollRun-keeps}
use kubevirt_dpdk_checkup.Checkup.Frame.{undeleted}
use kubevirt_dpdk_checkup.Console.{
  Expecter, new_expecter, get_guest_kernel_args, kernel_args_batch, safe_expect_batch_with_response,
}
use kubevirt_dpdk_checkup.Console.Login.{login_to_centos_as_root-undeleted}
use kubevirt_dpdk_checkup.Console.Sessions.{safe_expect_batch_with_response-undeleted}
use kubevirt_dpdk_checkup.Testpmd.Console as TestpmdConsole
use kubevirt_dpdk_checkup.Trex.Types.{GlobalStats}
use kubevirt_dpdk_checkup.Trex.Client.{
  Client, Decoder, shell_batch, console_command, json_command, start_command, status_command,
  journal_command, start_server, run_trex_console_cmd, run_trex_console_cmd_with_json_response,
  start_traffic, get_start_traffic_cmd, is_server_running, get_trex_service_status,
  get_trex_service_journalctl, source_port, dest_port,
}
use kubevirt_dpdk_checkup.Trex.Client as TrexClient
use kubevirt_dpdk_checkup.Trex.Client.Stats.{
  wait_for_server_to_be_ready, print_trex_service_fail_logs, get_global_stats, get_port_stats,
  after_poll, not_ready, timed_out,
}
use kubevirt_dpdk_checkup.Executor.{
  Executor, Floats, Monitoring, record_drop, monitor_condition, monitor_drop_rates, calculate_stats,
  execute, log_in_on, print_kernel_args, client_of, testpmd_of,
}

-- An action on the consoles leaves the instances as they are.
abbrev pub Keeps : {A : Type 0} → Act History A → Type 0
Keeps m = (h : History) → undeleted (m h).1 ≡ undeleted h

Keeps-continue :
    {A B : Type 0} (r : Result A) (f : A → Act History B) (h : History)
    → ((a : A) → Keeps (f a))
    → undeleted (continue r f h).1 ≡ undeleted h
Keeps-continue (ok a) f h k = k a h
Keeps-continue (err e) f h k = refl
Keeps-continue panic f h k = refl

-- Actions that keep the instances, one behind the other.
Keeps-then :
    {A B : Type 0} (m : Act History A) (f : A → Act History B)
    → Keeps m
    → ((a : A) → Keeps (f a))
    → Keeps (m >>= f)
unfolding ◌>>=◌
Keeps-then m f k l h = Keeps-continue (m h).0 f (m h).1 l ∙ k h

module _ (env : Env) where
  sent-Keeps :
      (e : Expecter) (command : Bytes) (h : History)
      → undeleted (safe_expect_batch_with_response env e (shell_batch command) 30 h).1 ≡ undeleted h
  sent-Keeps e command h =
      safe_expect_batch_with_response-undeleted env e (shell_batch command) 30 h

  start_server-Keeps : (c : Client) → Keeps (start_server env c)
  unfolding start_server
  start_server-Keeps c h = sent-Keeps c.console_expecter start_command h

  run_trex_console_cmd-Keeps :
      (c : Client) (command : Bytes) → Keeps (run_trex_console_cmd env c command)
  unfolding run_trex_console_cmd
  run_trex_console_cmd-Keeps c command h =
      sent-Keeps c.console_expecter (console_command command []) h

  clear_stats-Keeps : (c : Client) → Keeps (TrexClient.clear_stats env c)
  unfolding TrexClient.clear_stats
  clear_stats-Keeps c = run_trex_console_cmd-Keeps c (codes "clear")

  start_traffic-Keeps : (c : Client) (port : ℕ) → Keeps (start_traffic env c port)
  unfolding start_traffic
  start_traffic-Keeps c port = run_trex_console_cmd-Keeps c (get_start_traffic_cmd c port)

  json-Keeps :
      (c : Client) (command key : Bytes)
      → Keeps (run_trex_console_cmd_with_json_response env c command key)
  unfolding run_trex_console_cmd_with_json_response
  json-Keeps c command key h = sent-Keeps c.console_expecter (json_command command) h

  status-Keeps : (c : Client) → Keeps (get_trex_service_status env c)
  unfolding get_trex_service_status
  status-Keeps c h = sent-Keeps c.console_expecter status_command h

  journal-Keeps : (c : Client) → Keeps (get_trex_service_journalctl env c)
  unfolding get_trex_service_journalctl
  journal-Keeps c h = sent-Keeps c.console_expecter journal_command h

  kernel_args-Keeps : (e : Expecter) → Keeps (get_guest_kernel_args env e)
  unfolding get_guest_kernel_args
  kernel_args-Keeps e h = safe_expect_batch_with_response-undeleted env e kernel_args_batch 30 h

  is_server_running-Keeps : (c : Client) → Keeps (is_server_running env c)
  unfolding is_server_running
  is_server_running-Keeps c h = run_trex_console_cmd-Keeps c (codes "help") h

  fail_logs-Keeps : (c : Client) → Keeps (print_trex_service_fail_logs env c)
  unfolding print_trex_service_fail_logs
  fail_logs-Keeps c =
      Keeps-then _ _ (λ h. status-Keeps c h)
        λ a. Keeps-then _ _ (λ h. journal-Keeps c h) λ b. λ h. refl

  timed_out-Keeps : (verbose : Bool) (c : Client) → Keeps (timed_out env verbose c)
  timed_out-Keeps true c h = Keeps-then _ _ (fail_logs-Keeps c) (λ a k. refl) h
  timed_out-Keeps false c h = refl

  not_ready-Keeps : (timeout : Bool) (e : Error) (c : Client) → Keeps (not_ready env timeout e c)
  not_ready-Keeps false e c h = refl
  not_ready-Keeps true e c h = timed_out-Keeps c.verbose_prints_enabled c h

  after_poll-Keeps :
      (c : Client) (r : Result (Unit {0})) (h : History)
      → undeleted (after_poll env c r h).1 ≡ undeleted h
  after_poll-Keeps c (ok _) h = refl
  after_poll-Keeps c (err e) h = not_ready-Keeps (is_wait_timeout e) e c h
  after_poll-Keeps c panic h = refl

  wait-Keeps :
      (poller : Poller) (c : Client) (ctx : Context)
      → Keeps (wait_for_server_to_be_ready env poller c ctx)
  unfolding wait_for_server_to_be_ready
  wait-Keeps poller c ctx h =
      after_poll-Keeps c (poller.poll History (with_timeout ctx 60) 5 (is_server_running env c) h).0
        _
      ∙ PollRun-keeps undeleted (is_server_running-Keeps c)
          (poller.poll_lem History (with_timeout ctx 60) 5 (is_server_running env c) h)

module _ {F : Type 0} (env : Env) (poller : Poller) (decoder : Decoder F) (floats : Floats F)
    (seconds : ℤ → ℕ) where
  log_in_on-Keeps :
      (e : Executor) (name : Bytes) → Keeps (log_in_on env poller decoder floats seconds e name)
  log_in_on-Keeps e name h =
      login_to_centos_as_root-undeleted env (new_expecter e.namespace name) e.vmi_password h

  print_kernel_args-Keeps :
      (verbose : Bool) (vm tg : Expecter)
      → Keeps (print_kernel_args env poller decoder floats seconds verbose vm tg)
  print_kernel_args-Keeps false vm tg h = refl
  print_kernel_args-Keeps true vm tg h =
      Keeps-then _ _ (kernel_args-Keeps env vm)
        (λ a. Keeps-then _ _ (kernel_args-Keeps env tg) (λ b k. refl)) h

  get_global_stats-Keeps : (c : Client) → Keeps (get_global_stats env decoder c)
  unfolding get_global_stats
  get_global_stats-Keeps c h = json-Keeps env c (codes "stats -g") (codes "get_global_stats") h

  get_port_stats-Keeps : (c : Client) (port : ℕ) → Keeps (get_port_stats env decoder c port)
  unfolding get_port_stats
  get_port_stats-Keeps c port h =
      json-Keeps env c (codes "stats --port " ++ (format_nat port ++ codes " -p"))
        (codes "get_port_stats") h

  record_drop-history :
      (r : Result (GlobalStats F)) (max : F) (h : History)
      → (record_drop floats r max h).1.history ≡ h
  record_drop-history (ok d) max h = refl
  record_drop-history (err e) max h = refl
  record_drop-history panic max h = refl

  monitor_condition-Keeps :
      (c : Client) (w : Monitoring F)
      → undeleted (monitor_condition env poller decoder floats seconds c w).1.history
        ≡ undeleted w.history
  unfolding monitor_condition
  monitor_condition-Keeps c w =
      ap undeleted (
        record_drop-history (get_global_stats env decoder c w.history).0 w.max_drop_rate
          (get_global_stats env decoder c w.history).1)
      ∙ get_global_stats-Keeps c w.history

  monitor_drop_rates-Keeps :
      (e : Executor) (ctx : Context) (c : Client)
      → Keeps (monitor_drop_rates env poller decoder floats seconds e ctx c)
  unfolding monitor_drop_rates
  monitor_drop_rates-Keeps e ctx c h =
      PollRun-keeps (λ (w : Monitoring F). undeleted w.history) (monitor_condition-Keeps c)
        (poller.poll_lem (Monitoring F) (with_timeout ctx (seconds e.test_duration)) 10
          (monitor_condition env poller decoder floats seconds c)
          (record { max_drop_rate = floats.zero; history = h }))

  calculate_stats-Keeps :
      (c : Client) (t : TestpmdConsole.TestpmdConsole)
      → Keeps (calculate_stats env poller decoder floats seconds c t)
  unfolding calculate_stats
  calculate_stats-Keeps c t = Keeps-then _ _ (get_port_stats-Keeps c source_port) λ a.
      Keeps-then _ _ (get_port_stats-Keeps c dest_port)
        λ b. Keeps-then _ _ (TestpmdConsole.get_stats-undeleted env t) λ s h. refl

  -- An execution, on whatever answers of the consoles, creates and deletes no instance.
  pub execute-Keeps :
      (e : Executor) (ctx : Context) (vm_name tg_name : Bytes)
      → Keeps (execute env poller decoder floats seconds e ctx vm_name tg_name)
  unfolding execute
  execute-Keeps e ctx vm_name tg_name =
      let c = client_of env poller decoder floats seconds e tg_name in
      let t = testpmd_of env poller decoder floats seconds e vm_name in
      Keeps-then _ _ (log_in_on-Keeps e vm_name) λ _.
        Keeps-then _ _ (log_in_on-Keeps e tg_name) λ _.
          Keeps-then _ _
            (print_kernel_args-Keeps e.verbose_prints_enabled t.console_expecter c.console_expecter)
            λ _. Keeps-then _ _ (start_server-Keeps env c) λ _.
              Keeps-then _ _ (wait-Keeps env poller c ctx) λ _.
                Keeps-then _ _ (TestpmdConsole.run-undeleted env t) λ _.
                  Keeps-then _ _ (TestpmdConsole.clear_stats-undeleted env t) λ _.
                    Keeps-then _ _ (Keeps-then _ _ (clear_stats-Keeps env c) (λ a h. refl)) λ _.
                      Keeps-then _ _
                        (Keeps-then _ _ (start_traffic-Keeps env c source_port) (λ a h. refl))
                        λ _.
                          Keeps-then _ _ (monitor_drop_rates-Keeps e ctx c)
                            λ _. calculate_stats-Keeps c t
