-- ===== src/Trex/Client/Stats.antt =====
-- The wait for the TRex server, and the statistics that it is asked for.
use kubevirt_dpdk_checkup.Base.{ℕ, Bool, true, false, [], ◌++◌, codes}
use kubevirt_dpdk_checkup.Go.Error.{Error, new, wrap, is_wait_timeout}
use kubevirt_dpdk_checkup.Go.Act.{Act, Result, ok, err, panic, map_err, and_then, pure, fail}
use kubevirt_dpdk_checkup.Go.Sequence.{◌>>=◌, ◌>>◌}
use kubevirt_dpdk_checkup.Go.Context.{Context, with_timeout}
use kubevirt_dpdk_checkup.Go.Strconv.{format_nat}
use kubevirt_dpdk_checkup.World.{Env, History}
use kubevirt_dpdk_checkup.World.Poll.{Poller}
use kubevirt_dpdk_checkup.Trex.Types.{GlobalStats, PortStats}
use kubevirt_dpdk_checkup.Trex.Client.{
  Client, Decoder, decoded, is_server_running, get_trex_service_status, get_trex_service_journalctl,
  run_trex_console_cmd_with_json_response,
}

abbrev service_timeout : Error
service_timeout = new (codes "timeout waiting for trex-server to be ready")

abbrev no_json : Error → Error
no_json e = wrap (codes "failed to get global stats json: ") e []

abbrev pub with_error : {A : Type 0} → (Error → Error) → Act History A → Act History A
with_error f m h = (map_err f (m h).0, (m h).1)

module _ (env : Env) where
  -- `printTrexServiceFailLogs`.
  unfoldable pub print_trex_service_fail_logs : Client → Act History (Unit {0})
  unfolding get_trex_service_status get_trex_service_journalctl
  print_trex_service_fail_logs c = do
    status ←
        with_error
          (λ e.
            wrap (codes "failed gathering systemctl service status after trex-server timeout: ") e
              [])
          (get_trex_service_status env c)
    logs ←
        with_error
          (λ e.
            wrap
              (codes
                "failed gathering trex.service related joutnalctl logs after trex-server timeout: ")
              e [])
          (get_trex_service_journalctl env c)
    pure tt

  -- Behind a poll that timed out.
  abbrev pub timed_out : Bool → Client → Act History (Unit {0})
  timed_out true c = do print_trex_service_fail_logs c; fail service_timeout
  timed_out false c = fail service_timeout

  abbrev pub not_ready : Bool → Error → Client → Act History (Unit {0})
  not_ready false e c = fail e
  not_ready true e c = timed_out c.verbose_prints_enabled c

  abbrev pub after_poll : Client → Result (Unit {0}) → Act History (Unit {0})
  after_poll c (ok _) h = (ok tt, h)
  after_poll c (err e) h = not_ready (is_wait_timeout e) e c h
  after_poll c panic h = (panic, h)

  -- `WaitForServerToBeReady`.
  unfoldable pub wait_for_server_to_be_ready : Poller → Client → Context → Act History (Unit {0})
  unfolding is_server_running print_trex_service_fail_logs is_wait_timeout
  wait_for_server_to_be_ready poller c ctx h =
      let (r, h') = poller.poll History (with_timeout ctx 60) 5 (is_server_running env c) h in
      after_poll c r h'

  -- `GetGlobalStats`.
  unfoldable pub get_global_stats : {F : Type 0} → Decoder F → Client → Act History (GlobalStats F)
  unfolding run_trex_console_cmd_with_json_response
  get_global_stats decoder c h =
      let (r, h') =
        run_trex_console_cmd_with_json_response env c (codes "stats -g") (codes "get_global_stats")
          h in
      (
        and_then (map_err no_json r) (λ text.
            decoded (codes "failed to unmarshal global stats json: ") (decoder.global_stats text)),
        h',
      )

  -- `GetPortStats`.
  unfoldable pub get_port_stats : {F : Type 0} → Decoder F → Client → ℕ → Act History (PortStats F)
  unfolding run_trex_console_cmd_with_json_response format_nat
  get_port_stats decoder c port h =
      let (r, h') =
        run_trex_console_cmd_with_json_response env c
          (codes "stats --port " ++ (format_nat port ++ codes " -p")) (codes "get_port_stats") h in
      (
        and_then (map_err no_json r) (λ text.
            decoded
              (codes "failed to unmarshal port " ++ (format_nat port ++ codes " stats json: "))
              (decoder.port_stats text)),
        h',
      )
