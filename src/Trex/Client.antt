-- ===== src/Trex/Client.antt =====
-- pkg/internal/checkup/trex/client.go: the client of the TRex console. The JSON decoder
-- is a parameter, and so are the floating point numbers.
pub mod Stats
pub mod Ready
mod Tests
use kubevirt_dpdk_checkup.Base.{
  ℕ, Bool, true, false, not, ◌||◌, Option, none, some, ◌⊎◌, inl, inr, List, [], ◌∷◌, ◌++◌, Bytes,
  codes, if◌then◌else◌, ℤ,
}
use kubevirt_dpdk_checkup.Go.Error.{Error, new, wrap, message, is_wait_timeout}
use kubevirt_dpdk_checkup.Go.Act.{Act, Result, ok, err, panic, map_err, and_then, ◌>>=◌}
use kubevirt_dpdk_checkup.Go.Context.{Context, with_timeout}
use kubevirt_dpdk_checkup.Go.Fmt.{quote, format_seconds}
use kubevirt_dpdk_checkup.Go.Path.{path_join}
use kubevirt_dpdk_checkup.Go.Strings.{contains}
use kubevirt_dpdk_checkup.Go.Strconv.{format_nat}
use kubevirt_dpdk_checkup.World.{Env, History, Batcher, send, expect}
use kubevirt_dpdk_checkup.World.Poll.{Poller}
use kubevirt_dpdk_checkup.Console.{Expecter, Response, safe_expect_batch_with_response}
use kubevirt_dpdk_checkup.Trex.ConfigFiles.{
  systemd_unit_file_name, streams_py_path, stream_py_file_name, bin_directory,
}
use kubevirt_dpdk_checkup.Trex.Types.{GlobalStats, PortStats}
use kubevirt_dpdk_checkup.Trex.Output.{clean_stdout, check_stdout_for_failures, extract_json_string}

pub record Client : Type 0 where
  pub console_expecter : Expecter
  pub traffic_generator_packets_per_second : Bytes
  pub test_duration : ℤ
  pub verbose_prints_enabled : Bool

-- `NewClient`.
abbrev pub new_client : Expecter → Bytes → ℤ → Bool → Client
new_client console_expecter packets_per_second test_duration verbose_prints_enabled = record {
  console_expecter = console_expecter;
  traffic_generator_packets_per_second = packets_per_second;
  test_duration = test_duration;
  verbose_prints_enabled = verbose_prints_enabled;
}

-- `PortIdx`.
abbrev pub source_port : ℕ
source_port = 0

abbrev pub dest_port : ℕ
dest_port = 1

-- `json.Unmarshal` of both types.
pub record Decoder (F : Type 0) : Type 0 where
  pub global_stats : Bytes → Error ⊎ GlobalStats F
  pub port_stats : Bytes → Error ⊎ PortStats F

-- The shell's prompt behind a command.
abbrev pub shell_batch : Bytes → List Batcher
shell_batch command = send (command ++ codes "\n") ∷ expect (codes "# ") ∷ []

abbrev pub error_only : Response → Result (Unit {0})
error_only (rs, none) = ok tt
error_only (rs, some e) = err e

-- `return resp[0].Output, err`, which reads the response before the error is looked at.
abbrev output_or_panic : Response → Result Bytes
output_or_panic ([], o) = panic
output_or_panic (r ∷ rs, none) = ok r
output_or_panic (r ∷ rs, some e) = err e

-- `resp[0].Output` behind a check of the error.
abbrev pub output_of : Response → Result Bytes
output_of (rs, some e) = err e
output_of ([], none) = panic
output_of (r ∷ rs, none) = ok r

-- `getStartTrafficCmd`.
unfoldable pub get_start_traffic_cmd : Client → ℕ → Bytes
unfolding path_join format_nat format_seconds
get_start_traffic_cmd c port =
    codes "start -f "
    ++ (path_join streams_py_path stream_py_file_name
        ++ (codes " -m "
            ++ (c.traffic_generator_packets_per_second
                ++ (codes "pps -p "
                    ++ (format_nat port ++ (codes " -d " ++ format_seconds c.test_duration))))))

abbrev pub console_command : Bytes → Bytes → Bytes
console_command command options =
    codes "cd "
    ++ (bin_directory
        ++ (codes " && echo " ++ (quote command ++ (codes " | ./trex-console" ++ options))))

abbrev pub json_command : Bytes → Bytes
json_command command = console_command (codes "verbose on;" ++ command) (codes " -q")

abbrev pub start_command : Bytes
start_command = codes "systemctl start " ++ systemd_unit_file_name

abbrev pub status_command : Bytes
status_command = codes "systemctl status " ++ (systemd_unit_file_name ++ codes " | cat")

abbrev pub journal_command : Bytes
journal_command = codes "journalctl | grep " ++ systemd_unit_file_name

abbrev pub failure_checked : Bytes → Bytes → Option Error → Result Bytes
failure_checked command stdout none = ok stdout
failure_checked command stdout (some e) = err (
    new (
      codes "trex command " ++ (quote command ++ codes " failed. check logs for more information")))

abbrev pub cleaned : Bytes → Bytes → Result Bytes
cleaned command output =
    failure_checked command (clean_stdout output) (check_stdout_for_failures (clean_stdout output))

unfoldable json_failed : Bytes → Error → Error
unfolding quote
json_failed key e =
    wrap (codes "failed to extract JSON Response of " ++ (quote key ++ codes ": ")) e
      (codes ". See logs for more information")

abbrev pub decoded : {A : Type 0} → Bytes → Error ⊎ A → Result A
decoded text (inl e) = err (wrap text e [])
decoded text (inr a) = ok a

-- `isServerRunning`; a panic goes on.
abbrev pub running_of : Result Bytes → Result Bool
running_of (ok r) = ok (contains (codes "Console Commands") r)
running_of (err e) = ok false
running_of panic = panic

module _ (env : Env) where
  -- `StartServer`.
  unfoldable pub start_server : Client → Act History (Unit {0})
  unfolding safe_expect_batch_with_response
  start_server c h =
      let (r, h') =
        safe_expect_batch_with_response env c.console_expecter (shell_batch start_command) 30 h in
      (error_only r, h')

  -- `runTrexConsoleCmd`.
  unfoldable pub run_trex_console_cmd : Client → Bytes → Act History Bytes
  unfolding safe_expect_batch_with_response quote clean_stdout check_stdout_for_failures
  run_trex_console_cmd c command h =
      let (r, h') =
        safe_expect_batch_with_response env c.console_expecter
          (shell_batch (console_command command [])) 30 h in
      (and_then (output_of r) (cleaned command), h')

  -- `runTrexConsoleCmdWithJSONResponse`.
  unfoldable pub run_trex_console_cmd_with_json_response :
      Client → Bytes → Bytes → Act History Bytes
  unfolding safe_expect_batch_with_response quote clean_stdout extract_json_string json_failed
  run_trex_console_cmd_with_json_response c command request_key h =
      let (r, h') =
        safe_expect_batch_with_response env c.console_expecter (shell_batch (json_command command))
          30 h in
      (
        and_then (output_of r) (λ out.
            map_err (json_failed request_key) (extract_json_string (clean_stdout out) request_key)),
        h',
      )

  -- `ClearStats`.
  unfoldable pub clear_stats : Client → Act History Bytes
  unfolding run_trex_console_cmd
  clear_stats c = run_trex_console_cmd c (codes "clear")

  -- `StartTraffic`.
  unfoldable pub start_traffic : Client → ℕ → Act History Bytes
  unfolding run_trex_console_cmd get_start_traffic_cmd
  start_traffic c port = run_trex_console_cmd c (get_start_traffic_cmd c port)

  unfoldable pub is_server_running : Client → Act History Bool
  unfolding run_trex_console_cmd contains
  is_server_running c h =
      let (r, h') = run_trex_console_cmd c (codes "help") h in (running_of r, h')

  -- `getTrexServiceStatus`.
  unfoldable pub get_trex_service_status : Client → Act History Bytes
  unfolding safe_expect_batch_with_response
  get_trex_service_status c h =
      let (r, h') =
        safe_expect_batch_with_response env c.console_expecter (shell_batch status_command) 30 h in
      (output_or_panic r, h')

  -- `getTrexServiceJournalctl`.
  unfoldable pub get_trex_service_journalctl : Client → Act History Bytes
  unfolding safe_expect_batch_with_response
  get_trex_service_journalctl c h =
      let (r, h') =
        safe_expect_batch_with_response env c.console_expecter (shell_batch journal_command) 30 h in
      (output_or_panic r, h')
