-- ===== src/Testpmd/Answers.antt =====
-- What `GetStats` returns for what the console of an instance prints.
use kubevirt_dpdk_checkup.Base.{◌≡◌, refl, ap, ◌∙◌, none, some, List, [], ◌∷◌, Bytes, codes, All}
use kubevirt_dpdk_checkup.Go.Error.{Error}
use kubevirt_dpdk_checkup.Go.Act.{Result, ok, err, panic}
use kubevirt_dpdk_checkup.Go.Strings.{join}
use kubevirt_dpdk_checkup.Go.Strings.Lines.{IsLine}
use kubevirt_dpdk_checkup.World.{Env, Call, History, Batcher}
use kubevirt_dpdk_checkup.Console.{Expecter, Response}
use kubevirt_dpdk_checkup.Console.Batches.{safe_expect_batch_with_response-script, echoed}
use kubevirt_dpdk_checkup.Testpmd.{Statistics}
use kubevirt_dpdk_checkup.Testpmd.Console.{TestpmdConsole, get_stats, stats_result}
use kubevirt_dpdk_checkup.Testpmd.Render.{IsMachine}
use kubevirt_dpdk_checkup.Testpmd.Output.{
  Padding, IsPreamble, shown_lines, parse_testpmd_stats-shown_lines,
}

-- What a response tells: the statistics that testpmd shows in its first output, the error beside it,
-- or nothing, for a response without an output, which is read beyond its end.
pub data Tells : Response → Result Statistics → Type 0 where
  shows :
      {outputs : List Bytes} {s : Statistics} (before after : List Bytes) (v w x : Padding)
      → IsPreamble before
      → All IsLine after
      → IsMachine s.port0
      → IsMachine s.port1
      → IsMachine s.summary
      → Tells (join (codes "\n") (shown_lines before s v w x after) ∷ outputs, none) (ok s)
  fails : {outputs : List Bytes} {e : Error} → Tells (outputs, some e) (err e)
  is_silent : Tells ([], none) panic

stats_result-Tells :
    (response : Response) (r : Result Statistics) → Tells response r → stats_result response ≡ r
stats_result-Tells response r (shows {s = s} before after v w x p a i j k) =
    parse_testpmd_stats-shown_lines before s v w x after p a i j k
stats_result-Tells response r fails = refl
stats_result-Tells response r is_silent = refl

-- The command for the statistics, with the prompt expected behind its echo.
abbrev pub show_batch : List Batcher
show_batch = echoed ((codes "show fwd stats all\n", codes "testpmd> ") ∷ [])

-- The calls on the console that is opened for the command, and closed behind it.
abbrev pub session : Expecter → History → History
session e h =
    Call.close e.vmi_name
    ∷ Call.expect_batch e.vmi_name show_batch 30
    ∷ Call.spawn e.vmi_name
    ∷ Call.serial_console e.vmi_namespace e.vmi_name 30
    ∷ h

module _ (env : Env) where
  -- What the console answers to the command for the statistics, expected behind its echo, once it is
  -- open.
  abbrev pub answer : TestpmdConsole → History → Response
  answer t h =
      let e = t.console_expecter in
      env.expect_batch
        (Call.spawn e.vmi_name ∷ Call.serial_console e.vmi_namespace e.vmi_name 30 ∷ h) e.vmi_name
        show_batch 30

  -- On a console that opens, the call returns the statistics that testpmd shows in the first output
  -- behind the echo of the command, whatever the counters and the padding of their columns are; the
  -- error of the batch, also beside an output; and it panics if there is no output and no error. The
  -- console is closed in each case.
  pub get_stats-Tells :
      (t : TestpmdConsole) (h : History) (r : Result Statistics)
      → env.serial_console h t.console_expecter.vmi_namespace t.console_expecter.vmi_name 30 ≡ none
      → env.spawn
          (Call.serial_console t.console_expecter.vmi_namespace t.console_expecter.vmi_name 30 ∷ h)
          t.console_expecter.vmi_name
        ≡ none
      → Tells (answer t h) r
      → get_stats env t h ≡ (r, session t.console_expecter h)
  unfolding get_stats
  get_stats-Tells t h r opens runs told =
      ap (λ (p : Response × History). (stats_result p.0, p.1))
        (safe_expect_batch_with_response-script env t.console_expecter
          (codes "show fwd stats all\n", codes "testpmd> ") [] 30 h opens runs)
      ∙ λ i. (stats_result-Tells (answer t h) r told i, session t.console_expecter h)
