-- ===== src/Trex/Client/Ready.antt =====
-- What the wait for the TRex server has seen when it returns.
use kubevirt_dpdk_checkup.Base.{
  ◌≡◌, refl, sym, ap, Bool, true, false, Option, none, some, [], ◌∷◌, List, Bytes, codes,
  Bool-cases, inl, inr,
}
use kubevirt_dpdk_checkup.Go.Error.{Error, is_wait_timeout}
use kubevirt_dpdk_checkup.Go.Act.{Result, ok, err, panic, and_then-inv}
use kubevirt_dpdk_checkup.Go.Sequence.{then-inv}
use kubevirt_dpdk_checkup.Go.Context.{Context, with_timeout}
use kubevirt_dpdk_checkup.Go.Strings.{contains}
use kubevirt_dpdk_checkup.World.{Env, History}
use kubevirt_dpdk_checkup.World.Poll.{Poller, PollRun-true}
use kubevirt_dpdk_checkup.Console.{Response, safe_expect_batch_with_response}
use kubevirt_dpdk_checkup.Trex.Output.{clean_stdout, check_stdout_for_failures}
use kubevirt_dpdk_checkup.Trex.Client.{
  Client, shell_batch, console_command, output_of, cleaned, failure_checked, running_of,
  run_trex_console_cmd, is_server_running,
}
use kubevirt_dpdk_checkup.Trex.Client.Stats.{
  wait_for_server_to_be_ready, after_poll, not_ready, timed_out,
}

-- What the console returns for a command of TRex.
abbrev pub asked : Env → Client → Bytes → History → Response × History
asked env c command h =
    safe_expect_batch_with_response env c.console_expecter
      (shell_batch (console_command command [])) 30 h

-- A command that the console answered without an error, with at least one output, and without the
-- mark of a failure in its first output.
pub record Answered (env : Env) (c : Client) (command : Bytes) (h : History) (output : Bytes)
    : Type 0 where
  pub first : Bytes
  pub others : List Bytes
  pub responded : (asked env c command h).0 ≡ (first ∷ others, none)
  pub shown : output ≡ clean_stdout first
  pub passed : contains (codes "[FAILED]") output ≡ false

ok-injective : {A : Type 0} {x y : A} → ok x ≡ ok y → x ≡ y
ok-injective h = cc

failed-ne_ok :
    (e : Error) (h t : History) → ◌≡◌ {A = Result (Unit {0}) × History} (err e, h) (ok tt, t) → ⊥
failed-ne_ok e h t k = err_ne (ap (λ (p : Result (Unit {0}) × History). p.0) k)
  where
    err_ne : err e ≡ ok (tt {0}) → ⊥
    err_ne q = cc

output_of-inv :
    (r : Response) (out : Bytes) → output_of r ≡ ok out → (rs : List Bytes) × (r ≡ (out ∷ rs, none))
output_of-inv (rs, some e) out h = cc
output_of-inv ([], none) out h = cc
output_of-inv (r ∷ rs, none) out h = (rs, rw (ok-injective h))

failure_checked-inv :
    (command stdout : Bytes) (o : Option Error) (out : Bytes)
    → failure_checked command stdout o ≡ ok out
    → (out ≡ stdout) × (o ≡ none)
failure_checked-inv command stdout none out h = (sym (ok-injective h), refl)
failure_checked-inv command stdout (some e) out h = cc

unmarked :
    (stdout : Bytes)
    → check_stdout_for_failures stdout ≡ none
    → contains (codes "[FAILED]") stdout ≡ false
unfolding check_stdout_for_failures
unmarked stdout h = elim (Bool-cases (contains (codes "[FAILED]") stdout)) [
  | inl e ↦ absurd (some_ne (rw e at h))
  | inr e ↦ e
]
  where
    some_ne : {e : Error} → some e ≡ none → ⊥
    some_ne q = cc

module _ (env : Env) (c : Client) where
  -- A command of TRex returns an output exactly if it was answered with it.
  pub run_trex_console_cmd-Answered :
      (command : Bytes) (h : History) (out : Bytes)
      → (run_trex_console_cmd env c command h).0 ≡ ok out
      → Answered env c command h out
  unfolding run_trex_console_cmd
  run_trex_console_cmd-Answered command h out k =
      let (first, e, q) =
        and_then-inv (output_of (asked env c command h).0) (cleaned command) out k in
      let (rs, responded) = output_of-inv (asked env c command h).0 first e in
      let (shown, none_found) = failure_checked-inv command (clean_stdout first) _ out q in
      record {
        first = first;
        others = rs;
        responded = responded;
        shown = shown;
        passed = rw shown (unmarked (clean_stdout first) none_found);
      }

  running_of-true :
      (r : Result Bytes)
      → running_of r ≡ ok true
      → (out : Bytes) × (r ≡ ok out) × (contains (codes "Console Commands") out ≡ true)
  running_of-true (ok out) h = (out, refl, ok-injective h)
  running_of-true (err e) h = absurd (false_ne (ok-injective h))
    where
      false_ne : false ≡ true → ⊥
      false_ne q = cc
  running_of-true panic h = cc

  timed_out-fails : (verbose : Bool) (h t : History) → timed_out env verbose c h ≡ (ok tt, t) → ⊥
  timed_out-fails false h t k = failed-ne_ok _ h t k
  timed_out-fails true h t k = then-inv _ _ h tt t k (λ a u e q. failed-ne_ok _ u t q)

  not_ready-fails :
      (timeout : Bool) (e : Error) (h t : History) → not_ready env timeout e c h ≡ (ok tt, t) → ⊥
  not_ready-fails false e h t k = failed-ne_ok e h t k
  not_ready-fails true e h t k = timed_out-fails c.verbose_prints_enabled h t k

  after_poll-ok :
      (r : Result (Unit {0})) (h t : History) → after_poll env c r h ≡ (ok tt, t) → r ≡ ok tt
  after_poll-ok (ok tt) h t k = refl
  after_poll-ok (err e) h t k = absurd (not_ready-fails (is_wait_timeout e) e h t k)
  after_poll-ok panic h t k = ap (λ (p : Result (Unit {0}) × History). p.0) k

  -- If the wait for the server returns no error, whatever the console did before, the console has
  -- answered a help command without an error and without the mark of a failure, and the cleaned
  -- output has the console's list of commands in it.
  pub wait_for_server_to_be_ready-Answered :
      (poller : Poller) (ctx : Context) (h : History)
      → (wait_for_server_to_be_ready env poller c ctx h).0 ≡ ok tt
      → (u : History) × (out : Bytes) × Answered env c (codes "help") u out
        × (contains (codes "Console Commands") out ≡ true)
  unfolding wait_for_server_to_be_ready is_server_running
  wait_for_server_to_be_ready-Answered poller ctx h k =
      let inner = with_timeout ctx 60 in
      let polled = poller.poll History inner 5 (is_server_running env c) h in
      let good =
        after_poll-ok polled.0 polled.1 _ (λ i. (k i, (after_poll env c polled.0 polled.1).1)) in
      let (u, e) =
        PollRun-true (poller.poll_lem History inner 5 (is_server_running env c) h) good in
      let (out, ran, listed) =
        running_of-true (run_trex_console_cmd env c (codes "help") u).0
          (ap (λ (p : Result Bool × History). p.0) e) in
      (u, out, run_trex_console_cmd-Answered (codes "help") u out ran, listed)
