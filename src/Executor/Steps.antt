-- ===== src/Executor/Steps.antt =====
-- The steps of an execution that returns results.
use kubevirt_dpdk_checkup.Base.{ℕ, ◌≡◌, refl, sym, ap, Bytes, codes, ℤ, ◌↔◌}
use kubevirt_dpdk_checkup.Go.Error.{Error}
use kubevirt_dpdk_checkup.Go.Act.{Act, Result, ok, err, panic, map_err, pure}
use kubevirt_dpdk_checkup.Go.Sequence.{◌>>=◌, then-inv, then-step}
use kubevirt_dpdk_checkup.Go.Context.{Context}
use kubevirt_dpdk_checkup.World.{Env, History}
use kubevirt_dpdk_checkup.World.Poll.{Poller}
use kubevirt_dpdk_checkup.Status.{Results}
use kubevirt_dpdk_checkup.Testpmd.{Statistics}
use kubevirt_dpdk_checkup.Testpmd.Console as TestpmdConsole
use kubevirt_dpdk_checkup.Trex.Types.{PortStats}
use kubevirt_dpdk_checkup.Trex.Client.{
  Client, Decoder, start_server, start_traffic, source_port, dest_port,
}
use kubevirt_dpdk_checkup.Trex.Client as TrexClient
use kubevirt_dpdk_checkup.Trex.Client.Stats.{
  wait_for_server_to_be_ready, get_port_stats, with_error,
}
use kubevirt_dpdk_checkup.Executor.{
  Executor, Floats, totals, monitor_drop_rates, calculate_stats, execute, on_vmi, log_in_on,
  print_kernel_args, client_of, testpmd_of,
}

module _ {A : Type 0} where
  ok-injective : {x y : A} → ok x ≡ ok y → x ≡ y
  ok-injective h = cc

  map_err-inv : (f : Error → Error) (r : Result A) (a : A) → map_err f r ≡ ok a → r ≡ ok a
  map_err-inv f (ok b) a h = h
  map_err-inv f (err e) a h = cc
  map_err-inv f panic a h = cc

  -- A step whose error is wrapped succeeds with the step.
  with_error_iff :
      (f : Error → Error) (m : Act History A) (h : History) (a : A) (t : History)
      → (with_error f m h ≡ (ok a, t)) ↔ (m h ≡ (ok a, t))
  with_error_iff f m h a t = (
    λ e i. (
      map_err-inv f (m h).0 a (ap (λ (p : Result A × History). p.0) e) i,
      ap (λ (p : Result A × History). p.1) e i,
    ),
    λ e. rw e,
  )

  pure-inv : (a b : A) (h end : History) → pure a h ≡ (ok b, end) → (b ≡ a) × (h ≡ end)
  pure-inv a b h end k = (
    ok-injective (sym (ap (λ (p : Result A × History). p.0) k)),
    ap (λ (p : Result A × History). p.1) k,
  )

  -- The text that a step prints is dropped.
  told_iff :
      (f : Error → Error) (m : Act History A) (h t : History)
      → ((with_error f m >>= λ _. pure tt) h ≡ (ok tt, t)) ↔ ((a : A) × (m h ≡ (ok a, t)))
  told_iff f m h t = (
    λ k.
        then-inv (with_error f m) _ h tt t k
          λ a h' e q. (a, (with_error_iff f m h a t).0 (rw (tail_inv h' t q) at e)),
    λ (a, e). then-step (with_error f m) _ h _ ((with_error_iff f m h a t).1 e) refl,
  )
    where
      tail_inv :
          (h' t : History) → ◌≡◌ {A = Result (Unit {0}) × History} (ok tt, h') (ok tt, t) → h' ≡ t
      tail_inv h' t q = ap (λ (p : Result (Unit {0}) × History). p.1) q

module _ {F : Type 0} (env : Env) (poller : Poller) (decoder : Decoder F) (floats : Floats F)
    (seconds : ℤ → ℕ) (e : Executor) (ctx : Context) (vm_name tg_name : Bytes) where
  abbrev c : Client
  c = client_of env poller decoder floats seconds e tg_name

  abbrev not_started : Error → Error
  not_started =
      on_vmi (codes "failed to Start to Trex Service on VMI ") e.namespace tg_name (codes ": ")

  abbrev not_cleared : Error → Error
  not_cleared =
      on_vmi (codes "failed to clear trex stats on traffic generator VMI ") e.namespace tg_name
        (codes " side: ")

  abbrev no_traffic : Error → Error
  no_traffic =
      on_vmi (codes "failed to run traffic from traffic generator VMI ") e.namespace tg_name
        (codes " side: ")

  abbrev t : TestpmdConsole.TestpmdConsole
  t = testpmd_of env poller decoder floats seconds e vm_name

  -- The histories between the steps of an execution, and what each step did: the logins, the print,
  -- the start of the server and the wait for it, testpmd's start, both resets of the counters, the
  -- traffic, the watch over it, and the three statistics of which the results are made.
  pub record Executed (h : History) (x : Results) (end : History) : Type 0 where
    pub vm_logged_in : History
    pub tg_logged_in : History
    pub printed : History
    pub started : History
    pub ready : History
    pub forwarding : History
    pub testpmd_cleared : History
    pub trex_cleared : History
    pub flowing : History
    pub watched : History
    pub source_read : History
    pub dest_read : History
    pub cleared : Bytes
    pub told : Bytes
    pub rate : F
    pub source : PortStats F
    pub dest : PortStats F
    pub stats : Statistics
    pub logs_in_vm : log_in_on env poller decoder floats seconds e vm_name h ≡ (ok tt, vm_logged_in)
    pub logs_in_tg :
        log_in_on env poller decoder floats seconds e tg_name vm_logged_in ≡ (ok tt, tg_logged_in)
    pub prints :
        print_kernel_args env poller decoder floats seconds e.verbose_prints_enabled
          t.console_expecter c.console_expecter tg_logged_in
        ≡ (ok tt, printed)
    pub starts : start_server env c printed ≡ (ok tt, started)
    pub waits : wait_for_server_to_be_ready env poller c ctx started ≡ (ok tt, ready)
    pub forwards : TestpmdConsole.run env t ready ≡ (ok tt, forwarding)
    pub clears_testpmd : TestpmdConsole.clear_stats env t forwarding ≡ (ok tt, testpmd_cleared)
    pub clears_trex : TrexClient.clear_stats env c testpmd_cleared ≡ (ok cleared, trex_cleared)
    pub flows : start_traffic env c source_port trex_cleared ≡ (ok told, flowing)
    pub watches :
        monitor_drop_rates env poller decoder floats seconds e ctx c flowing ≡ (ok rate, watched)
    pub reads_source : get_port_stats env decoder c source_port watched ≡ (ok source, source_read)
    pub reads_dest : get_port_stats env decoder c dest_port source_read ≡ (ok dest, dest_read)
    pub reads_testpmd : TestpmdConsole.get_stats env t dest_read ≡ (ok stats, end)
    pub counts : x ≡ totals source dest stats

  calculate_stats-inv :
      {P : Type 0} (h : History) (x : Results) (end : History)
      → calculate_stats env poller decoder floats seconds c t h ≡ (ok x, end)
      → ((a b : PortStats F) (s : Statistics) (h₁ h₂ : History)
          → get_port_stats env decoder c source_port h ≡ (ok a, h₁)
          → get_port_stats env decoder c dest_port h₁ ≡ (ok b, h₂)
          → TestpmdConsole.get_stats env t h₂ ≡ (ok s, end)
          → x ≡ totals a b s
          → P)
      → P
  unfolding calculate_stats
  calculate_stats-inv h x end k p = then-inv _ _ h x end k λ a h₁ e₁ k₁.
      then-inv _ _ h₁ x end k₁ λ b h₂ e₂ k₂. then-inv _ _ h₂ x end k₂ λ s h₃ e₃ k₃.
        let (same, here) = pure-inv (totals a b s) x h₃ end k₃ in
        p a b s h₁ h₂ e₁ e₂ (rw here at e₃) same

  execute-Executed :
      (h : History) (x : Results) (end : History)
      → execute env poller decoder floats seconds e ctx vm_name tg_name h ≡ (ok x, end)
      → Executed h x end
  unfolding execute
  execute-Executed h x end k = then-inv _ _ h x end k λ _ h₁ e₁ k₁.
      then-inv _ _ h₁ x end k₁ λ _ h₂ e₂ k₂. then-inv _ _ h₂ x end k₂ λ _ h₃ e₃ k₃.
        then-inv _ _ h₃ x end k₃ λ _ h₄ e₄ k₄. then-inv _ _ h₄ x end k₄ λ _ h₅ e₅ k₅.
          then-inv _ _ h₅ x end k₅ λ _ h₆ e₆ k₆. then-inv _ _ h₆ x end k₆ λ _ h₇ e₇ k₇.
            then-inv _ _ h₇ x end k₇ λ _ h₈ e₈ k₈. then-inv _ _ h₈ x end k₈ λ _ h₉ e₉ k₉.
              then-inv _ _ h₉ x end k₉ λ rate h₁₀ e₁₀ k₁₀.
                calculate_stats-inv h₁₀ x end k₁₀ λ a b s g₁ g₂ f₁ f₂ f₃ same.
                  let (cleared, clears) =
                    (told_iff not_cleared (TrexClient.clear_stats env c) h₇ h₈).0 e₈ in
                  let (told, flows) =
                    (told_iff no_traffic (start_traffic env c source_port) h₈ h₉).0 e₉ in
                  record {
                    vm_logged_in = h₁;
                    tg_logged_in = h₂;
                    printed = h₃;
                    started = h₄;
                    ready = h₅;
                    forwarding = h₆;
                    testpmd_cleared = h₇;
                    trex_cleared = h₈;
                    flowing = h₉;
                    watched = h₁₀;
                    source_read = g₁;
                    dest_read = g₂;
                    cleared = cleared;
                    told = told;
                    rate = rate;
                    source = a;
                    dest = b;
                    stats = s;
                    logs_in_vm = e₁;
                    logs_in_tg = e₂;
                    prints = e₃;
                    starts = (with_error_iff not_started (start_server env c) h₃ tt h₄).0 e₄;
                    waits =
                        (with_error_iff not_started (wait_for_server_to_be_ready env poller c ctx)
                            h₄ tt h₅).0
                          e₅;
                    forwards = e₆;
                    clears_testpmd = e₇;
                    clears_trex = clears;
                    flows = flows;
                    watches = e₁₀;
                    reads_source = f₁;
                    reads_dest = f₂;
                    reads_testpmd = f₃;
                    counts = same;
                  }

  calculate_stats-of_steps :
      (h : History) (a b : PortStats F) (s : Statistics) (h₁ h₂ end : History)
      → get_port_stats env decoder c source_port h ≡ (ok a, h₁)
      → get_port_stats env decoder c dest_port h₁ ≡ (ok b, h₂)
      → TestpmdConsole.get_stats env t h₂ ≡ (ok s, end)
      → calculate_stats env poller decoder floats seconds c t h ≡ (ok (totals a b s), end)
  unfolding calculate_stats
  calculate_stats-of_steps h a b s h₁ h₂ end e₁ e₂ e₃ =
      then-step _ _ h _ e₁ (then-step _ _ h₁ _ e₂ (then-step _ _ h₂ _ e₃ refl))

  Executed-execute :
      (h : History) (x : Results) (end : History)
      → Executed h x end
      → execute env poller decoder floats seconds e ctx vm_name tg_name h ≡ (ok x, end)
  unfolding execute
  Executed-execute h x end p = then-step _ _ h _ p.logs_in_vm (
      then-step _ _ p.vm_logged_in _ p.logs_in_tg (
        then-step _ _ p.tg_logged_in _ p.prints (
          then-step _ _ p.printed _
            ((with_error_iff not_started (start_server env c) p.printed tt p.started).1 p.starts)
            (then-step _ _ p.started _
              ((with_error_iff not_started (wait_for_server_to_be_ready env poller c ctx) p.started
                  tt p.ready).1
                p.waits)
              (then-step _ _ p.ready _ p.forwards (
                then-step _ _ p.forwarding _ p.clears_testpmd (
                  then-step _ _ p.testpmd_cleared _
                    ((told_iff not_cleared (TrexClient.clear_stats env c) p.testpmd_cleared
                        p.trex_cleared).1
                      (p.cleared, p.clears_trex))
                    (then-step _ _ p.trex_cleared _
                      ((told_iff no_traffic (start_traffic env c source_port) p.trex_cleared
                          p.flowing).1
                        (p.told, p.flows))
                      (then-step _ _ p.flowing _ p.watches (
                        rw p.counts (
                          calculate_stats-of_steps p.watched p.source p.dest p.stats p.source_read
                            p.dest_read end p.reads_source p.reads_dest p.reads_testpmd)))))))))))

  -- An execution returns results exactly if each of its steps succeeds, in their order and each on
  -- the history that the one before leaves: both logins, the start of the server and the wait for
  -- it, testpmd's start, the resets of testpmd's and of TRex's counters, the traffic from the source
  -- port and the watch over it, and the reads of both ports and of testpmd. The results are the
  -- totals of these three.
  pub execute_iff :
      (h : History) (x : Results) (end : History)
      → (execute env poller decoder floats seconds e ctx vm_name tg_name h ≡ (ok x, end))
        ↔ Executed h x end
  execute_iff h x end = (execute-Executed h x end, Executed-execute h x end)
