-- ===== src/Checkup/Lifecycle.antt =====
-- `Setup`, `Run` and `Teardown` of pkg/internal/checkup/checkup.go.
use kubevirt_dpdk_checkup.Base.{
  not, ◌||◌, Option, none, some, List, [], ◌∷◌, ◌++◌, Bytes, codes, if◌then◌else◌, pos, ◌==ℤ◌,
}
use kubevirt_dpdk_checkup.Go.Error.{Error, new, wrap, message}
use kubevirt_dpdk_checkup.Go.Act.{Act, Result, ok, err, panic, ◌>>=◌, ◌>>◌, on_err}
use kubevirt_dpdk_checkup.Go.Context.{Context, with_timeout}
use kubevirt_dpdk_checkup.Go.Strings.{join}
use kubevirt_dpdk_checkup.Go.Strconv.{format_int}
use kubevirt_dpdk_checkup.Api.{Vmi}
use kubevirt_dpdk_checkup.World.{Env, History}
use kubevirt_dpdk_checkup.World.Poll.{Poller}
use kubevirt_dpdk_checkup.Status.{Results, empty_results}
use kubevirt_dpdk_checkup.Checkup.State.{Checkup, State}
use kubevirt_dpdk_checkup.Checkup.Requests.{
  create_config_map, delete_config_map, create_vmi, delete_vmi, wait_for_vmi_to_be_ready,
  wait_for_vmi_deletion, cleanup_vmi,
}

-- `defer func() { if setupErr != nil { … } }()`. A panic leaves `setupErr` nil.
abbrev pub defer_on_err : {S A : Type 0} → (S → S) → Result A × S → Result A × S
defer_on_err cleanup (ok a, s) = (ok a, s)
defer_on_err cleanup (err e, s) = (err e, cleanup s)
defer_on_err cleanup (panic, s) = (panic, s)

abbrev pub setup_failed : Error → Error
setup_failed e = wrap (codes "setup: ") e []

abbrev pub put_vmi_under_test : Checkup → Vmi → Checkup
put_vmi_under_test c vmi = record c { vmi_under_test = vmi }

abbrev pub put_traffic_gen : Checkup → Vmi → Checkup
put_traffic_gen c vmi = record c { traffic_gen = vmi }

-- A nil instance is not read before the waits are over; reading it would panic.
abbrev keep_updated : (Checkup → Vmi → Checkup) → Option Vmi → Act State (Unit {0})
keep_updated put none s = (panic, s)
keep_updated put (some vmi) s = (ok tt, record s { checkup = put s.checkup vmi })

abbrev pub noted : Result (Unit {0}) → Result (List Bytes)
noted (ok _) = ok []
noted (err e) = ok ((codes "teardown: " ++ message e) ∷ [])
noted panic = panic

-- One step of `Teardown`: an error is noted, and the next step follows.
abbrev pub attempt : Act State (Unit {0}) → Act State (List Bytes)
attempt m s = (noted (m s).0, (m s).1)

abbrev pub teardown_result : List Bytes → Result (Unit {0})
teardown_result [] = ok tt
teardown_result (e ∷ es) = err (new (codes "teardown: " ++ join (codes ", ") (e ∷ es)))

-- The checks on the results of an execution, in their order.
unfoldable pub verdict : Results → Result (Unit {0})
unfolding format_int
verdict r =
    if r.traffic_gen_sent_packets ==ℤ pos 0
    then err (new (codes "no packets were sent from the traffic generator"))
    else if not (r.traffic_gen_output_error_packets ==ℤ pos 0)
        || not (r.traffic_gen_input_error_packets ==ℤ pos 0)
    then err (
        new (
          codes "detected Error Packets on the traffic generator's side: Oerrors "
          ++ (format_int r.traffic_gen_output_error_packets
              ++ (codes " Ierrors " ++ format_int r.traffic_gen_input_error_packets))))
    else if not (r.vm_under_test_rx_dropped_packets ==ℤ pos 0)
        || not (r.vm_under_test_tx_dropped_packets ==ℤ pos 0)
    then err (
        new (
          codes "detected packets dropped on the VM-Under-Test's side: RX: "
          ++ (format_int r.vm_under_test_rx_dropped_packets
              ++ (codes "; TX: " ++ format_int r.vm_under_test_tx_dropped_packets))))
    else if not (r.traffic_gen_sent_packets ==ℤ r.vm_under_test_received_packets)
    then err (
        new (
          codes "not all generated packets had reached VM-Under-Test: Sent from traffic generator: "
          ++ (format_int r.traffic_gen_sent_packets
              ++ (codes "; Received on VM-Under-Test: "
                  ++ format_int r.vm_under_test_received_packets))))
    else ok tt

-- `Run` behind `Execute`, of which the results are stored beside an error too. They are empty then, as
-- `Execute` of executor.go, the only executor, returns `status.Results{}` with each error.
abbrev pub after_execute : Result Results → State → Result (Unit {0}) × State
after_execute (ok r) s =
    let r' = record r {
      vm_under_test_actual_node_name = s.checkup.vmi_under_test.node_name;
      traffic_gen_actual_node_name = s.checkup.traffic_gen.node_name;
    } in
    (verdict r', record s { checkup = record s.checkup { results = r' } })
after_execute (err e) s =
    (err e, record s { checkup = record s.checkup { results = empty_results } })
after_execute panic s = (panic, s)

-- `Run`; the executor is given the names of the instances.
unfoldable pub run :
    (Context → Bytes → Bytes → Act History Results) → Context → Act State (Unit {0})
run execute ctx s =
    let (r, h) = execute ctx s.checkup.vmi_under_test.name s.checkup.traffic_gen.name s.history in
    after_execute r (record s { history = h })

module _ (env : Env) (poller : Poller) where
  -- One of the two waits of `Setup`, which replaces the instance by what the cluster has.
  unfoldable pub await :
      (Checkup → Vmi) → (Checkup → Vmi → Checkup) → Context → Act State (Unit {0})
  unfolding wait_for_vmi_to_be_ready
  await which put ctx = do
    updated ← (λ s. wait_for_vmi_to_be_ready env poller ctx (which s.checkup).name s)
    keep_updated put updated

  unfoldable pub wait_for_instances : Context → Act State (Unit {0})
  unfolding await
  wait_for_instances ctx = do
    await (λ c. c.vmi_under_test) put_vmi_under_test ctx
    await (λ c. c.traffic_gen) put_traffic_gen ctx

  -- Behind the creation of the traffic generator, with its deferred cleanup.
  unfoldable pub setup_waits : Context → Act State (Unit {0})
  unfolding wait_for_instances cleanup_vmi
  setup_waits ctx s =
      defer_on_err (λ t. cleanup_vmi env poller t.checkup.traffic_gen.name t)
        (wait_for_instances ctx s)

  unfoldable pub setup_traffic_gen : Context → Act State (Unit {0})
  unfolding create_vmi setup_waits
  setup_traffic_gen ctx = do
    on_err setup_failed (λ s. create_vmi env ctx s.checkup.traffic_gen s)
    setup_waits ctx

  -- Behind the creation of the VM under test, with its deferred cleanup.
  unfoldable pub setup_instances : Context → Act State (Unit {0})
  unfolding setup_traffic_gen cleanup_vmi
  setup_instances ctx s =
      defer_on_err (λ t. cleanup_vmi env poller t.checkup.vmi_under_test.name t)
        (setup_traffic_gen ctx s)

  -- `Setup` behind the two ConfigMaps.
  unfoldable pub setup_vmis : Context → Act State (Unit {0})
  unfolding create_vmi setup_instances
  setup_vmis ctx = do
    on_err setup_failed (λ s. create_vmi env ctx s.checkup.vmi_under_test s)
    setup_instances ctx

  -- `Setup`.
  unfoldable pub setup : Context → Act State (Unit {0})
  unfolding create_config_map setup_vmis
  setup ctx =
      let setup_ctx = with_timeout ctx 900 in
      do
        on_err setup_failed
            (λ s. create_config_map env setup_ctx s.checkup.traffic_gen_config_map s)
        on_err setup_failed
            (λ s. create_config_map env setup_ctx s.checkup.vmi_under_test_config_map s)
        setup_vmis setup_ctx

  -- `Teardown`: all six steps, whichever of them fail.
  unfoldable pub teardown : Context → Act State (Unit {0})
  unfolding delete_vmi delete_config_map wait_for_vmi_deletion
  teardown ctx = do
    e₁ ← attempt (λ s. delete_vmi env ctx s.checkup.vmi_under_test.name s)
    e₂ ← attempt (λ s. delete_vmi env ctx s.checkup.traffic_gen.name s)
    e₃ ← attempt (λ s. delete_config_map env ctx s.checkup.traffic_gen_config_map s)
    e₄ ← attempt (λ s. delete_config_map env ctx s.checkup.vmi_under_test_config_map s)
    e₅ ← attempt (λ s. wait_for_vmi_deletion env poller ctx s.checkup.vmi_under_test.name s)
    e₆ ← attempt (λ s. wait_for_vmi_deletion env poller ctx s.checkup.traffic_gen.name s)
    (λ s. (teardown_result (e₁ ++ (e₂ ++ (e₃ ++ (e₄ ++ (e₅ ++ e₆))))), s))
