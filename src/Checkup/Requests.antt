-- ===== src/Checkup/Requests.antt =====
-- The methods of `Checkup` that call the cluster: the requests, the two waits, and `cleanupVMI`.
use kubevirt_dpdk_checkup.Base.{
  Bool, true, false, ◌&&◌, Option, none, some, ◌⊎◌, inl, inr, List, [], ◌∷◌, ◌++◌, Bytes, codes,
  bytes_eq, if◌then◌else◌,
}
use kubevirt_dpdk_checkup.Go.Error.{Error, new, message, is_not_found}
use kubevirt_dpdk_checkup.Go.Act.{Act, Result, ok, err, panic, on_err}
use kubevirt_dpdk_checkup.Go.Context.{Context, background, with_timeout}
use kubevirt_dpdk_checkup.Go.Fmt.{quote}
use kubevirt_dpdk_checkup.Api.{Vmi, Condition, ConfigMap}
use kubevirt_dpdk_checkup.World.{Env, Call, History, from_answer, succeeded, from_error}
use kubevirt_dpdk_checkup.World.Poll.{Poller}
use kubevirt_dpdk_checkup.Checkup.State.{State, object_full_name}

-- A call with no result, made from the checkup's state.
abbrev pub request : (History → Option Error) → Call → Act State (Unit {0})
request answer call s = (from_error (answer s.history), record s { history = call ∷ s.history })

-- `_, err := …; return err`.
abbrev pub made : {A : Type 0} → Error ⊎ A → Result (Unit {0})
made (inl e) = err e
made (inr a) = ok tt

-- The readiness loop over the conditions.
unfoldable pub is_ready : List Condition → Bool
unfolding bytes_eq
is_ready [] = false
is_ready (c ∷ cs) =
    if bytes_eq c.type (codes "Ready") && bytes_eq c.status (codes "True")
    then true
    else is_ready cs

-- The error of a wait that did not end well.
abbrev wait_failed : Bytes → Bytes → Bytes → Error → Error
wait_failed namespace name what e = new (
    codes "failed to wait for VMI "
    ++ (quote (object_full_name namespace name) ++ (what ++ (codes ": " ++ message e))))

-- The variable `updatedVMI` that the condition function captures, beside the state.
pub record Waiting : Type 0 where
  pub updated : Option Vmi
  pub state : State

abbrev pub ready_result : Bytes → Bytes → Result (Unit {0}) × Waiting → Result (Option Vmi) × State
ready_result namespace name (ok _, w) = (ok w.updated, w.state)
ready_result namespace name (err e, w) =
    (err (wait_failed namespace name (codes " to be ready") e), w.state)
ready_result namespace name (panic, w) = (panic, w.state)

abbrev pub deletion_result : Result Vmi → Result Bool
deletion_result (ok vmi) = ok false
deletion_result (err e) = if is_not_found e then ok true else err e
deletion_result panic = panic

-- The variable is assigned before the error is looked at; beside an error the client returns no
-- instance.
abbrev pub read_ready : Result Vmi → State → Waiting → Result Bool × Waiting
read_ready (ok vmi) s w = (ok (is_ready vmi.conditions), record { updated = some vmi; state = s })
read_ready (err e) s w = (err e, record { updated = none; state = s })
read_ready panic s w = (panic, record w { state = s })

module _ (env : Env) where
  unfoldable pub create_config_map : Context → ConfigMap → Act State (Unit {0})
  create_config_map ctx config_map s =
      let answer = env.create_config_map s.history ctx s.checkup.namespace config_map in
      (
        made answer,
        record s {
          history =
              Call.create_config_map ctx s.checkup.namespace config_map (succeeded answer)
              ∷ s.history;
        },
      )

  unfoldable pub delete_config_map : Context → ConfigMap → Act State (Unit {0})
  delete_config_map ctx config_map s =
      request (λ h. env.delete_config_map h ctx s.checkup.namespace config_map.name)
        (Call.delete_config_map ctx s.checkup.namespace config_map.name) s

  unfoldable pub create_vmi : Context → Vmi → Act State (Unit {0})
  create_vmi ctx vmi s =
      let answer = env.create_vmi s.history ctx s.checkup.namespace vmi in
      (
        made answer,
        record s {
          history = Call.create_vmi ctx s.checkup.namespace vmi (succeeded answer) ∷ s.history;
        },
      )

  unfoldable pub delete_vmi : Context → Bytes → Act State (Unit {0})
  delete_vmi ctx name s =
      request (λ h. env.delete_vmi h ctx s.checkup.namespace name)
        (Call.delete_vmi ctx s.checkup.namespace name) s

  unfoldable pub get_vmi : Context → Bytes → Act State Vmi
  get_vmi ctx name s = (
    from_answer (env.get_vmi s.history ctx s.checkup.namespace name),
    record s { history = Call.get_vmi ctx s.checkup.namespace name ∷ s.history },
  )

  -- The condition function of `waitForVMIToBeReady`.
  unfoldable pub ready_condition : Context → Bytes → Act Waiting Bool
  unfolding get_vmi is_ready
  ready_condition ctx name w = let (r, s) = get_vmi ctx name w.state in read_ready r s w

  -- The condition function of `waitForVMIDeletion`.
  unfoldable pub deletion_condition : Context → Bytes → Act State Bool
  unfolding get_vmi is_not_found
  deletion_condition ctx name s = let (r, t) = get_vmi ctx name s in (deletion_result r, t)

module _ (env : Env) (poller : Poller) where
  -- `waitForVMIToBeReady`; the pointer that it returns is nil only if no instance was read.
  unfoldable pub wait_for_vmi_to_be_ready : Context → Bytes → Act State (Option Vmi)
  unfolding ready_condition
  wait_for_vmi_to_be_ready ctx name s = ready_result s.checkup.namespace name (
      poller.poll Waiting ctx 5 (ready_condition env ctx name)
        (record { updated = none; state = s }))

  unfoldable pub wait_for_vmi_deletion : Context → Bytes → Act State (Unit {0})
  unfolding deletion_condition
  wait_for_vmi_deletion ctx name s =
      on_err (wait_failed s.checkup.namespace name (codes " to be deleted"))
        (poller.poll State ctx 5 (deletion_condition env ctx name)) s

  -- `cleanupVMI`, under a context of its own; its errors are only logged.
  unfoldable pub cleanup_vmi : Bytes → State → State
  unfolding delete_vmi
  cleanup_vmi name s =
      let ctx = with_timeout background 30 in
      (wait_for_vmi_deletion ctx name (delete_vmi env ctx name s).1).1
