-- ===== src/Checkup/Frame.antt =====
-- What each request does to the instances that are asked for and not asked to be deleted.
use kubevirt_dpdk_checkup.Base.{
  ◌≡◌, ◌≢◌, refl, ap, ◌∙◌, true, none, ◌⊎◌, inl, inr, List, [], ◌∷◌, Bytes, bytes_eq, bytes_eq_iff,
  bytes_eq_refl, if◌then◌else◌, All, arith,
}
use kubevirt_dpdk_checkup.Go.Error.{Error}
use kubevirt_dpdk_checkup.Go.Act.{Result, ok, err, panic}
use kubevirt_dpdk_checkup.Go.Context.{Context, background, with_timeout}
use kubevirt_dpdk_checkup.Api.{Vmi, ConfigMap}
use kubevirt_dpdk_checkup.World.{Env, Call, History, answer-cases}
use kubevirt_dpdk_checkup.World.Poll.{Poller, PollRun-keeps}
use kubevirt_dpdk_checkup.Checkup.State.{Checkup, State}
use kubevirt_dpdk_checkup.Checkup.Requests.{
  create_config_map, delete_config_map, create_vmi, delete_vmi, get_vmi, wait_for_vmi_to_be_ready,
  wait_for_vmi_deletion, cleanup_vmi, ready_condition, deletion_condition, Waiting, read_ready,
  ready_result,
}

-- The names without one of them.
unfoldable pub remove : Bytes → List Bytes → List Bytes
remove name [] = []
remove name (n ∷ ns) = let rest = remove name ns in if bytes_eq n name then rest else n ∷ rest

-- The instances that were created, less those whose deletion was asked for later. The calls stand
-- with the latest first.
unfoldable pub undeleted : History → List Bytes
unfolding remove
undeleted [] = []
undeleted (Call.create_vmi ctx ns vmi true ∷ h) = vmi.name ∷ undeleted h
undeleted (Call.delete_vmi ctx ns name ∷ h) = remove name (undeleted h)
undeleted (_ ∷ h) = undeleted h

pub remove_fresh : (name : Bytes) (ns : List Bytes) → All (λ n. n ≢ name) ns → remove name ns ≡ ns
unfolding remove
remove_fresh name [] h = refl
remove_fresh name (n ∷ ns) h = ground (arith, bytes_eq_iff n name, remove_fresh name ns h.1, h.0)

pub remove_cons : (name : Bytes) (ns : List Bytes) → remove name (name ∷ ns) ≡ remove name ns
unfolding remove
remove_cons name ns = rw bytes_eq_refl

-- What the theorems on cleanup follow through a run: the undeleted instances, and the object.
pub record View : Type 0 where
  pub pending : List Bytes
  pub checkup : Checkup

unfoldable pub view : State → View
view s = record { pending = undeleted s.history; checkup = s.checkup }

pub pending_of : {s t : View} → s ≡ t → s.pending ≡ t.pending
pending_of e = ap (λ (w : View). w.pending) e

pub checkup_of : {s t : View} → s ≡ t → s.checkup ≡ t.checkup
checkup_of e = ap (λ (w : View). w.checkup) e

read_ready-state : (r : Result Vmi) (s : State) (w : Waiting) → (read_ready r s w).1.state ≡ s
read_ready-state (ok vmi) s w = refl
read_ready-state (err e) s w = refl
read_ready-state panic s w = refl

ready_result-state :
    (namespace name : Bytes) (r : Result (Unit {0})) (w : Waiting)
    → (ready_result namespace name (r, w)).1 ≡ w.state
ready_result-state namespace name (ok _) w = refl
ready_result-state namespace name (err e) w = refl
ready_result-state namespace name panic w = refl

-- The state in which a wait for readiness starts.
abbrev pub waiting : State → Waiting
waiting s = record { updated = none; state = s }

module _ (env : Env) where
  pub create_config_map-view :
      (ctx : Context) (m : ConfigMap) (s : State) → view (create_config_map env ctx m s).1 ≡ view s
  unfolding create_config_map view undeleted
  create_config_map-view ctx m s = refl

  pub create_config_map-cases :
      (ctx : Context) (m : ConfigMap) (s : State)
      → ((create_config_map env ctx m s).0 ≡ ok tt)
        ⊎ ((e : Error) × ((create_config_map env ctx m s).0 ≡ err e))
  unfolding create_config_map
  create_config_map-cases ctx m s =
      elim (answer-cases (env.create_config_map s.history ctx s.checkup.namespace m)) [
        | inl (e, p) ↦ inr (e, rw p)
        | inr (v, p) ↦ inl (rw p)
      ]

  pub delete_config_map-view :
      (ctx : Context) (m : ConfigMap) (s : State) → view (delete_config_map env ctx m s).1 ≡ view s
  unfolding delete_config_map view undeleted
  delete_config_map-view ctx m s = refl

  pub delete_vmi-view :
      (ctx : Context) (name : Bytes) (s : State)
      → view (delete_vmi env ctx name s).1
        ≡ record (view s) { pending = remove name (undeleted s.history) }
  unfolding delete_vmi view undeleted
  delete_vmi-view ctx name s = refl

  -- A creation either succeeds and adds its name, or fails and adds nothing.
  pub create_vmi-undeleted :
      (ctx : Context) (vmi : Vmi) (s : State)
      → ((create_vmi env ctx vmi s).0 ≡ ok tt
          × (undeleted (create_vmi env ctx vmi s).1.history ≡ vmi.name ∷ undeleted s.history))
        ⊎ ((e : Error) × ((create_vmi env ctx vmi s).0 ≡ err e)
            × (undeleted (create_vmi env ctx vmi s).1.history ≡ undeleted s.history))
  unfolding create_vmi undeleted
  create_vmi-undeleted ctx vmi s =
      elim (answer-cases (env.create_vmi s.history ctx s.checkup.namespace vmi)) [
        | inl (e, p) ↦ inr (e, rw p, rw p)
        | inr (v, p) ↦ inl (rw p, rw p)
      ]

  get_vmi-view :
      (ctx : Context) (name : Bytes) (s : State) → view (get_vmi env ctx name s).1 ≡ view s
  unfolding get_vmi view undeleted
  get_vmi-view ctx name s = refl

  ready_condition-view :
      (ctx : Context) (name : Bytes) (w : Waiting)
      → view (ready_condition env ctx name w).1.state ≡ view w.state
  unfolding ready_condition
  ready_condition-view ctx name w =
      ap view (read_ready-state (get_vmi env ctx name w.state).0 (get_vmi env ctx name w.state).1 w)
      ∙ get_vmi-view ctx name w.state

  deletion_condition-view :
      (ctx : Context) (name : Bytes) (s : State)
      → view (deletion_condition env ctx name s).1 ≡ view s
  unfolding deletion_condition view undeleted
  deletion_condition-view ctx name s = refl

module _ (env : Env) (poller : Poller) where
  pub wait_for_vmi_to_be_ready-view :
      (ctx : Context) (name : Bytes) (s : State)
      → view (wait_for_vmi_to_be_ready env poller ctx name s).1 ≡ view s
  wait_for_vmi_to_be_ready-view ctx name s =
      unfold wait_for_vmi_to_be_ready in
      ap view (
        ready_result-state s.checkup.namespace name
          (poller.poll Waiting ctx 5 (ready_condition env ctx name) (waiting s)).0
          (poller.poll Waiting ctx 5 (ready_condition env ctx name) (waiting s)).1)
      ∙ PollRun-keeps (λ w. view w.state) (ready_condition-view env ctx name)
          (poller.poll_lem Waiting ctx 5 (ready_condition env ctx name) (waiting s))

  pub wait_for_vmi_deletion-view :
      (ctx : Context) (name : Bytes) (s : State)
      → view (wait_for_vmi_deletion env poller ctx name s).1 ≡ view s
  wait_for_vmi_deletion-view ctx name s =
      unfold wait_for_vmi_deletion in
      PollRun-keeps view (deletion_condition-view env ctx name)
        (poller.poll_lem State ctx 5 (deletion_condition env ctx name) s)

  pub cleanup_vmi-view :
      (name : Bytes) (s : State)
      → view (cleanup_vmi env poller name s)
        ≡ record (view s) { pending = remove name (undeleted s.history) }
  cleanup_vmi-view name s =
      unfold cleanup_vmi in
      wait_for_vmi_deletion-view (with_timeout background 30) name
        (delete_vmi env (with_timeout background 30) name s).1
      ∙ delete_vmi-view env (with_timeout background 30) name s
