-- ===== src/Checkup/Cleanup.antt =====
-- `Setup` either leaves both instances ready, or asks for the deletion of each instance that it
-- created.
use kubevirt_dpdk_checkup.Base.{◌≡◌, ◌≢◌, refl, ap, ◌∙◌, inl, inr, List, ◌∷◌, Bytes, All}
use mathlib.Core.Path.{ap₂}
use kubevirt_dpdk_checkup.Go.Act.{Act, Result, ok, err, panic, on_err, ◌>>◌}
use kubevirt_dpdk_checkup.Go.Context.{Context, with_timeout}
use kubevirt_dpdk_checkup.Api.{Vmi, ConfigMap}
use kubevirt_dpdk_checkup.World.{Env}
use kubevirt_dpdk_checkup.World.Poll.{Poller}
use kubevirt_dpdk_checkup.Checkup.State.{Checkup, State}
use kubevirt_dpdk_checkup.Checkup.Requests.{create_config_map, create_vmi, cleanup_vmi}
use kubevirt_dpdk_checkup.Checkup.Frame.{
  View, view, undeleted, remove, create_config_map-view, create_config_map-cases, pending_of,
  checkup_of, create_vmi-undeleted, cleanup_vmi-view,
}
use kubevirt_dpdk_checkup.Checkup.Readiness.{KeepsNames}
use kubevirt_dpdk_checkup.Checkup.Waits.{wait_for_instances-Waited}
use kubevirt_dpdk_checkup.Checkup.Lifecycle.{
  defer_on_err, setup_failed, wait_for_instances, setup_waits, setup_traffic_gen, setup_instances,
  setup_vmis, setup,
}
use kubevirt_dpdk_checkup.Checkup.Outcome.{
  Fresh, Outcome, Outcome-of_Waited, Outcome-with, Outcome-failed, remove_created, Fresh-same,
  Outcome-at,
}

module _ (env : Env) (poller : Poller) where
  abbrev cleanup_of : (Checkup → Vmi) → State → State
  cleanup_of which t = cleanup_vmi env poller (which t.checkup).name t

  cleaned_checkup : (which : Checkup → Vmi) (t : State) → (cleanup_of which t).checkup ≡ t.checkup
  unfolding view
  cleaned_checkup which t =
      ap (λ (w : View). w.checkup) (cleanup_vmi-view env poller (which t.checkup).name t)

  cleaned_pending :
      (which : Checkup → Vmi) (t : State)
      → undeleted (cleanup_of which t).history ≡ remove (which t.checkup).name (undeleted t.history)
  unfolding view
  cleaned_pending which t =
      ap (λ (w : View). w.pending) (cleanup_vmi-view env poller (which t.checkup).name t)

  -- A deferred cleanup takes the name of its instance off what is left behind by an error.
  Outcome-defer :
      (which : Checkup → Vmi) (s : State) (created cleaned : List Bytes)
      (p : Result (Unit {0}) × State)
      → (which p.1.checkup).name ≡ (which s.checkup).name
      → Outcome s.checkup created cleaned p
      → Outcome s.checkup created
          (remove (which s.checkup).name cleaned)
          (defer_on_err (cleanup_of which) p)
  Outcome-defer which s created cleaned (ok tt, t) n o = record {
    returns = o.returns;
    vm = o.vm;
    tg = o.tg;
    on_ok = o.on_ok;
    on_err = λ e q. cc;
  }
  Outcome-defer which s created cleaned (err e, t) n o = record {
    returns = λ q. cc;
    vm = ap (λ (c : Checkup). c.vmi_under_test.name) (cleaned_checkup which t) ∙ o.vm;
    tg = ap (λ (c : Checkup). c.traffic_gen.name) (cleaned_checkup which t) ∙ o.tg;
    on_ok = λ q. cc;
    on_err = λ x q. cleaned_pending which t ∙ rw (n, o.on_err e refl);
  }
  Outcome-defer which s created cleaned (panic, t) n o = absurd (o.returns refl)

  module _ (k : KeepsNames env) (ctx : Context) where
    setup_waits-Outcome :
        (s : State)
        → Outcome s.checkup
            (undeleted s.history)
            (remove s.checkup.traffic_gen.name (undeleted s.history))
            (setup_waits env poller ctx s)
    setup_waits-Outcome s =
        let w = wait_for_instances-Waited env poller k ctx s in
        unfold setup_waits in
        Outcome-defer (λ c. c.traffic_gen) s _ _ (wait_for_instances env poller ctx s) w.kept.tg
          (Outcome-of_Waited s _ w)

    -- The name that a creation added is taken off again by the cleanup behind it.
    setup_traffic_gen-Outcome :
        (s : State)
        → All (λ n. n ≢ s.checkup.traffic_gen.name) (undeleted s.history)
        → Outcome s.checkup
            (s.checkup.traffic_gen.name ∷ undeleted s.history)
            (undeleted s.history)
            (setup_traffic_gen env poller ctx s)
    setup_traffic_gen-Outcome s fresh =
        elim (create_vmi-undeleted env ctx s.checkup.traffic_gen s) [
          | inl (e, w) ↦
              let t = (create_vmi env ctx s.checkup.traffic_gen s).1 in
              unfold setup_traffic_gen in
              rw e (Outcome-with w (remove_created _ _ _ w fresh) (setup_waits-Outcome t))
          | inr (x, e, w) ↦
              unfold setup_traffic_gen in rw e (Outcome-failed s.checkup _ _ refl refl w)
        ]

    setup_instances-Outcome :
        (s : State)
        → All (λ n. n ≢ s.checkup.traffic_gen.name) (undeleted s.history)
        → Outcome s.checkup
            (s.checkup.traffic_gen.name ∷ undeleted s.history)
            (remove s.checkup.vmi_under_test.name (undeleted s.history))
            (setup_instances env poller ctx s)
    setup_instances-Outcome s fresh =
        let o = setup_traffic_gen-Outcome s fresh in
        unfold setup_instances in
        Outcome-defer (λ c. c.vmi_under_test) s _ _ (setup_traffic_gen env poller ctx s) o.vm o

    -- `Setup` behind the two ConfigMaps.
    setup_vm-Outcome :
        (s : State)
        → Fresh s
        → Outcome s.checkup
            (s.checkup.traffic_gen.name ∷ s.checkup.vmi_under_test.name ∷ undeleted s.history)
            (undeleted s.history)
            (setup_vmis env poller ctx s)
    setup_vm-Outcome s fresh = elim (create_vmi-undeleted env ctx s.checkup.vmi_under_test s) [
      | inl (e, w) ↦
          let t = (create_vmi env ctx s.checkup.vmi_under_test s).1 in
          unfold setup_vmis in
          rw e (
            Outcome-with (ap (◌∷◌ s.checkup.traffic_gen.name) w) (remove_created _ _ _ w fresh.vm)
              (setup_instances-Outcome t (rw w (fresh.different, fresh.tg))))
      | inr (x, e, w) ↦ unfold setup_vmis in rw e (Outcome-failed s.checkup _ _ refl refl w)
    ]

    -- One ConfigMap of `Setup`, and what follows it.
    config_map-Outcome :
        (map_of : Checkup → ConfigMap) (rest : Act State (Unit {0})) (created : List Bytes)
        (s : State)
        → ((t : State)
            → t.checkup ≡ s.checkup
            → undeleted t.history ≡ undeleted s.history
            → Outcome s.checkup created (undeleted s.history) (rest t))
        → Outcome s.checkup created
            (undeleted s.history)
            ((on_err setup_failed (λ t. create_config_map env ctx (map_of t.checkup) t) >> rest) s)
    unfolding view
    config_map-Outcome map_of rest created s follows =
        let same = create_config_map-view env ctx (map_of s.checkup) s in
        elim (create_config_map-cases env ctx (map_of s.checkup) s) [
          | inl e ↦ rw e (follows _ (checkup_of same) (pending_of same))
          | inr (x, e) ↦ rw e (
              Outcome-failed s.checkup created (undeleted s.history)
                (ap (λ (c : Checkup). c.vmi_under_test.name) (checkup_of same))
                (ap (λ (c : Checkup). c.traffic_gen.name) (checkup_of same)) (pending_of same))
        ]

-- The undeleted instances once both of the checkup's are created.
abbrev created_from : Checkup → List Bytes → List Bytes
created_from c pending = c.traffic_gen.name ∷ c.vmi_under_test.name ∷ pending

abbrev pub created_by : State → List Bytes
created_by s = created_from s.checkup (undeleted s.history)

-- If the API returns an instance under the name that was asked for, and the checkup's two names
-- differ and neither is that of an undeleted instance, then, whatever else the cluster answers,
-- `Setup` does not panic and keeps both names. If it succeeds, both instances are undeleted beside
-- those from before, and the object holds both as ready. If it fails, at whichever step, each
-- instance that it created was asked to be deleted: the undeleted instances are those from before.
pub setup-Outcome :
    (env : Env) (poller : Poller) (k : KeepsNames env) (ctx : Context) (s : State)
    → Fresh s
    → Outcome s.checkup (created_by s) (undeleted s.history) (setup env poller ctx s)
setup-Outcome env poller k ctx s fresh =
    let inner = with_timeout ctx 900 in
    unfold setup in
    config_map-Outcome env poller k inner (λ c. c.traffic_gen_config_map)
      (on_err setup_failed (λ t. create_config_map env inner t.checkup.vmi_under_test_config_map t)
        >> setup_vmis env poller inner)
      (created_by s) s
      (λ t c h. Outcome-at c h (
        config_map-Outcome env poller k inner (λ d. d.vmi_under_test_config_map)
          (setup_vmis env poller inner) (created_by s) t
          (λ u d i. Outcome-at d i (
            Outcome-with (ap₂ created_from (d ∙ c) (i ∙ h)) refl
              (setup_vm-Outcome env poller k inner u (Fresh-same s u (d ∙ c) (i ∙ h) fresh))))))
