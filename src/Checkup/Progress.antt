-- ===== src/Checkup/Progress.antt =====
-- On a cluster that serves its requests in time, `Setup` and `Teardown` come to a good end.
use kubevirt_dpdk_checkup.Base.{ℕ, suc, ◌≡◌, refl, ap, true, false, some, inr, ◌∷◌, Bytes}
use mathlib.Core.List.{Memᴰ}
use kubevirt_dpdk_checkup.Go.Act.{Result, ok, err, panic}
use kubevirt_dpdk_checkup.Go.Context.{Context, with_timeout}
use kubevirt_dpdk_checkup.Api.{Vmi, ConfigMap}
use kubevirt_dpdk_checkup.World.{Env, Call, History}
use kubevirt_dpdk_checkup.World.Poll.{rounds, Reaches, now, later, poll_rounds-Reaches}
use kubevirt_dpdk_checkup.Checkup.State.{Checkup, State}
use kubevirt_dpdk_checkup.Checkup.Requests.{
  is_ready, create_config_map, create_vmi, get_vmi, ready_condition, Waiting,
  wait_for_vmi_to_be_ready,
}
use kubevirt_dpdk_checkup.Checkup.Frame.{
  View, view, undeleted, waiting, pending_of, checkup_of, wait_for_vmi_to_be_ready-view,
}
use kubevirt_dpdk_checkup.Checkup.Lifecycle.{
  defer_on_err, await, wait_for_instances, put_vmi_under_test, put_traffic_gen, setup_waits,
  setup_traffic_gen, setup_instances, setup_vmis, setup,
}

-- The reads of an instance find it ready, after at most `n` reads that find it not ready.
pub data BecomesReady (env : Env) (ctx : Context) (ns name : Bytes) : ℕ → History → Type 0 where
  ready :
      {n : ℕ} {h : History} {v : Vmi}
      → env.get_vmi h ctx ns name ≡ inr v
      → is_ready v.conditions ≡ true
      → BecomesReady env ctx ns name n h
  not_yet :
      {n : ℕ} {h : History} {v : Vmi}
      → env.get_vmi h ctx ns name ≡ inr v
      → is_ready v.conditions ≡ false
      → BecomesReady env ctx ns name n (Call.get_vmi ctx ns name ∷ h)
      → BecomesReady env ctx ns name (suc n) h

-- A cluster that creates what it is asked for, and on which each undeleted instance becomes ready
-- within `n` reads.
pub record Serves (env : Env) (n : ℕ) : Type 0 where
  pub config_maps :
      (h : History) (ctx : Context) (ns : Bytes) (m : ConfigMap)
      → (c : ConfigMap) × (env.create_config_map h ctx ns m ≡ inr c)
  pub instances :
      (h : History) (ctx : Context) (ns : Bytes) (vmi : Vmi)
      → (v : Vmi) × (env.create_vmi h ctx ns vmi ≡ inr v)
  pub readiness :
      (h : History) (ctx : Context) (ns name : Bytes)
      → Memᴰ name (undeleted h)
      → BecomesReady env ctx ns name n h

module _ (env : Env) (ctx : Context) where
  ready_condition-Reaches :
      {ns name : Bytes} {n : ℕ} {h : History}
      → BecomesReady env ctx ns name n h
      → (w : Waiting) → w.state.history ≡ h
      → w.state.checkup.namespace ≡ ns
      → (v : Vmi) × (t : State) × Reaches
          (ready_condition env ctx name)
          n
          w
          (record { updated = some v; state = t })
  unfolding ready_condition get_vmi
  ready_condition-Reaches {name} (ready {v = v} e r) w q m = (
    v,
    record w.state { history = Call.get_vmi ctx w.state.checkup.namespace name ∷ w.state.history },
    now (rw (q, m, e, r)),
  )
  ready_condition-Reaches {name} (not_yet {v = v} e r b) w q m =
      let next =
        ready_condition-Reaches b
          (record {
            updated = some v;
            state = record w.state {
              history = Call.get_vmi ctx w.state.checkup.namespace name ∷ w.state.history;
            };
          })
          (rw (q, m)) m in
      (next.0, next.1, later (rw (q, m, e, r)) next.2)

  wait-ready :
      (n : ℕ) (name : Bytes) (s : State)
      → BecomesReady env ctx s.checkup.namespace name n s.history
      → (v : Vmi) × ((wait_for_vmi_to_be_ready env (rounds n) ctx name s).0 ≡ ok (some v))
  unfolding wait_for_vmi_to_be_ready
  wait-ready n name s b =
      let (v, t, r) = ready_condition-Reaches b (waiting s) refl refl in
      (v, rw (poll_rounds-Reaches r))

abbrev put_in : (Checkup → Vmi → Checkup) → Vmi → View → View
put_in put v w = record w { checkup = put w.checkup v }

defer_on_err-ok :
    {S A : Type 0} (cleanup : S → S) (p : Result A × S) (a : A)
    → p.0 ≡ ok a
    → (defer_on_err cleanup p).0 ≡ ok a
defer_on_err-ok cleanup (ok b, s) a h = h
defer_on_err-ok cleanup (err e, s) a h = cc
defer_on_err-ok cleanup (panic, s) a h = cc

module _ (env : Env) (n : ℕ) (serves : Serves env n) (ctx : Context) where
  await-ok :
      (which : Checkup → Vmi) (put : Checkup → Vmi → Checkup) (s : State)
      → Memᴰ (which s.checkup).name (undeleted s.history)
      → (v : Vmi) × ((await env (rounds n) which put ctx s).0 ≡ ok tt)
        × (view (await env (rounds n) which put ctx s).1
            ≡ record (view s) { checkup = put s.checkup v })
  await-ok which put s m =
      let name = (which s.checkup).name in
      let (v, e) =
        wait-ready env ctx n name s (serves.readiness s.history ctx s.checkup.namespace name m) in
      (
        v,
        unfold await in rw e,
        unfold await view in
            rw e (ap (put_in put v) (wait_for_vmi_to_be_ready-view env (rounds n) ctx name s)),
      )

  wait_for_instances-ok :
      (s : State)
      → Memᴰ s.checkup.vmi_under_test.name (undeleted s.history)
      → Memᴰ s.checkup.traffic_gen.name (undeleted s.history)
      → (wait_for_instances env (rounds n) ctx s).0 ≡ ok tt
  wait_for_instances-ok s vm tg =
      let (v, e, w) = await-ok (λ c. c.vmi_under_test) put_vmi_under_test s vm in
      let t = (await env (rounds n) (λ c. c.vmi_under_test) put_vmi_under_test ctx s).1 in
      let same : view t ≡ record (view s) { checkup = put_vmi_under_test s.checkup v } = w in
      let tg_name : t.checkup.traffic_gen.name ≡ s.checkup.traffic_gen.name =
        unfold view in ap (λ (c : Checkup). c.traffic_gen.name) (checkup_of same) in
      let pending : undeleted t.history ≡ undeleted s.history = unfold view in pending_of same in
      let (u, f, x) = await-ok (λ c. c.traffic_gen) put_traffic_gen t (rw (tg_name, pending) tg) in
      unfold wait_for_instances in rw e f

  created :
      (vmi : Vmi) (s : State)
      → ((create_vmi env ctx vmi s).0 ≡ ok tt)
        × (undeleted (create_vmi env ctx vmi s).1.history ≡ vmi.name ∷ undeleted s.history)
  unfolding create_vmi undeleted
  created vmi s =
      let (v, e) = serves.instances s.history ctx s.checkup.namespace vmi in (rw e, rw e)

  setup_traffic_gen-ok :
      (s : State)
      → Memᴰ s.checkup.vmi_under_test.name (undeleted s.history)
      → (setup_traffic_gen env (rounds n) ctx s).0 ≡ ok tt
  setup_traffic_gen-ok s vm =
      let (e, w) = created s.checkup.traffic_gen s in
      let t = (create_vmi env ctx s.checkup.traffic_gen s).1 in
      unfold setup_traffic_gen setup_waits in
      rw e (
        defer_on_err-ok _ (wait_for_instances env (rounds n) ctx t) tt
          (wait_for_instances-ok t (rw w (Memᴰ.tail vm)) (rw w (Memᴰ.head refl))))

  setup_vmis-ok : (s : State) → (setup_vmis env (rounds n) ctx s).0 ≡ ok tt
  setup_vmis-ok s =
      let (e, w) = created s.checkup.vmi_under_test s in
      let t = (create_vmi env ctx s.checkup.vmi_under_test s).1 in
      unfold setup_vmis setup_instances in
      rw e (
        defer_on_err-ok _ (setup_traffic_gen env (rounds n) ctx t) tt
          (setup_traffic_gen-ok t (rw w (Memᴰ.head refl))))

  config_map_made : (m : ConfigMap) (s : State) → (create_config_map env ctx m s).0 ≡ ok tt
  unfolding create_config_map
  config_map_made m s = let (c, e) = serves.config_maps s.history ctx s.checkup.namespace m in rw e

-- On a cluster that creates each ConfigMap and each instance that it is asked for, and on which each
-- instance that was created and not asked to be deleted becomes ready within `n` reads, `Setup` with
-- a poll of `n` more tries succeeds, from any state.
pub setup-succeeds :
    (env : Env) (n : ℕ)
    → Serves env n
    → (ctx : Context) (s : State) → (setup env (rounds n) ctx s).0 ≡ ok tt
setup-succeeds env n serves ctx s =
    let inner = with_timeout ctx 900 in
    let s₁ = (create_config_map env inner s.checkup.traffic_gen_config_map s).1 in
    unfold setup in
    rw
      (
        config_map_made env n serves inner s.checkup.traffic_gen_config_map s,
        config_map_made env n serves inner s₁.checkup.vmi_under_test_config_map s₁,
      )
      (setup_vmis-ok env n serves inner _)
