-- ===== src/Checkup/Waits.antt =====
-- The two waits of `Setup`: what they return, and what they leave alone.
use kubevirt_dpdk_checkup.Base.{◌≡◌, ◌≢◌, ap, ◌∙◌, inl, inr, Bytes}
use kubevirt_dpdk_checkup.Go.Error.{Error}
use kubevirt_dpdk_checkup.Go.Act.{Result, ok, err, panic, Result-cases}
use kubevirt_dpdk_checkup.Go.Context.{Context}
use kubevirt_dpdk_checkup.Api.{Vmi}
use kubevirt_dpdk_checkup.World.{Env}
use kubevirt_dpdk_checkup.World.Poll.{Poller}
use kubevirt_dpdk_checkup.Checkup.State.{Checkup, State}
use kubevirt_dpdk_checkup.Checkup.Requests.{wait_for_vmi_to_be_ready}
use kubevirt_dpdk_checkup.Checkup.Frame.{
  View, view, undeleted, pending_of, checkup_of, wait_for_vmi_to_be_ready-view,
}
use kubevirt_dpdk_checkup.Checkup.Readiness.{
  KeepsNames, IsReady, wait_for_vmi_to_be_ready-IsReady, wait_for_vmi_to_be_ready-ne_panic,
}
use kubevirt_dpdk_checkup.Checkup.Lifecycle.{
  await, wait_for_instances, put_vmi_under_test, put_traffic_gen,
}

-- How a wait ends: with a ready instance that is put into the object, or with an error.
data Awaited (put : Checkup → Vmi → Checkup) (name : Bytes) (s : State)
    (p : Result (Unit {0}) × State) : Type 0 where
  arrived :
      (v : Vmi)
      → IsReady name v
      → p.0 ≡ ok tt
      → view p.1 ≡ record (view s) { checkup = put s.checkup v }
      → Awaited put name s p
  gave_up : (e : Error) → p.0 ≡ err e → view p.1 ≡ view s → Awaited put name s p

abbrev put_in : (Checkup → Vmi → Checkup) → Vmi → View → View
put_in put v w = record w { checkup = put w.checkup v }

module _ (env : Env) (poller : Poller) (k : KeepsNames env) (ctx : Context) where
  view_of :
      (name : Bytes) (s : State) → view (wait_for_vmi_to_be_ready env poller ctx name s).1 ≡ view s
  view_of = wait_for_vmi_to_be_ready-view env poller ctx

  await-Awaited :
      (which : Checkup → Vmi) (put : Checkup → Vmi → Checkup) (s : State)
      → Awaited put (which s.checkup).name s (await env poller which put ctx s)
  await-Awaited which put s =
      let name = (which s.checkup).name in
      let waited = wait_for_vmi_to_be_ready env poller ctx name s in
      elim (Result-cases waited.0) [
        | inl (o, e) ↦
            let (v, kept, ready) = wait_for_vmi_to_be_ready-IsReady env poller k ctx name s o e in
            arrived v ready (unfold await in rw (e, kept))
              (unfold await view in rw (e, kept) (ap (put_in put v) (view_of name s)))
        | inr (inl (x, e)) ↦
            gave_up x (unfold await in rw e)
              (unfold await in rw e (wait_for_vmi_to_be_ready-view env poller ctx name s))
        | inr (inr e) ↦ absurd (wait_for_vmi_to_be_ready-ne_panic env poller ctx name s e)
      ]

-- The undeleted instances and the names of the checkup's two are what they were.
pub record Kept (s t : State) : Type 0 where
  pub pending : undeleted t.history ≡ undeleted s.history
  pub vm : t.checkup.vmi_under_test.name ≡ s.checkup.vmi_under_test.name
  pub tg : t.checkup.traffic_gen.name ≡ s.checkup.traffic_gen.name

-- The two waits end with both instances ready, or with an error; they do not panic.
pub record Waited (s : State) (p : Result (Unit {0}) × State) : Type 0 where
  pub kept : Kept s p.1
  pub returns : p.0 ≢ panic
  pub ready :
      p.0 ≡ ok tt
      → IsReady s.checkup.vmi_under_test.name p.1.checkup.vmi_under_test
        × IsReady s.checkup.traffic_gen.name p.1.checkup.traffic_gen

Kept-of_view : (s t : State) → view t ≡ view s → Kept s t
unfolding view
Kept-of_view s t e = record {
  pending = pending_of e;
  vm = ap (λ (c : Checkup). c.vmi_under_test.name) (checkup_of e);
  tg = ap (λ (c : Checkup). c.traffic_gen.name) (checkup_of e);
}

module _ (env : Env) (poller : Poller) (k : KeepsNames env) (ctx : Context) where
  abbrev await_vm : State → Result (Unit {0}) × State
  await_vm = await env poller (λ c. c.vmi_under_test) put_vmi_under_test ctx

  abbrev await_tg : State → Result (Unit {0}) × State
  await_tg = await env poller (λ c. c.traffic_gen) put_traffic_gen ctx

  -- Behind a VM under test that is ready.
  Waited-second :
      (s t : State) (v : Vmi)
      → IsReady s.checkup.vmi_under_test.name v
      → view t ≡ record (view s) { checkup = put_vmi_under_test s.checkup v }
      → Awaited put_traffic_gen t.checkup.traffic_gen.name t (await_tg t)
      → Waited s (await_tg t)
  unfolding view
  Waited-second s t v ready w (arrived u tg_ready e x) =
      let z = x ∙ ap (put_in put_traffic_gen u) w in
      let vm_now = ap (λ (c : Checkup). c.vmi_under_test) (checkup_of z) in
      let tg_now = ap (λ (c : Checkup). c.traffic_gen) (checkup_of z) in
      let tg_named = tg_ready.named ∙ ap (λ (c : Checkup). c.traffic_gen.name) (checkup_of w) in
      record {
        kept = record {
          pending = pending_of z;
          vm = ap (λ (m : Vmi). m.name) vm_now ∙ ready.named;
          tg = ap (λ (m : Vmi). m.name) tg_now ∙ tg_named;
        };
        returns = λ q. cc;
        ready =
            λ q. (rw vm_now ready, rw tg_now (record { named = tg_named; ready = tg_ready.ready }));
      }
  Waited-second s t v ready w (gave_up x e y) =
      let z = y ∙ w in
      record {
        kept = record {
          pending = pending_of z;
          vm = ap (λ (c : Checkup). c.vmi_under_test.name) (checkup_of z) ∙ ready.named;
          tg = ap (λ (c : Checkup). c.traffic_gen.name) (checkup_of z);
        };
        returns = λ q. cc;
        ready = λ q. cc;
      }

  Waited-first :
      (s : State)
      → Awaited put_vmi_under_test s.checkup.vmi_under_test.name s (await_vm s)
      → Waited s (wait_for_instances env poller ctx s)
  Waited-first s (arrived v ready e w) =
      unfold wait_for_instances in
      rw e (
        Waited-second s (await_vm s).1 v ready w
          (await-Awaited env poller k ctx (λ c. c.traffic_gen) put_traffic_gen (await_vm s).1))
  Waited-first s (gave_up x e w) =
      unfold wait_for_instances in
      rw e (record { kept = Kept-of_view s (await_vm s).1 w; returns = λ q. cc; ready = λ q. cc })

  pub wait_for_instances-Waited : (s : State) → Waited s (wait_for_instances env poller ctx s)
  wait_for_instances-Waited s =
      Waited-first s (await-Awaited env poller k ctx (λ c. c.vmi_under_test) put_vmi_under_test s)
