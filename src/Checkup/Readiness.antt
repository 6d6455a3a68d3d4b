-- ===== src/Checkup/Readiness.antt =====
-- What a wait for readiness returns, and that `Setup` leaves both instances ready.
use kubevirt_dpdk_checkup.Base.{
  ◌≡◌, ◌≢◌, refl, sym, ap, ◌∙◌, Bool, true, Option, some, ◌⊎◌, inl, inr, Bytes, arith,
}
use kubevirt_dpdk_checkup.Go.Error.{Error}
use kubevirt_dpdk_checkup.Go.Act.{Result, ok, err, panic}
use kubevirt_dpdk_checkup.Go.Context.{Context}
use kubevirt_dpdk_checkup.Api.{Vmi}
use kubevirt_dpdk_checkup.World.{Env, History, from_answer}
use kubevirt_dpdk_checkup.World.Poll.{Poller, PollRun-true, PollRun-panic}
use kubevirt_dpdk_checkup.Checkup.State.{State}
use kubevirt_dpdk_checkup.Checkup.Requests.{
  get_vmi, wait_for_vmi_to_be_ready, ready_condition, Waiting, is_ready, read_ready, ready_result,
}
use kubevirt_dpdk_checkup.Checkup.Frame.{waiting}

-- The API returns an instance under the name that it was asked for.
pub record KeepsNames (env : Env) : Type 0 where
  pub named :
      (h : History) (ctx : Context) (ns name : Bytes) (v : Vmi)
      → env.get_vmi h ctx ns name ≡ inr v
      → v.name ≡ name

-- An instance of a name with the condition Ready.
pub record IsReady (name : Bytes) (v : Vmi) : Type 0 where
  pub named : v.name ≡ name
  pub ready : is_ready v.conditions ≡ true

ready_result-ok :
    (ns name : Bytes) (p : Result (Unit {0}) × Waiting) (o : Option Vmi)
    → (ready_result ns name p).0 ≡ ok o
    → (p.0 ≡ ok tt) × (o ≡ p.1.updated)
ready_result-ok ns name (ok tt, w) o h = (refl, ground arith)
ready_result-ok ns name (err e, w) o h = cc
ready_result-ok ns name (panic, w) o h = cc

read_ready-true :
    (r : Result Vmi) (s : State) (w t : Waiting)
    → read_ready r s w ≡ (ok true, t)
    → (v : Vmi) × (r ≡ ok v) × (t.updated ≡ some v) × (is_ready v.conditions ≡ true)
read_ready-true (ok v) s w t h = (
  v,
  refl,
  sym (ap (λ (p : Result Bool × Waiting). p.1.updated) h),
  ok-injective (ap (λ (p : Result Bool × Waiting). p.0) h),
)
  where
    ok-injective : ok (is_ready v.conditions) ≡ ok true → is_ready v.conditions ≡ true
    ok-injective e = cc
read_ready-true (err e) s w t h = absurd (distinct (ap (λ (p : Result Bool × Waiting). p.0) h))
  where
    distinct : err e ≡ ok true → ⊥
    distinct q = cc
read_ready-true panic s w t h = absurd (distinct (ap (λ (p : Result Bool × Waiting). p.0) h))
  where
    distinct : panic ≡ ok true → ⊥
    distinct q = cc

ready_condition-true :
    (env : Env) (k : KeepsNames env) (ctx : Context) (name : Bytes) (w t : Waiting)
    → ready_condition env ctx name w ≡ (ok true, t)
    → (v : Vmi) × (t.updated ≡ some v) × IsReady name v
unfolding ready_condition get_vmi
ready_condition-true env k ctx name w t h =
    let (v, got, kept, ready) =
      read_ready-true (get_vmi env ctx name w.state).0 (get_vmi env ctx name w.state).1 w t h in
    (v, kept, record { named = k.named _ ctx _ name v (from_answer-ok _ v got); ready = ready })
  where
    from_answer-ok : (a : Error ⊎ Vmi) (v : Vmi) → from_answer a ≡ ok v → a ≡ inr v
    from_answer-ok (inl e) v q = cc
    from_answer-ok (inr u) v q = ground arith

-- A wait that ends well returns an instance that the cluster said is ready.
pub wait_for_vmi_to_be_ready-IsReady :
    (env : Env) (poller : Poller) (k : KeepsNames env) (ctx : Context) (name : Bytes) (s : State)
    (o : Option Vmi)
    → (wait_for_vmi_to_be_ready env poller ctx name s).0 ≡ ok o
    → (v : Vmi) × (o ≡ some v) × IsReady name v
unfolding wait_for_vmi_to_be_ready
wait_for_vmi_to_be_ready-IsReady env poller k ctx name s o h =
    let condition = ready_condition env ctx name in
    let (e, kept) =
      ready_result-ok s.checkup.namespace name (poller.poll Waiting ctx 5 condition (waiting s)) o
        h in
    let (u, last) = PollRun-true (poller.poll_lem Waiting ctx 5 condition (waiting s)) e in
    let (v, updated, ready) = ready_condition-true env k ctx name u _ last in
    (v, kept ∙ updated, ready)

ready_result-panic :
    (ns name : Bytes) (p : Result (Unit {0}) × Waiting)
    → (ready_result ns name p).0 ≡ panic
    → p.0 ≡ panic
ready_result-panic ns name (ok tt, w) h = cc
ready_result-panic ns name (err e, w) h = cc
ready_result-panic ns name (panic, w) h = refl

read_ready-ne_panic :
    (a : Error ⊎ Vmi) (s : State) (w : Waiting) → (read_ready (from_answer a) s w).0 ≢ panic
read_ready-ne_panic (inl e) s w h = cc
read_ready-ne_panic (inr v) s w h = cc

-- No wait for readiness panics.
pub wait_for_vmi_to_be_ready-ne_panic :
    (env : Env) (poller : Poller) (ctx : Context) (name : Bytes) (s : State)
    → (wait_for_vmi_to_be_ready env poller ctx name s).0 ≢ panic
unfolding wait_for_vmi_to_be_ready ready_condition get_vmi
wait_for_vmi_to_be_ready-ne_panic env poller ctx name s h =
    let condition = ready_condition env ctx name in
    let e =
      ready_result-panic s.checkup.namespace name (poller.poll Waiting ctx 5 condition (waiting s))
        h in
    let (u, last) = PollRun-panic (poller.poll_lem Waiting ctx 5 condition (waiting s)) e in
    read_ready-ne_panic (env.get_vmi u.state.history ctx u.state.checkup.namespace name) _ u
      (ap (λ (p : Result Bool × Waiting). p.0) last)
