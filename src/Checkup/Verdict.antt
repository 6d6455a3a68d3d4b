-- ===== src/Checkup/Verdict.antt =====
-- When `Run` succeeds, and what it leaves in the object.
use kubevirt_dpdk_checkup.Base.{
  ◌≡◌, ◌≢◌, refl, Bool, true, false, not, ◌||◌, inl, inr, Bytes, arith, ◌↔◌, ℤ, pos, ◌==ℤ◌, ==ℤ_iff,
  Bool-cases, if◌then◌else◌,
}
use kubevirt_dpdk_checkup.Go.Error.{Error}
use kubevirt_dpdk_checkup.Go.Act.{Act, Result, ok, err, panic}
use kubevirt_dpdk_checkup.Go.Context.{Context}
use kubevirt_dpdk_checkup.World.{History}
use kubevirt_dpdk_checkup.Status.{Results, empty_results}
use kubevirt_dpdk_checkup.Checkup.State.{Checkup, State}
use kubevirt_dpdk_checkup.Checkup.Lifecycle.{verdict, run, after_execute}

-- Packets were sent, none was lost, and none was in error.
pub record Clean (r : Results) : Type 0 where
  pub sent : r.traffic_gen_sent_packets ≢ pos 0
  pub output_errors : r.traffic_gen_output_error_packets ≡ pos 0
  pub input_errors : r.traffic_gen_input_error_packets ≡ pos 0
  pub rx_dropped : r.vm_under_test_rx_dropped_packets ≡ pos 0
  pub tx_dropped : r.vm_under_test_tx_dropped_packets ≡ pos 0
  pub all_received : r.traffic_gen_sent_packets ≡ r.vm_under_test_received_packets

-- The conditions of `verdict`, with the errors that they lead to.
abbrev judge : (a b c d e f : Bool) (x y z w : Error) → Result (Unit {0})
judge a b c d e f x y z w =
    if a
    then err x
    else if not b || not c
    then err y
    else if not d || not e
    then err z
    else if not f
    then err w
    else ok tt

judge-ok :
    (a b c d e f : Bool) (x y z w : Error)
    → judge a b c d e f x y z w ≡ ok tt
    → (a ≡ false) × (b ≡ true) × (c ≡ true) × (d ≡ true) × (e ≡ true) × (f ≡ true)
judge-ok true b c d e f x y z w h = cc
judge-ok false false c d e f x y z w h = cc
judge-ok false true false d e f x y z w h = cc
judge-ok false true true false e f x y z w h = cc
judge-ok false true true true false f x y z w h = cc
judge-ok false true true true true false x y z w h = cc
judge-ok false true true true true true x y z w h = (refl, refl, refl, refl, refl, refl)

test_false : (a b : ℤ) → (a ==ℤ b) ≡ false → a ≢ b
test_false a b h e = cc (h, (==ℤ_iff a b).1 e)

false_test : (a b : ℤ) → a ≢ b → (a ==ℤ b) ≡ false
false_test a b h = elim (Bool-cases (a ==ℤ b)) [
  | inl e ↦ absurd (h ((==ℤ_iff a b).0 e))
  | inr e ↦ e
]

-- The results pass exactly when packets were sent and every one of them arrived: no errors at the
-- traffic generator, nothing dropped at the VM under test, and as many received as sent.
pub verdict_iff : (r : Results) → (verdict r ≡ ok tt) ↔ Clean r
unfolding verdict
verdict_iff r = (
  λ h.
      let (a, b, c, d, e, f) = judge-ok _ _ _ _ _ _ _ _ _ _ h in
      record {
        sent = test_false _ _ a;
        output_errors = (==ℤ_iff _ _).0 b;
        input_errors = (==ℤ_iff _ _).0 c;
        rx_dropped = (==ℤ_iff _ _).0 d;
        tx_dropped = (==ℤ_iff _ _).0 e;
        all_received = (==ℤ_iff _ _).0 f;
      },
  λ p. rw (
    false_test r.traffic_gen_sent_packets (pos 0) p.sent,
    p.output_errors,
    p.input_errors,
    p.rx_dropped,
    p.tx_dropped,
    (==ℤ_iff r.traffic_gen_sent_packets r.vm_under_test_received_packets).1 p.all_received,
  ),
)

-- The node names are not read by the checks.
abbrev pub on_nodes : Checkup → Results → Results
on_nodes c r = record r {
  vm_under_test_actual_node_name = c.vmi_under_test.node_name;
  traffic_gen_actual_node_name = c.traffic_gen.node_name;
}

pub Clean-on_nodes : (c : Checkup) (r : Results) → Clean (on_nodes c r) ↔ Clean r
Clean-on_nodes c r = (
  λ p. record {
    sent = p.sent;
    output_errors = p.output_errors;
    input_errors = p.input_errors;
    rx_dropped = p.rx_dropped;
    tx_dropped = p.tx_dropped;
    all_received = p.all_received;
  },
  λ p. record {
    sent = p.sent;
    output_errors = p.output_errors;
    input_errors = p.input_errors;
    rx_dropped = p.rx_dropped;
    tx_dropped = p.tx_dropped;
    all_received = p.all_received;
  },
)

-- What `Run` does behind an execution: its result, and the results that it stores.
pub record Judged (c : Checkup) (r : Result Results) (p : Result (Unit {0}) × State) : Type 0 where
  pub passes : (p.0 ≡ ok tt) ↔ ((x : Results) × (r ≡ ok x) × Clean x)
  pub panics : (p.0 ≡ panic) ↔ (r ≡ panic)
  pub passes_on : (e : Error) → r ≡ err e → p.0 ≡ err e
  pub stores : (x : Results) → r ≡ ok x → p.1.checkup.results ≡ on_nodes c x
  pub forgets : (e : Error) → r ≡ err e → p.1.checkup.results ≡ empty_results

verdict-ne_panic : (r : Results) → verdict r ≢ panic
unfolding verdict
verdict-ne_panic r h = ground arith

ok-injective : {A : Type 0} {x y : A} → ok x ≡ ok y → x ≡ y
ok-injective h = cc

after_execute-Judged : (s : State) (r : Result Results) → Judged s.checkup r (after_execute r s)
after_execute-Judged s (ok x) = record {
  passes = (
    λ h. (x, refl, (Clean-on_nodes s.checkup x).0 ((verdict_iff (on_nodes s.checkup x)).0 h)),
    λ (y, e, p).
        (verdict_iff (on_nodes s.checkup x)).1
          ((Clean-on_nodes s.checkup x).1 (rw (ok-injective e) p)),
  );
  panics = (λ h. absurd (verdict-ne_panic (on_nodes s.checkup x) h), λ h. cc);
  passes_on = λ e h. cc;
  stores = λ y h. rw (ok-injective h);
  forgets = λ e h. cc;
}
after_execute-Judged s (err e) = record {
  passes = (λ h. cc, λ (y, q, p). cc);
  panics = (λ h. cc, λ h. cc);
  passes_on = λ x h. cc;
  stores = λ y h. cc;
  forgets = λ x h. refl;
}
after_execute-Judged s panic = record {
  passes = (λ h. cc, λ (y, q, p). cc);
  panics = (λ h. refl, λ h. refl);
  passes_on = λ x h. cc;
  stores = λ y h. cc;
  forgets = λ x h. cc;
}

-- The execution that `Run` asks for: on the names of the object's instances.
abbrev pub executed :
    (Context → Bytes → Bytes → Act History Results) → Context → State → Result Results × History
executed execute ctx s =
    execute ctx s.checkup.vmi_under_test.name s.checkup.traffic_gen.name s.history

-- Whatever the executor does, `Run` passes exactly if the execution returned results in which
-- packets were sent and all of them arrived without a loss or an error. It panics exactly if the
-- execution does, and passes its error on. It stores the results that were returned together with
-- the nodes of both instances, and empty results beside an error.
pub run-Judged :
    (execute : Context → Bytes → Bytes → Act History Results) (ctx : Context) (s : State)
    → Judged s.checkup (executed execute ctx s).0 (run execute ctx s)
unfolding run
run-Judged execute ctx s =
    let (r, h) = executed execute ctx s in after_execute-Judged (record s { history = h }) r
