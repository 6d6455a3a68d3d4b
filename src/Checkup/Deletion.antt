-- ===== src/Checkup/Deletion.antt =====
-- `Teardown` asks for every deletion, whatever the cluster answers to the ones before.
use kubevirt_dpdk_checkup.Base.{
  ◌≡◌, ◌≢◌, refl, sym, ap, ◌∙◌, inl, inr, List, [], ◌∷◌, ◌++◌, append-empty, Bytes,
}
use kubevirt_dpdk_checkup.Go.Act.{Act, Result, ok, panic, Result-cases, ◌>>=◌}
use kubevirt_dpdk_checkup.Go.Context.{Context}
use kubevirt_dpdk_checkup.World.{Env}
use kubevirt_dpdk_checkup.World.Poll.{Poller}
use kubevirt_dpdk_checkup.Checkup.State.{Checkup, State}
use kubevirt_dpdk_checkup.Checkup.Lifecycle.{teardown, attempt, teardown_result}
use kubevirt_dpdk_checkup.Checkup.Steps.{
  changes, deletions, Progress, progress, Step, delete_vmi-Step, delete_config_map-Step, wait-Step,
  checkup_kept, asked_of, Gone, wait-Gone,
}

-- How `Teardown` ends.
pub record TornDown (env : Env) (ctx : Context) (s : State) (p : Result (Unit {0}) × State)
    : Type 0 where
  pub returns : p.0 ≢ panic
  pub asks : changes p.1.history ≡ deletions ctx s.checkup ++ changes s.history
  pub keeps : p.1.checkup ≡ s.checkup
  pub gone :
      p.0 ≡ ok tt
      → Gone env ctx s.checkup.namespace s.checkup.vmi_under_test.name
        × Gone env ctx s.checkup.namespace s.checkup.traffic_gen.name

-- The rest of `Teardown` runs whatever a step returns, short of a panic.
attempt-then :
    (m : Act State (Unit {0})) (rest : List Bytes → Act State (Unit {0})) (s : State)
    (change : Progress → Progress) (P : Result (Unit {0}) × State → Type 0)
    → Step m s change
    → ((es : List Bytes) (t : State)
        → (es ≡ [] → (m s).0 ≡ ok tt)
        → progress t ≡ change (progress s)
        → P (rest es t))
    → P ((attempt m >>= rest) s)
attempt-then m rest s change P step follows = elim (Result-cases (m s).0) [
  | inl (tt, e) ↦ rw e (follows [] (m s).1 (λ q. e) step.makes)
  | inr (inl (x, e)) ↦ rw e (follows _ (m s).1 (λ q. cc) step.makes)
  | inr (inr e) ↦ absurd (step.returns e)
]

teardown_result-ne_panic : (es : List Bytes) → teardown_result es ≢ panic
teardown_result-ne_panic [] h = cc
teardown_result-ne_panic (e ∷ es) h = cc

teardown_result-ok : (es : List Bytes) → teardown_result es ≡ ok tt → es ≡ []
teardown_result-ok [] h = refl
teardown_result-ok (e ∷ es) h = cc

last_two :
    (a b c d e f : List Bytes) → a ++ (b ++ (c ++ (d ++ (e ++ f)))) ≡ [] → (e ≡ []) × (f ≡ [])
last_two a b c d e f h =
    append-empty e f
      (append-empty d _ (append-empty c _ (append-empty b _ (append-empty a _ h).1).1).1).1

module _ (env : Env) (poller : Poller) (ctx : Context) where
  -- Whatever the cluster answers, `Teardown` returns, and it has asked for the deletion of both
  -- instances and of both ConfigMaps, in this order, and for no other change. If it returns no
  -- error, a read has told of each instance that it is gone.
  pub teardown-TornDown : (s : State) → TornDown env ctx s (teardown env poller ctx s)
  unfolding teardown progress
  teardown-TornDown s =
      let c = s.checkup in
      attempt-then _ _ s _ (TornDown env ctx s)
        (delete_vmi-Step env poller ctx (λ d. d.vmi_under_test.name) s)
        λ e₁ s₁ o₁ p₁.
          attempt-then _ _ s₁ _ (TornDown env ctx s)
            (delete_vmi-Step env poller ctx (λ d. d.traffic_gen.name) s₁)
            λ e₂ s₂ o₂ p₂.
              attempt-then _ _ s₂ _ (TornDown env ctx s)
                (delete_config_map-Step env poller ctx (λ d. d.traffic_gen_config_map) s₂)
                λ e₃ s₃ o₃ p₃.
                  attempt-then _ _ s₃ _ (TornDown env ctx s)
                    (delete_config_map-Step env poller ctx (λ d. d.vmi_under_test_config_map) s₃)
                    λ e₄ s₄ o₄ p₄.
                      attempt-then _ _ s₄ _ (TornDown env ctx s)
                        (wait-Step env poller ctx (λ d. d.vmi_under_test.name) s₄)
                        λ e₅ s₅ o₅ p₅.
                          attempt-then _ _ s₅ _ (TornDown env ctx s)
                            (wait-Step env poller ctx (λ d. d.traffic_gen.name) s₅)
                            λ e₆ s₆ o₆ p₆.
                              let c₁ = checkup_kept p₁ in
                              let c₂ = checkup_kept p₂ ∙ c₁ in
                              let c₃ = checkup_kept p₃ ∙ c₂ in
                              let c₄ = checkup_kept p₄ ∙ c₃ in
                              let c₅ = checkup_kept p₅ ∙ c₄ in
                              record {
                                returns = teardown_result-ne_panic _;
                                asks = rw (
                                  asked_of p₆,
                                  asked_of p₅,
                                  asked_of p₄,
                                  asked_of p₃,
                                  asked_of p₂,
                                  asked_of p₁,
                                  c₃,
                                  c₂,
                                  c₁,
                                );
                                keeps = checkup_kept p₆ ∙ c₅;
                                gone = λ h.
                                    let (m₅, m₆) =
                                      last_two e₁ e₂ e₃ e₄ e₅ e₆ (teardown_result-ok _ h) in
                                    (
                                      wait-Gone env poller ctx c _ s₄ c₄ (
                                          rw (ap (λ (d : Checkup). d.vmi_under_test.name) (sym c₄))
                                            (o₅ m₅)),
                                      wait-Gone env poller ctx c _ s₅ c₅ (
                                          rw (ap (λ (d : Checkup). d.traffic_gen.name) (sym c₅))
                                            (o₆ m₆)),
                                    );
                              }
