-- ===== src/Checkup/Steps.antt =====
-- The steps of `Teardown`: what each asks for, and what its success means.
use kubevirt_dpdk_checkup.Base.{
  ◌≡◌, ◌≢◌, refl, sym, ap, ◌∙◌, Bool, true, Option, none, some, ◌⊎◌, inl, inr, [], ◌∷◌, Bytes,
  arith,
}
use kubevirt_dpdk_checkup.Go.Error.{Error, is_not_found}
use kubevirt_dpdk_checkup.Go.Act.{Act, Result, ok, err, panic, map_err}
use kubevirt_dpdk_checkup.Go.Context.{Context}
use kubevirt_dpdk_checkup.Api.{Vmi, ConfigMap}
use kubevirt_dpdk_checkup.World.{Env, Call, History, from_answer, from_error}
use kubevirt_dpdk_checkup.World.Poll.{Poller, PollRun-panic, PollRun-keeps, PollRun-true}
use kubevirt_dpdk_checkup.Checkup.State.{Checkup, State}
use kubevirt_dpdk_checkup.Checkup.Requests.{
  delete_vmi, delete_config_map, get_vmi, wait_for_vmi_deletion, deletion_condition,
  deletion_result,
}

-- The requests of a history for a change: all calls but the reads, the latest first.
unfoldable pub changes : History → History
changes [] = []
changes (Call.get_vmi ctx ns name ∷ h) = changes h
changes (c ∷ h) = c ∷ changes h

-- The four deletions, the latest first.
abbrev pub deletions : Context → Checkup → History
deletions ctx c =
    Call.delete_config_map ctx c.namespace c.vmi_under_test_config_map.name
    ∷ Call.delete_config_map ctx c.namespace c.traffic_gen_config_map.name
    ∷ Call.delete_vmi ctx c.namespace c.traffic_gen.name
    ∷ Call.delete_vmi ctx c.namespace c.vmi_under_test.name
    ∷ []

-- What was asked for, and the object.
pub record Progress : Type 0 where
  pub asked : History
  pub checkup : Checkup

unfoldable pub progress : State → Progress
progress s = record { asked = changes s.history; checkup = s.checkup }

abbrev pub asking : Call → Progress → Progress
asking c p = record p { asked = c ∷ p.asked }

pub request-ne_panic : (o : Option Error) → from_error o ≢ panic
request-ne_panic none h = cc
request-ne_panic (some e) h = cc

pub deletion_result-ne_panic : (a : Error ⊎ Vmi) → deletion_result (from_answer a) ≢ panic
deletion_result-ne_panic a h = ground arith

pub wait_result-ne_panic :
    (f : Error → Error) (r : Result (Unit {0})) → map_err f r ≡ panic → r ≡ panic
wait_result-ne_panic f (ok tt) h = cc
wait_result-ne_panic f (err e) h = cc
wait_result-ne_panic f panic h = refl

-- A step of `Teardown` does not panic, and makes `change`.
pub record Step (m : Act State (Unit {0})) (s : State) (change : Progress → Progress) : Type 0 where
  pub returns : (m s).0 ≢ panic
  pub makes : progress (m s).1 ≡ change (progress s)

module _ (env : Env) (poller : Poller) (ctx : Context) where
  pub delete_vmi-Step :
      (which : Checkup → Bytes) (s : State)
      → Step
          (λ t. delete_vmi env ctx (which t.checkup) t)
          s
          (asking (Call.delete_vmi ctx s.checkup.namespace (which s.checkup)))
  unfolding delete_vmi progress changes
  delete_vmi-Step which s = record { returns = request-ne_panic _; makes = refl }

  pub delete_config_map-Step :
      (which : Checkup → ConfigMap) (s : State)
      → Step
          (λ t. delete_config_map env ctx (which t.checkup) t)
          s
          (asking (Call.delete_config_map ctx s.checkup.namespace (which s.checkup).name))
  unfolding delete_config_map progress changes
  delete_config_map-Step which s = record { returns = request-ne_panic _; makes = refl }

  pub deletion_condition-progress :
      (name : Bytes) (s : State) → progress (deletion_condition env ctx name s).1 ≡ progress s
  unfolding deletion_condition get_vmi progress changes
  deletion_condition-progress name s = refl

  pub deletion_condition-ne_panic :
      (name : Bytes) (s : State) → (deletion_condition env ctx name s).0 ≢ panic
  unfolding deletion_condition get_vmi
  deletion_condition-ne_panic name s =
      deletion_result-ne_panic (env.get_vmi s.history ctx s.checkup.namespace name)

  pub wait-Step :
      (which : Checkup → Bytes) (s : State)
      → Step (λ t. wait_for_vmi_deletion env poller ctx (which t.checkup) t) s (λ p. p)
  unfolding wait_for_vmi_deletion
  wait-Step which s =
      let condition = deletion_condition env ctx (which s.checkup) in
      let polled = poller.poll State ctx 5 condition s in
      let run = poller.poll_lem State ctx 5 condition s in
      record {
        returns = λ h.
            let (u, e) = PollRun-panic run (wait_result-ne_panic _ polled.0 h) in
            deletion_condition-ne_panic (which s.checkup) u
              (ap (λ (p : Result Bool × State). p.0) e);
        makes = PollRun-keeps progress (deletion_condition-progress (which s.checkup)) run;
      }

pub checkup_kept : {p q : Progress} → p ≡ q → p.checkup ≡ q.checkup
checkup_kept e = ap (λ (p : Progress). p.checkup) e

pub asked_of : {p q : Progress} → p ≡ q → p.asked ≡ q.asked
asked_of e = ap (λ (p : Progress). p.asked) e

-- A read told that there is no such instance.
pub record Gone (env : Env) (ctx : Context) (namespace name : Bytes) : Type 0 where
  pub at : History
  pub answer : Error
  pub read : env.get_vmi at ctx namespace name ≡ inl answer
  pub absent : is_not_found answer ≡ true

pub deletion_result-true :
    (a : Error ⊎ Vmi)
    → deletion_result (from_answer a) ≡ ok true
    → (e : Error) × (a ≡ inl e) × (is_not_found e ≡ true)
deletion_result-true (inl e) h = (e, refl, ground arith)
deletion_result-true (inr v) h = ground arith

pub map_err-ok : (f : Error → Error) (r : Result (Unit {0})) → map_err f r ≡ ok tt → r ≡ ok tt
map_err-ok f (ok tt) h = refl
map_err-ok f (err e) h = cc
map_err-ok f panic h = cc

module _ (env : Env) (poller : Poller) (ctx : Context) where
  pub wait-Gone :
      (c : Checkup) (name : Bytes) (s : State)
      → s.checkup ≡ c
      → (wait_for_vmi_deletion env poller ctx name s).0 ≡ ok tt
      → Gone env ctx c.namespace name
  unfolding wait_for_vmi_deletion deletion_condition get_vmi progress changes
  wait-Gone c name s k h =
      let condition = deletion_condition env ctx name in
      let polled = poller.poll State ctx 5 condition s in
      let run = poller.poll_lem State ctx 5 condition s in
      let (u, last) = PollRun-true run (map_err-ok _ polled.0 h) in
      let kept = PollRun-keeps (λ (t : State). t.checkup) (λ t. refl) run in
      let there = ap (λ (p : Result Bool × State). p.1.checkup) last ∙ kept ∙ k in
      let (e, read, absent) =
        deletion_result-true (env.get_vmi u.history ctx u.checkup.namespace name)
          (ap (λ (p : Result Bool × State). p.0) last) in
      record {
        at = u.history;
        answer = e;
        read = rw (ap (λ (d : Checkup). d.namespace) (sym there)) read;
        absent = absent;
      }
