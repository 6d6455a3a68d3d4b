-- ===== src/World/Poll.antt =====
-- `wait.PollImmediateUntilWithContext` of k8s.io/apimachinery, which the program calls and does not
-- implement: its documented behaviour, as a relation, and an instance that shows it can be met.
use kubevirt_dpdk_checkup.Base.{ℕ, zero, suc, Bool, true, false, ◌≡◌, refl, sym, ap, ◌∙◌}
use kubevirt_dpdk_checkup.Go.Error.{Error, wait_timeout}
use kubevirt_dpdk_checkup.Go.Act.{Act, Result, ok, err, panic}
use kubevirt_dpdk_checkup.Go.Context.{Context}

-- The condition is tried at once, and again while it says `false`. The poll ends when it says `true`
-- or fails, or after any `false`, when the context is done.
pub data PollRun {S : Type 0} (condition : Act S Bool) : S → Result (Unit {0}) → S → Type 0 where
  done : {s t : S} → condition s ≡ (ok true, t) → PollRun condition s (ok tt) t
  failed : {s t : S} {e : Error} → condition s ≡ (err e, t) → PollRun condition s (err e) t
  panicked : {s t : S} → condition s ≡ (panic, t) → PollRun condition s panic t
  expired : {s t : S} → condition s ≡ (ok false, t) → PollRun condition s (err wait_timeout) t
  again :
      {s t u : S} {r : Result (Unit {0})}
      → condition s ≡ (ok false, t)
      → PollRun condition t r u
      → PollRun condition s r u

-- The state is any type: the condition may write to it, as a closure does to what it captures.
pub record Poller : Type 1 where
  pub poll : (S : Type 0) → Context → ℕ → Act S Bool → Act S (Unit {0})
  pub poll_lem :
      (S : Type 0) (ctx : Context) (interval : ℕ) (condition : Act S Bool) (s : S)
      → PollRun condition s (poll S ctx interval condition s).0 (poll S ctx interval condition s).1

kept :
    {S B : Type 0} (condition : Act S Bool) {s t : S} {r : Result Bool} (f : S → B)
    → ((s : S) → f (condition s).1 ≡ f s)
    → condition s ≡ (r, t)
    → f t ≡ f s
kept {S} condition {s} f keep e = ap (λ (p : Result Bool × S). f p.1) (sym e) ∙ keep s

module _ {S : Type 0} {condition : Act S Bool} where
  -- What the condition leaves alone, a poll leaves alone.
  pub PollRun-keeps :
      {B : Type 0} {s t : S} {r : Result (Unit {0})} (f : S → B)
      → ((s : S) → f (condition s).1 ≡ f s)
      → PollRun condition s r t
      → f t ≡ f s
  PollRun-keeps f keep (done e) = kept condition f keep e
  PollRun-keeps f keep (failed e) = kept condition f keep e
  PollRun-keeps f keep (panicked e) = kept condition f keep e
  PollRun-keeps f keep (expired e) = kept condition f keep e
  PollRun-keeps f keep (again e run) = PollRun-keeps f keep run ∙ kept condition f keep e

  -- A poll that succeeds ends with the condition true.
  pub PollRun-true :
      {s t : S} {r : Result (Unit {0})}
      → PollRun condition s r t
      → r ≡ ok tt
      → (u : S) × (condition u ≡ (ok true, t))
  PollRun-true {s} (done e) h = (s, e)
  PollRun-true (failed e) h = cc
  PollRun-true (panicked e) h = cc
  PollRun-true (expired e) h = cc
  PollRun-true (again e run) h = PollRun-true run h

  -- A poll panics only if its condition does.
  pub PollRun-panic :
      {s t : S} {r : Result (Unit {0})}
      → PollRun condition s r t
      → r ≡ panic
      → (u : S) × (condition u ≡ (panic, t))
  PollRun-panic (done e) h = cc
  PollRun-panic (failed e) h = cc
  PollRun-panic {s} (panicked e) h = (s, e)
  PollRun-panic (expired e) h = cc
  PollRun-panic (again e run) h = PollRun-panic run h

-- A context that is done after a number of tries.
abbrev pub after : {S : Type 0} → Result Bool → S → Result (Unit {0}) × S → Result (Unit {0}) × S
after (ok true) t rest = (ok tt, t)
after (ok false) t rest = rest
after (err e) t rest = (err e, t)
after panic t rest = (panic, t)

unfoldable pub poll_rounds : (S : Type 0) → ℕ → Act S Bool → Act S (Unit {0})
poll_rounds S zero condition s =
    after (condition s).0 (condition s).1 (err wait_timeout, (condition s).1)
poll_rounds S (suc n) condition s =
    let rest = poll_rounds S n condition (condition s).1 in
    after (condition s).0 (condition s).1 rest

module _ {S : Type 0} {condition : Act S Bool} where
  PollRun-after :
      (s t : S) (r : Result Bool) (rest : Result (Unit {0}) × S)
      → condition s ≡ (r, t)
      → (r ≡ ok false → PollRun condition s rest.0 rest.1)
      → PollRun condition s (after r t rest).0 (after r t rest).1
  PollRun-after s t (ok true) rest e h = done e
  PollRun-after s t (ok false) rest e h = h refl
  PollRun-after s t (err x) rest e h = failed e
  PollRun-after s t panic rest e h = panicked e

pub poll_rounds-PollRun :
    (S : Type 0) (n : ℕ) (condition : Act S Bool) (s : S)
    → PollRun condition s (poll_rounds S n condition s).0 (poll_rounds S n condition s).1
unfolding poll_rounds
poll_rounds-PollRun S zero condition s =
    PollRun-after s (condition s).1 (condition s).0 (err wait_timeout, (condition s).1) refl
      λ h. expired (λ i. (h i, (condition s).1))
poll_rounds-PollRun S (suc n) condition s =
    PollRun-after s (condition s).1 (condition s).0 _ refl
      λ h. again (λ i. (h i, (condition s).1)) (poll_rounds-PollRun S n condition (condition s).1)

-- A poller that tries `suc n` times at most.
abbrev pub rounds : ℕ → Poller
rounds n = record {
  poll = λ S ctx interval condition. poll_rounds S n condition;
  poll_lem = λ S ctx interval condition s. poll_rounds-PollRun S n condition s;
}

-- The condition is true after at most `n` tries that say `false`.
pub data Reaches {S : Type 0} (condition : Act S Bool) : ℕ → S → S → Type 0 where
  now : {n : ℕ} {s t : S} → condition s ≡ (ok true, t) → Reaches condition n s t
  later :
      {n : ℕ} {s t u : S}
      → condition s ≡ (ok false, t)
      → Reaches condition n t u
      → Reaches condition (suc n) s u

-- Enough tries are enough.
pub poll_rounds-Reaches :
    {S : Type 0} {condition : Act S Bool} {n : ℕ} {s t : S}
    → Reaches condition n s t
    → poll_rounds S n condition s ≡ (ok tt, t)
unfolding poll_rounds
poll_rounds-Reaches {n = zero} (now e) = rw e
poll_rounds-Reaches {n = suc n} (now e) = rw e
poll_rounds-Reaches (later e r) = rw e (poll_rounds-Reaches r)
