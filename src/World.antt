-- ===== src/World.antt =====
-- The systems that the program talks to: the cluster's API, and the serial consoles of the guests.
-- A history lists the calls that were made, the latest first; an environment answers each call, and
-- its answer may depend on all earlier calls. Theorems hold for every environment.
pub mod Poll
use kubevirt_dpdk_checkup.Base.{
  ℕ, ◌≡◌, refl, arith, Bool, true, false, Option, none, some, ◌⊎◌, inl, inr, List, [], ◌∷◌, Bytes,
}
use kubevirt_dpdk_checkup.Go.Error.{Error}
use kubevirt_dpdk_checkup.Go.Act.{Act, Result, ok, err}
use kubevirt_dpdk_checkup.Go.Context.{Context}
use kubevirt_dpdk_checkup.Api.{Vmi, ConfigMap}

-- What a case of a `BCas` does when its expression matches: `expect.Next()`, `expect.LogContinue`
-- with a message and a status, `expect.OK()`.
pub data Tag : Type 0 where
  next : Tag
  log_continue : Bytes → Bytes → Tag
  finish : Tag

-- A case: its expression, what it sends, its tag, and how often it may match again.
pub record Case : Type 0 where
  pub expression : Bytes
  pub sends : Bytes
  pub tag : Tag
  pub retries : ℕ

-- `expect.Batcher`: `BSnd`, `BExp` and `BCas` of goexpect.
pub data Batcher : Type 0 where
  send : Bytes → Batcher
  expect : Bytes → Batcher
  switch_case : List Case → Batcher

-- A call, with its arguments and whether it succeeded.
pub data Call : Type 0 where
  create_vmi : Context → Bytes → Vmi → Bool → Call
  get_vmi : Context → Bytes → Bytes → Call
  delete_vmi : Context → Bytes → Bytes → Call
  create_config_map : Context → Bytes → ConfigMap → Bool → Call
  delete_config_map : Context → Bytes → Bytes → Call
  serial_console : Bytes → Bytes → ℕ → Call
  spawn : Bytes → Call
  send_text : Bytes → Bytes → Call
  expect_batch : Bytes → List Batcher → ℕ → Call
  close : Bytes → Call

abbrev pub History : Type 0
History = List Call

-- The answers. A console's response is the list of the outputs that were matched.
pub record Env : Type 0 where
  pub create_vmi : History → Context → Bytes → Vmi → Error ⊎ Vmi
  pub get_vmi : History → Context → Bytes → Bytes → Error ⊎ Vmi
  pub delete_vmi : History → Context → Bytes → Bytes → Option Error
  pub create_config_map : History → Context → Bytes → ConfigMap → Error ⊎ ConfigMap
  pub delete_config_map : History → Context → Bytes → Bytes → Option Error
  pub serial_console : History → Bytes → Bytes → ℕ → Option Error
  pub spawn : History → Bytes → Option Error
  pub send_text : History → Bytes → Bytes → Option Error
  pub expect_batch : History → Bytes → List Batcher → ℕ → List Bytes × Option Error

abbrev pub from_answer : {A : Type 0} → Error ⊎ A → Result A
from_answer (inl e) = err e
from_answer (inr a) = ok a

abbrev pub succeeded : {A : Type 0} → Error ⊎ A → Bool
succeeded (inl e) = false
succeeded (inr a) = true

abbrev pub from_error : Option Error → Result (Unit {0})
from_error none = ok tt
from_error (some e) = err e

pub answer-cases :
    {A : Type 0} (a : Error ⊎ A) → ((e : Error) × (a ≡ inl e)) ⊎ ((v : A) × (a ≡ inr v))
answer-cases (inl e) = inl (e, refl)
answer-cases (inr v) = inr (v, refl)

pub from_answer-ok : {A : Type 0} (a : Error ⊎ A) (v : A) → from_answer a ≡ ok v → a ≡ inr v
from_answer-ok (inl e) v h = cc
from_answer-ok (inr w) v h = ground arith
