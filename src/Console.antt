-- ===== src/Console.antt =====
-- pkg/internal/checkup/executor/console/console.go: batches on a guest's serial console.
pub mod Batches
pub mod Sessions
pub mod Login
mod Tests
use kubevirt_dpdk_checkup.Base.{
  ℕ, Bool, true, false, Option, none, some, ◌⊎◌, inl, inr, List, [], ◌∷◌, ◌++◌, Bytes, codes, ◌==◌,
  ltb, length, if◌then◌else◌,
}
use kubevirt_dpdk_checkup.Go.Error.{Error, new}
use kubevirt_dpdk_checkup.Go.Act.{Result, ok, err, panic}
use kubevirt_dpdk_checkup.Go.Strings.{trim_suffix}
use kubevirt_dpdk_checkup.World.{Env, Call, History, Batcher, send, expect, switch_case}

-- The expecter's fields; its options are always empty.
pub record Expecter : Type 0 where
  pub vmi_namespace : Bytes
  pub vmi_name : Bytes

-- `NewExpecter`, as it is called: with no options.
abbrev pub new_expecter : Bytes → Bytes → Expecter
new_expecter vmi_namespace vmi_name = record { vmi_namespace = vmi_namespace; vmi_name = vmi_name }

abbrev pub prompt_expression : Bytes
prompt_expression = codes "(\\$ |\\# )"

-- `RetValue`.
unfoldable pub ret_value : Bytes → Bytes
ret_value retcode = codes "\n" ++ (retcode ++ (codes "\r\n" ++ (codes ".*" ++ prompt_expression)))

-- A byte that `regexp.QuoteMeta` escapes.
unfoldable is_special : List ℕ → ℕ → Bool
is_special [] c = false
is_special (s ∷ ss) c = let rest = is_special ss c in if c == s then true else rest

-- `regexp.QuoteMeta`.
unfoldable pub quote_meta : Bytes → Bytes
unfolding is_special
quote_meta [] = []
quote_meta (c ∷ s) =
    let rest = quote_meta s in
    if is_special (codes "\\.+*?()|[]{}^$") c then b'\\' ∷ c ∷ rest else c ∷ rest

-- The expression of a `BExp` behind what was sent last.
unfoldable pub validated_expression : Bytes → Bytes → Bytes
unfolding quote_meta trim_suffix
validated_expression previous_send r =
    trim_suffix (quote_meta previous_send) (codes "\n") ++ (codes "((?s).*)" ++ r)

-- What stood before in a batch: nothing, a `BSnd` or a `BExp`; the two flags of the loop.
pub data Previous : Type 0 where
  nothing : Previous
  sent : Previous
  expected : Previous

abbrev prepend : Batcher → Error ⊎ List Batcher → Error ⊎ List Batcher
prepend b (inl e) = inl e
prepend b (inr bs) = inr (b ∷ bs)

abbrev two_expects : Error
two_expects = new (codes "two sequential expect.BExp are not allowed")

abbrev two_sends : Error
two_sends = new (codes "two sequential expect.BSend are not allowed")

abbrev no_switch_case : Error
no_switch_case = new (codes "expectBatchWithValidatedSend doesn't support BatchSwitchCase")

-- The loop of `expectBatchWithValidatedSend`, with what stood before, and the last text sent as it
-- is after it was quoted.
unfoldable pub validate : Previous → Bytes → List Batcher → Error ⊎ List Batcher
unfolding validated_expression
validate before previous_send [] = inr []
validate expected previous_send (expect r ∷ batch) = inl two_expects
validate nothing previous_send (expect r ∷ batch) =
    prepend (expect (validated_expression previous_send r))
      (validate expected (trim_suffix (quote_meta previous_send) (codes "\n")) batch)
validate sent previous_send (expect r ∷ batch) =
    prepend (expect (validated_expression previous_send r))
      (validate expected (trim_suffix (quote_meta previous_send) (codes "\n")) batch)
validate sent previous_send (send s ∷ batch) = inl two_sends
validate nothing previous_send (send s ∷ batch) = prepend (send s) (validate sent s batch)
validate expected previous_send (send s ∷ batch) = prepend (send s) (validate sent s batch)
validate before previous_send (switch_case cases ∷ batch) = inl no_switch_case

-- The batch that `expectBatchWithValidatedSend` runs, or its error. The error for a short batch
-- also prints the batch, as pointers.
unfoldable pub validated_batch : List Batcher → Error ⊎ List Batcher
unfolding validate
validated_batch batch =
    if ltb (length batch) 2
    then inl (new (codes "expectBatchWithValidatedSend requires at least 2 batchers, supplied "))
    else validate nothing [] batch

-- A response with an error beside it; a nil response is empty.
abbrev pub Response : Type 0
Response = List Bytes × Option Error

abbrev pub kernel_args_batch : List Batcher
kernel_args_batch = send (codes "cat /proc/cmdline\n") ∷ expect prompt_expression ∷ []

module _ (env : Env) where
  -- `expectBatchWithValidatedSend` behind the checks.
  abbrev pub run_batch : Bytes → ℕ → Error ⊎ List Batcher → History → Response × History
  run_batch name timeout (inl e) h = (([], some e), h)
  run_batch name timeout (inr batch) h =
      (env.expect_batch h name batch timeout, Call.expect_batch name batch timeout ∷ h)

  -- The session behind a spawned console, with its deferred close.
  abbrev pub in_session : Expecter → ℕ → List Batcher → Option Error → History → Response × History
  in_session e timeout batch (some x) h = (([], some x), h)
  in_session e timeout batch none h =
      let (r, h') = run_batch e.vmi_name timeout (validated_batch batch) h in
      (r, Call.close e.vmi_name ∷ h')

  abbrev pub spawned : Expecter → ℕ → List Batcher → Option Error → History → Response × History
  spawned e timeout batch (some x) h = (([], some x), h)
  spawned e timeout batch none h =
      in_session e timeout batch (env.spawn h e.vmi_name) (Call.spawn e.vmi_name ∷ h)

  -- `SafeExpectBatchWithResponse`, the timeout in seconds.
  unfoldable pub safe_expect_batch_with_response :
      Expecter → List Batcher → ℕ → History → Response × History
  unfolding validated_batch
  safe_expect_batch_with_response e batch timeout h =
      spawned e timeout batch (env.serial_console h e.vmi_namespace e.vmi_name timeout)
        (Call.serial_console e.vmi_namespace e.vmi_name timeout ∷ h)

  -- `resp[0].Output, err`.
  abbrev first_output : Response → Result (Bytes × Option Error)
  first_output ([], o) = panic
  first_output (r ∷ rs, o) = ok (r, o)

  -- `GetGuestKernelArgs`.
  unfoldable pub get_guest_kernel_args :
      Expecter → History → Result (Bytes × Option Error) × History
  unfolding safe_expect_batch_with_response
  get_guest_kernel_args e h =
      let (r, h') = safe_expect_batch_with_response e kernel_args_batch 30 h in (first_output r, h')
