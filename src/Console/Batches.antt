-- ===== src/Console/Batches.antt =====
-- The batches that the program sends: commands, each with what is expected behind it.
use kubevirt_dpdk_checkup.Base.{
  ℕ, suc, ◌≡◌, ◌≢◌, refl, false, none, inr, List, [], ◌∷◌, Bytes, codes, arith, ltb, length,
}
use kubevirt_dpdk_checkup.Go.Strings.{trim_suffix}
use kubevirt_dpdk_checkup.World.{Env, Call, History, Batcher, send, expect}
use kubevirt_dpdk_checkup.Console.{
  Expecter, Previous, nothing, sent, expected, quote_meta, validated_expression, validate,
  validated_batch, safe_expect_batch_with_response,
}

-- Commands, each with the expression that is expected behind it.
abbrev pub script : List (Bytes × Bytes) → List Batcher
script [] = []
script ((s, r) ∷ ps) = send s ∷ expect r ∷ script ps

-- The same, where each expression also takes the echo of its own command.
abbrev pub echoed : List (Bytes × Bytes) → List Batcher
echoed [] = []
echoed ((s, r) ∷ ps) = send s ∷ expect (validated_expression s r) ∷ echoed ps

-- Behind nothing and behind a `BExp`, a script goes through.
validate-script :
    (before : Previous) (text : Bytes) (ps : List (Bytes × Bytes))
    → before ≢ sent
    → validate before text (script ps) ≡ inr (echoed ps)
unfolding validate
validate-script nothing text [] h = refl
validate-script expected text [] h = refl
validate-script sent text ps h = absurd (h refl)
validate-script nothing text ((s, r) ∷ ps) h =
    rw (validate-script expected (trim_suffix (quote_meta s) (codes "\n")) ps (λ q. cc))
validate-script expected text ((s, r) ∷ ps) h =
    rw (validate-script expected (trim_suffix (quote_meta s) (codes "\n")) ps (λ q. cc))

validated_batch-script :
    (p : Bytes × Bytes) (ps : List (Bytes × Bytes))
    → validated_batch (script (p ∷ ps)) ≡ inr (echoed (p ∷ ps))
unfolding validated_batch
validated_batch-script p ps =
    rw (not_short (length (script ps))) (validate-script nothing [] (p ∷ ps) (λ q. cc))
  where
    not_short : (n : ℕ) → ltb (suc (suc n)) 2 ≡ false
    not_short n = ground arith

-- On a console that opens, commands with their expected prompts are run as one batch, in which each
-- prompt is looked for behind the echo of its own command only, and the console is closed behind
-- it; what the batch returned is what is returned.
pub safe_expect_batch_with_response-script :
    (env : Env) (e : Expecter) (p : Bytes × Bytes) (ps : List (Bytes × Bytes)) (timeout : ℕ)
    (h : History)
    → env.serial_console h e.vmi_namespace e.vmi_name timeout ≡ none
    → env.spawn (Call.serial_console e.vmi_namespace e.vmi_name timeout ∷ h) e.vmi_name ≡ none
    → safe_expect_batch_with_response env e (script (p ∷ ps)) timeout h ≡ (
      env.expect_batch
          (Call.spawn e.vmi_name ∷ Call.serial_console e.vmi_namespace e.vmi_name timeout ∷ h)
          e.vmi_name
          (echoed (p ∷ ps))
          timeout,
      Call.close e.vmi_name
          ∷ Call.expect_batch e.vmi_name (echoed (p ∷ ps)) timeout
          ∷ Call.spawn e.vmi_name
          ∷ Call.serial_console e.vmi_namespace e.vmi_name timeout
          ∷ h,
    )
unfolding safe_expect_batch_with_response
safe_expect_batch_with_response-script env e p ps timeout h opens runs =
    rw (opens, runs, validated_batch-script p ps)
