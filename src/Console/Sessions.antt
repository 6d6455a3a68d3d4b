-- ===== src/Console/Sessions.antt =====
-- A session on a console leaves the instances alone.
use kubevirt_dpdk_checkup.Base.{ℕ, ◌≡◌, refl, Option, none, some, ◌⊎◌, inl, inr, List, Bytes}
use kubevirt_dpdk_checkup.Go.Error.{Error}
use kubevirt_dpdk_checkup.World.{Env, History, Batcher}
use kubevirt_dpdk_checkup.Checkup.Frame.{undeleted}
use kubevirt_dpdk_checkup.Console.{
  Expecter, run_batch, in_session, spawned, validated_batch, safe_expect_batch_with_response,
}

module _ (env : Env) where
  run_batch-undeleted :
      (name : Bytes) (timeout : ℕ) (b : Error ⊎ List Batcher) (h : History)
      → undeleted (run_batch env name timeout b h).1 ≡ undeleted h
  unfolding undeleted
  run_batch-undeleted name timeout (inl e) h = refl
  run_batch-undeleted name timeout (inr b) h = refl

  in_session-undeleted :
      (e : Expecter) (timeout : ℕ) (batch : List Batcher) (o : Option Error) (h : History)
      → undeleted (in_session env e timeout batch o h).1 ≡ undeleted h
  unfolding undeleted
  in_session-undeleted e timeout batch (some x) h = refl
  in_session-undeleted e timeout batch none h =
      run_batch-undeleted e.vmi_name timeout (validated_batch batch) h

  spawned-undeleted :
      (e : Expecter) (timeout : ℕ) (batch : List Batcher) (o : Option Error) (h : History)
      → undeleted (spawned env e timeout batch o h).1 ≡ undeleted h
  unfolding undeleted
  spawned-undeleted e timeout batch (some x) h = refl
  spawned-undeleted e timeout batch none h =
      in_session-undeleted e timeout batch (env.spawn h e.vmi_name) _

  pub safe_expect_batch_with_response-undeleted :
      (e : Expecter) (batch : List Batcher) (timeout : ℕ) (h : History)
      → undeleted (safe_expect_batch_with_response env e batch timeout h).1 ≡ undeleted h
  unfolding safe_expect_batch_with_response undeleted
  safe_expect_batch_with_response-undeleted e batch timeout h =
      spawned-undeleted e timeout batch (env.serial_console h e.vmi_namespace e.vmi_name timeout) _
