-- ===== src/Go/Context.antt =====
-- `context.Context`: the background context, or one with a timeout below another, in seconds.
use kubevirt_dpdk_checkup.Base.{ℕ}

pub data Context : Type 0 where
  background : Context
  with_timeout : Context → ℕ → Context
