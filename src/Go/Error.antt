-- ===== src/Go/Error.antt =====
-- Go's `error` values, as far as the program builds and inspects them.
use kubevirt_dpdk_checkup.Base.{Bytes, codes, Bool, true, false, ◌++◌}

-- `new` is an error with no chain: `errors.New`, `fmt.Errorf` with no `%w`, or another package's.
-- `wrap` is `fmt.Errorf` with one `%w`, and the text on both sides of it.
-- `not_found` is an API status error of reason NotFound, `wait_timeout` is `wait.ErrWaitTimeout`.
pub data Error : Type 0 where
  new : Bytes → Error
  wrap : Bytes → Error → Bytes → Error
  not_found : Bytes → Error
  wait_timeout : Error

-- `err.Error()`.
unfoldable pub message : Error → Bytes
message (new m) = m
message (wrap before e after) = before ++ (message e ++ after)
message (not_found m) = m
message wait_timeout = codes "timed out waiting for the condition"

-- `errors.Is(err, wait.ErrWaitTimeout)`.
unfoldable pub is_wait_timeout : Error → Bool
is_wait_timeout (new m) = false
is_wait_timeout (wrap before e after) = is_wait_timeout e
is_wait_timeout (not_found m) = false
is_wait_timeout wait_timeout = true

-- `k8serrors.IsNotFound(err)`.
unfoldable pub is_not_found : Error → Bool
is_not_found (new m) = false
is_not_found (wrap before e after) = is_not_found e
is_not_found (not_found m) = true
is_not_found wait_timeout = false
