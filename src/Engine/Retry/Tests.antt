-- ===== src/Engine/Retry/Tests.antt =====
-- A retried call at a concrete input.
use torq_cli_python.Prelude.{ℕ, zero, suc, String, some, arith}
use torq_cli_python.Engine.Retry.{Reply, value, provider_error, call_with_retry}
use torq_cli_python.Engine.Retry.Calls.{Stops, call_with_retry-Stops}

-- Busy once, then a value.
abbrev replies : ℕ → Reply String
replies zero = provider_error (some 429)
replies (suc n) = value "done"

call_with_retry-Stops_example : Stops replies 3 (call_with_retry replies 3)
call_with_retry-Stops_example = call_with_retry-Stops replies 3 (omega arith)
