-- ===== src/Core/Routing/Execution/Attempts.antt =====
-- The calls of the host that an execution makes.

use Prim.Native.Nat.{min}
use codex_routecraft.Prelude.{ℕ, suc, ◌+◌, ◌<◌, ◌≤◌, true, false, Option, none, some, ◌≡◌}
use codex_routecraft.Core.Words.{Value}
use codex_routecraft.Core.Routing.Execution.{Host, Attempt, ExecutionResult, attempt}

-- From `s` on, the loop calls the host in order until a call succeeds, at most `left` times.
pub record IsRetried (host : Host) (left : ℕ) (s result : Attempt) : Type 0 where
  pub from_start : s.attempts ≤ result.attempts
  pub bounded : result.attempts ≤ s.attempts + left
  pub earlier_failed :
      (n : ℕ) → s.attempts < n → n < result.attempts → (attempt host n).succeeded ≡ false
  pub last_kept : s.attempts < result.attempts → attempt host result.attempts ≡ result
  pub unmoved : result.attempts ≡ s.attempts → result ≡ s
  pub exhausted : result.succeeded ≡ false → result.attempts ≡ s.attempts + left

-- How the calls of the host and the result of an execution belong together.
pub record IsExecuted (host : Host) (limit : ℕ) (result : ExecutionResult) : Type 0 where
  pub at_most_limit : result.attempts ≤ limit
  pub only_dispatched : 1 ≤ result.attempts → result.decision.dispatch ≡ true
  pub failed_before : (n : ℕ) → 1 ≤ n → n < result.attempts → (attempt host n).succeeded ≡ false
  pub last_counts :
      1 ≤ result.attempts → (attempt host result.attempts).succeeded ≡ result.succeeded
  pub needs_call : result.succeeded ≡ true → 1 ≤ result.attempts
  pub all_used : 1 ≤ result.attempts → result.succeeded ≡ false → result.attempts ≡ limit

-- A whole number as a number of retries, where a value is one: below zero there are none.
abbrev pub retries_in : Option Value → Option ℕ
retries_in (some (Value.num n)) = some n
retries_in (some (Value.negative _)) = some 0
retries_in _ = none

abbrev pub unless_given : Option ℕ → ℕ → ℕ
unless_given (some n) default = n
unless_given none default = default

-- The attempts that an execution has: the first, and the retries that both the core and the request
-- allow, at most three; the core allows one retry where it is not told.
unfoldable pub attempts_allowed : Value → Option Value → ℕ
attempts_allowed configured asked =
    let core = min 3 (unless_given (retries_in (some configured)) 1) in
    suc (min core (unless_given (retries_in asked) core))
