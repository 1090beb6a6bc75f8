-- ===== src/Cache/Breaker.antt =====
-- `RedisCircuitBreaker` of app/api/core/cache.py. The lock makes each operation atomic; the time is
-- the reading of the monotonic clock that the operation makes.
use crucible_ai.Prelude.{Bool, false, if◌then◌else◌, leb, suc, true, ℕ, ◌+◌}

-- OPEN is `opened`.
pub data CircuitState : Type 0 where
  closed opened half_open disabled : CircuitState

pub record Breaker : Type 0 where
  pub failure_threshold : ℕ
  pub cooldown : ℕ
  pub state : CircuitState
  pub failure_count : ℕ
  pub last_state_change : ℕ

unfoldable pub new_breaker : ℕ → ℕ → ℕ → Breaker
new_breaker failure_threshold cooldown now = record {
  failure_threshold = failure_threshold;
  cooldown = cooldown;
  state = closed;
  failure_count = 0;
  last_state_change = now;
}

abbrev pub enter : CircuitState → ℕ → Breaker → Breaker
enter state now b = record b { state = state; last_state_change = now }

unfoldable pub attempt_in : CircuitState → ℕ → Breaker → Bool × Breaker
attempt_in disabled now b = (false, b)
attempt_in closed now b = (true, b)
attempt_in opened now b =
    if leb (b.last_state_change + b.cooldown) now then (true, enter half_open now b) else (false, b)
attempt_in half_open now b = (true, b)

-- `can_attempt`
unfoldable pub can_attempt : ℕ → Breaker → Bool × Breaker
unfolding attempt_in
can_attempt now b = attempt_in b.state now b

-- `record_success`
unfoldable pub record_success : Breaker → Breaker
record_success b = record b { state = closed; failure_count = 0 }

unfoldable pub fail_in : CircuitState → ℕ → Breaker → Breaker
fail_in disabled now b = b
fail_in closed now b =
    let counted = record b { failure_count = suc b.failure_count } in
    if leb b.failure_threshold (suc b.failure_count) then enter opened now counted else counted
fail_in opened now b = record b { failure_count = suc b.failure_count }
fail_in half_open now b = enter opened now (record b { failure_count = suc b.failure_count })

-- `record_failure`
unfoldable pub record_failure : ℕ → Breaker → Breaker
unfolding fail_in
record_failure now b = fail_in b.state now b
