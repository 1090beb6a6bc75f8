-- ===== src/Cache/Trips.antt =====
-- When the circuit breaker opens, and what it lets through.
use crucible_ai.Cache.Breaker.{
  closed, opened, half_open, disabled, Breaker, CircuitState, attempt_in, can_attempt, fail_in,
  record_failure, record_success, disabled, new_breaker, enter,
}
use crucible_ai.Prelude.{
  Bool, List, [], ap, arith, false, if_split, if◌then◌else◌, leb, leb→le, length, refl, suc, true,
  ℕ, ◌+◌, ◌<◌, ◌∙◌, ◌∷◌, ◌≡◌, ◌≤◌,
}

-- A use of the breaker. `disable` is what the Redis client does to it when it is not configured.
pub data Event : Type 0 where
  attempt failure : ℕ → Event
  success disable : Event

abbrev pub react : Event → Breaker → Breaker
react (attempt now) b = (can_attempt now b).1
react (failure now) b = record_failure now b
react success b = record_success b
react disable b = record b { state = disabled }

abbrev pub react_all : List Event → Breaker → Breaker
react_all [] b = b
react_all (e ∷ es) b = react_all es (react e b)

-- A closed breaker has seen fewer failures than its threshold, an open or half-open one at least as
-- many.
abbrev pub IsSound : CircuitState → Breaker → Type 0
IsSound closed b = b.failure_count < b.failure_threshold
IsSound disabled b = Unit
IsSound _ b = b.failure_threshold ≤ b.failure_count

attempt-IsSound :
    (s : CircuitState) (now : ℕ) (b : Breaker)
    → b.state ≡ s
    → IsSound s b
    → IsSound (attempt_in s now b).1.state (attempt_in s now b).1
unfolding attempt_in
attempt-IsSound disabled now b e h = rw e tt
attempt-IsSound closed now b e h = rw e h
attempt-IsSound opened now b e h =
    if_split (λ (m : Bool × Breaker). IsSound m.1.state m.1)
      (leb (b.last_state_change + b.cooldown) now) (λ _. h) (λ _. rw e h)
attempt-IsSound half_open now b e h = rw e h

fail-IsSound :
    (s : CircuitState) (now : ℕ) (b : Breaker)
    → b.state ≡ s
    → IsSound s b
    → IsSound (fail_in s now b).state (fail_in s now b)
unfolding fail_in
fail-IsSound disabled now b e h = rw e tt
fail-IsSound closed now b e h =
    if_split (λ (m : Breaker). IsSound m.state m) (leb b.failure_threshold (suc b.failure_count))
      (λ q. leb→le b.failure_threshold (suc b.failure_count) q) (λ q. rw e (ground (arith, q)))
fail-IsSound opened now b e h = rw e (omega (arith, h))
fail-IsSound half_open now b e h = omega (arith, h)

attempt-failure_threshold :
    (s : CircuitState) (now : ℕ) (b : Breaker)
    → (attempt_in s now b).1.failure_threshold ≡ b.failure_threshold
unfolding attempt_in
attempt-failure_threshold s now b = ground arith

fail-failure_threshold :
    (s : CircuitState) (now : ℕ) (b : Breaker)
    → (fail_in s now b).failure_threshold ≡ b.failure_threshold
unfolding fail_in
fail-failure_threshold s now b = ground arith

react-failure_threshold :
    (v : Event) (b : Breaker) → (react v b).failure_threshold ≡ b.failure_threshold
unfolding can_attempt record_failure record_success
react-failure_threshold (attempt now) b = attempt-failure_threshold b.state now b
react-failure_threshold (failure now) b = fail-failure_threshold b.state now b
react-failure_threshold success b = refl
react-failure_threshold disable b = refl

react-IsSound :
    (v : Event) (b : Breaker)
    → 1 ≤ b.failure_threshold
    → IsSound b.state b
    → IsSound (react v b).state (react v b)
unfolding can_attempt record_failure record_success
react-IsSound (attempt now) b n h = attempt-IsSound b.state now b refl h
react-IsSound (failure now) b n h = fail-IsSound b.state now b refl h
react-IsSound success b n h = omega (arith, n)
react-IsSound disable b n h = tt

react_all_kept :
    (vs : List Event) (b : Breaker)
    → 1 ≤ b.failure_threshold
    → IsSound b.state b
    → IsSound (react_all vs b).state (react_all vs b)
react_all_kept [] b n h = h
react_all_kept (v ∷ vs) b n h =
    react_all_kept vs (react v b) (omega (arith, react-failure_threshold v b, n))
      (react-IsSound v b n h)

-- After any use of a new breaker that is made for at least one failure, it is closed only while it
-- has counted fewer failures than its threshold since the last success, and open or half-open only
-- when it has counted at least as many.
pub react_all-IsSound :
    (vs : List Event) (failure_threshold cooldown now : ℕ)
    → 1 ≤ failure_threshold
    → IsSound
        (react_all vs (new_breaker failure_threshold cooldown now)).state
        (react_all vs (new_breaker failure_threshold cooldown now))
unfolding new_breaker
react_all-IsSound vs failure_threshold cooldown now n =
    react_all_kept vs (new_breaker failure_threshold cooldown now) n (omega (arith, n))

abbrev pub failures : List ℕ → List Event
failures [] = []
failures (t ∷ ts) = failure t ∷ failures ts

one_failure :
    (t : ℕ) (b : Breaker)
    → b.state ≡ closed
    → suc b.failure_count < b.failure_threshold
    → record_failure t b ≡ record b { failure_count = suc b.failure_count }
unfolding record_failure fail_in
one_failure t b e h =
    ap (λ s. fail_in s t b) e
    ∙ if_split (λ m. m ≡ record b { failure_count = suc b.failure_count })
        (leb b.failure_threshold (suc b.failure_count)) (λ q. absurd (ground (arith, q, h)))
        (λ _. refl)

-- A run of failures that stays below the threshold leaves a closed breaker closed.
failures-closed :
    (ts : List ℕ) (b : Breaker)
    → b.state ≡ closed
    → b.failure_count + length ts < b.failure_threshold
    → react_all (failures ts) b ≡ record b { failure_count = b.failure_count + length ts }
failures-closed [] b e h = ap (λ n. record b { failure_count = n }) (omega arith)
failures-closed (t ∷ ts) b e h =
    ap (react_all (failures ts)) (one_failure t b e (omega (arith, h)))
    ∙ (failures-closed ts (record b { failure_count = suc b.failure_count }) e (omega (arith, h))
        ∙ ap (λ n. record b { failure_count = n }) (omega arith))

last_failure :
    (t : ℕ) (b : Breaker)
    → b.state ≡ closed
    → suc b.failure_count ≡ b.failure_threshold
    → record_failure t b ≡ enter opened t (record b { failure_count = suc b.failure_count })
unfolding record_failure fail_in
last_failure t b e h =
    ap (λ s. fail_in s t b) e
    ∙ if_split (λ m. m ≡ enter opened t (record b { failure_count = suc b.failure_count }))
        (leb b.failure_threshold (suc b.failure_count)) (λ _. refl)
        (λ q. absurd (ground (arith, q, h)))

-- Where failures in a row bring a closed breaker to its threshold, the last of them, at a time `t`,
-- opens it, and from then on an attempt is refused and changes nothing until the cooldown is over;
-- the first attempt after that is let through, and makes the breaker half-open.
pub failures-opened :
    (ts : List ℕ) (t now : ℕ) (b : Breaker)
    → b.state ≡ closed
    → b.failure_count + suc (length ts) ≡ b.failure_threshold
    → ((record_failure t (react_all (failures ts) b)).state ≡ opened)
      × (can_attempt now (record_failure t (react_all (failures ts) b)) ≡ (
          if leb (t + b.cooldown) now
          then (true, enter half_open now (record_failure t (react_all (failures ts) b)))
          else (false, record_failure t (react_all (failures ts) b))))
unfolding can_attempt attempt_in
failures-opened ts t now b e h =
    let n : record_failure t (react_all (failures ts) b)
        ≡ enter opened t (record b { failure_count = suc (b.failure_count + length ts) }) =
      ap (record_failure t) (failures-closed ts b e (omega (arith, h)))
      ∙ last_failure t (record b { failure_count = b.failure_count + length ts }) e
          (omega (arith, h)) in
    rw n (refl, refl)
