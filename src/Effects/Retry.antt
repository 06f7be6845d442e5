-- ===== src/Effects/Retry.antt =====
-- packages/agent/src/harness/runtime/drive/retry.ts: the time before which a retry does not start.
-- The base delay and the clock are natural numbers, which a double holds exactly up to the safe
-- limit; the product and the sum of safe numbers beyond it are not safe, rounded or not.
-- The attempt is at most 1024, so the power is finite.
mod Tests
use native.Mathlib.Nat.{pow-succ'}
use livi_agent.Prelude.{
  ℕ, suc, ◌+◌, ◌-◌, ◌*◌, ◌^◌, ◌≤◌, ◌<◌, ◌≡◌, refl, Bool, true, false, ltb, if◌then◌else◌, arith,
  min, Bool-cases, inl, inr,
}

abbrev pub max_safe_integer : ℕ
max_safe_integer = 2 ^ 53 - 1

clamp : ℕ → ℕ
clamp n = if ltb max_safe_integer n then max_safe_integer else n

pub retry_delay : ℕ → ℕ → ℕ
unfolding clamp
retry_delay base_delay_ms attempt = clamp (base_delay_ms * 2 ^ (attempt - 1))

pub retry_not_before : ℕ → ℕ → ℕ → ℕ
unfolding retry_delay clamp
retry_not_before base_delay_ms attempt now = clamp (now + retry_delay base_delay_ms attempt)

-- From the second attempt on the delay is twice that of the attempt before, or the largest safe
-- integer where that is less.
pub retry_delay-doubles :
    (base attempt : ℕ)
    → retry_delay base (suc (suc attempt))
      ≡ min max_safe_integer (2 * retry_delay base (suc attempt))
unfolding retry_delay clamp
retry_delay-doubles base attempt =
    let doubled : 2 ^ suc attempt ≡ 2 * 2 ^ attempt = pow-succ' 2 attempt in
    let twice : base * 2 ^ suc attempt ≡ 2 * (base * 2 ^ attempt) = grind (arith, doubled) in
    ground (arith, twice)

-- Where the clock is a safe integer, the time of a retry is one too, and is not before the clock.
pub retry_not_before-bounds :
    (base attempt now : ℕ)
    → now ≤ max_safe_integer
    → (now ≤ retry_not_before base attempt now)
      × (retry_not_before base attempt now ≤ max_safe_integer)
unfolding retry_not_before retry_delay clamp
retry_not_before-bounds base attempt now h = (ground arith, ground arith)
