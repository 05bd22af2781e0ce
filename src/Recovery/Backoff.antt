-- ===== src/Recovery/Backoff.antt =====
-- The backoff of recovery_policy.py: what validated settings promise, bounds and growth of the
-- pause, and the budget.
use aimili_gateway.Prelude.{ℕ, ◌-◌, ◌*◌, ◌^◌, ◌≤◌, min, ◌≡◌, some, arith}
use native.Mathlib.Nat.{one-le-pow, pow-le-pow_right}
use aimili_gateway.Recovery.Policy.{RecoverySettings, validate, retry_delay}

pub record IsValidated (s : RecoverySettings) : Type 0 where
  pub pauses : s.retry_initial_seconds ≤ s.retry_max_seconds
  pub initial : (5 ≤ s.retry_initial_seconds) × (s.retry_initial_seconds ≤ 300)
  pub longest : s.retry_max_seconds ≤ 1800
  pub dial : s.dial_timeout_seconds ≤ s.recovery_budget_seconds
  pub budget : (60 ≤ s.recovery_budget_seconds) × (s.recovery_budget_seconds ≤ 86400)

-- What `validate` returns is what it was given, and is within the bounds.
pub validate-IsValidated : (s v : RecoverySettings) → validate s ≡ some v → (v ≡ s) × IsValidated v
unfolding validate
validate-IsValidated s v e = (ground arith, ground arith)

growth : (n m : ℕ) → n ≤ m → 2 ^ min (n - 1) 16 ≤ 2 ^ min (m - 1) 16
growth n m h = pow-le-pow_right (omega arith) (omega arith)

growth_pos : (n : ℕ) → 1 ≤ 2 ^ min (n - 1) 16
growth_pos n = one-le-pow (min (n - 1) 16) 2 (omega arith)

le-mul : (a p : ℕ) → 1 ≤ p → a ≤ a * p
le-mul a p h = grind arith

mul_mono : (a p q : ℕ) → p ≤ q → a * p ≤ a * q
mul_mono a p q h = grind arith

-- Settings that pass `validate`: the pause before a retry lies between the initial and the greatest
-- pause, and never shrinks from one attempt to a later one.
pub retry_delay_bounds :
    (s v : RecoverySettings) (n m : ℕ)
    → validate s ≡ some v
    → n ≤ m
    → (v.retry_initial_seconds ≤ retry_delay v n)
      × (retry_delay v n ≤ v.retry_max_seconds)
      × (retry_delay v n ≤ retry_delay v m)
unfolding retry_delay
retry_delay_bounds s v n m ok h =
    let facts = (validate-IsValidated s v ok).1 in
    let low = le-mul v.retry_initial_seconds (2 ^ min (n - 1) 16) (growth_pos n) in
    let grows = mul_mono v.retry_initial_seconds _ _ (growth n m h) in
    (omega (arith, facts.pauses, low), omega arith, omega (arith, grows))
