-- ===== src/Recovery/Policy.antt =====
-- `validate` and `failed_round` of services/aimili-egress/recovery_policy.py. Times are
-- whole microseconds; settings are whole seconds, as in the source.
use aimili_gateway.Prelude.{
  ℕ, ◌+◌, ◌-◌, ◌*◌, ◌^◌, min, Text, Bool, true, ◌&&◌, ◌||◌, Option, none, some, leb, ltb, ◌==◌,
  if◌then◌else◌,
}
use mathlib.Core.Option

-- A second in the unit of time.
abbrev pub second : ℕ
second = 1000000

-- The keys of `DEFAULTS`. The source's integers may be negative too; every bound refuses those.
pub record RecoverySettings : Type 0 where
  pub failure_threshold : ℕ
  pub health_interval_seconds : ℕ
  pub standby_interval_seconds : ℕ
  pub standby_failure_threshold : ℕ
  pub dial_timeout_seconds : ℕ
  pub candidates_per_round : ℕ
  pub max_concurrent_dials : ℕ
  pub retry_initial_seconds : ℕ
  pub retry_max_seconds : ℕ
  pub candidate_cooldown_seconds : ℕ
  pub recovery_budget_seconds : ℕ
  pub freshness_seconds : ℕ
  pub allow_cross_country : Bool
  pub allow_datacenter : Bool

abbrev pub defaults : RecoverySettings
defaults = record {
  failure_threshold = 3;
  health_interval_seconds = 30;
  standby_interval_seconds = 30;
  standby_failure_threshold = 2;
  dial_timeout_seconds = 25;
  candidates_per_round = 8;
  max_concurrent_dials = 1;
  retry_initial_seconds = 10;
  retry_max_seconds = 120;
  candidate_cooldown_seconds = 600;
  recovery_budget_seconds = 1800;
  freshness_seconds = 120;
  allow_cross_country = true;
  allow_datacenter = true;
}

-- One line of `BOUNDS`.
abbrev pub within : ℕ → ℕ → ℕ → Bool
within low high value = leb low value && leb value high

-- Every key of `BOUNDS`.
unfoldable pub in_bounds : RecoverySettings → Bool
in_bounds s =
    within 1 10 s.failure_threshold
    && within 10 300 s.health_interval_seconds
    && within 10 300 s.standby_interval_seconds
    && within 1 10 s.standby_failure_threshold
    && within 10 120 s.dial_timeout_seconds
    && within 1 32 s.candidates_per_round
    && within 1 4 s.max_concurrent_dials
    && within 5 300 s.retry_initial_seconds
    && within 10 1800 s.retry_max_seconds
    && within 30 86400 s.candidate_cooldown_seconds
    && within 60 86400 s.recovery_budget_seconds
    && within 30 3600 s.freshness_seconds

-- `validate`; `none` is the ValueError.
unfoldable pub validate : RecoverySettings → Option RecoverySettings
unfolding in_bounds
validate s =
    if in_bounds s
    then (if ltb s.retry_max_seconds s.retry_initial_seconds
        then none
        else if ltb s.recovery_budget_seconds s.dial_timeout_seconds
        then none
        else some s)
    else none

-- The statuses that a row of the store can have; a round ends in the last or in `manual_required`.
pub data Status : Type 0 where
  repairing manual_required waiting_standby healthy retry_wait : Status

-- The result of `failed_round`.
pub record FailedRound : Type 0 where
  pub started_at : ℕ
  pub attempt : ℕ
  pub status : Status
  pub next_attempt_at : ℕ
  pub last_error_code : Text

-- The pause before attempt `attempt + 1`, in seconds. `attempt` is at least 1.
unfoldable pub retry_delay : RecoverySettings → ℕ → ℕ
retry_delay s attempt = min s.retry_max_seconds (s.retry_initial_seconds * 2 ^ min (attempt - 1) 16)

-- A start that is missing, not positive or in the future is taken to be now.
unfoldable pub round_start : Option ℕ → ℕ → ℕ
round_start started now =
    let s = Option.get_or started now in if s == 0 || ltb now s then now else s

unfoldable pub failed_round : Option ℕ → Option ℕ → ℕ → RecoverySettings → Text → FailedRound
unfolding retry_delay round_start
failed_round started_at attempts now s reason =
    let started = round_start started_at now in
    let attempt = Option.get_or attempts 0 + 1 in
    let manual = leb (s.recovery_budget_seconds * second) (now - started) in
    record {
      started_at = started;
      attempt = attempt;
      status = if manual then manual_required else retry_wait;
      next_attempt_at = if manual then 0 else now + retry_delay s attempt * second;
      last_error_code = reason;
    }
