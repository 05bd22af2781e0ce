-- ===== src/Recovery/Attempts.antt =====
-- The methods of `RepairStore` (services/aimili-egress/egress_repair.py) that count a round of attempts,
-- cool a candidate down, and take up the work after a restart.
use aimili_gateway.Prelude.{
  ℕ, ◌+◌, ◌*◌, max, Text, codes, Bool, true, false, ◌&&◌, Option, none, some, List, [], ◌∷◌, leb,
  ltb, text_eq, if◌then◌else◌,
}
use mathlib.Core.Option
use aimili_gateway.Prelude.Dicts.{Dict, lookup, insert, remove}
use aimili_gateway.Recovery.Policy.{
  Status, repairing, manual_required, healthy, retry_wait, RecoverySettings, FailedRound,
  failed_round, second,
}
use aimili_gateway.Recovery.Store.{
  Row, empty_row, RepairFile, read, row_of, put_row, is_unresolved, is_version_2, is_healthy,
}

-- Elapsed seconds against the budget: `now - started >= settings["recoveryBudgetSeconds"]`.
unfoldable pub is_exhausted : ℕ → ℕ → RecoverySettings → Bool
is_exhausted now started s = leb (started + s.recovery_budget_seconds * second) now

-- A healthy row counts as `{}`.
unfoldable pub round_row : Row → Row
unfolding is_healthy
round_row row = if is_healthy row.status then empty_row else row

unfoldable pub exhausted_row : Row → Row
exhausted_row row = record row {
  status = some manual_required;
  error_code = some (codes "recovery_budget_exhausted");
  next_attempt_at = some 0;
}

unfoldable pub round_begun_row : ℕ → Text → ℕ → Row → Row
round_begun_row now country started row = record row {
  status = some repairing;
  country = some country;
  started_at = some started;
  attempted_at = some now;
  recovery_version = some 2;
}

unfoldable pub begin_round : ℕ → Text → Text → RecoverySettings → RepairFile → RepairFile × Bool
unfolding is_unresolved row_of put_row is_exhausted round_row exhausted_row round_begun_row
begin_round now egress country s f =
    let row = round_row (row_of egress f) in
    let started = Option.get_or row.started_at now in
    if is_unresolved (row_of egress f).status
    then (f, false)
    else if is_exhausted now started s
    then (put_row egress (exhausted_row row) f, false)
    else if ltb now (Option.get_or row.next_attempt_at 0)
    then (f, false)
    else (put_row egress (round_begun_row now country started row) f, true)

unfoldable pub round_finished_row : FailedRound → Row → Row
round_finished_row r row = record row {
  status = some r.status;
  started_at = some r.started_at;
  attempt_count = some r.attempt;
  next_attempt_at = some r.next_attempt_at;
  error_code = some r.last_error_code;
  recovery_version = some 2;
}

-- `finish_round`, which reads the clock twice.
unfoldable pub finish_round : ℕ → ℕ → Text → RecoverySettings → Text → RepairFile → RepairFile × Row
unfolding row_of put_row failed_round round_finished_row
finish_round t₀ t₁ egress s error_code f =
    let row = row_of egress f in
    let r =
      failed_round (some (Option.get_or row.started_at t₀))
        (some (Option.get_or row.attempt_count 0)) t₁ s error_code in
    let row' = round_finished_row r row in (put_row egress row' f, row')

unfoldable pub running_cooldowns : ℕ → Dict ℕ → Dict ℕ
running_cooldowns now [] = []
running_cooldowns now ((k, until) ∷ d) =
    let rest = running_cooldowns now d in if ltb now until then (k, until) ∷ rest else rest

unfoldable pub cool_candidate : ℕ → Text → Text → ℕ → RepairFile → RepairFile
unfolding row_of put_row
cool_candidate now egress candidate_id seconds f =
    let row = row_of egress f in
    let left = running_cooldowns now (Option.get_or row.cooldowns []) in
    put_row egress
      (record row { cooldowns = some (insert candidate_id (now + seconds * second) left) }) f

unfoldable pub interrupted_row : ℕ → Row → Row
unfolding is_version_2
interrupted_row now row =
    if is_version_2 row.recovery_version
    then record row {
      status = some retry_wait;
      next_attempt_at = some now;
      error_code = some (codes "recovery_resumed");
    }
    else record row {
      status = some manual_required;
      attempt_count = some (max 1 (Option.get_or row.attempt_count 0));
      error_code = some (codes "repair_interrupted");
      finished_at = some now;
    }

unfoldable pub is_repairing : Option Status → Bool
is_repairing (some repairing) = true
is_repairing _ = false

-- The loop of `recover_interrupted`, with the clock's reading at each row.
unfoldable pub recover_rows : (Text → ℕ) → Dict Row → Dict Row
unfolding is_repairing interrupted_row
recover_rows now [] = []
recover_rows now ((k, row) ∷ d) =
    (k, if is_repairing row.status then interrupted_row (now k) row else row) ∷ recover_rows now d

unfoldable pub interrupted_keys : Dict Row → List Text
unfolding is_repairing
interrupted_keys [] = []
interrupted_keys ((k, row) ∷ d) =
    let rest = interrupted_keys d in if is_repairing row.status then k ∷ rest else rest

unfoldable pub is_nil : List Text → Bool
is_nil [] = true
is_nil (k ∷ ks) = false

unfoldable pub recover_interrupted : (Text → ℕ) → RepairFile → RepairFile × List Text
unfolding read recover_rows interrupted_keys is_nil
recover_interrupted now f =
    let keys = interrupted_keys (read f) in
    (if is_nil keys then f else some (recover_rows now (read f)), keys)

unfoldable pub healthy_row : ℕ → Text → Row
healthy_row now candidate_id = record empty_row {
  status = some healthy;
  candidate_id = some candidate_id;
  attempt_count = some 0;
  error_code = some [];
  healthy_at = some now;
}

unfoldable pub mark_healthy : ℕ → Text → Text → RepairFile → RepairFile
unfolding is_healthy row_of put_row healthy_row
mark_healthy now egress candidate_id f =
    let row = row_of egress f in
    if is_healthy row.status && text_eq (Option.get_or row.candidate_id []) candidate_id
    then f
    else put_row egress (healthy_row now candidate_id) f

unfoldable pub clear_found : Text → Option Row → RepairFile → RepairFile
unfolding read
clear_found egress none f = f
clear_found egress (some row) f = some (remove egress (read f))

unfoldable pub clear : Text → RepairFile → RepairFile
unfolding read clear_found
clear egress f = clear_found egress (lookup egress (read f)) f
