-- ===== src/Recovery/Store.antt =====
-- `RepairStore` of services/aimili-egress/egress_repair.py. Each method reads the file, and writes it
-- where it changes something; the lock makes a method one step. The clock's readings are arguments.
use aimili_gateway.Prelude.{
  ℕ, max, Text, codes, Bool, true, false, not, ◌&&◌, ◌||◌, Option, none, some, [], ◌∷◌, ◌==◌,
  text_eq, is_empty, strip, upper, any, if◌then◌else◌,
}
use mathlib.Core.Option
use aimili_gateway.Prelude.Dicts.{Dict, lookup, insert}
use aimili_gateway.Recovery.Policy.{Status, repairing, manual_required, waiting_standby, healthy}

-- A row of "egresses": every key that some method writes, each of which may be missing.
pub record Row : Type 0 where
  pub status : Option Status
  pub failed_candidate_id : Option Text
  pub candidate_id : Option Text
  pub country : Option Text
  pub replacement_candidate_id : Option Text
  pub error_code : Option Text
  pub previous_error_code : Option Text
  pub attempt_count : Option ℕ
  pub recovery_version : Option ℕ
  pub attempted_at : Option ℕ
  pub started_at : Option ℕ
  pub next_attempt_at : Option ℕ
  pub finished_at : Option ℕ
  pub healthy_at : Option ℕ
  pub cooldowns : Option (Dict ℕ)

-- `{}`.
abbrev pub empty_row : Row
empty_row = record {
  status = none;
  failed_candidate_id = none;
  candidate_id = none;
  country = none;
  replacement_candidate_id = none;
  error_code = none;
  previous_error_code = none;
  attempt_count = none;
  recovery_version = none;
  attempted_at = none;
  started_at = none;
  next_attempt_at = none;
  finished_at = none;
  healthy_at = none;
  cooldowns = none;
}

-- The file: `none` where it is missing, cannot be read or holds no document, else its "egresses".
abbrev pub RepairFile : Type 0
RepairFile = Option (Dict Row)

unfoldable pub read : RepairFile → Dict Row
read none = []
read (some d) = d

-- `document["egresses"].get(key, {})`.
unfoldable pub row_of : Text → RepairFile → Row
unfolding read
row_of key f = Option.get_or (lookup key (read f)) empty_row

-- `document["egresses"][key] = row`, written.
unfoldable pub put_row : Text → Row → RepairFile → RepairFile
unfolding read
put_row key row f = some (insert key row (read f))

unfoldable pub is_unresolved : Option Status → Bool
is_unresolved (some repairing) = true
is_unresolved (some manual_required) = true
is_unresolved _ = false

unfoldable pub claimed_row : ℕ → Text → Text → Row
claimed_row now candidate_id country = record empty_row {
  status = some repairing;
  failed_candidate_id = some (strip candidate_id);
  country = some (upper (strip country));
  attempt_count = some 1;
  attempted_at = some now;
  replacement_candidate_id = some [];
  error_code = some [];
}

unfoldable pub claim : ℕ → Text → Text → Text → RepairFile → RepairFile × Bool
unfolding is_unresolved row_of put_row claimed_row
claim now egress candidate_id country f =
    if is_unresolved (row_of egress f).status
    then (f, false)
    else (put_row egress (claimed_row now candidate_id country) f, true)

-- `str(code or default)`.
unfoldable pub or_default : Text → Text → Text
or_default s d = if is_empty s then d else s

unfoldable pub require_manual : ℕ → Text → Text → Text → RepairFile → RepairFile
unfolding row_of put_row or_default
require_manual now egress error_code replacement_candidate_id f =
    let row = row_of egress f in
    put_row egress
      (record row {
        status = some manual_required;
        attempt_count = some (max 1 (Option.get_or row.attempt_count 0));
        replacement_candidate_id = some replacement_candidate_id;
        error_code = some (or_default error_code (codes "auto_repair_failed"));
        finished_at = some now;
      })
      f

unfoldable pub is_settled_for_standby : Option Status → Bool
is_settled_for_standby (some waiting_standby) = true
is_settled_for_standby (some manual_required) = true
is_settled_for_standby _ = false

unfoldable pub is_healthy : Option Status → Bool
is_healthy (some healthy) = true
is_healthy _ = false

unfoldable pub waiting_row : ℕ → Text → Text → Row
waiting_row now candidate_id country = record empty_row {
  status = some waiting_standby;
  failed_candidate_id = some candidate_id;
  country = some country;
  started_at = some now;
  attempt_count = some 0;
  error_code = some (codes "recovery_pending");
  recovery_version = some 2;
}

unfoldable pub wait_for_standby : ℕ → Text → Text → Text → Bool → RepairFile → RepairFile × Bool
unfolding is_settled_for_standby is_healthy row_of put_row waiting_row
wait_for_standby now egress candidate_id country allow_healthy f =
    let row = row_of egress f in
    if is_settled_for_standby row.status
    then (f, false)
    else if is_healthy row.status
        && (not allow_healthy
            && not (text_eq (strip (Option.get_or row.candidate_id [])) (strip candidate_id)))
    then (f, false)
    else (put_row egress (waiting_row now candidate_id country) f, true)

unfoldable pub is_manual : Option Status → Bool
is_manual (some manual_required) = true
is_manual _ = false

unfoldable pub is_version_2 : Option ℕ → Bool
is_version_2 none = false
is_version_2 (some n) = n == 2

-- The error codes of the old one-shot repair.
unfoldable pub is_one_shot_code : Option Text → Bool
is_one_shot_code none = false
is_one_shot_code (some s) =
    any (λ x. text_eq x s)
      (codes "replacement_failed"
        ∷ codes "no_same_country_candidate"
        ∷ codes "repair_interrupted"
        ∷ [])

unfoldable pub requeue_for_standby : ℕ → Text → Text → Text → RepairFile → RepairFile × Bool
unfolding is_manual is_version_2 is_one_shot_code row_of put_row waiting_row or_default
requeue_for_standby now egress candidate_id country f =
    let row = row_of egress f in
    let failed = or_default candidate_id (Option.get_or row.failed_candidate_id []) in
    let where_ = upper (or_default country (Option.get_or row.country [])) in
    let requeued = waiting_row now failed where_ in
    if not (is_manual row.status)
      || (is_version_2 row.recovery_version || not (is_one_shot_code row.error_code))
    then (f, false)
    else (
      put_row egress
          (record requeued { previous_error_code = some (Option.get_or row.error_code []) }) f,
      true,
    )
