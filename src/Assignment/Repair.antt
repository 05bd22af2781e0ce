-- ===== src/Assignment/Repair.antt =====
-- `repair_commit`, `repair_replace` and `_repair_candidate` of main_assignment.py.
use aimili_gateway.Prelude.{
  ℕ, ◌+◌, Text, codes, Bool, true, false, not, ◌&&◌, ◌||◌, Option, none, some, List, [], ◌∷◌,
  length, leb, ◌==◌, text_eq, is_empty, strip, upper, if◌then◌else◌,
}
use aimili_gateway.Assignment.Types.{
  OpState, pending_gateway_validation, repairing, repair_required, committed, ErrorCode,
  invalid_request, idempotency_conflict, operation_not_found, operation_expired,
  operation_state_conflict, repair_commit_failed, repair_replace_failed, Resolution, Operation,
  Active, absent, corrupt, running, Coordinator, Settings, Hashing, Validation, Reply, operation,
  corrupt_marker, failed, Begun, answered, calls,
}
use aimili_gateway.Assignment.Types
use aimili_gateway.Assignment.Document.{
  save_operation, find_operation, with_validation, is_verified, public_view, add_live, discard_live,
}
use aimili_gateway.Assignment.Finish.{is_active_id, is_repair_required}

-- The local `replacement`.
pub record Replacement : Type 0 where
  pub new_candidate_id : Text
  pub country : Text
  pub proxy_type : Text

-- What the two public methods hand to `_repair_candidate`.
pub record RepairPlan : Type 0 where
  pub replacement : Option Replacement
  pub repair_request : List (Text × Text)
  pub resolution : Resolution
  pub failure_code : ErrorCode

unfoldable pub commit_plan : RepairPlan
commit_plan = record {
  replacement = none;
  repair_request = (codes "action", codes "repair_commit") ∷ [];
  resolution = Types.repair_commit;
  failure_code = repair_commit_failed;
}

unfoldable pub replacement_of : Text → Text → Text → Replacement
replacement_of candidate_id country proxy_type = record {
  new_candidate_id = strip candidate_id;
  country = upper (strip country);
  proxy_type = strip proxy_type;
}

-- The keys of the request, sorted as `json.dumps(..., sort_keys=True)` reads them.
unfoldable pub replace_plan : Replacement → RepairPlan
replace_plan r = record {
  replacement = some r;
  repair_request =
      (codes "action", codes "repair_replace")
      ∷ (codes "country", r.country)
      ∷ (codes "new_candidate_id", r.new_candidate_id)
      ∷ (codes "proxy_type", r.proxy_type)
      ∷ [];
  resolution = Types.repair_replace;
  failure_code = repair_replace_failed;
}

unfoldable pub is_proxy_type : Text → Bool
is_proxy_type p = text_eq p (codes "residential") || text_eq p (codes "datacenter")

unfoldable pub is_replacement : Replacement → Bool
unfolding is_proxy_type
is_replacement r =
    not (is_empty r.new_candidate_id) && (length r.country == 2 && is_proxy_type r.proxy_type)

unfoldable pub replaced : Option Replacement → Operation → Operation
replaced none o = o
replaced (some r) o = record o {
  new_candidate_id = r.new_candidate_id;
  country = r.country;
  proxy_type = r.proxy_type;
}

-- The operation as `_repair_candidate` records it before the callback.
unfoldable pub repairing_operation : Settings → ℕ → Text → RepairPlan → Operation → Operation
unfolding replaced
repairing_operation cfg t hash plan o =
    let o' : Operation = replaced plan.replacement o in
    record o' {
      state = repairing;
      repair_request_hash = some hash;
      resolution = some plan.resolution;
      expires_at = t + cfg.ttl;
    }

-- `{"pending_gateway_validation", "committed"}`.
unfoldable pub is_repaired : OpState → Bool
is_repaired pending_gateway_validation = true
is_repaired committed = true
is_repaired _ = false

unfoldable pub is_awaiting_gateway : OpState → Bool
is_awaiting_gateway pending_gateway_validation = true
is_awaiting_gateway _ = false

-- A repair asked again. A stored hash of "" counts as missing.
unfoldable pub repair_replay : ℕ → Text → Option Text → Operation → Reply
unfolding is_awaiting_gateway public_view
repair_replay t hash none o = failed operation_state_conflict
repair_replay t hash (some stored) o =
    if is_empty stored
    then failed operation_state_conflict
    else if not (text_eq stored hash)
    then failed idempotency_conflict
    else if is_awaiting_gateway o.state && leb o.expires_at t
    then failed operation_expired
    else operation (public_view o)

unfoldable pub repair_found :
    Settings → ℕ → ℕ → Text → RepairPlan → Text → Operation → Coordinator → Coordinator × Begun
unfolding is_repaired repair_replay is_active_id is_repair_required repairing_operation
    save_operation add_live
repair_found cfg t₀ t₁ hash plan id o c =
    let o' : Operation = repairing_operation cfg t₁ hash plan o in
    if is_repaired o.state
    then (c, answered (repair_replay t₀ hash o.repair_request_hash o))
    else if not (is_repair_required o.state) || not (is_active_id id c.active)
    then (c, answered (failed operation_state_conflict))
    else (add_live id (save_operation o' true c), calls o')

unfoldable pub repair_option :
    Settings
    → ℕ
    → ℕ
    → Text
    → RepairPlan
    → Text
    → Option Operation
    → Coordinator
    → Coordinator × Begun
unfolding repair_found
repair_option cfg t₀ t₁ hash plan id none c = (c, answered (failed operation_not_found))
repair_option cfg t₀ t₁ hash plan id (some o) c = repair_found cfg t₀ t₁ hash plan id o c

-- The first locked section of `_repair_candidate`. The clock is read in the one branch or in the
-- other: `t₀` where a repair is asked again, `t₁` where it starts.
unfoldable pub repair_begin :
    Hashing → Settings → ℕ → ℕ → RepairPlan → Text → Coordinator → Coordinator × Begun
unfolding repair_option find_operation
repair_begin h cfg t₀ t₁ plan id c =
    repair_option cfg t₀ t₁ (h.sha256 (h.dumps plan.repair_request)) plan id (find_operation id c) c

unfoldable pub is_repairing : OpState → Bool
is_repairing repairing = true
is_repairing _ = false

-- The operation that the second section records.
unfoldable pub repaired : ErrorCode → Operation → Operation
unfolding is_verified
repaired failure_code o =
    if is_verified o
    then record o { state = pending_gateway_validation; error_code = none; ok = true }
    else record o {
      state = repair_required;
      error_code = some failure_code;
      ok = false;
      repair_request_hash = none;
      resolution = none;
    }

unfoldable pub repair_finish_active :
    Operation → Option Validation → ErrorCode → Active → Coordinator → Coordinator × Reply
unfolding is_repairing with_validation repaired save_operation discard_live public_view
repair_finish_active o v failure_code absent c =
    (discard_live o.operation_id c, failed operation_state_conflict)
repair_finish_active o v failure_code corrupt c = (discard_live o.operation_id c, corrupt_marker)
repair_finish_active o v failure_code (running a) c =
    let o' : Operation = repaired failure_code (with_validation v o) in
    if text_eq a.operation_id o.operation_id && is_repairing a.state
    then (discard_live o.operation_id (save_operation o' true c), operation (public_view o'))
    else (discard_live o.operation_id c, operation (public_view a))

-- The second locked section.
unfoldable pub repair_finish :
    Operation → Option Validation → ErrorCode → Coordinator → Coordinator × Reply
unfolding repair_finish_active
repair_finish o v failure_code c = repair_finish_active o v failure_code c.active c

unfoldable pub repair_called :
    (Text → Option Validation) → ErrorCode → Begun → Coordinator → Coordinator × Reply
unfolding repair_finish
repair_called activate_candidate failure_code (answered r) c = (c, r)
repair_called activate_candidate failure_code (calls o) c =
    repair_finish o (activate_candidate o.new_candidate_id) failure_code c

-- `_repair_candidate` where no other thread runs between its sections.
unfoldable pub repair_candidate :
    Hashing
    → Settings
    → ℕ
    → ℕ
    → RepairPlan
    → Text
    → (Text → Option Validation)
    → Coordinator
    → Coordinator × Reply
unfolding repair_begin repair_called
repair_candidate h cfg t₀ t₁ plan id activate_candidate c =
    let (c', b) = repair_begin h cfg t₀ t₁ plan id c in
    repair_called activate_candidate plan.failure_code b c'

unfoldable pub repair_commit :
    Hashing
    → Settings
    → ℕ
    → ℕ
    → Text
    → (Text → Option Validation)
    → Coordinator
    → Coordinator × Reply
unfolding repair_candidate commit_plan
repair_commit h cfg t₀ t₁ id activate_candidate c =
    repair_candidate h cfg t₀ t₁ commit_plan id activate_candidate c

unfoldable pub repair_replace :
    Hashing
    → Settings
    → ℕ
    → ℕ
    → Text
    → Text
    → Text
    → Text
    → (Text → Option Validation)
    → Coordinator
    → Coordinator × Reply
unfolding is_replacement replacement_of repair_candidate replace_plan
repair_replace h cfg t₀ t₁ id candidate_id country proxy_type activate_candidate c =
    let r : Replacement = replacement_of candidate_id country proxy_type in
    if is_replacement r
    then repair_candidate h cfg t₀ t₁ (replace_plan r) id activate_candidate c
    else (c, failed invalid_request)
