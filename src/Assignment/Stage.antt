-- ===== src/Assignment/Stage.antt =====
-- `stage` of main_assignment.py: two locked sections with the callback `stage_candidate` between
-- them, and `_restore` where the candidate does not pass.
use aimili_gateway.Prelude.{
  ℕ, ◌+◌, Text, codes, Bool, true, false, not, ◌&&◌, Option, none, some, List, [], ◌∷◌, any,
  text_eq, is_empty, strip, upper, if◌then◌else◌,
}
use mathlib.Core.Option
use aimili_gateway.Prelude.Dicts.{lookup}
use aimili_gateway.Assignment.Types.{
  OpState, switching, pending_commit, idempotency_conflict, current_mismatch,
  current_not_restorable, candidate_in_use, operation_busy, operation_state_conflict,
  assign_failed_rolled_back, Previous, Operation, Active, absent, corrupt, running, Coordinator,
  Settings, Hashing, Validation, Reply, operation, corrupt_marker, failed, Begun, answered, calls,
}
use aimili_gateway.Assignment.Document.{
  save_operation, with_validation, is_verified, public_view, add_live, discard_live,
}
use aimili_gateway.Assignment.Lease.{mutation_allowed}
use aimili_gateway.Assignment.Restore.{restore}

-- The keyword arguments of `stage` but the callbacks. `current` is the dictionary `current`: its
-- keys in `_PREVIOUS_FIELDS`, and whether its "restorable" is `True`.
pub record StageCall : Type 0 where
  pub candidate_id : Text
  pub country : Text
  pub proxy_type : Text
  pub expected_current_candidate_id : Text
  pub idempotency_key : Text
  pub current : Previous
  pub restorable : Bool
  pub slot_candidate_ids : List Text

-- The local `request`, after `strip` and `upper`.
pub record StageRequest : Type 0 where
  pub candidate_id : Text
  pub country : Text
  pub proxy_type : Text
  pub expected_current_candidate_id : Text

unfoldable pub stage_request : StageCall → StageRequest
stage_request s = record {
  candidate_id = strip s.candidate_id;
  country = upper (strip s.country);
  proxy_type = strip s.proxy_type;
  expected_current_candidate_id = strip s.expected_current_candidate_id;
}

-- `self._digest(json.dumps(request, sort_keys=True, ...))`.
unfoldable pub stage_request_hash : Hashing → StageRequest → Text
stage_request_hash h r = h.sha256 (
    h.dumps (
      (codes "candidate_id", r.candidate_id)
      ∷ (codes "country", r.country)
      ∷ (codes "expected_current_candidate_id", r.expected_current_candidate_id)
      ∷ (codes "proxy_type", r.proxy_type)
      ∷ []))

-- `str(current.get("candidate_id") or "").strip()`.
unfoldable pub current_id : StageCall → Text
current_id s = strip (Option.get_or s.current.candidate_id [])

unfoldable pub is_in_use : Text → List Text → Bool
is_in_use id slots = any (λ s. text_eq (strip s) id) slots

-- The new operation. `created` and `expires` are two readings of the clock.
unfoldable pub new_operation : Hashing → Settings → ℕ → ℕ → Text → StageCall → Operation
unfolding stage_request stage_request_hash current_id
new_operation h cfg created expires fresh s =
    let r : StageRequest = stage_request s in
    record {
      ok = true;
      operation_id = fresh;
      state = switching;
      old_candidate_id = current_id s;
      new_candidate_id = r.candidate_id;
      country = r.country;
      proxy_type = r.proxy_type;
      port = 7928;
      dns_verified = false;
      exit_verified = false;
      available = false;
      error_code = none;
      created_at = created;
      expires_at = expires + cfg.ttl;
      idempotency_hash = h.sha256 s.idempotency_key;
      request_hash = stage_request_hash h r;
      previous = s.current;
      repair_request_hash = none;
      resolution = none;
    }

unfoldable pub stage_known : Text → Operation → Reply
unfolding public_view
stage_known request_hash o =
    if text_eq o.request_hash request_hash
    then operation (public_view o)
    else failed idempotency_conflict

unfoldable pub stage_open : Operation → Coordinator × Bool → Coordinator × Begun
unfolding save_operation add_live
stage_open o (c, allowed) =
    if allowed
    then (add_live o.operation_id (save_operation o true c), calls o)
    else (c, answered (failed operation_busy))

unfoldable pub stage_new : ℕ → Operation → StageCall → Coordinator → Coordinator × Begun
unfolding stage_request current_id is_in_use stage_open mutation_allowed
stage_new t o s c =
    let r : StageRequest = stage_request s in
    if not (text_eq r.expected_current_candidate_id (current_id s))
    then (c, answered (failed current_mismatch))
    else if not (is_empty (current_id s)) && not s.restorable
    then (c, answered (failed current_not_restorable))
    else if is_in_use r.candidate_id s.slot_candidate_ids
    then (c, answered (failed candidate_in_use))
    else stage_open o (mutation_allowed t c)

unfoldable pub stage_against :
    ℕ → Operation → StageCall → Option Operation → Coordinator → Coordinator × Begun
unfolding stage_known stage_new
stage_against t o s (some p) c = (c, answered (stage_known o.request_hash p))
stage_against t o s none c = stage_new t o s c

-- The first locked section. `t`, `created` and `expires` are the readings of the clock, and `fresh`
-- is what `operation_id_factory` returns.
unfoldable pub stage_begin :
    Hashing → Settings → ℕ → ℕ → ℕ → Text → StageCall → Coordinator → Coordinator × Begun
unfolding stage_against new_operation
stage_begin h cfg t created expires fresh s c =
    let o : Operation = new_operation h cfg created expires fresh s in
    stage_against t o s (lookup o.idempotency_hash c.operations) c

unfoldable pub is_switching : OpState → Bool
is_switching switching = true
is_switching _ = false

unfoldable pub stage_finish_active :
    Operation → Option Validation → Active → Coordinator → Coordinator × Begun
unfolding is_switching with_validation is_verified save_operation discard_live public_view
stage_finish_active o v absent c =
    (discard_live o.operation_id c, answered (failed operation_state_conflict))
stage_finish_active o v corrupt c = (discard_live o.operation_id c, answered corrupt_marker)
stage_finish_active o v (running a) c =
    let checked : Operation = with_validation v o in
    let o' : Operation = record checked { state = pending_commit } in
    if text_eq a.operation_id o.operation_id && is_switching a.state
    then (if is_verified checked
        then (
          discard_live o.operation_id (save_operation o' true c),
          answered (operation (public_view o')),
        )
        else (c, calls checked))
    else (discard_live o.operation_id c, answered (operation (public_view a)))

-- The second locked section; it calls out where `_restore` follows.
unfoldable pub stage_finish : Operation → Option Validation → Coordinator → Coordinator × Begun
unfolding stage_finish_active
stage_finish o v c = stage_finish_active o v c.active c

unfoldable pub stage_restored : Text → Coordinator × Reply → Coordinator × Reply
unfolding discard_live
stage_restored id (c, r) = (discard_live id c, r)

unfoldable pub stage_undone :
    (Previous → Option Validation) → Begun → Coordinator → Coordinator × Reply
unfolding stage_restored restore
stage_undone restore_previous (answered r) c = (c, r)
stage_undone restore_previous (calls o) c =
    stage_restored o.operation_id (restore restore_previous (some assign_failed_rolled_back) o c)

unfoldable pub stage_called :
    (Text → Option Validation)
    → (Previous → Option Validation)
    → Begun
    → Coordinator
    → Coordinator × Reply
unfolding stage_finish stage_undone
stage_called stage_candidate restore_previous (answered r) c = (c, r)
stage_called stage_candidate restore_previous (calls o) c =
    let (c', b) = stage_finish o (stage_candidate o.new_candidate_id) c in
    stage_undone restore_previous b c'

-- `stage` where no other thread runs between its sections.
unfoldable pub stage :
    Hashing
    → Settings
    → ℕ
    → ℕ
    → ℕ
    → Text
    → (Text → Option Validation)
    → (Previous → Option Validation)
    → StageCall
    → Coordinator
    → Coordinator × Reply
unfolding stage_begin stage_called
stage h cfg t created expires fresh stage_candidate restore_previous s c =
    let (c', b) = stage_begin h cfg t created expires fresh s c in
    stage_called stage_candidate restore_previous b c'
