-- ===== src/Assignment/Finish.antt =====
-- `commit`, `rollback` and `recover` of main_assignment.py.
use aimili_gateway.Prelude.{
  ℕ, Text, Bool, true, false, not, ◌&&◌, ◌||◌, Option, none, some, leb, ltb, text_eq, if◌then◌else◌,
}
use aimili_gateway.Assignment.Types.{
  OpState, switching, pending_commit, pending_gateway_validation, rolling_back, repairing,
  repair_required, committed, rolled_back, operation_busy, operation_not_found, operation_expired,
  ErrorCode, operation_state_conflict, assignment_expired, Previous, Operation, Active, absent,
  corrupt, running, Coordinator, Validation, Reply, operation, corrupt_marker, idle, failed, Begun,
  answered, calls,
}
use aimili_gateway.Assignment.Document.{save_operation, find_operation, public_view, is_live}
use aimili_gateway.Assignment.Lease.{assignment_action_allowed}
use aimili_gateway.Assignment.Restore.{restore}

unfoldable pub is_committed : OpState → Bool
is_committed committed = true
is_committed _ = false

unfoldable pub is_rolled_back : OpState → Bool
is_rolled_back rolled_back = true
is_rolled_back _ = false

unfoldable pub is_repair_required : OpState → Bool
is_repair_required repair_required = true
is_repair_required _ = false

-- `{"pending_commit", "pending_gateway_validation"}`.
unfoldable pub is_pending : OpState → Bool
is_pending pending_commit = true
is_pending pending_gateway_validation = true
is_pending _ = false

-- `{"switching", "repairing"}`.
unfoldable pub is_working : OpState → Bool
is_working switching = true
is_working repairing = true
is_working _ = false

-- The states that `rollback` starts from.
unfoldable pub is_revertible : OpState → Bool
is_revertible switching = true
is_revertible pending_commit = true
is_revertible pending_gateway_validation = true
is_revertible rolling_back = true
is_revertible repair_required = true
is_revertible _ = false

-- `isinstance(active, dict) and active.get("operation_id") == operation_id`.
unfoldable pub is_active_id : Text → Active → Bool
is_active_id id absent = false
is_active_id id corrupt = false
is_active_id id (running a) = text_eq a.operation_id id

unfoldable pub commit_found : ℕ → Text → Operation → Coordinator → Coordinator × Reply
unfolding is_committed is_pending is_active_id save_operation public_view
commit_found t id o c =
    let o' : Operation = record o { state = committed; error_code = none } in
    if is_committed o.state
    then (c, operation (public_view o))
    else if is_pending o.state && leb o.expires_at t
    then (c, failed operation_expired)
    else if not (is_pending o.state) || not (is_active_id id c.active)
    then (c, failed operation_state_conflict)
    else (save_operation o' false c, operation (public_view o'))

unfoldable pub commit_option : ℕ → Text → Option Operation → Coordinator → Coordinator × Reply
unfolding commit_found
commit_option t id none c = (c, failed operation_not_found)
commit_option t id (some o) c = commit_found t id o c

unfoldable pub commit_allowed : ℕ → Text → Coordinator × Bool → Coordinator × Reply
unfolding commit_option find_operation
commit_allowed t id (c, allowed) =
    if allowed then commit_option t id (find_operation id c) c else (c, failed operation_busy)

-- `commit`; the clock is read for the lease and then for the operation.
unfoldable pub commit : ℕ → ℕ → Text → Coordinator → Coordinator × Reply
unfolding commit_allowed assignment_action_allowed
commit t₀ t₁ id c = commit_allowed t₁ id (assignment_action_allowed t₀ c)

unfoldable pub rollback_option : Text → Option Operation → Active → Begun
unfolding is_rolled_back is_revertible is_active_id public_view
rollback_option id none a = answered (failed operation_not_found)
rollback_option id (some o) a =
    if is_rolled_back o.state
    then answered (operation (public_view o))
    else if not (is_revertible o.state) || not (is_active_id id a)
    then answered (failed operation_state_conflict)
    else calls o

-- The locked section of `rollback`; `_restore` follows where it calls out.
unfoldable pub rollback_begin : Text → Coordinator → Begun
unfolding rollback_option find_operation
rollback_begin id c = rollback_option id (find_operation id c) c.active

unfoldable pub recover_active : ℕ → Active → Coordinator → Begun
unfolding is_repair_required is_working is_pending is_live public_view
recover_active t absent c = answered idle
recover_active t corrupt c = answered corrupt_marker
recover_active t (running a) c =
    if is_repair_required a.state
    then answered (operation (public_view a))
    else if is_working a.state && (is_live a.operation_id c.live && ltb t a.expires_at)
    then answered (operation (public_view a))
    else if is_pending a.state && ltb t a.expires_at
    then answered (operation (public_view a))
    else calls a

-- The locked section of `recover`; `_restore` follows where it calls out.
unfoldable pub recover_begin : ℕ → Coordinator → Begun
unfolding recover_active
recover_begin t c = recover_active t c.active c

unfoldable pub restored_after :
    (Previous → Option Validation) → Option ErrorCode → Begun → Coordinator → Coordinator × Reply
unfolding restore
restored_after restore_previous success_error (answered r) c = (c, r)
restored_after restore_previous success_error (calls o) c =
    restore restore_previous success_error o c

-- `rollback` and `recover` where no other thread runs between the sections.
unfoldable pub rollback : Text → (Previous → Option Validation) → Coordinator → Coordinator × Reply
unfolding rollback_begin restored_after
rollback id restore_previous c = restored_after restore_previous none (rollback_begin id c) c

unfoldable pub recover : ℕ → (Previous → Option Validation) → Coordinator → Coordinator × Reply
unfolding recover_begin restored_after
recover t restore_previous c =
    restored_after restore_previous (some assignment_expired) (recover_begin t c) c
