-- ===== src/Assignment/Restore.antt =====
-- `_restore` of main_assignment.py: the way back to the previous connection. It has two locked
-- sections with the callback `restore_previous` between them.
use aimili_gateway.Prelude.{Bool, true, false, ◌&&◌, Option, none, some, text_eq, if◌then◌else◌}
use aimili_gateway.Assignment.Types.{
  OpState, rolling_back, rolled_back, repair_required, ErrorCode, operation_state_conflict,
  rollback_failed, Previous, Operation, Active, absent, corrupt, running, Coordinator, Validation,
  Reply, operation, Begun, answered, calls,
}
use aimili_gateway.Assignment.Document.{
  save_operation, find_operation, with_validation, is_verified, public_view, public_or,
}

unfoldable pub is_rolling_back : OpState → Bool
is_rolling_back rolling_back = true
is_rolling_back _ = false

-- The reply where the active operation is not the one that is being restored.
unfoldable pub restore_lost : Operation → Coordinator → Reply
unfolding public_or find_operation
restore_lost o c = public_or operation_state_conflict (find_operation o.operation_id c)

unfoldable pub restore_begin_active : Operation → Active → Coordinator → Coordinator × Begun
unfolding is_rolling_back restore_lost public_view save_operation
restore_begin_active o absent c = (c, answered (restore_lost o c))
restore_begin_active o corrupt c = (c, answered (restore_lost o c))
restore_begin_active o (running a) c =
    let o' : Operation = record a { state = rolling_back } in
    if text_eq a.operation_id o.operation_id
    then (if is_rolling_back a.state
        then (c, answered (operation (public_view a)))
        else (save_operation o' true c, calls o'))
    else (c, answered (restore_lost o c))

-- The first locked section.
unfoldable pub restore_begin : Operation → Coordinator → Coordinator × Begun
unfolding restore_begin_active
restore_begin o c = restore_begin_active o c.active c

unfoldable pub is_none {ℓ} : {A : Type ℓ} → Option A → Bool
is_none none = true
is_none (some a) = false

-- The operation that `_restore` records once the callback has answered.
unfoldable pub restored : Option ErrorCode → Operation → Operation
unfolding is_verified is_none
restored success_error o =
    if is_verified o
    then record o { state = rolled_back; error_code = success_error; ok = is_none success_error }
    else record o { state = repair_required; error_code = some rollback_failed; ok = false }

unfoldable pub restore_finish_active :
    Operation → Option Validation → Option ErrorCode → Active → Coordinator → Coordinator × Reply
unfolding is_rolling_back restore_lost public_view save_operation restored with_validation
restore_finish_active o v success_error absent c = (c, restore_lost o c)
restore_finish_active o v success_error corrupt c = (c, restore_lost o c)
restore_finish_active o v success_error (running a) c =
    let checked : Operation = with_validation v o in
    let o' : Operation = restored success_error checked in
    if text_eq a.operation_id o.operation_id && is_rolling_back a.state
    then (
      if is_verified checked then save_operation o' false c else save_operation o' true c,
      operation (public_view o'),
    )
    else (c, restore_lost o c)

-- The second locked section.
unfoldable pub restore_finish :
    Operation → Option Validation → Option ErrorCode → Coordinator → Coordinator × Reply
unfolding restore_finish_active
restore_finish o v success_error c = restore_finish_active o v success_error c.active c

unfoldable pub restore_called :
    (Previous → Option Validation) → Option ErrorCode → Begun → Coordinator → Coordinator × Reply
unfolding restore_finish
restore_called restore_previous success_error (answered r) c = (c, r)
restore_called restore_previous success_error (calls o) c =
    restore_finish o (restore_previous o.previous) success_error c

-- `_restore` where no other thread runs between its sections.
unfoldable pub restore :
    (Previous → Option Validation)
    → Option ErrorCode
    → Operation
    → Coordinator
    → Coordinator × Reply
unfolding restore_begin restore_called
restore restore_previous success_error o c =
    let (c', b) = restore_begin o c in restore_called restore_previous success_error b c'
