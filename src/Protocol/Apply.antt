-- ===== src/Protocol/Apply.antt =====
-- The commands of `ProtocolTransactionManager` of scripts/aimili_xui_protocol_transaction.py: `apply`
-- from where the request is valid and its target loaded, `finalize`, `renew`, `rollback`, and
-- `recover_pending` for one operation.
use aimili_gateway.Prelude.{
  ℕ, ◌-◌, max, Text, Bool, true, false, not, ◌&&◌, ◌||◌, Option, none, some, List, [], ◌∷◌, text_eq,
  ltb, ◌==◌, if◌then◌else◌,
}
use aimili_gateway.Protocol.Types.{
  Client, Database, Template, Phase, snapshot, runtime_remove_pending, runtime_add_pending,
  database_pending, database_committed, applied, repair_required, Snapshot, Stored, pending,
  finalized, rolled_back, Code, snapshot_invalid, snapshot_write_failed, unsafe_path,
  database_concurrent_change, database_read_failed, database_write_failed, managed_resource_missing,
  xray_offline_test_failed, runtime_verification_failed, database_verification_failed,
  rollback_failed, operation_not_applied, operation_conflict, operation_finalized,
  temporary_write_failed,
}
use aimili_gateway.Protocol.Database.{columns_match, same_value, auth_update, persist_template}
use aimili_gateway.Protocol.World.{World, Result, done, dead, raised, call, next, require, ask}
use aimili_gateway.Protocol.Rollback.{
  is_some, list_inbound_tags, remove_inbound, add_inbound, rollback_snapshot,
}

-- `_save_snapshot`.
unfoldable pub save_snapshot : Snapshot → Phase → World → World × Result
save_snapshot s phase w =
    call (λ v. record v { stored = some (pending (record s { phase = phase })) })
      snapshot_write_failed w

unfoldable pub commit_template : Option Database → World → World × Result
commit_template none w = (w, raised database_concurrent_change)
commit_template (some db) w = call (λ v. record v { database = db }) database_write_failed w

unfoldable pub auth_applied : Option Text → Option Text → Bool
auth_applied none current = true
auth_applied (some auth) current = same_value current (some auth)

-- The loops of `_verify_applied` over credentials and over flows.
unfoldable pub clients_applied : Template → List Client → List Client → Bool
clients_applied template [] cs = true
clients_applied template (s ∷ ss) [] = false
clients_applied template (s ∷ ss) (c ∷ cs) =
    c.id == s.id
    && (same_value c.flow_override (some template.flow_override)
        && (auth_applied (auth_update template.client_auth_updates s.id) c.auth
            && clients_applied template ss cs))

-- `_verify_applied`. The columns were written as the template's JSON text, so they are compared as text.
unfoldable pub verify_applied : Snapshot → World → World × Result
verify_applied s w = next (list_inbound_tags w) λ v.
    next (require (is_some v.runtime) runtime_verification_failed v) λ u.
      next (ask database_read_failed u) λ t.
        next (require (is_some t.database.inbound) managed_resource_missing t) (λ r.
          require
            (columns_match s.desired_template.columns r.database.inbound
              && clients_applied s.desired_template s.clients r.database.clients)
            database_verification_failed r)

-- The part of `apply` that may change Xray's configuration.
unfoldable pub switch_runtime : Snapshot → World → World × Result
switch_runtime s w = next (save_snapshot s runtime_remove_pending w) λ v.
    next (remove_inbound v) λ u.
      next (save_snapshot s runtime_add_pending u) (add_inbound s.desired_template.runtime_inbound)

-- The part that changes the database.
unfoldable pub switch_database : Snapshot → World → World × Result
switch_database s w = next (save_snapshot s database_pending w) λ v.
    next (commit_template (persist_template s.row s.clients s.desired_template v.database) v)
      (save_snapshot s database_committed)

-- The body of the `try` of `apply`: the test of the whole configuration, and the changes.
unfoldable pub apply_body : Snapshot → World → World × Result
apply_body s w = next (ask temporary_write_failed w) λ a. next (ask xray_offline_test_failed a) λ b.
    next (ask temporary_write_failed b) λ c.
      next (switch_runtime s c)
        λ d. next (switch_database s d) λ e. next (verify_applied s e) (save_snapshot s applied)

unfoldable pub save_repair : Option Stored → World → World × Result
save_repair (some (pending s)) w = save_snapshot s repair_required w
save_repair (some finalized) w = (w, raised snapshot_invalid)
save_repair (some rolled_back) w = (w, raised snapshot_invalid)
save_repair none w = (w, raised unsafe_path)

-- The innermost `try`: the snapshot is read and marked, and what is raised is dropped.
unfoldable pub mark_repair : World × Result → World × Result
mark_repair (w, dead) = (w, dead)
mark_repair (w, done) = (w, raised rollback_failed)
mark_repair (w, raised c) = (w, raised rollback_failed)

unfoldable pub rolled : Code → World × Result → World × Result
rolled original (w, done) = (w, raised original)
rolled original (w, dead) = (w, dead)
rolled original (w, raised c) =
    mark_repair (next (ask snapshot_invalid w) (λ v. save_repair v.stored v))

-- The `except` of `apply`.
unfoldable pub or_undo : World × Result → World × Result
or_undo (w, done) = (w, done)
or_undo (w, dead) = (w, dead)
or_undo (w, raised c) = rolled c (rollback_snapshot true w)

-- `apply` with no snapshot there: the directory is made, and the first snapshot saved.
unfoldable pub apply_new : Snapshot → World → World × Result
apply_new s w =
    next (ask snapshot_write_failed w)
      λ v. next (save_snapshot s snapshot v) (λ u. or_undo (apply_body s u))

unfoldable pub is_applied : Phase → Bool
is_applied applied = true
is_applied _ = false

-- `apply`, where a snapshot is there already.
unfoldable pub apply_known : Text → Snapshot → World → World × Result
apply_known request s w =
    require (text_eq s.request request && is_applied s.phase) operation_conflict w

unfoldable pub apply_stored : Snapshot → Option Stored → World → World × Result
apply_stored s none w = apply_new s w
apply_stored s (some (pending p)) w = next (ask snapshot_invalid w) (apply_known s.request p)
apply_stored s (some finalized) w = (w, raised operation_conflict)
apply_stored s (some rolled_back) w = (w, raised operation_conflict)

-- `s` is what `_new_snapshot` makes of the request and its target.
unfoldable pub apply : Snapshot → World → World × Result
apply s w = apply_stored s w.stored w

unfoldable pub finalize_stored : Option Stored → World → World × Result
finalize_stored none w = (w, raised unsafe_path)
finalize_stored (some finalized) w = (w, done)
finalize_stored (some rolled_back) w = (w, raised operation_not_applied)
finalize_stored (some (pending s)) w =
    if is_applied s.phase
    then call (λ v. record v { stored = some finalized }) snapshot_write_failed w
    else (w, raised operation_not_applied)

unfoldable pub finalize : World → World × Result
finalize w = next (ask snapshot_invalid w) (λ v. finalize_stored v.stored v)

unfoldable pub renew_stored : ℕ → Option Stored → World → World × Result
renew_stored now none w = (w, raised unsafe_path)
renew_stored now (some finalized) w = (w, raised operation_not_applied)
renew_stored now (some rolled_back) w = (w, raised operation_not_applied)
renew_stored now (some (pending s)) w =
    if is_applied s.phase
    then call (λ v. record v { stored = some (pending (record s { lease_updated_at = now })) })
        snapshot_write_failed w
    else (w, raised operation_not_applied)

unfoldable pub renew : ℕ → World → World × Result
renew now w = next (ask snapshot_invalid w) (λ v. renew_stored now v.stored v)

-- The reply for an operation that is finalized has the status "failed".
unfoldable pub rollback_stored : Option Stored → World → World × Result
rollback_stored none w = (w, raised operation_not_applied)
rollback_stored (some finalized) w = (w, raised operation_finalized)
rollback_stored (some rolled_back) w = (w, done)
rollback_stored (some (pending s)) w =
    next (rollback_snapshot false w)
      (call (λ v. record v { stored = some rolled_back }) snapshot_write_failed)

unfoldable pub rollback : World → World × Result
rollback w = next (ask snapshot_invalid w) (λ v. rollback_stored v.stored v)

unfoldable pub is_repair_required : Phase → Bool
is_repair_required repair_required = true
is_repair_required _ = false

-- Whether `recover_pending` leaves an operation for its lease.
unfoldable pub is_recent : ℕ → ℕ → Snapshot → Bool
is_recent min_age now s =
    not (min_age == 0) && ltb (now - max s.created_at s.lease_updated_at) min_age

unfoldable pub recovered : Snapshot → World × Result → World × Result
recovered s (w, done) = (w, done)
recovered s (w, dead) = (w, dead)
recovered s (w, raised c) = save_snapshot s repair_required w

unfoldable pub recover_stored : ℕ → ℕ → Option Stored → World → World × Result
recover_stored min_age now none w = (w, done)
recover_stored min_age now (some finalized) w = (w, done)
recover_stored min_age now (some rolled_back) w = (w, done)
recover_stored min_age now (some (pending s)) w =
    if is_repair_required s.phase || is_recent min_age now s
    then (w, done)
    else recovered s (rollback_snapshot true w)

-- One turn of the loop of `recover_pending`.
unfoldable pub recover_operation : ℕ → ℕ → World → World × Result
recover_operation min_age now w =
    next (ask snapshot_invalid w) (λ v. recover_stored min_age now v.stored v)
