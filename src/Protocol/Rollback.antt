-- ===== src/Protocol/Rollback.antt =====
-- `_rollback_snapshot` of scripts/aimili_xui_protocol_transaction.py.
use aimili_gateway.Prelude.{Text, Bool, true, false, Option, none, some, if◌then◌else◌}
use aimili_gateway.Protocol.Types.{
  Database, Phase, snapshot, Snapshot, Stored, pending, finalized, rolled_back, snapshot_invalid,
  snapshot_cleanup_failed, unsafe_path, database_concurrent_change, database_read_failed,
  database_restore_failed, managed_resource_missing, xray_remove_inbound_failed,
  xray_add_inbound_failed, xray_list_inbounds_failed, rollback_verification_failed,
  temporary_write_failed,
}
use aimili_gateway.Protocol.Database.{
  columns_match, valid_clients, valid_updates, clients_within, database_matches, restore_database,
}
use aimili_gateway.Protocol.World.{World, Result, raised, call, next, require, lastly, ask}

unfoldable pub is_some {ℓ} : {A : Type ℓ} → Option A → Bool
is_some none = false
is_some (some a) = true

-- The runner's three calls; only the inbound of the operation's tag is looked at.
unfoldable pub list_inbound_tags : World → World × Result
list_inbound_tags w = ask xray_list_inbounds_failed w

unfoldable pub remove_inbound : World → World × Result
remove_inbound w = call (λ v. record v { runtime = none }) xray_remove_inbound_failed w

unfoldable pub add_inbound : Text → World → World × Result
add_inbound inbound w = call (λ v. record v { runtime = some inbound }) xray_add_inbound_failed w

-- `_validate_rollback_database_boundary`.
unfoldable pub validate_boundary : Snapshot → World → World × Result
validate_boundary s w = next (require (valid_clients s.clients) snapshot_invalid w) λ v.
    next
      (require (valid_updates s.desired_template.client_auth_updates s.clients) snapshot_invalid v)
      λ u. next (ask database_read_failed u) (λ x.
        require (clients_within s.desired_template s.clients x.database.clients)
          database_concurrent_change x)

-- `_write_temporary_json(operation_dir, "rollback-inbound.json", ...)`: the file must not exist.
unfoldable pub write_rollback_inbound : World → World × Result
write_rollback_inbound w =
    next (require (if w.leftover then false else true) unsafe_path w)
      (call (λ v. record v { leftover = true }) temporary_write_failed)

-- `if request["inboundTag"] in self.runner.list_inbound_tags(): self.runner.remove_inbound(...)`.
unfoldable pub remove_running : World → World × Result
remove_running w =
    next (list_inbound_tags w)
      (λ v. if is_some v.runtime then remove_inbound v else require true snapshot_invalid v)

unfoldable pub restore_runtime : Snapshot → World → World × Result
restore_runtime s w = next (write_rollback_inbound w) (λ v.
    lastly (next (remove_running v) (add_inbound s.old_runtime_inbound))
      (λ u. record u { leftover = false }))

unfoldable pub is_snapshot : Phase → Bool
is_snapshot snapshot = true
is_snapshot _ = false

-- `runtime_may_have_changed` and what it guards.
unfoldable pub undo_runtime : Snapshot → World → World × Result
undo_runtime s w =
    if is_snapshot s.phase then require true snapshot_invalid w else restore_runtime s w

-- The transaction of `_restore_database`: what it raises is raised before it has an effect.
unfoldable pub commit_restored : Option Database → World → World × Result
commit_restored none w = (w, raised database_concurrent_change)
commit_restored (some db) w = call (λ v. record v { database = db }) database_restore_failed w

-- `if not self._database_matches_snapshot(snapshot): self._restore_database(snapshot)`.
unfoldable pub undo_database : Snapshot → World → World × Result
undo_database s w = next (ask database_read_failed w) λ v.
    next (require (is_some v.database.inbound) managed_resource_missing v) (λ u.
      if database_matches s u.database
      then require true snapshot_invalid u
      else commit_restored (restore_database s u.database) u)

unfoldable pub verify_undone : Snapshot → World → World × Result
verify_undone s w = next (list_inbound_tags w) λ v.
    next (require (is_some v.runtime) rollback_verification_failed v) λ u.
      next (ask database_read_failed u) λ t.
        next (require (is_some t.database.inbound) managed_resource_missing t) (λ r.
          require (columns_match s.row.columns r.database.inbound) rollback_verification_failed r)

-- `_remove_operation_dir`.
unfoldable pub remove_operation : World → World × Result
remove_operation w =
    call (λ v. record v { stored = none; leftover = false }) snapshot_cleanup_failed w

-- The body, from the snapshot that was read.
unfoldable pub undo : Snapshot → World → World × Result
undo s w =
    next (validate_boundary s w)
      λ v. next (undo_runtime s v) λ u. next (undo_database s u) (verify_undone s)

unfoldable pub undo_stored : Option Stored → World → World × Result
undo_stored (some (pending s)) w = undo s w
undo_stored (some finalized) w = (w, raised snapshot_invalid)
undo_stored (some rolled_back) w = (w, raised snapshot_invalid)
undo_stored none w = (w, raised unsafe_path)

unfoldable pub rollback_snapshot : Bool → World → World × Result
rollback_snapshot remove_on_success w = next (ask snapshot_invalid w) λ v.
    next (undo_stored v.stored v)
      (λ u. if remove_on_success then remove_operation u else require true snapshot_invalid u)
