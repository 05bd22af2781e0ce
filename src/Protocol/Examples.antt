-- ===== src/Protocol/Examples.antt =====
-- Runs of the switch of a protocol on one inbound with two clients.
use aimili_gateway.Prelude.{codes, ◌≡◌, refl, true, false, inl, inr, none, some, List, [], ◌∷◌}
use aimili_gateway.Prelude.Strings.{text_eq, is_empty}
use aimili_gateway.Protocol.Database.{
  same_value, same_columns, auth_update, is_unset, update_inbound, new_auth, put_client,
  persist_client, add_client, persist_clients, put_database, persist_template, restored_auth,
  restored_flow, put_restored, restore_client, restore_clients, restore_database, auth_matches,
  clients_match, columns_match, database_matches, has_flow, valid_clients, valid_updates, is_client,
  auth_within, clients_within,
}
use aimili_gateway.Protocol.World.{
  Luck, works, breaks, dies_late, State, World, outcome, call_by, call, next, require, lastly, ask,
}
use aimili_gateway.Protocol.Rollback.{
  is_some, list_inbound_tags, remove_inbound, add_inbound, validate_boundary,
  write_rollback_inbound, remove_running, restore_runtime, is_snapshot, undo_runtime,
  commit_restored, undo_database, verify_undone, remove_operation, undo, undo_stored,
  rollback_snapshot,
}
use aimili_gateway.Protocol.Apply.{
  save_snapshot, commit_template, auth_applied, clients_applied, verify_applied, switch_runtime,
  switch_database, apply_body, save_repair, mark_repair, rolled, or_undo, apply_new, is_applied,
  apply_known, apply_stored, apply, finalize_stored, finalize, renew_stored, renew, rollback_stored,
  rollback, is_repair_required, is_recent, recovered, recover_stored, recover_operation,
}
use aimili_gateway.Protocol.Commands.{
  Command, apply_it, rollback_it, recover_it, Life, run_all-Life, run, run_all,
}
use aimili_gateway.Protocol.Types.{
  Columns, InboundRow, Client, Database, Template, snapshot, runtime_remove_pending,
  runtime_add_pending, applied, Snapshot, pending,
}
use aimili_gateway.Protocol.Triples.{Works}
use aimili_gateway.Protocol.Restores.{old_database, old-MixedDatabase, restore-persist_template}
use aimili_gateway.Protocol.RollbackSafe.{Held, Gone}
use aimili_gateway.Protocol.RollbackWorks.{Ready}
use aimili_gateway.Protocol.Recovers.{RolledBack, recovery-Works}
use aimili_gateway.Protocol.Stuck.{Stuck, run_all-Stuck}

abbrev old_columns : Columns
old_columns = record {
  protocol = codes "vless";
  settings = codes "{}";
  stream_settings = codes "{}";
  sniffing = codes "{}";
  disable_flow = 0;
}

abbrev new_columns : Columns
new_columns = record old_columns { protocol = codes "hysteria"; disable_flow = 1 }

abbrev row : InboundRow
row = record { id = 7; tag = codes "inbound-7"; port = 443; columns = old_columns }

abbrev clients : List Client
clients =
    record { id = 1; auth = none; flow_override = some (codes "") }
    ∷ record { id = 2; auth = some (codes "kept"); flow_override = some (codes "") }
    ∷ []

abbrev template : Template
template = record {
  columns = new_columns;
  runtime_inbound = codes "new";
  client_auth_updates = (1, codes "made") ∷ [];
  flow_override = codes "none";
}

abbrev operation : Snapshot
operation = record {
  phase = snapshot;
  created_at = 10;
  lease_updated_at = 10;
  request = codes "request";
  row = row;
  clients = clients;
  old_runtime_inbound = codes "old";
  desired_template = template;
}

abbrev before : State
before = record {
  runtime = some (codes "old");
  database = old_database operation;
  stored = none;
  leftover = false;
}

abbrev halfway : Snapshot
halfway = record operation { phase = runtime_add_pending }

-- Xray has neither inbound, and the process died.
abbrev crashed : State
crashed = record before { runtime = none; stored = some (pending halfway) }

crashed-Held : Held halfway crashed
unfolding is_snapshot
crashed-Held = record {
  same_stored = refl;
  mixed = old-MixedDatabase halfway;
  untouched = λ (e : false ≡ true). cc;
}

crashed-Ready : Ready halfway crashed
unfolding valid_clients valid_updates is_client has_flow
crashed-Ready = record {
  held = crashed-Held;
  no_leftover = refl;
  clients_valid = refl;
  updates_valid = refl;
}

abbrev unlucky : World
unlucky = record { state = crashed; luck = works ∷ works ∷ breaks ∷ [] }

abbrev lucky : World
lucky = record { state = crashed; luck = [] }

recovery-Works_example :
    Works (RolledBack halfway) (rollback lucky)
    × (is_repair_required halfway.phase ≡ false
        → Works (Gone halfway) (recover_operation 0 100 lucky))
recovery-Works_example = recovery-Works halfway 100 lucky refl crashed-Ready

abbrev first_try : World
first_try = record {
  state = before;
  luck = works ∷ works ∷ works ∷ works ∷ works ∷ works ∷ works ∷ works ∷ breaks ∷ [];
}

abbrev history : List (Command × List Luck)
history =
    (apply_it, works ∷ works ∷ works ∷ works ∷ works ∷ works ∷ dies_late ∷ [])
    ∷ (recover_it 0 20, works ∷ works ∷ works ∷ breaks ∷ [])
    ∷ (rollback_it, [])
    ∷ []

run_all-Life_example : Life operation (run_all operation history before)
run_all-Life_example = run_all-Life operation history before (inr (inl refl, (refl, refl)))

abbrev stuck : State
stuck = record crashed { leftover = true }

run_all-Stuck_example : Stuck none (old_database operation) (run_all operation history stuck)
unfolding is_snapshot
run_all-Stuck_example = run_all-Stuck operation halfway history stuck refl refl refl

abbrev new_database : Database
new_database = record {
  inbound = some (record row { columns = new_columns });
  clients =
      record { id = 1; auth = some (codes "made"); flow_override = some (codes "none") }
      ∷ record { id = 2; auth = some (codes "kept"); flow_override = some (codes "none") }
      ∷ [];
}

persisted : persist_template row clients template (old_database operation) ≡ some new_database
unfolding persist_template text_eq
persisted = refl

restore-persist_template_example :
    restore_database operation new_database ≡ some (old_database operation)
restore-persist_template_example = restore-persist_template operation new_database persisted

abbrev killed_twice : List (Command × List Luck)
killed_twice =
    (apply_it, works ∷ works ∷ works ∷ works ∷ works ∷ works ∷ dies_late ∷ [])
    ∷ (recover_it 0 20, works ∷ works ∷ works ∷ dies_late ∷ [])
    ∷ []

-- A process that dies in its rollback leaves the file there, and Xray without the inbound.
left_behind : run_all operation killed_twice before ≡ record crashed {
  stored = some (pending (record operation { phase = runtime_remove_pending }));
  leftover = true;
}
unfolding text_eq same_value same_columns auth_update is_unset update_inbound new_auth put_client
    persist_client add_client persist_clients put_database persist_template restored_auth
    restored_flow put_restored restore_client restore_clients restore_database auth_matches
    clients_match columns_match database_matches has_flow valid_clients valid_updates is_client
    auth_within clients_within outcome call_by call next require lastly ask is_some
    list_inbound_tags remove_inbound add_inbound validate_boundary write_rollback_inbound
    remove_running restore_runtime is_snapshot undo_runtime commit_restored undo_database
    verify_undone remove_operation undo undo_stored rollback_snapshot save_snapshot commit_template
    auth_applied clients_applied verify_applied switch_runtime switch_database apply_body
    save_repair mark_repair rolled or_undo apply_new is_applied apply_known apply_stored apply
    finalize_stored finalize renew_stored renew rollback_stored rollback is_repair_required
    is_recent recovered recover_stored recover_operation run run_all
left_behind = refl

-- Every call works: the operation is applied.
applied_at_once : (apply operation (record { state = before; luck = [] })).0.state ≡ record {
  runtime = some (codes "new");
  database = new_database;
  stored = some (pending (record operation { phase = applied }));
  leftover = false;
}
unfolding text_eq is_empty same_value same_columns auth_update is_unset update_inbound new_auth
    put_client persist_client add_client persist_clients put_database persist_template restored_auth
    restored_flow put_restored restore_client restore_clients restore_database auth_matches
    clients_match columns_match database_matches has_flow valid_clients valid_updates is_client
    auth_within clients_within outcome call_by call next require lastly ask is_some
    list_inbound_tags remove_inbound add_inbound validate_boundary write_rollback_inbound
    remove_running restore_runtime is_snapshot undo_runtime commit_restored undo_database
    verify_undone remove_operation undo undo_stored rollback_snapshot save_snapshot commit_template
    auth_applied clients_applied verify_applied switch_runtime switch_database apply_body
    save_repair mark_repair rolled or_undo apply_new is_applied apply_known apply_stored apply
    finalize_stored finalize renew_stored renew rollback_stored rollback is_repair_required
    is_recent recovered recover_stored recover_operation run run_all
applied_at_once = refl
