-- ===== src/Protocol/Types.antt =====
-- The data of scripts/aimili_xui_protocol_transaction.py. The JSON text of an inbound is a text, and so
-- is the request; NULL in the database is `none`.
use aimili_gateway.Prelude.{ℕ, Text, Option, List}

-- The columns of `MUTATED_INBOUND_COLUMNS`.
pub record Columns : Type 0 where
  pub protocol : Text
  pub settings : Text
  pub stream_settings : Text
  pub sniffing : Text
  pub disable_flow : ℕ

pub record InboundRow : Type 0 where
  pub id : ℕ
  pub tag : Text
  pub port : ℕ
  pub columns : Columns

-- A client that is attached to the inbound.
pub record Client : Type 0 where
  pub id : ℕ
  pub auth : Option Text
  pub flow_override : Option Text

-- The row of the inbound, and its clients by identifier.
pub record Database : Type 0 where
  pub inbound : Option InboundRow
  pub clients : List Client

-- What `build_template` makes: the columns, the inbound to run, and the two keys with an underscore.
pub record Template : Type 0 where
  pub columns : Columns
  pub runtime_inbound : Text
  pub client_auth_updates : List (ℕ × Text)
  pub flow_override : Text

-- The values of "phase" while an operation is pending.
pub data Phase : Type 0 where
  snapshot runtime_remove_pending runtime_add_pending database_pending : Phase
  database_committed applied repair_required : Phase

pub record Snapshot : Type 0 where
  pub phase : Phase
  pub created_at : ℕ
  pub lease_updated_at : ℕ
  pub request : Text
  pub row : InboundRow
  pub clients : List Client
  pub old_runtime_inbound : Text
  pub desired_template : Template

-- The file snapshot.json: a pending operation, or one of the two short documents that end it.
pub data Stored : Type 0 where
  pending : Snapshot → Stored
  finalized rolled_back : Stored

-- The error codes of the modelled part.
pub data Code : Type 0 where
  snapshot_invalid snapshot_write_failed snapshot_cleanup_failed unsafe_path : Code
  database_concurrent_change database_read_failed database_write_failed : Code
  database_restore_failed managed_resource_missing : Code
  xray_offline_test_failed xray_remove_inbound_failed xray_add_inbound_failed : Code
  xray_list_inbounds_failed runtime_verification_failed database_verification_failed : Code
  rollback_verification_failed rollback_failed operation_not_applied operation_conflict : Code
  operation_finalized temporary_write_failed : Code
