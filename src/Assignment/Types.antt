-- ===== src/Assignment/Types.antt =====
-- The data of services/aimili-egress/main_assignment.py. A JSON object of a fixed shape is a
-- record; a key that may be missing is an `Option`. Times are whole numbers of one unit.
use aimili_gateway.Prelude.{ℕ, Text, Bool, true, false, Option, List}
use aimili_gateway.Prelude.Dicts.{Dict}

-- The states of an operation, `_OPERATION_STATES`.
pub data OpState : Type 0 where
  switching pending_commit pending_gateway_validation rolling_back repairing : OpState
  repair_required committed rolled_back : OpState

-- Membership in `_BLOCKING_STATES`, which is `_ACTIVE_OPERATION_STATES` too.
unfoldable pub is_blocking : OpState → Bool
is_blocking committed = false
is_blocking rolled_back = false
is_blocking _ = true

-- The error codes that the coordinator writes or returns.
pub data ErrorCode : Type 0 where
  invalid_request lease_busy operation_busy lease_not_found idempotency_conflict : ErrorCode
  current_mismatch current_not_restorable candidate_in_use operation_state_conflict : ErrorCode
  operation_not_found operation_expired rollback_failed state_corrupt : ErrorCode
  assign_failed_rolled_back assignment_expired repair_commit_failed repair_replace_failed :
      ErrorCode

pub data Resolution : Type 0 where
  repair_commit repair_replace : Resolution

-- The keys `_PREVIOUS_FIELDS` of what a rollback restores.
pub record Previous : Type 0 where
  pub candidate_id : Option Text
  pub country : Option Text
  pub proxy_type : Option Text
  pub connection_enabled : Option Bool
  pub routing_mode : Option Text
  pub routing_ip_type : Option Text
  pub fixed_node_id : Option Text

-- `_OPERATION_REQUIRED_FIELDS` and `_OPERATION_OPTIONAL_FIELDS`; an `error_code` of "" is `none`.
pub record Operation : Type 0 where
  pub ok : Bool
  pub operation_id : Text
  pub state : OpState
  pub old_candidate_id : Text
  pub new_candidate_id : Text
  pub country : Text
  pub proxy_type : Text
  pub port : ℕ
  pub dns_verified : Bool
  pub exit_verified : Bool
  pub available : Bool
  pub error_code : Option ErrorCode
  pub created_at : ℕ
  pub expires_at : ℕ
  pub idempotency_hash : Text
  pub request_hash : Text
  pub previous : Previous
  pub repair_request_hash : Option Text
  pub resolution : Option Resolution

-- `_LEASE_STATES`.
pub data LeaseState : Type 0 where
  active released expired : LeaseState

unfoldable pub is_active : LeaseState → Bool
is_active active = true
is_active _ = false

pub record Lease : Type 0 where
  pub ok : Bool
  pub state : LeaseState
  pub lease_id : Text
  pub idempotency_hash : Text
  pub expires_at : Option ℕ

-- The document's "active": null, the marker that `_corrupt_state` writes, or an operation.
pub data Active : Type 0 where
  absent corrupt : Active
  running : Operation → Active

-- The persisted document; its "version" is always 1.
pub record Document : Type 0 where
  pub active : Active
  pub operations : Dict Operation
  pub mutation_lease : Option Lease

-- The object: `_state`, the file that it was last written to (`none` before the first write) and
-- the set `_live_operation_ids`.
pub record Coordinator : Type 0 where
  pub doc : Document
  pub open doc use *
  pub disk : Option Document
  pub live : List Text

-- The constructor's `ttl_seconds` and `mutation_lease_ttl_seconds`, in the unit of time.
pub record Settings : Type 0 where
  pub ttl : ℕ
  pub lease_ttl : ℕ

-- What the coordinator takes from hashlib and json: `sha256(_).hexdigest()`, and `dumps` of an
-- object whose values are texts.
pub record Hashing : Type 0 where
  pub sha256 : Text → Text
  pub dumps : List (Text × Text) → Text

-- What a callback's dictionary says under the three keys that `_validation` reads.
pub record Validation : Type 0 where
  pub dns_verified : Bool
  pub exit_verified : Bool
  pub available : Bool

-- The keys of `_public`.
pub record PublicOperation : Type 0 where
  pub ok : Bool
  pub operation_id : Text
  pub state : OpState
  pub old_candidate_id : Text
  pub new_candidate_id : Text
  pub country : Text
  pub proxy_type : Text
  pub port : ℕ
  pub dns_verified : Bool
  pub exit_verified : Bool
  pub available : Bool
  pub error_code : Option ErrorCode
  pub resolution : Option Resolution
  pub expires_at : ℕ

-- The keys of `_public_mutation_lease`.
pub record PublicLease : Type 0 where
  pub ok : Bool
  pub state : LeaseState
  pub lease_id : Text
  pub expires_at : Option ℕ

-- What a method returns: the public view of an operation, of a lease or of the corrupt marker;
-- `{"ok": False, "error_code": e}`; `{"ok": True, "state": "idle"}`; `{"ok": True, "state":
-- "released"}`; or the TypeError that `compare_digest` raises on text that is not ASCII.
pub data Reply : Type 0 where
  operation : PublicOperation → Reply
  lease : PublicLease → Reply
  corrupt_marker idle lease_released type_error : Reply
  failed : ErrorCode → Reply

-- The end of the first locked section of a method: it returns, or it calls out with an operation.
pub data Begun : Type 0 where
  answered : Reply → Begun
  calls : Operation → Begun
