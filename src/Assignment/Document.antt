-- ===== src/Assignment/Document.antt =====
-- The helpers of `MainAssignmentCoordinator` on its document: `_write`, `_save_operation`,
-- `_find_operation`, `_validation`, `_verified`, `_public`.
use aimili_gateway.Prelude.{
  Text, Bool, false, ◌&&◌, Option, none, some, List, ◌∷◌, text_eq, any, keep, not, if◌then◌else◌,
}
use aimili_gateway.Prelude.Dicts.{insert, find}
use aimili_gateway.Assignment.Types.{
  Operation, absent, running, Coordinator, Validation, PublicOperation, Reply, operation, failed,
  ErrorCode,
}

-- `_write`: the file is replaced by the document in memory. A write that raises is not modelled.
unfoldable pub write : Coordinator → Coordinator
write c = record c { disk = some c.doc }

-- `_save_operation`.
unfoldable pub save_operation : Operation → Bool → Coordinator → Coordinator
unfolding write
save_operation o is_active c = write (record c {
  doc = record c.doc {
    operations = insert o.idempotency_hash o c.operations;
    active = if is_active then running o else absent;
  };
})

-- `_find_operation`; the caller gets a copy.
unfoldable pub find_operation : Text → Coordinator → Option Operation
find_operation wanted c = find (λ o. text_eq o.operation_id wanted) c.operations

-- `operation.update(self._validation(value))`; `none` is a callback that raised or returned no
-- dictionary.
unfoldable pub with_validation : Option Validation → Operation → Operation
with_validation none o = record o { dns_verified = false; exit_verified = false; available = false }
with_validation (some v) o = record o {
  dns_verified = v.dns_verified;
  exit_verified = v.exit_verified;
  available = v.available;
}

-- `_verified`.
unfoldable pub is_verified : Operation → Bool
is_verified o = o.dns_verified && (o.exit_verified && o.available)

-- `_public`.
unfoldable pub public_view : Operation → PublicOperation
public_view o = record {
  ok = o.ok;
  operation_id = o.operation_id;
  state = o.state;
  old_candidate_id = o.old_candidate_id;
  new_candidate_id = o.new_candidate_id;
  country = o.country;
  proxy_type = o.proxy_type;
  port = o.port;
  dns_verified = o.dns_verified;
  exit_verified = o.exit_verified;
  available = o.available;
  error_code = o.error_code;
  resolution = o.resolution;
  expires_at = o.expires_at;
}

-- `self._public(stored) if isinstance(stored, dict) else {... code}`.
unfoldable pub public_or : ErrorCode → Option Operation → Reply
public_or code none = failed code
public_or code (some o) = operation (public_view o)

unfoldable pub is_live : Text → List Text → Bool
is_live x ids = any (λ y. text_eq y x) ids

-- `_live_operation_ids.add` and `.discard`.
unfoldable pub add_live : Text → Coordinator → Coordinator
unfolding is_live
add_live x c = record c { live = if is_live x c.live then c.live else x ∷ c.live }

unfoldable pub discard_live : Text → Coordinator → Coordinator
discard_live x c = record c { live = keep (λ y. not (text_eq y x)) c.live }
