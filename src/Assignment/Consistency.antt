-- ===== src/Assignment/Consistency.antt =====
-- What holds of the document of main_assignment.py between two locked sections, and the kinds of
-- change that a section makes to it.
use aimili_gateway.Prelude.{
  Text, ◌≡◌, ◌≢◌, refl, Bool, true, false, ◌⊎◌, inl, none, some, if◌then◌else◌,
}
use aimili_gateway.Prelude.Dicts.{lookup, insert, IsDict}
use aimili_gateway.Assignment.Types.{
  OpState, switching, pending_commit, pending_gateway_validation, rolling_back, repairing,
  repair_required, committed, rolled_back, is_blocking, Operation, absent, running, Coordinator,
}
use aimili_gateway.Assignment.Document.{is_verified}
use aimili_gateway.Assignment.Lease.{held}

-- The part of the document's validity that relates its operations to one another: keys match,
-- identifiers are unique, and the active operation is the only blocking one.
pub record IsConsistent (c : Coordinator) : Type 0 where
  pub dict : IsDict c.operations
  pub keyed : (k : Text) (o : Operation) → lookup k c.operations ≡ some o → o.idempotency_hash ≡ k
  pub unique :
      (k j : Text) (o p : Operation)
      → lookup k c.operations ≡ some o
      → lookup j c.operations ≡ some p
      → o.operation_id ≡ p.operation_id
      → k ≡ j
  pub stored :
      (a : Operation) → c.active ≡ running a → lookup a.idempotency_hash c.operations ≡ some a
  pub blocking : (a : Operation) → c.active ≡ running a → is_blocking a.state ≡ true
  pub only :
      (k : Text) (o : Operation)
      → lookup k c.operations ≡ some o
      → is_blocking o.state ≡ true
      → c.active ≡ running o

-- What an operation keeps for life.
pub record SameOrigin (a o : Operation) : Type 0 where
  pub id : a.operation_id ≡ o.operation_id
  pub hash : a.idempotency_hash ≡ o.idempotency_hash
  pub request : a.request_hash ≡ o.request_hash
  pub created : a.created_at ≡ o.created_at

-- A copy that a thread holds of an operation on record.
pub record Known (o : Operation) (c : Coordinator) : Type 0 where
  pub now : Operation
  pub on_record : lookup o.idempotency_hash c.operations ≡ some now
  pub origin : SameOrigin now o

-- The transitions of the state machine.
unfoldable pub may_follow : OpState → OpState → Bool
may_follow switching pending_commit = true
may_follow switching rolling_back = true
may_follow pending_commit committed = true
may_follow pending_commit rolling_back = true
may_follow pending_gateway_validation committed = true
may_follow pending_gateway_validation rolling_back = true
may_follow rolling_back rolled_back = true
may_follow rolling_back repair_required = true
may_follow repair_required repairing = true
may_follow repair_required rolling_back = true
may_follow repairing pending_gateway_validation = true
may_follow repairing repair_required = true
may_follow repairing rolling_back = true
may_follow _ _ = false

-- The states that claim a checked connection.
unfoldable pub is_trusted : OpState → Bool
is_trusted pending_commit = true
is_trusted pending_gateway_validation = true
is_trusted committed = true
is_trusted rolled_back = true
is_trusted _ = false

pub record Edge (a o : Operation) : Type 0 where
  pub origin : SameOrigin a o
  pub follows : may_follow a.state o.state ≡ true
  pub checked :
      is_trusted o.state ≡ true
      → (is_verified o ≡ true) ⊎ ((is_trusted a.state ≡ true) × (is_verified o ≡ is_verified a))

-- What one locked section does: it leaves the operations, it opens one, or it moves the active one.
pub data Move (c d : Coordinator) : Type 0 where
  same :
      d.active ≡ c.active
      → d.operations ≡ c.operations
      → (held d.mutation_lease ≡ true → (held c.mutation_lease ≡ true) ⊎ (c.active ≡ absent))
      → Move c d
  opened :
      (o : Operation)
      → c.active ≡ absent
      → lookup o.idempotency_hash c.operations ≡ none
      → ((k : Text) (p : Operation)
          → lookup k c.operations ≡ some p
          → p.operation_id ≢ o.operation_id)
      → o.state ≡ switching
      → d.active ≡ running o
      → d.operations ≡ insert o.idempotency_hash o c.operations
      → held d.mutation_lease ≡ false
      → Move c d
  updated :
      (a o : Operation)
      → c.active ≡ running a
      → Edge a o
      → d.active ≡ (if is_blocking o.state then running o else absent)
      → d.operations ≡ insert o.idempotency_hash o c.operations
      → (held d.mutation_lease ≡ true → held c.mutation_lease ≡ true)
      → Move c d

pub stay : (c : Coordinator) → Move c c
stay c = same refl refl (λ h. inl h)
