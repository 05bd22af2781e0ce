-- ===== src/Assignment/Outcome.antt =====
-- What `stage` of services/aimili-egress/main_assignment.py comes to where no other thread runs between its
-- sections.
use aimili_gateway.Prelude.{
  ℕ, Text, ◌≡◌, Bool, false, Option, some, arith, text_eq_iff, if◌then◌else◌,
}
use aimili_gateway.Assignment.Types.{
  is_blocking, switching, pending_commit, repair_required, rolled_back, rollback_failed,
  assign_failed_rolled_back, Previous, Operation, absent, running, Coordinator, Settings, Hashing,
  Validation, operation, calls,
}
use aimili_gateway.Assignment.Document.{with_validation, is_verified, public_view}
use aimili_gateway.Assignment.Lease.{expire_mutation_lease}
use aimili_gateway.Assignment.Stage.{StageCall, stage_begin, stage_called, stage}

-- Whether a callback's answer passes: all three checks are true.
unfoldable pub passed : Option Validation → Operation → Bool
passed v o = is_verified (with_validation v o)

-- What `stage` should leave on record, from the answers of its two callbacks: the new connection
-- waits for its commit, or the previous one is back, or a person has to repair.
unfoldable pub stage_end : Option Validation → Option Validation → Operation → Operation
unfolding passed with_validation is_verified
stage_end staged back o =
    let o₁ : Operation = with_validation staged o in
    let o₂ : Operation = with_validation back o in
    if passed staged o
    then record o₁ { state = pending_commit }
    else if passed back o
    then record o₂ { state = rolled_back; error_code = some assign_failed_rolled_back; ok = false }
    else record o₂ { state = repair_required; error_code = some rollback_failed; ok = false }

module _ (stage_candidate : Text → Option Validation)
    (restore_previous : Previous → Option Validation) (c : Coordinator) (o : Operation)
    (active : c.active ≡ running o) (state : o.state ≡ switching) where
  stage_result : Operation
  stage_result = stage_end (stage_candidate o.new_candidate_id) (restore_previous o.previous) o

  active-stage_called :
      (stage_called stage_candidate restore_previous (calls o) c).0.active
      ≡ (if is_blocking stage_result.state then running stage_result else absent)
  unfolding stage_called stage_result stage_end is_blocking
  active-stage_called = ground (arith, text_eq_iff o.operation_id o.operation_id)

  reply-stage_called :
      (stage_called stage_candidate restore_previous (calls o) c).1
      ≡ operation (public_view stage_result)
  unfolding stage_called stage_result stage_end
  reply-stage_called = ground (arith, text_eq_iff o.operation_id o.operation_id)

begin-active :
    (g : Hashing) (cfg : Settings) (t created expires : ℕ) (id : Text) (s : StageCall)
    (c : Coordinator) (o : Operation)
    → (stage_begin g cfg t created expires id s c).1 ≡ calls o
    → ((stage_begin g cfg t created expires id s c).0.active ≡ running o) × (o.state ≡ switching)
unfolding stage_begin expire_mutation_lease
begin-active g cfg t created expires id s c o e = ground arith

-- Where no other thread runs in between, a `stage` that is accepted ends as the answers of its
-- callbacks say: where the first passes every check, the new operation waits for its commit and
-- is active; else, where the second does, it is rolled back and none is active; else it requires
-- a repair and is active. The reply is its public view.
pub stage_outcome :
    (g : Hashing) (cfg : Settings) (t created expires : ℕ) (id : Text)
    (stage_candidate : Text → Option Validation) (restore_previous : Previous → Option Validation)
    (s : StageCall) (c : Coordinator) (o : Operation)
    → (stage_begin g cfg t created expires id s c).1 ≡ calls o
    → let r = stage_end (stage_candidate o.new_candidate_id) (restore_previous o.previous) o in
      let done = stage g cfg t created expires id stage_candidate restore_previous s c in
      (done.0.active ≡ (if is_blocking r.state then running r else absent))
      × (done.1 ≡ operation (public_view r))
unfolding stage stage_result
stage_outcome g cfg t created expires id stage_candidate restore_previous s c o e =
    let c' = (stage_begin g cfg t created expires id s c).0 in
    let (active, state) = begin-active g cfg t created expires id s c o e in
    rw e (
      active-stage_called stage_candidate restore_previous c' o active state,
      reply-stage_called stage_candidate restore_previous c' o active state,
    )
