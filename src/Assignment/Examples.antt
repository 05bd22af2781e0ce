-- ===== src/Assignment/Examples.antt =====
-- Runs of the coordinator of main_assignment.py at concrete data.
use aimili_gateway.Prelude.{
  if◌then◌else◌, subst, sym, Text, codes, true, ◌≡◌, refl, Option, none, some, List, [], ◌∷◌, ◌++◌,
}
use aimili_gateway.Prelude.Strings.{text_eq, is_empty, strip, upper}
use aimili_gateway.Prelude.Dicts.{lookup, insert}
use aimili_gateway.Assignment.Types.{
  Settings, Hashing, Validation, Previous, Operation, assign_failed_rolled_back, is_blocking,
  failed, idempotency_conflict, pending_commit, running, calls, absent, operation, answered,
}
use aimili_gateway.Assignment.Lease.{
  mutation_allowed, held, acquire_mutation_lease, expire_mutation_lease,
}
use aimili_gateway.Assignment.Stage.{
  stage, stage_request_hash, stage_request, is_in_use, StageCall, new_operation, stage_begin,
  stage_finish,
}
use aimili_gateway.Assignment.Validate.{start}
use aimili_gateway.Assignment.StageMoves.{IsFresh}
use aimili_gateway.Assignment.Document.{is_verified, public_view}
use aimili_gateway.Assignment.Sound.{Lives-IsSound, IsFile, started-IsSound, Reach-IsConsistent}
use aimili_gateway.Assignment.Consistency.{IsConsistent, is_trusted}
use aimili_gateway.Assignment.World.{
  Takes, World, land, in_stage, to_restore, acquires, stages, stage_returns, here, next, runs,
  Reach, Lives, started,
}
use aimili_gateway.Assignment.History.{Becomes, Section-Becomes, stage_idempotent}
use aimili_gateway.Assignment.Outcome.{stage_end, stage_outcome}
use aimili_gateway.Assignment.Leasing.{lease_exclusive}
use aimili_gateway.Prelude.{arith}
use aimili_gateway.Assignment.Types.{PublicLease, active, lease, lease_busy}
use aimili_gateway.Assignment.Lease.{is_lease_key}
use aimili_gateway.Assignment.Invariants.{Reach-exclusive, Reach-verified}

pub joined : List (Text × Text) → Text
joined [] = []
joined ((k, v) ∷ r) = k ++ (v ++ joined r)

abbrev pub plain : Hashing
plain = record { sha256 = λ s. s; dumps = joined }

abbrev pub settings : Settings
settings = record { ttl = 180; lease_ttl = 120 }

abbrev old_connection : Previous
old_connection = record {
  candidate_id = some (codes "old");
  country = some (codes "JP");
  proxy_type = some (codes "residential");
  connection_enabled = some true;
  routing_mode = some (codes "auto");
  routing_ip_type = some (codes "all");
  fixed_node_id = none;
}

abbrev call : StageCall
call = record {
  candidate_id = codes "new";
  country = codes "us";
  proxy_type = codes "residential";
  expected_current_candidate_id = codes "old";
  idempotency_key = codes "key-1";
  current = old_connection;
  restorable = true;
  slot_candidate_ids = [];
}

abbrev pub begun : Operation
begun = new_operation plain settings 10 11 (codes "op-1") call

abbrev staging : World
staging =
    land [] in_stage (stage_begin plain settings 9 10 11 (codes "op-1") call (started none).coord)

abbrev all_passed : Option Validation
all_passed = some (record { dns_verified = true; exit_verified = true; available = true })

first-IsFile : IsFile none
first-IsFile d e = cc

abbrev leased : World
leased = record (started none) {
  coord =
      (acquire_mutation_lease plain settings 5 6 (codes "lease-1") (codes "switch-key-0000001")
        (started none).coord).0;
}

leasing : Reach plain settings (started none) leased
leasing = next here (runs (acquires 5 6 (codes "lease-1") (codes "switch-key-0000001") refl))

Reach-exclusive_example : leased.coord.active ≡ absent
unfolding held acquire_mutation_lease expire_mutation_lease start
Reach-exclusive_example = Reach-exclusive leasing refl

Reach-IsConsistent_example : IsConsistent leased.coord
Reach-IsConsistent_example = Reach-IsConsistent none first-IsFile leasing

op_1-IsFresh : IsFresh (codes "op-1") (started none).coord
unfolding start lookup
op_1-IsFresh k p e = cc

abbrev staged : World
staged =
    land [] (λ p. to_restore p (some assign_failed_rolled_back) true)
      (stage_finish begun all_passed staging.coord)

staging_life : Lives plain settings (started none) staging
staging_life = next here (stages 9 10 11 (codes "op-1") call op_1-IsFresh refl)

in_flight : staging.flights ≡ in_stage begun ∷ []
unfolding stage_begin start mutation_allowed new_operation strip upper text_eq is_in_use lookup
    is_empty expire_mutation_lease
in_flight = refl

staged-Reach : Reach plain settings (started none) staged
staged-Reach = next (next here (runs (stages 9 10 11 (codes "op-1") call op_1-IsFresh refl))) (
    runs (
      stage_returns begun all_passed []
        (subst (λ fs. Takes (in_stage begun) fs []) (sym in_flight) here) refl))

abbrev waiting : Operation
waiting = record begun {
  state = pending_commit;
  dns_verified = true;
  exit_verified = true;
  available = true;
}

Reach-verified_example : is_verified waiting ≡ true
unfolding stage_begin stage_finish start mutation_allowed new_operation strip upper text_eq
    is_in_use lookup is_empty expire_mutation_lease insert is_trusted
Reach-verified_example = Reach-verified (codes "key-1") waiting staged-Reach refl refl

on_record : lookup (codes "key-1") staging.coord.operations ≡ some begun
unfolding stage_begin start mutation_allowed new_operation strip upper text_eq is_in_use lookup
    is_empty expire_mutation_lease insert
on_record = refl

Section-Becomes_example :
    (q : Operation) × (lookup (codes "key-1") staged.coord.operations ≡ some q) × Becomes begun q
Section-Becomes_example =
    Section-Becomes {g = plain} {cfg = settings} staging staged (codes "key-1") begun
      (Lives-IsSound (started-IsSound none first-IsFile) staging_life)
      (stage_returns begun all_passed []
        (subst (λ fs. Takes (in_stage begun) fs []) (sym in_flight) here) refl)
      on_record

accepted :
    (stage_begin plain settings 9 10 11 (codes "op-1") call (started none).coord).1 ≡ calls begun
unfolding stage_begin start mutation_allowed new_operation strip upper text_eq is_in_use lookup
    is_empty expire_mutation_lease
accepted = refl

-- The same key for another candidate.
abbrev other_call : StageCall
other_call = record call { candidate_id = codes "third" }

stage_idempotent_example :
    (q : Operation) × (q.operation_id ≡ codes "op-1")
    × (stage_begin plain settings 20 21 22 (codes "op-2") other_call staged.coord ≡ (
      staged.coord,
      answered (
          if text_eq
            (stage_request_hash plain (stage_request call))
            (stage_request_hash plain (stage_request other_call))
          then operation (public_view q)
          else failed idempotency_conflict),
    ))
stage_idempotent_example =
    stage_idempotent plain settings (started none) staged 9 10 11 (codes "op-1") call begun
      (started-IsSound none first-IsFile) op_1-IsFresh accepted
      (next Lives.here (
        stage_returns begun all_passed []
          (subst (λ fs. Takes (in_stage begun) fs []) (sym in_flight) here) refl))
      20 21 22 (codes "op-2") other_call refl

no_validation : Previous → Option Validation
no_validation p = none

candidate_passes : Text → Option Validation
candidate_passes s = all_passed

stage_outcome_example :
    let r =
      stage_end (candidate_passes begun.new_candidate_id) (no_validation begun.previous) begun in
    let done =
      stage plain settings 9 10 11
        (codes "op-1")
        candidate_passes
        no_validation
        call
        (started none).coord in
    (done.0.active ≡ (if is_blocking r.state then running r else absent))
    × (done.1 ≡ operation (public_view r))
stage_outcome_example =
    stage_outcome plain settings 9 10 11 (codes "op-1") candidate_passes no_validation call
      (started none).coord begun accepted

abbrev the_lease : PublicLease
the_lease = record { ok = true; state = active; lease_id = codes "lease-1"; expires_at = some 126 }

lease_exclusive_example :
    acquire_mutation_lease plain settings 20 21
      (codes "lease-2")
      (codes "other-key-00000001")
      leased.coord
    ≡ (
      leased.coord,
      if text_eq (codes "switch-key-0000001") (codes "other-key-00000001")
          then lease the_lease
          else failed lease_busy,
    )
unfolding acquire_mutation_lease expire_mutation_lease start is_lease_key
lease_exclusive_example =
    lease_exclusive plain settings 5 6 20 21 (codes "lease-1") (codes "switch-key-0000001")
      (codes "lease-2") (codes "other-key-00000001") (started none).coord the_lease refl refl
      (omega arith)
