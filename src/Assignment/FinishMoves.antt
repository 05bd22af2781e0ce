-- ===== src/Assignment/FinishMoves.antt =====
-- `commit` makes a change of Consistency.antt; `rollback` and `recover` hand out only copies of
-- operations on record.
use aimili_gateway.Prelude.{
  ℕ, Text, ◌≡◌, refl, true, false, not, ◌&&◌, ◌||◌, inl, inr, Option, none, some, arith, Bool-cases,
  leb,
}
use aimili_gateway.Assignment.Types.{
  is_blocking, committed, Operation, Active, absent, corrupt, running, Coordinator, calls,
}
use aimili_gateway.Assignment.Document.{find_operation, is_verified}
use aimili_gateway.Assignment.Lease.{expire_mutation_lease, assignment_action_allowed}
use aimili_gateway.Assignment.Finish.{
  is_committed, is_pending, is_active_id, commit_found, commit_option, commit_allowed, commit,
  rollback_option, rollback_begin, recover_active, recover_begin,
}
use aimili_gateway.Assignment.Consistency.{
  IsConsistent, Known, Edge, may_follow, is_trusted, Move, stay,
}
use aimili_gateway.Assignment.Moves.{Move-IsConsistent, Move-after}
use aimili_gateway.Assignment.LeaseMoves.{
  expire-Move, active-expire, operations-expire, held-expire,
}
use aimili_gateway.Assignment.Copies.{save-Move, found-Known, found_is_active}

module _ (c : Coordinator) (h : IsConsistent c) where
  committed-Edge :
      (o : Operation)
      → is_pending o.state ≡ true
      → Edge o (record o { state = committed; error_code = none })
  unfolding is_pending may_follow is_trusted is_verified
  committed-Edge o p = ground arith

  commit_found-Move :
      (t : ℕ) (id : Text) (o : Operation)
      → find_operation id c ≡ some o
      → Move c (commit_found t id o c).0
  unfolding commit_found is_blocking
  commit_found-Move t id o f = elim (Bool-cases (is_committed o.state)) [
    | inl x ↦ rw x (stay c)
    | inr x ↦ elim (Bool-cases (is_pending o.state && leb o.expires_at t)) [
      | inl y ↦ rw (x, y) (stay c)
      | inr y ↦ elim (Bool-cases (not (is_pending o.state) || not (is_active_id id c.active))) [
        | inl z ↦ rw (x, y, z) (stay c)
        | inr z ↦
            rw (x, y, z)
              (save-Move c o _ false (found_is_active c h id o f (ground arith))
                (committed-Edge o (ground arith)) refl)
      ]
    ]
  ]

  commit_option-Move :
      (t : ℕ) (id : Text) (f : Option Operation)
      → find_operation id c ≡ f
      → Move c (commit_option t id f c).0
  unfolding commit_option
  commit_option-Move t id none e = stay c
  commit_option-Move t id (some o) e = commit_found-Move t id o e

  commit_allowed-Move : (t : ℕ) (id : Text) (b : _) → Move c (commit_allowed t id (c, b)).0
  unfolding commit_allowed
  commit_allowed-Move t id true = commit_option-Move t id (find_operation id c) refl
  commit_allowed-Move t id false = stay c

  -- What `rollback` restores is on record.
  rollback_option-Known :
      (id : Text) (f : Option Operation) (p : Operation)
      → find_operation id c ≡ f
      → rollback_option id f c.active ≡ calls p
      → f ≡ some p
  unfolding rollback_option
  rollback_option-Known id none p e q = cc
  rollback_option-Known id (some o) p e q = ground arith

  pub rollback_begin-Known : (id : Text) (p : Operation) → rollback_begin id c ≡ calls p → Known p c
  unfolding rollback_begin
  rollback_begin-Known id p q =
      found-Known c h id p (rollback_option-Known id (find_operation id c) p refl q)

  recover_active-running :
      (t : ℕ) (a : Active) (p : Operation) → recover_active t a c ≡ calls p → a ≡ running p
  unfolding recover_active
  recover_active-running t absent p q = cc
  recover_active-running t corrupt p q = cc
  recover_active-running t (running o) p q = ground arith

  -- What `recover` restores is the active operation.
  pub recover_begin-active :
      (t : ℕ) (p : Operation) → recover_begin t c ≡ calls p → c.active ≡ running p
  unfolding recover_begin
  recover_begin-active t p q = recover_active-running t c.active p q

pub commit-Move :
    (c : Coordinator) (t₀ t₁ : ℕ) (id : Text) → IsConsistent c → Move c (commit t₀ t₁ id c).0
unfolding commit assignment_action_allowed
commit-Move c t₀ t₁ id h =
    let e = expire_mutation_lease t₀ c in
    Move-after c e _ (active-expire c t₀) (operations-expire c t₀) (held-expire c t₀)
      (commit_allowed-Move e (Move-IsConsistent c e h (expire-Move c t₀)) t₁ id _)
