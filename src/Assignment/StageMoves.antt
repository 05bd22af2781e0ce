-- ===== src/Assignment/StageMoves.antt =====
-- The sections of `stage` make changes of Consistency.antt, and hand out only copies of operations
-- on record.
use aimili_gateway.Prelude.{
  ℕ, Text, ◌≡◌, ◌≢◌, refl, ap, ◌⊎◌, true, false, not, ◌&&◌, inl, inr, Option, none, some, arith,
  text_eq, is_empty, Bool-cases,
}
use aimili_gateway.Prelude.Dicts.{lookup}
use aimili_gateway.Assignment.Types.{
  switching, Operation, Coordinator, Settings, Hashing, Reply, failed, current_mismatch,
  current_not_restorable, candidate_in_use, Begun, answered, calls,
}
use aimili_gateway.Assignment.Document.{save_operation, add_live}
use aimili_gateway.Assignment.Lease.{held, is_busy, expire_mutation_lease, mutation_allowed}
use aimili_gateway.Assignment.Stage.{
  StageCall, stage_request, current_id, is_in_use, new_operation, stage_open, stage_new,
  stage_against, stage_begin,
}
use aimili_gateway.Assignment.Consistency.{IsConsistent, Known, Move, opened, stay}
use aimili_gateway.Assignment.Moves.{Move-IsConsistent, Move-after}
use aimili_gateway.Assignment.LeaseMoves.{
  expire-Move, active-expire, operations-expire, held-expire, idle-absent,
}
use aimili_gateway.Assignment.Copies.{save-Known_calls, add-Known, calls_injective}

-- No operation on record has this identifier: what the code expects of `operation_id_factory`.
abbrev pub IsFresh : Text → Coordinator → Type 0
IsFresh id c = (k : Text) (p : Operation) → lookup k c.operations ≡ some p → p.operation_id ≢ id

module _ (c : Coordinator) (h : IsConsistent c) (o : Operation)
    (new : lookup o.idempotency_hash c.operations ≡ none) (fresh : IsFresh o.operation_id c)
    (start : o.state ≡ switching) where
  open-Move :
      is_busy c.active ≡ false
      → held c.mutation_lease ≡ false
      → Move c (add_live o.operation_id (save_operation o true c))
  unfolding save_operation add_live
  open-Move idle unheld = opened o (idle-absent c h idle) new fresh start refl refl unheld

  allowed-Move :
      (b : _)
      → (b ≡ true → (is_busy c.active ≡ false) × (held c.mutation_lease ≡ false))
      → Move c (stage_open o (c, b)).0
  unfolding stage_open
  allowed-Move true f = open-Move (f refl).0 (f refl).1
  allowed-Move false f = stay c

-- A new key is refused for one of three reasons, or goes on to the test of the lease.
module _ (c : Coordinator) (o : Operation) where
  stage_new-cases :
      (t : ℕ) (s : StageCall)
      → ((r : Reply) × (stage_new t o s c ≡ (c, answered r)))
        ⊎ (stage_new t o s c ≡ stage_open o (mutation_allowed t c))
  unfolding stage_new
  stage_new-cases t s =
      let expected = text_eq (stage_request s).expected_current_candidate_id (current_id s) in
      let in_use = is_in_use (stage_request s).candidate_id s.slot_candidate_ids in
      elim (Bool-cases (not expected)) [
        | inl x ↦ inl (failed current_mismatch, rw x refl)
        | inr x ↦ elim (Bool-cases (not (is_empty (current_id s)) && not s.restorable)) [
          | inl y ↦ inl (failed current_not_restorable, rw (x, y) refl)
          | inr y ↦ elim (Bool-cases in_use) [
            | inl z ↦ inl (failed candidate_in_use, rw (x, y, z) refl)
            | inr z ↦ inr (rw (x, y, z) refl)
          ]
        ]
      ]

module _ (c : Coordinator) (h : IsConsistent c) (o : Operation)
    (new : lookup o.idempotency_hash c.operations ≡ none) (fresh : IsFresh o.operation_id c)
    (start : o.state ≡ switching) where
  expired_open-Move : (t : ℕ) → Move c (stage_open o (mutation_allowed t c)).0
  unfolding mutation_allowed
  expired_open-Move t =
      let e = expire_mutation_lease t c in
      Move-after c e _ (active-expire c t) (operations-expire c t) (held-expire c t) (
        allowed-Move e (Move-IsConsistent c e h (expire-Move c t)) o (rw operations-expire new)
          (λ k p at. fresh k p (rw operations-expire at at)) start _ (λ x. ground arith))

  stage_new-Move : (t : ℕ) (s : StageCall) → Move c (stage_new t o s c).0
  stage_new-Move t s = elim (stage_new-cases c o t s) [
    | inl (r, e) ↦ rw e (stay c)
    | inr e ↦ rw e (expired_open-Move t)
  ]

  open-Known_allowed :
      (p : Operation) (d : Coordinator) (b : _)
      → (stage_open o (d, b)).1 ≡ calls p
      → Known p (stage_open o (d, b)).0
  unfolding stage_open add_live
  open-Known_allowed p d true e = add-Known _ p o.operation_id (save-Known_calls d o p true e)
  open-Known_allowed p d false e = cc

  stage_new-Known :
      (t : ℕ) (s : StageCall) (p : Operation)
      → (stage_new t o s c).1 ≡ calls p
      → Known p (stage_new t o s c).0
  unfolding mutation_allowed
  stage_new-Known t s p q = elim (stage_new-cases c o t s) [
    | inl (r, e) ↦ cc (ap (λ (x : Coordinator × Begun). x.1) e)
    | inr e ↦ rw e (open-Known_allowed p _ _ (rw e at q))
  ]

-- What the first section calls out with is the operation that it was given.
open-calls : (o p : Operation) (d : Coordinator) (b : _) → (stage_open o (d, b)).1 ≡ calls p → o ≡ p
unfolding stage_open
open-calls o p d true e = calls_injective o p e
open-calls o p d false e = cc

new-calls :
    (c : Coordinator) (t : ℕ) (o p : Operation) (s : StageCall)
    → lookup o.idempotency_hash c.operations ≡ none
    → (stage_new t o s c).1 ≡ calls p
    → o ≡ p
unfolding mutation_allowed
new-calls c t o p s new q = elim (stage_new-cases c o t s) [
  | inl (r, e) ↦ cc (ap (λ (x : Coordinator × Begun). x.1) e)
  | inr e ↦ open-calls o p _ _ (rw e at q)
]

against-calls :
    (c : Coordinator) (t : ℕ) (o p : Operation) (s : StageCall) (f : Option Operation)
    → lookup o.idempotency_hash c.operations ≡ f
    → (stage_against t o s f c).1 ≡ calls p
    → o ≡ p
unfolding stage_against
against-calls c t o p s none e q = new-calls c t o p s e q
against-calls c t o p s (some x) e q = cc

pub begin-calls :
    (g : Hashing) (cfg : Settings) (t created expires : ℕ) (id : Text) (s : StageCall)
    (c : Coordinator) (p : Operation)
    → (stage_begin g cfg t created expires id s c).1 ≡ calls p
    → new_operation g cfg created expires id s ≡ p
unfolding stage_begin
begin-calls g cfg t created expires id s c p q =
    against-calls c t (new_operation g cfg created expires id s) p s _ refl q

module _ (c : Coordinator) (o : Operation) (start : o.state ≡ switching)
    (fresh : IsFresh o.operation_id c) (h : IsConsistent c) (t : ℕ) (s : StageCall) where
  stage_against-Move :
      (f : Option Operation)
      → lookup o.idempotency_hash c.operations ≡ f
      → Move c (stage_against t o s f c).0
  unfolding stage_against
  stage_against-Move none e = stage_new-Move c h o e fresh start t s
  stage_against-Move (some p) e = stay c

  stage_against-Known :
      (f : Option Operation) (p : Operation)
      → lookup o.idempotency_hash c.operations ≡ f
      → (stage_against t o s f c).1 ≡ calls p
      → Known p (stage_against t o s f c).0
  unfolding stage_against
  stage_against-Known none p e q = stage_new-Known c h o e fresh start t s p q
  stage_against-Known (some x) p e q = cc

module _ (g : Hashing) (cfg : Settings) (t created expires : ℕ) (id : Text) (s : StageCall)
    (c : Coordinator) (h : IsConsistent c) (fresh : IsFresh id c) where
  pub stage_begin-Move : Move c (stage_begin g cfg t created expires id s c).0
  unfolding stage_begin
  stage_begin-Move =
      stage_against-Move c (new_operation g cfg created expires id s) refl fresh h t s _ refl

  pub stage_begin-Known :
      (p : Operation)
      → (stage_begin g cfg t created expires id s c).1 ≡ calls p
      → Known p (stage_begin g cfg t created expires id s c).0
  unfolding stage_begin
  stage_begin-Known p =
      stage_against-Known c (new_operation g cfg created expires id s) refl fresh h t s _ p refl
