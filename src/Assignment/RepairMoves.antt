-- ===== src/Assignment/RepairMoves.antt =====
-- The sections of `_repair_candidate` make changes of Consistency.antt, and hand out only copies of
-- operations on record.
use aimili_gateway.Prelude.{
  ℕ, Text, ◌≡◌, refl, true, not, ◌&&◌, ◌||◌, inl, inr, Option, none, some, arith, text_eq,
  text_eq_iff, Bool-cases, &&-true,
}
use aimili_gateway.Assignment.Types.{
  is_blocking, ErrorCode, Operation, Active, absent, corrupt, running, Coordinator, Settings,
  Hashing, Validation, calls,
}
use aimili_gateway.Assignment.Document.{find_operation, with_validation, is_verified}
use aimili_gateway.Assignment.Finish.{is_active_id, is_repair_required}
use aimili_gateway.Assignment.Repair.{
  Replacement, RepairPlan, repairing_operation, is_repaired, repair_found, repair_option,
  repair_begin, is_repairing, repaired, repair_finish_active, repair_finish,
}
use aimili_gateway.Assignment.Consistency.{
  IsConsistent, SameOrigin, Known, Edge, may_follow, is_trusted, Move, stay,
}
use aimili_gateway.Assignment.Copies.{
  active_origin, save-Move, save-Known_calls, found_is_active, add-Move, add-Known, discard-Move,
}

module _ (cfg : Settings) (t₀ t₁ : ℕ) (hash : Text) (plan : RepairPlan) (id : Text)
    (c : Coordinator) (h : IsConsistent c) where
  replaced-Edge :
      (o : Operation) (r : Option Replacement)
      → is_repair_required o.state ≡ true
      → plan.replacement ≡ r
      → Edge o (repairing_operation cfg t₁ hash plan o)
  unfolding repairing_operation is_repair_required may_follow is_trusted
  replaced-Edge o r s e = ground arith

  repairing_blocks :
      (o : Operation) → true ≡ is_blocking (repairing_operation cfg t₁ hash plan o).state
  unfolding repairing_operation is_blocking
  repairing_blocks o = refl

  repair_found-Move :
      (o : Operation)
      → find_operation id c ≡ some o
      → Move c (repair_found cfg t₀ t₁ hash plan id o c).0
  unfolding repair_found
  repair_found-Move o f = elim (Bool-cases (is_repaired o.state)) [
    | inl x ↦ rw x (stay c)
    | inr x ↦
        elim (Bool-cases (not (is_repair_required o.state) || not (is_active_id id c.active))) [
          | inl y ↦ rw (x, y) (stay c)
          | inr y ↦
              rw (x, y)
                (add-Move _ id (
                  save-Move c o _ true (found_is_active c h id o f (ground arith))
                    (replaced-Edge o plan.replacement (ground arith) refl) (repairing_blocks o)))
        ]
  ]

  repair_found-Known :
      (o p : Operation)
      → (repair_found cfg t₀ t₁ hash plan id o c).1 ≡ calls p
      → Known p (repair_found cfg t₀ t₁ hash plan id o c).0
  unfolding repair_found
  repair_found-Known o p e = elim (Bool-cases (is_repaired o.state)) [
    | inl x ↦ cc (rw x at e)
    | inr x ↦
        elim (Bool-cases (not (is_repair_required o.state) || not (is_active_id id c.active))) [
          | inl y ↦ cc (rw (x, y) at e)
          | inr y ↦ rw (x, y) (add-Known _ p id (save-Known_calls c _ p true (rw (x, y) at e)))
        ]
  ]

  repair_option-Move :
      (f : Option Operation)
      → find_operation id c ≡ f
      → Move c (repair_option cfg t₀ t₁ hash plan id f c).0
  unfolding repair_option
  repair_option-Move none e = stay c
  repair_option-Move (some o) e = repair_found-Move o e

  repair_option-Known :
      (f : Option Operation) (p : Operation)
      → (repair_option cfg t₀ t₁ hash plan id f c).1 ≡ calls p
      → Known p (repair_option cfg t₀ t₁ hash plan id f c).0
  unfolding repair_option
  repair_option-Known none p e = cc
  repair_option-Known (some o) p e = repair_found-Known o p e

module _ (g : Hashing) (cfg : Settings) (t₀ t₁ : ℕ) (plan : RepairPlan) (id : Text)
    (c : Coordinator) (h : IsConsistent c) where
  pub repair_begin-Move : Move c (repair_begin g cfg t₀ t₁ plan id c).0
  unfolding repair_begin
  repair_begin-Move = repair_option-Move cfg t₀ t₁ _ plan id c h _ refl

  pub repair_begin-Known :
      (p : Operation)
      → (repair_begin g cfg t₀ t₁ plan id c).1 ≡ calls p
      → Known p (repair_begin g cfg t₀ t₁ plan id c).0
  unfolding repair_begin
  repair_begin-Known p = repair_option-Known cfg t₀ t₁ _ plan id c h _ p

module _ (c : Coordinator) (h : IsConsistent c) (o : Operation) (v : Option Validation)
    (failure_code : ErrorCode) (k : Known o c) where
  repaired-Edge :
      (a : Operation)
      → SameOrigin a o
      → is_repairing a.state ≡ true
      → Edge a (repaired failure_code (with_validation v o))
  unfolding is_repairing repaired with_validation may_follow is_trusted is_verified
  repaired-Edge a s r = ground arith

  repaired_blocks : true ≡ is_blocking (repaired failure_code (with_validation v o)).state
  unfolding repaired is_blocking
  repaired_blocks = ground arith

  repair_finish-Move_active :
      (a : Active) → c.active ≡ a → Move c (repair_finish_active o v failure_code a c).0
  unfolding repair_finish_active
  repair_finish-Move_active absent e = discard-Move c o.operation_id (stay c)
  repair_finish-Move_active corrupt e = discard-Move c o.operation_id (stay c)
  repair_finish-Move_active (running a) e =
      elim (Bool-cases (text_eq a.operation_id o.operation_id && is_repairing a.state)) [
        | inr other ↦ rw other (discard-Move c o.operation_id (stay c))
        | inl mine ↦
            let (m, r) = &&-true (text_eq a.operation_id o.operation_id) _ mine in
            let origin =
              active_origin c a o h k e ((text_eq_iff a.operation_id o.operation_id).0 m) in
            rw mine (
              discard-Move _ o.operation_id
                (save-Move c a _ true e (repaired-Edge a origin r) repaired_blocks))
      ]

  pub repair_finish-Move : Move c (repair_finish o v failure_code c).0
  unfolding repair_finish
  repair_finish-Move = repair_finish-Move_active c.active refl
