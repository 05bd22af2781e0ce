-- ===== src/Assignment/StageFinishMoves.antt =====
-- The second section of `stage` makes a change of Consistency.antt, and hands out only a copy of an
-- operation on record.
use aimili_gateway.Prelude.{
  ◌≡◌, refl, subst, true, ◌&&◌, inl, inr, Option, arith, text_eq, text_eq_iff, Bool-cases, &&-true,
}
use aimili_gateway.Assignment.Types.{
  is_blocking, pending_commit, Operation, Active, absent, corrupt, running, Coordinator, Validation,
  calls,
}
use aimili_gateway.Assignment.Document.{with_validation, is_verified}
use aimili_gateway.Assignment.Stage.{is_switching, stage_finish_active, stage_finish}
use aimili_gateway.Assignment.Consistency.{
  IsConsistent, SameOrigin, Known, Edge, may_follow, is_trusted, Move, stay,
}
use aimili_gateway.Assignment.Copies.{
  active_origin, save-Move, calls_injective, checked-Known, discard-Move,
}

module _ (c : Coordinator) (h : IsConsistent c) (o : Operation) (v : Option Validation)
    (k : Known o c) where
  staged-Edge :
      (a : Operation)
      → SameOrigin a o
      → is_switching a.state ≡ true
      → is_verified (with_validation v o) ≡ true
      → Edge a (record (with_validation v o) { state = pending_commit })
  unfolding is_switching with_validation may_follow is_trusted is_verified
  staged-Edge a s w g = ground arith

  stage_finish-Move_active : (a : Active) → c.active ≡ a → Move c (stage_finish_active o v a c).0
  unfolding stage_finish_active is_blocking
  stage_finish-Move_active absent e = discard-Move c o.operation_id (stay c)
  stage_finish-Move_active corrupt e = discard-Move c o.operation_id (stay c)
  stage_finish-Move_active (running a) e =
      elim (Bool-cases (text_eq a.operation_id o.operation_id && is_switching a.state)) [
        | inr other ↦ rw other (discard-Move c o.operation_id (stay c))
        | inl mine ↦
            let (m, w) = &&-true (text_eq a.operation_id o.operation_id) _ mine in
            let origin =
              active_origin c a o h k e ((text_eq_iff a.operation_id o.operation_id).0 m) in
            elim (Bool-cases (is_verified (with_validation v o))) [
              | inr bad ↦ rw (mine, bad) (stay c)
              | inl good ↦
                  rw (mine, good)
                    (discard-Move _ o.operation_id
                      (save-Move c a _ true e (staged-Edge a origin w good) refl))
            ]
      ]

  pub stage_finish-Move : Move c (stage_finish o v c).0
  unfolding stage_finish
  stage_finish-Move = stage_finish-Move_active c.active refl

  stage_finish-Known_active :
      (a : Active) (p : Operation)
      → (stage_finish_active o v a c).1 ≡ calls p
      → Known p (stage_finish_active o v a c).0
  unfolding stage_finish_active
  stage_finish-Known_active absent p e = cc
  stage_finish-Known_active corrupt p e = cc
  stage_finish-Known_active (running a) p e =
      elim (Bool-cases (text_eq a.operation_id o.operation_id && is_switching a.state)) [
        | inr other ↦ cc (rw other at e)
        | inl mine ↦ elim (Bool-cases (is_verified (with_validation v o))) [
          | inl good ↦ cc (rw (mine, good) at e)
          | inr bad ↦
              rw (mine, bad)
                (subst (λ (x : Operation). Known x c) (calls_injective _ p (rw (mine, bad) at e))
                  (checked-Known c o v k))
        ]
      ]

  pub stage_finish-Known :
      (p : Operation) → (stage_finish o v c).1 ≡ calls p → Known p (stage_finish o v c).0
  unfolding stage_finish
  stage_finish-Known p = stage_finish-Known_active c.active p
