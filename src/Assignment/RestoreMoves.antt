-- ===== src/Assignment/RestoreMoves.antt =====
-- The sections of `_restore` make changes of Consistency.antt, and hand out only copies of
-- operations on record.
use aimili_gateway.Prelude.{
  ◌≡◌, refl, true, false, not, ◌&&◌, inl, inr, Option, arith, text_eq, text_eq_iff, Bool-cases,
  &&-true, if◌then◌else◌,
}
use aimili_gateway.Assignment.Types.{
  is_blocking, rolling_back, ErrorCode, Operation, Active, absent, corrupt, running, Coordinator,
  Validation, calls,
}
use aimili_gateway.Assignment.Document.{save_operation, with_validation, is_verified}
use aimili_gateway.Assignment.Restore.{
  is_rolling_back, restore_begin_active, restore_begin, restored, restore_finish_active,
  restore_finish,
}
use aimili_gateway.Assignment.Consistency.{
  IsConsistent, SameOrigin, Known, Edge, may_follow, is_trusted, Move, stay,
}
use aimili_gateway.Assignment.Copies.{active_origin, save-Move, save-Known_calls}

module _ (c : Coordinator) (h : IsConsistent c) where
  rolling-Edge :
      (a : Operation)
      → c.active ≡ running a
      → is_rolling_back a.state ≡ false
      → Edge a (record a { state = rolling_back })
  unfolding is_rolling_back may_follow is_trusted is_blocking
  rolling-Edge a e r = ground (arith, h.blocking a e)

  restore_begin-Move_active :
      (o : Operation) (a : Active) → c.active ≡ a → Move c (restore_begin_active o a c).0
  unfolding restore_begin_active is_blocking
  restore_begin-Move_active o absent e = stay c
  restore_begin-Move_active o corrupt e = stay c
  restore_begin-Move_active o (running a) e =
      elim (Bool-cases (text_eq a.operation_id o.operation_id)) [
        | inr other ↦ rw other (stay c)
        | inl mine ↦ elim (Bool-cases (is_rolling_back a.state)) [
          | inl r ↦ rw (mine, r) (stay c)
          | inr r ↦ rw (mine, r) (save-Move c a _ true e (rolling-Edge a e r) refl)
        ]
      ]

  restored-Edge :
      (a o : Operation) (v : Option Validation) (x : Option ErrorCode)
      → SameOrigin a o
      → is_rolling_back a.state ≡ true
      → Edge a (restored x (with_validation v o))
  unfolding restored with_validation is_rolling_back may_follow is_trusted is_verified
  restored-Edge a o v x s r = ground arith

  restored_flag :
      (o : Operation) (v : Option Validation) (x : Option ErrorCode)
      → is_blocking (restored x (with_validation v o)).state
        ≡ not (is_verified (with_validation v o))
  unfolding restored is_blocking
  restored_flag o v x = ground arith

  -- The record goes to history where the previous connection passes, and stays active elsewhere.
  saved_either :
      (o : Operation) (v : Option Validation) (x : Option ErrorCode) (a : Operation)
      → c.active ≡ running a
      → Edge a (restored x (with_validation v o))
      → Move c (
          if is_verified (with_validation v o)
          then save_operation (restored x (with_validation v o)) false c
          else save_operation (restored x (with_validation v o)) true c)
  saved_either o v x a e edge = elim (Bool-cases (is_verified (with_validation v o))) [
    | inl good ↦ rw good (save-Move c a _ false e edge (ground (arith, restored_flag o v x)))
    | inr bad ↦ rw bad (save-Move c a _ true e edge (ground (arith, restored_flag o v x)))
  ]

  restore_finish-Move_active :
      (o : Operation) (v : Option Validation) (x : Option ErrorCode) (a : Active)
      → c.active ≡ a
      → Known o c
      → Move c (restore_finish_active o v x a c).0
  unfolding restore_finish_active
  restore_finish-Move_active o v x absent e k = stay c
  restore_finish-Move_active o v x corrupt e k = stay c
  restore_finish-Move_active o v x (running a) e k =
      elim (Bool-cases (text_eq a.operation_id o.operation_id && is_rolling_back a.state)) [
        | inr other ↦ rw other (stay c)
        | inl mine ↦
            let (m, r) = &&-true (text_eq a.operation_id o.operation_id) _ mine in
            let origin =
              active_origin c a o h k e ((text_eq_iff a.operation_id o.operation_id).0 m) in
            rw mine (saved_either o v x a e (restored-Edge a o v x origin r))
      ]

  pub restore_begin-Move : (o : Operation) → Move c (restore_begin o c).0
  unfolding restore_begin
  restore_begin-Move o = restore_begin-Move_active o c.active refl

  pub restore_finish-Move :
      (o : Operation) (v : Option Validation) (x : Option ErrorCode)
      → Known o c
      → Move c (restore_finish o v x c).0
  unfolding restore_finish
  restore_finish-Move o v x k = restore_finish-Move_active o v x c.active refl k

module _ (c : Coordinator) (o p : Operation) where
  restore_begin-Known_active :
      (a : Active)
      → (restore_begin_active o a c).1 ≡ calls p
      → Known p (restore_begin_active o a c).0
  unfolding restore_begin_active
  restore_begin-Known_active absent e = cc
  restore_begin-Known_active corrupt e = cc
  restore_begin-Known_active (running a) e =
      elim (Bool-cases (text_eq a.operation_id o.operation_id)) [
        | inr other ↦ cc (rw other at e)
        | inl mine ↦ elim (Bool-cases (is_rolling_back a.state)) [
          | inl r ↦ cc (rw (mine, r) at e)
          | inr r ↦ rw (mine, r) (save-Known_calls c _ p true (rw (mine, r) at e))
        ]
      ]

  -- What `_restore` calls back with is on record.
  pub restore_begin-Known : (restore_begin o c).1 ≡ calls p → Known p (restore_begin o c).0
  unfolding restore_begin
  restore_begin-Known = restore_begin-Known_active c.active
