-- ===== src/Protocol/RollbackSafe.antt =====
-- `_rollback_snapshot` of scripts/aimili_xui_protocol_transaction.py, wherever its calls fail or the
-- process dies.
use aimili_gateway.Prelude.{
  Text, ◌≡◌, refl, subst, sym, Bool, true, false, Bool-cases, ◌⊎◌, inl, inr, Option, none, some,
}
use aimili_gateway.Protocol.Types.{Snapshot, Stored, pending}
use aimili_gateway.Protocol.Database.{database_matches}
use aimili_gateway.Protocol.World.{State, World}
use aimili_gateway.Protocol.Rollback.{
  is_some, list_inbound_tags, remove_inbound, add_inbound, validate_boundary,
  write_rollback_inbound, remove_running, restore_runtime, is_snapshot, undo_runtime,
  commit_restored, undo_database, verify_undone, remove_operation, undo, undo_stored,
  rollback_snapshot,
}
use aimili_gateway.Protocol.Triples.{
  Ends, Ends-imply, Ends-both, call-Ends, ask-Ends, next-Ends, require-Ends, lastly-Ends,
}
use aimili_gateway.Protocol.Restores.{
  MixedDatabase, old_database, old-MixedDatabase, restore_database-old, matches_sound,
}

-- Xray and the database are as they were before the operation.
abbrev pub Original : Snapshot → State → Type 0
Original o s = (s.runtime ≡ some o.old_runtime_inbound) × (s.database ≡ old_database o)

-- The operation is pending, its snapshot is there, and from it the rollback can tell what was before.
pub record Held (o : Snapshot) (s : State) : Type 0 where
  pub same_stored : s.stored ≡ some (pending o)
  pub mixed : MixedDatabase o s.database
  pub untouched : is_snapshot o.phase ≡ true → Original o s

-- The operation is gone, without a trace.
abbrev pub Gone : Snapshot → State → Type 0
Gone o s = (s.stored ≡ none) × Original o s

abbrev Any : State → Type 0
Any s = Unit

abbrev OldRuntime : Snapshot → State → Type 0
OldRuntime o s = s.runtime ≡ some o.old_runtime_inbound

leftover-Held :
    (o : Snapshot) (s : State) (b : Bool) → Held o s → Held o (record s { leftover = b })
leftover-Held o s b h = record {
  same_stored = h.same_stored;
  mixed = h.mixed;
  untouched = h.untouched;
}

runtime-Held :
    (o : Snapshot) (s : State) (r : Option Text)
    → is_snapshot o.phase ≡ false
    → Held o s
    → Held o (record s { runtime = r })
runtime-Held o s r e h = record {
  same_stored = h.same_stored;
  mixed = h.mixed;
  untouched = λ t. cc;
}

boundary-Ends :
    (o : Snapshot) (w : World) → Held o w.state → Ends (Held o) Any (validate_boundary o w)
unfolding validate_boundary
boundary-Ends o w h =
    next-Ends (Held o) Any Any _ _ (require-Ends (Held o) Any _ _ w h (λ _. tt)) λ v hv _.
      next-Ends (Held o) Any Any _ _ (require-Ends (Held o) Any _ _ v hv (λ _. tt)) λ x hx _.
        next-Ends (Held o) Any Any _ _ (ask-Ends (Held o) Any _ x hx tt)
          (λ u hu _. require-Ends (Held o) Any _ _ u hu (λ _. tt))

remove_running-Ends :
    (o : Snapshot) (w : World)
    → is_snapshot o.phase ≡ false
    → Held o w.state
    → Ends (Held o) Any (remove_running w)
unfolding remove_running list_inbound_tags remove_inbound
remove_running-Ends o w e h =
    next-Ends (Held o) Any Any _ _ (ask-Ends (Held o) Any _ w h tt) (λ v hv _.
      elim (Bool-cases (is_some v.runtime)) [
        | inl t ↦ rw t (call-Ends (Held o) Any _ _ v hv (runtime-Held o v.state none e hv) tt)
        | inr t ↦ rw t (require-Ends (Held o) Any true _ v hv (λ _. tt))
      ])

restore_runtime-Ends :
    (o : Snapshot) (w : World)
    → is_snapshot o.phase ≡ false
    → Held o w.state
    → Ends (Held o) (OldRuntime o) (restore_runtime o w)
unfolding restore_runtime write_rollback_inbound add_inbound
restore_runtime-Ends o w e h =
    next-Ends (Held o) Any (OldRuntime o) _ _
      (next-Ends (Held o) Any Any _ _ (require-Ends (Held o) Any _ _ w h (λ _. tt))
        (λ v hv _. call-Ends (Held o) Any _ _ v hv (leftover-Held o v.state true hv) tt))
      λ v hv _.
        lastly-Ends (Held o) (OldRuntime o) (OldRuntime o) _ _
          (next-Ends (Held o) Any (OldRuntime o) _ _ (remove_running-Ends o v e hv) (λ u hu _.
            call-Ends (Held o) (OldRuntime o) _ _ u hu (runtime-Held o u.state _ e hu) refl))
          (λ s hs. leftover-Held o s false hs) (λ s q. q)

undo_runtime-Ends :
    (o : Snapshot) (w : World) → Held o w.state → Ends (Held o) (OldRuntime o) (undo_runtime o w)
unfolding undo_runtime
undo_runtime-Ends o w h = elim (Bool-cases (is_snapshot o.phase)) [
  | inl e ↦ rw e (require-Ends (Held o) (OldRuntime o) true _ w h (λ _. (h.untouched e).0))
  | inr e ↦ rw e (restore_runtime-Ends o w e h)
]

database-Held :
    (o : Snapshot) (s : State)
    → OldRuntime o s
    → Held o s
    → Held o (record s { database = old_database o })
database-Held o s q h = record {
  same_stored = h.same_stored;
  mixed = old-MixedDatabase o;
  untouched = λ t. (q, refl);
}

undo_database-Ends :
    (o : Snapshot) (w : World)
    → Held o w.state
    → OldRuntime o w.state
    → Ends (Held o) (Original o) (undo_database o w)
unfolding undo_database commit_restored
undo_database-Ends o w h q =
    next-Ends (Held o) (OldRuntime o) (Original o) _ _ (ask-Ends (Held o) (OldRuntime o) _ w h q)
      λ v hv qv.
        next-Ends (Held o) (OldRuntime o) (Original o) _ _
          (require-Ends (Held o) (OldRuntime o) _ _ v hv (λ _. qv))
          (λ u hu qu. elim (Bool-cases (database_matches o u.database)) [
            | inl e ↦ rw e (
                require-Ends (Held o) (Original o) true _ u hu
                  (λ _. (qu, matches_sound o u.database hu.mixed e)))
            | inr e ↦
                rw (e, restore_database-old o u.database hu.mixed)
                  (call-Ends (Held o) (Original o) _ _ u hu (database-Held o u.state qu hu)
                    (qu, refl))
          ])

verify_undone-Ends :
    (o : Snapshot) (w : World)
    → Held o w.state
    → Original o w.state
    → Ends (Held o) (Original o) (verify_undone o w)
unfolding verify_undone list_inbound_tags
verify_undone-Ends o w h q =
    next-Ends (Held o) (Original o) (Original o) _ _ (ask-Ends (Held o) (Original o) _ w h q)
      λ a ha qa.
        next-Ends (Held o) (Original o) (Original o) _ _
          (require-Ends (Held o) (Original o) _ _ a ha (λ _. qa))
          λ b hb qb.
            next-Ends (Held o) (Original o) (Original o) _ _
              (ask-Ends (Held o) (Original o) _ b hb qb)
              λ c hc qc.
                next-Ends (Held o) (Original o) (Original o) _ _
                  (require-Ends (Held o) (Original o) _ _ c hc (λ _. qc))
                  (λ d hd qd. require-Ends (Held o) (Original o) _ _ d hd (λ _. qd))

undo-Ends : (o : Snapshot) (w : World) → Held o w.state → Ends (Held o) (Original o) (undo o w)
unfolding undo
undo-Ends o w h = next-Ends (Held o) Any (Original o) _ _ (boundary-Ends o w h) λ a ha _.
    next-Ends (Held o) (OldRuntime o) (Original o) _ _ (undo_runtime-Ends o a ha) λ b hb qb.
      next-Ends (Held o) (Original o) (Original o) _ _ (undo_database-Ends o b hb qb)
        (λ c hc qc. verify_undone-Ends o c hc qc)

-- Where a rollback may end.
abbrev pub HeldOrGone : Snapshot → State → Type 0
HeldOrGone o s = Held o s ⊎ Gone o s

undo_stored-Ends :
    (o : Snapshot) (w : World)
    → Held o w.state
    → Ends (HeldOrGone o) (λ s. Held o s × Original o s) (undo_stored w.stored w)
unfolding undo_stored
undo_stored-Ends o w h =
    subst
      (λ (x : Option Stored). Ends (HeldOrGone o) (λ s. Held o s × Original o s) (undo_stored x w))
      (sym h.same_stored)
      (Ends-imply (Held o) (HeldOrGone o) _ _ (λ s. inl)
        (Ends-both (Held o) (Original o) _ (undo-Ends o w h)))

pub rollback_snapshot-Ends :
    (o : Snapshot) (remove : Bool) (w : World)
    → Held o w.state
    → Ends (HeldOrGone o) (Original o) (rollback_snapshot remove w)
unfolding rollback_snapshot remove_operation
rollback_snapshot-Ends o remove w h =
    next-Ends (HeldOrGone o) (Held o) (Original o) _ _
      (ask-Ends (HeldOrGone o) (Held o) _ w (inl h) h)
      λ v _ hv.
        next-Ends (HeldOrGone o) (λ s. Held o s × Original o s) (Original o) _ _
          (undo_stored-Ends o v hv)
          (λ u iu (hu, qu). elim (Bool-cases remove) [
            | inl e ↦ rw e (call-Ends (HeldOrGone o) (Original o) _ _ u iu (inr (refl, qu)) qu)
            | inr e ↦ rw e (require-Ends (HeldOrGone o) (Original o) true _ u iu (λ _. qu))
          ])
