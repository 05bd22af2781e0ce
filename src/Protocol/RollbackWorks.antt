-- ===== src/Protocol/RollbackWorks.antt =====
-- `_rollback_snapshot` of scripts/aimili_xui_protocol_transaction.py where every call works.
use aimili_gateway.Prelude.{
  ◌≡◌, refl, subst, sym, true, false, Bool-cases, inl, inr, [], Option, some,
}
use aimili_gateway.Protocol.Types.{Snapshot, Stored}
use aimili_gateway.Protocol.Database.{database_matches, valid_clients, valid_updates}
use aimili_gateway.Protocol.World.{State, World}
use aimili_gateway.Protocol.Rollback.{
  is_some, list_inbound_tags, remove_inbound, add_inbound, validate_boundary,
  write_rollback_inbound, remove_running, restore_runtime, is_snapshot, undo_runtime,
  commit_restored, undo_database, verify_undone, remove_operation, undo, undo_stored,
  rollback_snapshot,
}
use aimili_gateway.Protocol.Triples.{
  Works, ask-Works, call-Works, next-Works, require-Works, lastly-Works,
}
use aimili_gateway.Protocol.Restores.{
  MixedDatabase, inbound_there, restore_database-old, matches_sound, columns_match-old,
  clients_within-Mixed,
}
use aimili_gateway.Protocol.RollbackSafe.{Original, Held, Gone}

-- A pending operation that nothing hinders from being rolled back.
pub record Ready (o : Snapshot) (s : State) : Type 0 where
  pub held : Held o s
  pub no_leftover : s.leftover ≡ false
  pub clients_valid : valid_clients o.clients ≡ true
  pub updates_valid : valid_updates o.desired_template.client_auth_updates o.clients ≡ true

abbrev Back : Snapshot → State → Type 0
Back o s = (s.runtime ≡ some o.old_runtime_inbound) × MixedDatabase o s.database

boundary-Works :
    (o : Snapshot) (w : World)
    → w.luck ≡ []
    → Ready o w.state
    → Works (Ready o) (validate_boundary o w)
unfolding validate_boundary
boundary-Works o w e h =
    next-Works (Ready o) (Ready o) _ _ (require-Works (Ready o) _ _ w e h.clients_valid h)
      λ v ev hv.
        next-Works (Ready o) (Ready o) _ _ (require-Works (Ready o) _ _ v ev hv.updates_valid hv)
          λ x ex hx. next-Works (Ready o) (Ready o) _ _ (ask-Works (Ready o) _ x ex hx) (λ u eu hu.
            require-Works (Ready o) _ _ u eu (clients_within-Mixed o u.database hu.held.mixed) hu)

remove_running-Works :
    (o : Snapshot) (w : World)
    → w.luck ≡ []
    → MixedDatabase o w.database
    → Works (λ s. MixedDatabase o s.database) (remove_running w)
unfolding remove_running list_inbound_tags remove_inbound
remove_running-Works o w e h =
    let Q : State → Type 0 = λ s. MixedDatabase o s.database in
    next-Works Q Q _ _ (ask-Works Q _ w e h) (λ v ev hv. elim (Bool-cases (is_some v.runtime)) [
      | inl t ↦ rw t (call-Works Q _ _ v ev hv)
      | inr t ↦ rw t (require-Works Q true _ v ev refl hv)
    ])

restore_runtime-Works :
    (o : Snapshot) (w : World)
    → w.luck ≡ []
    → Ready o w.state
    → Works (Back o) (restore_runtime o w)
unfolding restore_runtime write_rollback_inbound add_inbound
restore_runtime-Works o w e h =
    let Q : State → Type 0 = λ s. MixedDatabase o s.database in
    next-Works Q (Back o) _ _
      (next-Works (Ready o) Q _ _ (require-Works (Ready o) _ _ w e (rw h.no_leftover refl) h)
        (λ v ev hv. call-Works Q _ _ v ev hv.held.mixed))
      λ v ev hv.
        lastly-Works (Back o) (Back o) _ _
          (next-Works Q (Back o) _ _ (remove_running-Works o v ev hv)
            (λ u eu hu. call-Works (Back o) _ _ u eu (refl, hu)))
          (λ s q. q)

undo_runtime-Works :
    (o : Snapshot) (w : World) → w.luck ≡ [] → Ready o w.state → Works (Back o) (undo_runtime o w)
unfolding undo_runtime
undo_runtime-Works o w e h = elim (Bool-cases (is_snapshot o.phase)) [
  | inl t ↦ rw t (require-Works (Back o) true _ w e refl ((h.held.untouched t).0, h.held.mixed))
  | inr t ↦ rw t (restore_runtime-Works o w e h)
]

undo_database-Works :
    (o : Snapshot) (w : World)
    → w.luck ≡ []
    → Back o w.state
    → Works (Original o) (undo_database o w)
unfolding undo_database commit_restored
undo_database-Works o w e h =
    next-Works (Back o) (Original o) _ _ (ask-Works (Back o) _ w e h) λ v ev hv.
      next-Works (Back o) (Original o) _ _
        (require-Works (Back o) _ _ v ev (inbound_there o v.database hv.1) hv)
        (λ u eu hu. elim (Bool-cases (database_matches o u.database)) [
          | inl t ↦ rw t (
              require-Works (Original o) true _ u eu refl (hu.0, matches_sound o u.database hu.1 t))
          | inr t ↦
              rw (t, restore_database-old o u.database hu.1)
                (call-Works (Original o) _ _ u eu (hu.0, refl))
        ])

verify_undone-Works :
    (o : Snapshot) (w : World)
    → w.luck ≡ []
    → Original o w.state
    → Works (Original o) (verify_undone o w)
unfolding verify_undone list_inbound_tags is_some
verify_undone-Works o w e h =
    let Q = Original o in
    next-Works Q Q _ _ (ask-Works Q _ w e h) λ a ea ha.
      next-Works Q Q _ _ (require-Works Q _ _ a ea (rw ha.0 refl) ha) λ b eb hb.
        next-Works Q Q _ _ (ask-Works Q _ b eb hb) λ c ec hc.
          next-Works Q Q _ _ (require-Works Q _ _ c ec (rw hc.1 refl) hc)
            (λ d ed hd. require-Works Q _ _ d ed (rw hd.1 (columns_match-old o)) hd)

undo-Works :
    (o : Snapshot) (w : World) → w.luck ≡ [] → Ready o w.state → Works (Original o) (undo o w)
unfolding undo
undo-Works o w e h = next-Works (Ready o) (Original o) _ _ (boundary-Works o w e h) λ a ea ha.
    next-Works (Back o) (Original o) _ _ (undo_runtime-Works o a ea ha) λ b eb hb.
      next-Works (Original o) (Original o) _ _ (undo_database-Works o b eb hb)
        (λ c ec hc. verify_undone-Works o c ec hc)

undo_stored-Works :
    (o : Snapshot) (w : World)
    → w.luck ≡ []
    → Ready o w.state
    → Works (Original o) (undo_stored w.stored w)
unfolding undo_stored
undo_stored-Works o w e h =
    subst (λ (x : Option Stored). Works (Original o) (undo_stored x w)) (sym h.held.same_stored)
      (undo-Works o w e h)

-- Where every call works, the rollback of a pending operation whose clients and updates are valid, with no file
-- rollback-inbound.json in its directory, does not raise, and leaves Xray's inbound and the database as
-- they were before the operation; with the removal of its directory, the operation is gone.
pub rollback_snapshot-Works :
    (o : Snapshot) (w : World)
    → w.luck ≡ []
    → Ready o w.state
    → Works (Original o) (rollback_snapshot false w) × Works (Gone o) (rollback_snapshot true w)
unfolding rollback_snapshot remove_operation
rollback_snapshot-Works o w e h = (
  next-Works (Ready o) (Original o) _ _ (ask-Works (Ready o) _ w e h) λ v ev hv.
      next-Works (Original o) (Original o) _ _ (undo_stored-Works o v ev hv)
        (λ u eu hu. require-Works (Original o) true _ u eu refl hu),
  next-Works (Ready o) (Gone o) _ _ (ask-Works (Ready o) _ w e h) λ v ev hv.
      next-Works (Original o) (Gone o) _ _ (undo_stored-Works o v ev hv)
        (λ u eu hu. call-Works (Gone o) _ _ u eu (refl, hu)),
)
