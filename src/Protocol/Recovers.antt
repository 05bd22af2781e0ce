-- ===== src/Protocol/Recovers.antt =====
-- `recover_pending` and `rollback` of scripts/aimili_xui_protocol_transaction.py where every call works.
use aimili_gateway.Prelude.{◌≡◌, ℕ, refl, subst, sym, arith, ==_iff, false, [], Option, some}
use aimili_gateway.Protocol.Types.{Snapshot, Stored, rolled_back}
use aimili_gateway.Protocol.World.{State, World, Result, done, dead, raised}
use aimili_gateway.Protocol.Apply.{
  is_repair_required, is_recent, recovered, recover_stored, recover_operation, rollback,
  rollback_stored,
}
use aimili_gateway.Protocol.Triples.{Works, ask-Works, call-Works, next-Works}
use aimili_gateway.Protocol.RollbackSafe.{Original, Gone}
use aimili_gateway.Protocol.RollbackWorks.{Ready, rollback_snapshot-Works}

recovered-Works :
    (o : Snapshot) (Q : State → Type 0) (r : World × Result) → Works Q r → Works Q (recovered o r)
unfolding recovered
recovered-Works o Q (w, done) h = h
recovered-Works o Q (w, dead) h = let e = h.is_done in cc
recovered-Works o Q (w, raised c) h = let e = h.is_done in cc

not_recent : (o : Snapshot) (now : ℕ) → is_recent 0 now o ≡ false
unfolding is_recent
not_recent o now = ground (arith, ==_iff 0 0)

recover_stored-Works :
    (o : Snapshot) (now : ℕ) (w : World)
    → w.luck ≡ []
    → Ready o w.state
    → is_repair_required o.phase ≡ false
    → Works (Gone o) (recover_stored 0 now w.stored w)
unfolding recover_stored
recover_stored-Works o now w e h p =
    subst (λ (x : Option Stored). Works (Gone o) (recover_stored 0 now x w))
      (sym h.held.same_stored)
      (rw (p, not_recent o now) (recovered-Works o (Gone o) _ (rollback_snapshot-Works o w e h).1))

abbrev pub RolledBack : Snapshot → State → Type 0
RolledBack o s = (s.stored ≡ some rolled_back) × Original o s

rollback_stored-Works :
    (o : Snapshot) (w : World)
    → w.luck ≡ []
    → Ready o w.state
    → Works (RolledBack o) (rollback_stored w.stored w)
unfolding rollback_stored
rollback_stored-Works o w e h =
    subst (λ (x : Option Stored). Works (RolledBack o) (rollback_stored x w))
      (sym h.held.same_stored)
      (next-Works (Original o) (RolledBack o) _ _ (rollback_snapshot-Works o w e h).0
        (λ v ev hv. call-Works (RolledBack o) _ _ v ev (refl, hv)))

-- Where every call works, on a pending operation whose clients and updates are valid, with no file
-- rollback-inbound.json in its directory: the command to roll back ends with the snapshot rolled_back, and
-- unless the operation is marked for repair, so does recovery with no minimal age, with the operation
-- gone; in both Xray's inbound and the database are as they were before the operation.
pub recovery-Works :
    (o : Snapshot) (now : ℕ) (w : World)
    → w.luck ≡ []
    → Ready o w.state
    → Works (RolledBack o) (rollback w)
      × (is_repair_required o.phase ≡ false → Works (Gone o) (recover_operation 0 now w))
unfolding rollback recover_operation
recovery-Works o now w e h = (
  next-Works (Ready o) (RolledBack o) _ _ (ask-Works (Ready o) _ w e h)
      (λ v ev hv. rollback_stored-Works o v ev hv),
  λ p.
      next-Works (Ready o) (Gone o) _ _ (ask-Works (Ready o) _ w e h)
        (λ v ev hv. recover_stored-Works o now v ev hv p),
)
