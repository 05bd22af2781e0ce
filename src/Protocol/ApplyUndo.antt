-- ===== src/Protocol/ApplyUndo.antt =====
-- The `except` of `apply` of scripts/aimili_xui_protocol_transaction.py: what was begun is undone, or
-- marked for repair.
use aimili_gateway.Prelude.{true, ◌≡◌, refl, subst, sym, ◌⊎◌, inl, inr, Option, none}
use aimili_gateway.Protocol.Types.{
  Phase, snapshot, repair_required, Snapshot, Stored, Code, rollback_failed,
}
use aimili_gateway.Protocol.World.{State, World, Result, done, dead, raised, next}
use aimili_gateway.Protocol.Rollback.{is_snapshot}
use aimili_gateway.Protocol.Apply.{
  save_snapshot, save_repair, mark_repair, rolled, or_undo, apply_new, apply_stored, apply,
}
use aimili_gateway.Protocol.Triples.{Ends, Ends-imply, call-Ends, ask-Ends, next-Ends}
use aimili_gateway.Protocol.RollbackSafe.{Original, Gone, HeldOrGone, rollback_snapshot-Ends}
use aimili_gateway.Protocol.ApplySafe.{at, Pending, Applied, first_saved, saved, apply_body-Ends}

-- The operation can be rolled back still, or it is gone and all is as it was.
abbrev pub Recoverable : Snapshot → State → Type 0
Recoverable o s = Pending o s ⊎ Gone o s

-- How an operation may end: applied, undone, or kept for repair.
pub record Settled (o : Snapshot) (r : World × Result) : Type 0 where
  pub recoverable : Recoverable o r.0.state
  pub applied_done : r.1 ≡ done → Applied o r.0.state
  pub undone : (c : Code) → r.1 ≡ raised c → (c ≡ rollback_failed) ⊎ Original o r.0.state

abbrev Any : State → Type 0
Any s = Unit

widen : (o : Snapshot) (p : Phase) (s : State) → HeldOrGone (at o p) s → Recoverable o s
widen o p s h = elim h [ inl k ↦ inl (p, k) | inr g ↦ inr g ]

save_repair-Ends :
    (o : Snapshot) (w : World)
    → Recoverable o w.state
    → Ends (Recoverable o) Any (save_repair w.stored w)
unfolding save_repair save_snapshot is_snapshot
save_repair-Ends o w (inl (p, h)) =
    subst (λ (x : Option Stored). Ends (Recoverable o) Any (save_repair x w)) (sym h.same_stored)
      (call-Ends (Recoverable o) Any _ _ w (inl (p, h))
        (inl (repair_required, saved o p repair_required w.state refl h)) tt)
save_repair-Ends o w (inr g) =
    subst (λ (x : Option Stored). Ends (Recoverable o) Any (save_repair x w)) (sym g.0)
      (record { always = inr g; when_done = λ _. tt })

mark_repair-Settled :
    (o : Snapshot) (r : World × Result) → Ends (Recoverable o) Any r → Settled o (mark_repair r)
unfolding mark_repair
mark_repair-Settled o (w, dead) h = record {
  recoverable = h.always;
  applied_done = λ e. cc;
  undone = λ c e. cc;
}
mark_repair-Settled o (w, done) h = record {
  recoverable = h.always;
  applied_done = λ e. cc;
  undone = λ c e. inl cc;
}
mark_repair-Settled o (w, raised d) h = record {
  recoverable = h.always;
  applied_done = λ e. cc;
  undone = λ c e. inl cc;
}

rolled-Settled :
    (o : Snapshot) (d : Code) (r : World × Result)
    → Ends (Recoverable o) (Original o) r
    → Settled o (rolled d r)
unfolding rolled
rolled-Settled o d (w, done) h = record {
  recoverable = h.always;
  applied_done = λ e. cc;
  undone = λ c e. inr (h.when_done refl);
}
rolled-Settled o d (w, dead) h = record {
  recoverable = h.always;
  applied_done = λ e. cc;
  undone = λ c e. cc;
}
rolled-Settled o d (w, raised c) h = mark_repair-Settled o _ (
    next-Ends (Recoverable o) Any Any _ _ (ask-Ends (Recoverable o) Any _ w h.always tt)
      (λ v hv _. save_repair-Ends o v hv))

or_undo-Settled :
    (o : Snapshot) (r : World × Result) → Ends (Pending o) (Applied o) r → Settled o (or_undo r)
unfolding or_undo
or_undo-Settled o (w, done) h = record {
  recoverable = inl h.always;
  applied_done = λ e. h.when_done refl;
  undone = λ c e. cc;
}
or_undo-Settled o (w, dead) h = record {
  recoverable = inl h.always;
  applied_done = λ e. cc;
  undone = λ c e. cc;
}
or_undo-Settled o (w, raised c) h = rolled-Settled o c _ (
    Ends-imply (HeldOrGone (at o h.always.0)) (Recoverable o) (Original o) _ (widen o h.always.0)
      (rollback_snapshot-Ends (at o h.always.0) true w h.always.1))

-- Before the first change: what fails here leaves all as it was.
abbrev Unchanged : Snapshot → State → Type 0
Unchanged o s = Recoverable o s × Original o s

next-Settled :
    (o : Snapshot) (Q : State → Type 0) (r : World × Result) (k : World → World × Result)
    → Ends (Unchanged o) Q r
    → ((w : World) → Unchanged o w.state → Q w.state → Settled o (k w))
    → Settled o (next r k)
unfolding next
next-Settled o Q (w, done) k h f = f w h.always (h.when_done refl)
next-Settled o Q (w, dead) k h f = record {
  recoverable = h.always.0;
  applied_done = λ e. cc;
  undone = λ c e. cc;
}
next-Settled o Q (w, raised d) k h f = record {
  recoverable = h.always.0;
  applied_done = λ e. cc;
  undone = λ c e. inr h.always.1;
}

apply_new-Settled : (o : Snapshot) (w : World) → Gone o w.state → Settled o (apply_new o w)
unfolding apply_new save_snapshot
apply_new-Settled o w h =
    next-Settled o (Gone o) _ _ (ask-Ends (Unchanged o) (Gone o) _ w (inr h, h.1) h) λ v iv hv.
      next-Settled o (λ s. Pending o s × Original o s) _ _
        (call-Ends (Unchanged o) (λ s. Pending o s × Original o s) _ _ v iv
          (inl (snapshot, first_saved o v.state hv.1), hv.1)
          ((snapshot, first_saved o v.state hv.1), hv.1))
        (λ u iu (hu, qu). or_undo-Settled o _ (apply_body-Ends o u hu qu.1))

pub apply_settles :
    (o : Snapshot) (w : World) → w.stored ≡ none → Original o w.state → Settled o (apply o w)
unfolding apply apply_stored
apply_settles o w e h =
    subst (λ (x : Option Stored). Settled o (apply_stored o x w)) (sym e)
      (apply_new-Settled o w (e, h))
