-- ===== src/Protocol/Stuck.antt =====
-- A file rollback-inbound.json that a rollback of scripts/aimili_xui_protocol_transaction.py left in the
-- directory of its operation.
use aimili_gateway.Prelude.{
  ◌≡◌, Text, refl, subst, sym, arith, inl, inr, Bool, true, false, Bool-cases, ◌||◌, Option, some,
  List, [], ◌∷◌, if◌then◌else◌,
}
use aimili_gateway.Protocol.Types.{repair_required, Database, Snapshot, Stored, pending, Code}
use aimili_gateway.Protocol.World.{Luck, State, World, Result, done, dead, raised, next, ask}
use aimili_gateway.Protocol.Rollback.{
  validate_boundary, write_rollback_inbound, restore_runtime, is_snapshot, undo_runtime, undo,
  undo_stored, rollback_snapshot,
}
use aimili_gateway.Protocol.Apply.{
  save_snapshot, is_applied, apply, apply_stored, apply_known, renew, renew_stored, rollback,
  rollback_stored, recovered, recover_stored, recover_operation, is_recent, is_repair_required,
}
use aimili_gateway.Protocol.Triples.{Ends, Ends-imply, call-Ends, ask-Ends, next-Ends, require-Ends}
use aimili_gateway.Protocol.Commands.{
  Command, apply_it, rollback_it, renew_it, recover_it, run, run_all,
}

-- The file is there, and the operation may have changed Xray's configuration.
pub record Left (o : Snapshot) (r : Option Text) (d : Database) (s : State) : Type 0 where
  pub same_stored : s.stored ≡ some (pending o)
  pub may_have_changed : is_snapshot o.phase ≡ false
  pub is_left : s.leftover ≡ true
  pub same_runtime : s.runtime ≡ r
  pub same_database : s.database ≡ d

abbrev Any : State → Type 0
Any s = Unit

abbrev Never : State → Type 0
Never s = ⊥

-- Which snapshot it is may change.
abbrev pub Stuck : Option Text → Database → State → Type 0
Stuck r d s = (o : Snapshot) × Left o r d s

not_written : (b : Bool) → b ≡ true → ¬ (if b then false else true) ≡ true
not_written b e f = ground (arith, e)

module _ (o : Snapshot) (r : Option Text) (d : Database) where
  boundary-Left : (w : World) → Left o r d w.state → Ends (Left o r d) Any (validate_boundary o w)
  unfolding validate_boundary
  boundary-Left w h =
      next-Ends (Left o r d) Any Any _ _ (require-Ends (Left o r d) Any _ _ w h (λ _. tt)) λ v hv _.
        next-Ends (Left o r d) Any Any _ _ (require-Ends (Left o r d) Any _ _ v hv (λ _. tt))
          λ x hx _.
            next-Ends (Left o r d) Any Any _ _ (ask-Ends (Left o r d) Any _ x hx tt)
              (λ u hu _. require-Ends (Left o r d) Any _ _ u hu (λ _. tt))

  undo_runtime-Left : (w : World) → Left o r d w.state → Ends (Left o r d) Never (undo_runtime o w)
  unfolding undo_runtime restore_runtime write_rollback_inbound
  undo_runtime-Left w h = rw h.may_have_changed (
      next-Ends (Left o r d) Never Never _ _
        (next-Ends (Left o r d) Never Never _ _
          (require-Ends (Left o r d) Never _ _ w h
            (λ e. absurd (not_written w.leftover h.is_left e)))
          (λ v hv b. elim b [ ]))
        (λ v hv b. elim b [ ]))

  undo-Left : (w : World) → Left o r d w.state → Ends (Left o r d) Never (undo_stored w.stored w)
  unfolding undo_stored undo
  undo-Left w h =
      subst (λ (x : Option Stored). Ends (Left o r d) Never (undo_stored x w)) (sym h.same_stored)
        (next-Ends (Left o r d) Any Never _ _ (boundary-Left w h) λ v hv _.
          next-Ends (Left o r d) Never Never _ _ (undo_runtime-Left v hv) (λ u hu b. elim b [ ]))

  pub rollback_snapshot-Left :
      (remove : Bool) (w : World)
      → Left o r d w.state
      → Ends (Left o r d) Never (rollback_snapshot remove w)
  unfolding rollback_snapshot
  rollback_snapshot-Left remove w h =
      next-Ends (Left o r d) Any Never _ _ (ask-Ends (Left o r d) Any _ w h tt)
        λ v hv _. next-Ends (Left o r d) Never Never _ _ (undo-Left v hv) (λ u hu b. elim b [ ])

module _ (r : Option Text) (d : Database) where
  abbrev Keeps : World × Result → Type 0
  Keeps x = Ends (Stuck r d) Any x

  stays : (w : World) (x : Result) → Stuck r d w.state → Keeps (w, x)
  stays w x h = record { always = h; when_done = λ _. tt }

  by_stored :
      (k : Option Stored → World → World × Result) (w : World)
      → Stuck r d w.state
      → ((o : Snapshot) → Left o r d w.state → Keeps (k (some (pending o)) w))
      → Keeps (k w.stored w)
  by_stored k w h f = subst (λ (x : Option Stored). Keeps (k x w)) (sym h.1.same_stored) (f h.0 h.1)

  asked :
      (code : Code) (k : World → World × Result) (w : World)
      → Stuck r d w.state
      → ((v : World) → Stuck r d v.state → Keeps (k v))
      → Keeps (next (ask code w) k)
  asked code k w h f =
      next-Ends (Stuck r d) Any Any _ _ (ask-Ends (Stuck r d) Any _ w h tt) (λ v hv _. f v hv)

  undone-Keeps :
      (o : Snapshot) (remove : Bool) (w : World)
      → Left o r d w.state
      → Ends (Stuck r d) Never (rollback_snapshot remove w)
  undone-Keeps o remove w h =
      Ends-imply (Left o r d) (Stuck r d) Never _ (λ s k. (o, k))
        (rollback_snapshot-Left o r d remove w h)

  stored_again :
      (o p : Snapshot) (s : State)
      → is_snapshot p.phase ≡ false
      → Left o r d s
      → Left p r d (record s { stored = some (pending p) })
  stored_again o p s e h = record {
    same_stored = refl;
    may_have_changed = e;
    is_left = h.is_left;
    same_runtime = h.same_runtime;
    same_database = h.same_database;
  }

  recovered-Keeps :
      (o : Snapshot) (x : World × Result) → Ends (Stuck r d) Never x → Keeps (recovered o x)
  unfolding recovered save_snapshot is_snapshot
  recovered-Keeps o (w, done) h = stays w done h.always
  recovered-Keeps o (w, dead) h = stays w dead h.always
  recovered-Keeps o (w, raised c) h =
      call-Ends (Stuck r d) Any _ _ w h.always
        (
          record o { phase = repair_required },
          stored_again h.always.0 (record o { phase = repair_required }) w.state refl h.always.1,
        )
        tt

  run-Keeps : (o : Snapshot) (c : Command) (w : World) → Stuck r d w.state → Keeps (run o c w)
  unfolding run apply apply_stored apply_known renew renew_stored rollback rollback_stored
      recover_operation recover_stored
  run-Keeps o apply_it w h =
      by_stored (apply_stored o) w h
        (λ p k. asked _ _ w h (λ v hv. require-Ends (Stuck r d) Any _ _ v hv (λ _. tt)))
  run-Keeps o rollback_it w h = asked _ _ w h (λ v hv. by_stored rollback_stored v hv (λ p k.
      next-Ends (Stuck r d) Never Any _ _ (undone-Keeps p false v k) (λ u hu b. elim b [ ])))
  run-Keeps o (renew_it now) w h = asked _ _ w h (λ v hv. by_stored (renew_stored now) v hv (λ p k.
      elim (Bool-cases (is_applied p.phase)) [
        | inl e ↦ rw e (
            call-Ends (Stuck r d) Any _ _ v hv
              (
                record p { lease_updated_at = now },
                stored_again p (record p { lease_updated_at = now }) v.state k.may_have_changed k,
              )
              tt)
        | inr e ↦ rw e (stays v _ hv)
      ]))
  run-Keeps o (recover_it min_age now) w h = asked _ _ w h (λ v hv.
      by_stored (recover_stored min_age now) v hv (λ p k.
        elim (Bool-cases (is_repair_required p.phase || is_recent min_age now p)) [
          | inl e ↦ rw e (stays v _ hv)
          | inr e ↦ rw e (recovered-Keeps p _ (undone-Keeps p true v k))
        ]))

  run_all-Keeps :
      (o : Snapshot) (cs : List (Command × List Luck)) (s : State)
      → Stuck r d s
      → Stuck r d (run_all o cs s)
  unfolding run_all
  run_all-Keeps o [] s h = h
  run_all-Keeps o ((c, luck) ∷ cs) s h =
      run_all-Keeps o cs _ (run-Keeps o c (record { state = s; luck = luck }) h).always

-- With a file rollback-inbound.json in the directory of a pending operation whose phase is not
-- "snapshot", no sequence of apply, rollback, renew and recovery, in whatever processes, changes Xray's
-- inbound or the database, or ends that: no command undoes the operation.
pub run_all-Stuck :
    (o p : Snapshot) (cs : List (Command × List Luck)) (s : State)
    → s.stored ≡ some (pending p)
    → is_snapshot p.phase ≡ false
    → s.leftover ≡ true
    → Stuck s.runtime s.database (run_all o cs s)
run_all-Stuck o p cs s e f g = run_all-Keeps s.runtime s.database o cs s (
  p,
  record {
    same_stored = e;
    may_have_changed = f;
    is_left = g;
    same_runtime = refl;
    same_database = refl;
  },
)
