-- ===== src/Protocol/Commands.antt =====
-- The commands of scripts/aimili_xui_protocol_transaction.py for one operation, issued in any order.
use aimili_gateway.Prelude.{
  ◌≡◌, ℕ, true, false, Bool-cases, ◌||◌, refl, subst, sym, ◌⊎◌, inl, inr, Option, none, some, List,
  [], ◌∷◌,
}
use aimili_gateway.Protocol.Types.{
  Phase, repair_required, Snapshot, Stored, pending, rolled_back, Code,
}
use aimili_gateway.Protocol.World.{Luck, State, World, Result, done, dead, raised, next, ask}
use aimili_gateway.Protocol.Rollback.{is_snapshot}
use aimili_gateway.Protocol.Apply.{
  save_snapshot, is_applied, apply, apply_stored, apply_known, renew, renew_stored, rollback,
  rollback_stored, recovered, recover_stored, recover_operation, is_recent, is_repair_required,
}
use aimili_gateway.Protocol.Triples.{Ends, Ends-imply, call-Ends, ask-Ends, next-Ends, require-Ends}
use aimili_gateway.Protocol.Restores.{old-MixedDatabase}
use aimili_gateway.Protocol.RollbackSafe.{Original, Held, HeldOrGone, rollback_snapshot-Ends}
use aimili_gateway.Protocol.ApplyUndo.{Recoverable, apply_settles}

-- What can be asked for of an operation that is not finalized.
pub data Command : Type 0 where
  apply_it rollback_it : Command
  renew_it : (now : ℕ) → Command
  recover_it : (min_age now : ℕ) → Command

unfoldable pub run : Snapshot → Command → World → World × Result
run o apply_it w = apply o w
run o rollback_it w = rollback w
run o (renew_it now) w = renew now w
run o (recover_it min_age now) w = recover_operation min_age now w

-- A process per command, each with its own luck: what one leaves, the next one finds.
unfoldable pub run_all : Snapshot → List (Command × List Luck) → State → State
run_all o [] s = s
run_all o ((c, luck) ∷ cs) s = run_all o cs (run o c (record { state = s; luck = luck })).0.state

-- The operation's snapshot in a phase and with a lease.
abbrev pub leased : Snapshot → Phase → ℕ → Snapshot
leased o p l = record o { phase = p; lease_updated_at = l }

abbrev pub Kept : Snapshot → State → Type 0
Kept o s = (p : Phase) × ((l : ℕ) × Held (leased o p l) s)

-- What an operation is between its commands: one that can be rolled back, or one that has left
-- everything as it was, and whose directory is gone or says rolled_back.
abbrev pub Life : Snapshot → State → Type 0
Life o s = Kept o s ⊎ ((s.stored ≡ none ⊎ s.stored ≡ some rolled_back) × Original o s)

abbrev Any : State → Type 0
Any s = Unit

widen : (o : Snapshot) (p : Phase) (l : ℕ) (s : State) → HeldOrGone (leased o p l) s → Life o s
widen o p l s h = elim h [ inl k ↦ inl (p, (l, k)) | inr g ↦ inr (inl g.0, g.1) ]

settled-Life : (o : Snapshot) (s : State) → Recoverable o s → Life o s
settled-Life o s h = elim h [
  | inl k ↦ inl (k.0, (o.lease_updated_at, k.1))
  | inr g ↦ inr (inl g.0, g.1)
]

abbrev Keeps : Snapshot → World × Result → Type 0
Keeps o r = Ends (Life o) Any r

ends-there : (o : Snapshot) (w : World) (r : Result) → Life o w.state → Keeps o (w, r)
ends-there o w r h = record { always = h; when_done = λ _. tt }

-- What every command does first, and what it then does by what is stored.
by_stored :
    (o : Snapshot) (code : Code) (k : Option Stored → World → World × Result) (w : World)
    → Life o w.state
    → ((v : World) → Life o v.state → Keeps o (k v.stored v))
    → Keeps o (next (ask code w) (λ v. k v.stored v))
by_stored o code k w h f =
    next-Ends (Life o) Any Any _ _ (ask-Ends (Life o) Any _ w h tt) (λ v hv _. f v hv)

-- The cases of what is stored.
stored_cases :
    (o : Snapshot) (k : Option Stored → World → World × Result) (w : World)
    → Life o w.state
    → (w.stored ≡ none → Original o w.state → Keeps o (k none w))
    → Keeps o (k (some rolled_back) w)
    → ((p : Phase) (l : ℕ)
        → Held (leased o p l) w.state
        → Keeps o (k (some (pending (leased o p l))) w))
    → Keeps o (k w.stored w)
stored_cases o k w h x y f =
    let at_stored : (t : Option Stored) → w.stored ≡ t → Keeps o (k t w) → Keeps o (k w.stored w) =
      λ t e g. subst (λ (z : Option Stored). Keeps o (k z w)) (sym e) g in
    elim h [
      | inl q ↦ at_stored _ q.1.1.same_stored (f q.0 q.1.0 q.1.1)
      | inr g ↦ elim g.0 [
        | inl e ↦ at_stored none e (x e g.1)
        | inr e ↦ at_stored (some rolled_back) e y
      ]
    ]

rollback-Keeps : (o : Snapshot) (w : World) → Life o w.state → Keeps o (rollback w)
unfolding rollback rollback_stored
rollback-Keeps o w h = by_stored o _ rollback_stored w h (λ v hv.
    stored_cases o rollback_stored v hv (λ _ _. ends-there o v _ hv) (ends-there o v _ hv)
      (λ p l k.
        next-Ends (Life o) (Original o) Any _ _
          (Ends-imply (HeldOrGone (leased o p l)) (Life o) (Original o) _ (widen o p l)
            (rollback_snapshot-Ends (leased o p l) false v k))
          (λ u hu qu. call-Ends (Life o) Any _ _ u hu (inr (inr refl, qu)) tt)))

renewed :
    (o : Snapshot) (p : Phase) (l now : ℕ) (s : State)
    → Held (leased o p l) s
    → Held (leased o p now) (record s { stored = some (pending (leased o p now)) })
renewed o p l now s h = record {
  same_stored = refl;
  mixed = record { mixed_row = h.mixed.mixed_row; mixed_clients = h.mixed.mixed_clients };
  untouched = λ e. h.untouched e;
}

renew-Keeps : (o : Snapshot) (now : ℕ) (w : World) → Life o w.state → Keeps o (renew now w)
unfolding renew renew_stored
renew-Keeps o now w h = by_stored o _ (renew_stored now) w h (λ v hv.
    stored_cases o (renew_stored now) v hv (λ _ _. ends-there o v _ hv) (ends-there o v _ hv)
      (λ p l k. elim (Bool-cases (is_applied p)) [
        | inl e ↦
            rw e (call-Ends (Life o) Any _ _ v hv (inl (p, (now, renewed o p l now v.state k))) tt)
        | inr e ↦ rw e (ends-there o v _ hv)
      ]))

-- What `recover_pending` saves after a failure is the snapshot it read, to be repaired.
to_repair :
    (o : Snapshot) (p : Phase) (l : ℕ) (s : State)
    → HeldOrGone (leased o p l) s
    → Held
        (leased o repair_required l)
        (record s { stored = some (pending (leased o repair_required l)) })
unfolding is_snapshot
to_repair o p l s (inl h) = record {
  same_stored = refl;
  mixed = record { mixed_row = h.mixed.mixed_row; mixed_clients = h.mixed.mixed_clients };
  untouched = λ (e : false ≡ true). cc;
}
to_repair o p l s (inr g) = record {
  same_stored = refl;
  mixed = rw g.1.1 (old-MixedDatabase (leased o repair_required l));
  untouched = λ (e : false ≡ true). cc;
}

recovered-Keeps :
    (o : Snapshot) (p : Phase) (l : ℕ) (r : World × Result)
    → Ends (HeldOrGone (leased o p l)) (Original o) r
    → Keeps o (recovered (leased o p l) r)
unfolding recovered save_snapshot
recovered-Keeps o p l (w, done) h = ends-there o w _ (widen o p l w.state h.always)
recovered-Keeps o p l (w, dead) h = ends-there o w _ (widen o p l w.state h.always)
recovered-Keeps o p l (w, raised c) h =
    call-Ends (Life o) Any _ _ w (widen o p l w.state h.always)
      (inl (repair_required, (l, to_repair o p l w.state h.always))) tt

recover-Keeps :
    (o : Snapshot) (min_age now : ℕ) (w : World)
    → Life o w.state
    → Keeps o (recover_operation min_age now w)
unfolding recover_operation recover_stored
recover-Keeps o min_age now w h = by_stored o _ (recover_stored min_age now) w h (λ v hv.
    stored_cases o (recover_stored min_age now) v hv (λ _ _. ends-there o v _ hv)
      (ends-there o v _ hv)
      (λ p l k. elim (Bool-cases (is_repair_required p || is_recent min_age now (leased o p l))) [
        | inl e ↦ rw e (ends-there o v _ hv)
        | inr e ↦ rw e (recovered-Keeps o p l _ (rollback_snapshot-Ends (leased o p l) true v k))
      ]))

apply-Keeps : (o : Snapshot) (w : World) → Life o w.state → Keeps o (apply o w)
unfolding apply apply_stored apply_known
apply-Keeps o w h =
    stored_cases o (apply_stored o) w h
      (λ e g.
        subst (λ (x : Option Stored). Keeps o (apply_stored o x w)) e
          (record {
            always = settled-Life o _ (apply_settles o w e g).recoverable;
            when_done = λ _. tt;
          }))
      (ends-there o w _ h)
      (λ p l k.
        next-Ends (Life o) Any Any _ _ (ask-Ends (Life o) Any _ w h tt)
          (λ v hv _. require-Ends (Life o) Any _ _ v hv (λ _. tt)))

run-Keeps : (o : Snapshot) (c : Command) (w : World) → Life o w.state → Keeps o (run o c w)
unfolding run
run-Keeps o apply_it w h = apply-Keeps o w h
run-Keeps o rollback_it w h = rollback-Keeps o w h
run-Keeps o (renew_it now) w h = renew-Keeps o now w h
run-Keeps o (recover_it min_age now) w h = recover-Keeps o min_age now w h

-- From a state before an operation, or one that such commands left, after any further sequence of its
-- apply, rollback, renew and recovery, each in a process of its own whose calls may fail or be its last:
-- the operation is pending and its snapshot can tell what was before, or Xray's inbound and the database
-- are as they were before it.
pub run_all-Life :
    (o : Snapshot) (cs : List (Command × List Luck)) (s : State)
    → Life o s
    → Life o (run_all o cs s)
unfolding run_all
run_all-Life o [] s h = h
run_all-Life o ((c, luck) ∷ cs) s h =
    run_all-Life o cs _ (run-Keeps o c (record { state = s; luck = luck }) h).always
