-- ===== src/Protocol/ApplySafe.antt =====
-- `apply` of scripts/aimili_xui_protocol_transaction.py, wherever its calls fail or the process dies.
use aimili_gateway.Prelude.{Text, ◌≡◌, refl, true, false, Option, none, some}
use aimili_gateway.Protocol.Types.{
  Phase, snapshot, runtime_remove_pending, runtime_add_pending, database_pending,
  database_committed, applied, Snapshot, pending, Database,
}
use aimili_gateway.Protocol.Database.{persist_template}
use aimili_gateway.Protocol.World.{State, World}
use aimili_gateway.Protocol.Rollback.{list_inbound_tags, remove_inbound, add_inbound, is_snapshot}
use aimili_gateway.Protocol.Apply.{
  save_snapshot, commit_template, verify_applied, switch_runtime, switch_database, apply_body,
}
use aimili_gateway.Protocol.Triples.{
  Ends, Ends-weaker, Ends-second, call-Ends, ask-Ends, next-Ends, require-Ends,
}
use aimili_gateway.Protocol.Restores.{
  MixedDatabase, old_database, old-MixedDatabase, persisted-MixedDatabase, returned,
}
use aimili_gateway.Protocol.RollbackSafe.{Original, Held}

-- The operation's snapshot, in a phase.
abbrev pub at : Snapshot → Phase → Snapshot
at o p = record o { phase = p }

-- The operation is pending, in some phase.
abbrev pub Pending : Snapshot → State → Type 0
Pending o s = (p : Phase) × Held (at o p) s

abbrev pub Moved : Snapshot → State → Type 0
Moved o s = (p : Phase) × ((is_snapshot p ≡ false) × Held (at o p) s)

-- The database that the operation writes.
abbrev pub Persisted : Snapshot → State → Type 0
Persisted o s =
    persist_template o.row o.clients o.desired_template (old_database o) ≡ some s.database

abbrev pub NewRuntime : Snapshot → State → Type 0
NewRuntime o s = s.runtime ≡ some o.desired_template.runtime_inbound

-- What an operation that is applied has done.
pub record Applied (o : Snapshot) (s : State) : Type 0 where
  pub is_stored : s.stored ≡ some (pending (at o applied))
  pub new_runtime : NewRuntime o s
  pub new_database : Persisted o s

pub at-Mixed :
    (o : Snapshot) (p q : Phase) (db : Database)
    → MixedDatabase (at o p) db
    → MixedDatabase (at o q) db
at-Mixed o p q db h = record { mixed_row = h.mixed_row; mixed_clients = h.mixed_clients }

pub saved :
    (o : Snapshot) (p q : Phase) (s : State)
    → is_snapshot q ≡ false
    → Held (at o p) s
    → Held (at o q) (record s { stored = some (pending (at o q)) })
saved o p q s e h = record {
  same_stored = refl;
  mixed = at-Mixed o p q s.database h.mixed;
  untouched = λ t. cc;
}

pub first_saved :
    (o : Snapshot) (s : State)
    → Original o s
    → Held (at o snapshot) (record s { stored = some (pending (at o snapshot)) })
first_saved o s h = record {
  same_stored = refl;
  mixed = rw h.1 (old-MixedDatabase (at o snapshot));
  untouched = λ _. h;
}

abbrev pub OldDatabase : Snapshot → State → Type 0
OldDatabase o s = s.database ≡ old_database o

-- To save the snapshot keeps what is known of Xray and of the database.
save_snapshot-Ends :
    (o : Snapshot) (q : Phase) (P : State → Type 0) (w : World)
    → is_snapshot q ≡ false
    → Pending o w.state
    → P (record w.state { stored = some (pending (at o q)) })
    → Ends (Pending o) (λ s. Held (at o q) s × P s) (save_snapshot o q w)
unfolding save_snapshot
save_snapshot-Ends o q P w e (p, h) x =
    call-Ends (Pending o) (λ s. Held (at o q) s × P s) _ _ w (p, h) (q, saved o p q w.state e h)
      (saved o p q w.state e h, x)

moved :
    (o : Snapshot) (q : Phase) (s : State) (r : Option Text)
    → is_snapshot q ≡ false
    → Held (at o q) s
    → Held (at o q) (record s { runtime = r })
moved o q s r e h = record { same_stored = h.same_stored; mixed = h.mixed; untouched = λ t. cc }

switch_runtime-Ends :
    (o : Snapshot) (w : World)
    → Pending o w.state
    → OldDatabase o w.state
    → Ends (Pending o) (λ s. OldDatabase o s × NewRuntime o s) (switch_runtime o w)
unfolding switch_runtime remove_inbound add_inbound is_snapshot
switch_runtime-Ends o w h d =
    let P : State → Type 0 = OldDatabase o in
    let Q : Phase → State → Type 0 = λ p s. Held (at o p) s × P s in
    let R : State → Type 0 = λ s. P s × NewRuntime o s in
    next-Ends (Pending o) (Q runtime_remove_pending) R _ _
      (save_snapshot-Ends o runtime_remove_pending P w refl h d)
      λ a ia (ha, da).
        next-Ends (Pending o) P R _ _
          (call-Ends (Pending o) P _ _ a ia
            (runtime_remove_pending, moved o runtime_remove_pending a.state none refl ha) da)
          λ b ib db.
            next-Ends (Pending o) (Q runtime_add_pending) R _ _
              (save_snapshot-Ends o runtime_add_pending P b refl ib db)
              (λ c ic (hc, dc).
                call-Ends (Pending o) R _ _ c ic
                  (runtime_add_pending, moved o runtime_add_pending c.state _ refl hc) (dc, refl))

commit_template-Ends :
    (o : Snapshot) (db : Option Database) (w : World)
    → persist_template o.row o.clients o.desired_template (old_database o) ≡ db
    → Held (at o database_pending) w.state
    → NewRuntime o w.state
    → Ends (Pending o) (λ s. Persisted o s × NewRuntime o s) (commit_template db w)
unfolding commit_template is_snapshot
commit_template-Ends o none w e h n = record { always = (database_pending, h); when_done = λ d. cc }
commit_template-Ends o (some db) w e h n =
    call-Ends (Pending o) (λ s. Persisted o s × NewRuntime o s) _ _ w (database_pending, h)
      (
        database_pending,
        record {
          same_stored = h.same_stored;
          mixed = at-Mixed o snapshot database_pending db (
              returned (MixedDatabase (at o snapshot)) _ db
                (persisted-MixedDatabase (at o snapshot)) e);
          untouched = λ (t : false ≡ true). cc;
        },
      )
      (e, n)

switch_database-Ends :
    (o : Snapshot) (w : World)
    → Pending o w.state
    → OldDatabase o w.state × NewRuntime o w.state
    → Ends (Pending o) (λ s. Persisted o s × NewRuntime o s) (switch_database o w)
unfolding switch_database is_snapshot
switch_database-Ends o w h q =
    let P : State → Type 0 = λ s. OldDatabase o s × NewRuntime o s in
    let R : State → Type 0 = λ s. Persisted o s × NewRuntime o s in
    next-Ends (Pending o) (λ s. Held (at o database_pending) s × P s) R _ _
      (save_snapshot-Ends o database_pending P w refl h q)
      λ a ia (ha, pa).
        next-Ends (Pending o) R R _ _ (commit_template-Ends o _ a (rw pa.0 refl) ha pa.1)
          (λ b ib rb.
            Ends-second (Pending o) _ R _ (save_snapshot-Ends o database_committed R b refl ib rb))

verify_applied-Ends :
    (o : Snapshot) (Q : State → Type 0) (w : World)
    → Pending o w.state
    → Q w.state
    → Ends (Pending o) Q (verify_applied o w)
unfolding verify_applied list_inbound_tags
verify_applied-Ends o Q w h q =
    let I = Pending o in
    next-Ends I Q Q _ _ (ask-Ends I Q _ w h q) λ a ha qa.
      next-Ends I Q Q _ _ (require-Ends I Q _ _ a ha (λ _. qa)) λ b hb qb.
        next-Ends I Q Q _ _ (ask-Ends I Q _ b hb qb) λ c hc qc.
          next-Ends I Q Q _ _ (require-Ends I Q _ _ c hc (λ _. qc))
            (λ d hd qd. require-Ends I Q _ _ d hd (λ _. qd))

pub apply_body-Ends :
    (o : Snapshot) (w : World)
    → Pending o w.state
    → OldDatabase o w.state
    → Ends (Pending o) (Applied o) (apply_body o w)
unfolding apply_body is_snapshot
apply_body-Ends o w h q =
    let I = Pending o in
    let P : State → Type 0 = OldDatabase o in
    let R : State → Type 0 = λ s. Persisted o s × NewRuntime o s in
    next-Ends I P (Applied o) _ _ (ask-Ends I P _ w h q) λ a ha qa.
      next-Ends I P (Applied o) _ _ (ask-Ends I P _ a ha qa) λ b hb qb.
        next-Ends I P (Applied o) _ _ (ask-Ends I P _ b hb qb) λ c hc qc.
          next-Ends I (λ s. P s × NewRuntime o s) (Applied o) _ _ (switch_runtime-Ends o c hc qc)
            λ d hd qd. next-Ends I R (Applied o) _ _ (switch_database-Ends o d hd qd) λ e he qe.
              next-Ends I R (Applied o) _ _ (verify_applied-Ends o R e he qe) (λ f hf qf.
                Ends-weaker I _ (Applied o) _
                  (λ s (hs, rs). record {
                    is_stored = hs.same_stored;
                    new_runtime = rs.1;
                    new_database = rs.0;
                  })
                  (save_snapshot-Ends o applied R f refl hf qf))
