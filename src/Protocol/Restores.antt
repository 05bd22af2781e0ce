-- ===== src/Protocol/Restores.antt =====
-- The transaction that undoes another, in scripts/aimili_xui_protocol_transaction.py.
use aimili_gateway.Prelude.{
  Text, ◌≡◌, refl, ap, ◌∙◌, subst, true, ◌&&◌, ◌⊎◌, Option, none, some, List, [], ◌∷◌, arith,
  text_eq_refl, ◌==◌, ==_iff, Bool-cases, inl, inr,
}
use aimili_gateway.Protocol.Rollback.{is_some}
use aimili_gateway.Protocol.Types.{Columns, InboundRow, Client, Database, Template, Snapshot}
use aimili_gateway.Protocol.Database.{
  same_value, auth_update, is_unset, update_inbound, new_auth, put_client, persist_client,
  add_client, persist_clients, put_database, persist_template, restore_database, columns_match,
  database_matches, clients_within,
}
use aimili_gateway.Protocol.Mixed.{
  same_columns_sound, same_columns_refl, MixedAuth, Mixed, AllMixed, old-AllMixed, restore_all,
  within_all, match_all,
}

-- Of what a function returned, if it did.
abbrev Returns {ℓ} : {A : Type ℓ} → (A → Type 0) → Option A → Type 0
Returns P none = Unit
Returns P (some a) = P a

pub returned {ℓ} :
    {A : Type ℓ} (P : A → Type 0) (o : Option A) (a : A) → Returns P o → o ≡ some a → P a
returned P none a h e = cc
returned P (some b) a h e = subst (Returns P) e h

put-Mixed :
    (t : Template) (o : Client) (a : Option (Option Text))
    → Returns (MixedAuth (auth_update t.client_auth_updates o.id) o.auth) a
    → Returns (Mixed t o) (put_client o.id a (some t.flow_override))
unfolding put_client
put-Mixed t o none h = tt
put-Mixed t o (some a) h = record { same_id = refl; flow = inr refl; mixed_auth = h }

auth-Returns : (u o : Option Text) → Returns (MixedAuth u o) (new_auth u o)
unfolding new_auth
auth-Returns none o = refl
auth-Returns (some a) o = elim (Bool-cases (is_unset o)) [
  | inl e ↦ rw e (inr refl)
  | inr e ↦ rw e tt
]

persist_one : (t : Template) (o : Client) → Returns (Mixed t o) (persist_client t o o)
unfolding persist_client
persist_one t o = elim (Bool-cases (o.id == o.id && same_value o.flow_override o.flow_override)) [
  | inl e ↦ rw e (put-Mixed t o _ (auth-Returns _ o.auth))
  | inr e ↦ rw e tt
]

add-AllMixed :
    (t : Template) (o : Client) (os : List Client) (c : Option Client) (cs : Option (List Client))
    → Returns (Mixed t o) c
    → Returns (AllMixed t os) cs
    → Returns (AllMixed t (o ∷ os)) (add_client c cs)
unfolding add_client
add-AllMixed t o os (some c) (some cs) h hs = (h, hs)
add-AllMixed t o os (some c) none h hs = tt
add-AllMixed t o os none cs h hs = tt

persist_all : (t : Template) (os : List Client) → Returns (AllMixed t os) (persist_clients t os os)
unfolding persist_clients
persist_all t [] = tt
persist_all t (o ∷ os) = add-AllMixed t o os _ _ (persist_one t o) (persist_all t os)

-- The database while an operation is pending.
pub record MixedDatabase (s : Snapshot) (db : Database) : Type 0 where
  pub mixed_row :
      (db.inbound ≡ some s.row)
      ⊎ (db.inbound ≡ some (record s.row { columns = s.desired_template.columns }))
  pub mixed_clients : AllMixed s.desired_template s.clients db.clients

-- The database before the operation.
abbrev pub old_database : Snapshot → Database
old_database s = record { inbound = some s.row; clients = s.clients }

pub old-MixedDatabase : (s : Snapshot) → MixedDatabase s (old_database s)
old-MixedDatabase s = record {
  mixed_row = inl refl;
  mixed_clients = old-AllMixed s.desired_template s.clients;
}

put-Returns :
    (s : Snapshot) (cs : Option (List Client)) (r : Option InboundRow)
    → r ≡ some (record s.row { columns = s.desired_template.columns })
    → Returns (AllMixed s.desired_template s.clients) cs
    → Returns (MixedDatabase s) (put_database r cs)
unfolding put_database
put-Returns s none none e h = tt
put-Returns s none (some r) e h = tt
put-Returns s (some cs) none e h = tt
put-Returns s (some cs) (some r) e h = record { mixed_row = inr e; mixed_clients = h }

update_own :
    (row : InboundRow) (columns other : Columns)
    → update_inbound row columns (some (record row { columns = other }))
      ≡ some (record row { columns = columns })
unfolding update_inbound
update_own row columns other =
    ground (arith, text_eq_refl row.tag, ==_iff row.id row.id, ==_iff row.port row.port)

-- What the operation commits is a database of a pending operation.
pub persisted-MixedDatabase :
    (s : Snapshot)
    → Returns
        (MixedDatabase s)
        (persist_template s.row s.clients s.desired_template (old_database s))
unfolding persist_template
persisted-MixedDatabase s =
    put-Returns s _ _ (update_own s.row s.desired_template.columns s.row.columns)
      (persist_all s.desired_template s.clients)

-- From any database of a pending operation the transaction of the rollback makes the one before it.
pub restore_database-old :
    (s : Snapshot) (db : Database)
    → MixedDatabase s db
    → restore_database s db ≡ some (old_database s)
unfolding restore_database put_database
restore_database-old s db h =
    let row : update_inbound s.row s.row.columns db.inbound ≡ some s.row = elim h.mixed_row [
      | inl e ↦ rw e (update_own s.row s.row.columns s.row.columns)
      | inr e ↦ rw e (update_own s.row s.row.columns s.desired_template.columns)
    ] in
    rw (row, restore_all s.desired_template s.clients db.clients h.mixed_clients) refl

pub clients_within-Mixed :
    (s : Snapshot) (db : Database)
    → MixedDatabase s db
    → clients_within s.desired_template s.clients db.clients ≡ true
clients_within-Mixed s db h = within_all s.desired_template s.clients db.clients h.mixed_clients

columns_match-own :
    (s : Snapshot) (db : Database)
    → MixedDatabase s db
    → columns_match s.row.columns db.inbound ≡ true
    → db.inbound ≡ some s.row
unfolding columns_match
columns_match-own s db h m = elim h.mixed_row [
  | inl e ↦ e
  | inr e ↦
      let same : s.desired_template.columns ≡ s.row.columns =
        same_columns_sound s.desired_template.columns s.row.columns
          (subst (λ (r : Option InboundRow). columns_match s.row.columns r ≡ true) e m) in
      e ∙ ap (λ (c : Columns). some (record s.row { columns = c })) same
]

-- A database of a pending operation that matches the snapshot is the one before it.
pub matches_sound :
    (s : Snapshot) (db : Database)
    → MixedDatabase s db
    → database_matches s db ≡ true
    → db ≡ old_database s
unfolding database_matches
matches_sound s db h m =
    let row = columns_match-own s db h (ground (arith, m)) in
    let cs =
      match_all s.desired_template s.clients db.clients h.mixed_clients (ground (arith, m)) in
    ap (λ (r : Option InboundRow). record { inbound = r; clients = db.clients }) row
    ∙ ap (λ (l : List Client). record { inbound = some s.row; clients = l }) cs

pub columns_match-old : (s : Snapshot) → columns_match s.row.columns (some s.row) ≡ true
unfolding columns_match
columns_match-old s = same_columns_refl s.row.columns

pub inbound_there : (s : Snapshot) (db : Database) → MixedDatabase s db → is_some db.inbound ≡ true
unfolding is_some
inbound_there s db h = elim h.mixed_row [ inl e ↦ rw e refl | inr e ↦ rw e refl ]

-- From what an operation commits on the database it started from, the transaction of the rollback makes
-- that database again.
pub restore-persist_template :
    (s : Snapshot) (db : Database)
    → persist_template s.row s.clients s.desired_template (old_database s) ≡ some db
    → restore_database s db ≡ some (old_database s)
restore-persist_template s db e =
    restore_database-old s db (returned (MixedDatabase s) _ db (persisted-MixedDatabase s) e)
