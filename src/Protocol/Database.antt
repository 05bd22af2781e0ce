-- ===== src/Protocol/Database.antt =====
-- The transactions and checks on the database of scripts/aimili_xui_protocol_transaction.py. Each
-- compares the identifiers of the clients in order, so the row of a client is the one at its place. The
-- result `none` is `database_concurrent_change`, where nothing is written.
use aimili_gateway.Prelude.{
  ℕ, Text, Bool, true, false, ◌&&◌, ◌||◌, Option, none, some, List, [], ◌∷◌, all, any, text_eq,
  is_empty, ◌==◌, if◌then◌else◌,
}
use aimili_gateway.Protocol.Types.{Columns, InboundRow, Client, Database, Template, Snapshot}

unfoldable pub same_value : Option Text → Option Text → Bool
same_value none none = true
same_value none (some t) = false
same_value (some s) none = false
same_value (some s) (some t) = text_eq s t

unfoldable pub same_columns : Columns → Columns → Bool
same_columns a b =
    text_eq a.protocol b.protocol
    && (text_eq a.settings b.settings
        && (text_eq a.stream_settings b.stream_settings
            && (text_eq a.sniffing b.sniffing && a.disable_flow == b.disable_flow)))

-- `_clientAuthUpdates.get(client_id)`.
unfoldable pub auth_update : List (ℕ × Text) → ℕ → Option Text
auth_update [] id = none
auth_update ((k, auth) ∷ d) id = if k == id then some auth else auth_update d id

-- `auth='' OR auth IS NULL`.
unfoldable pub is_unset : Option Text → Bool
is_unset none = true
is_unset (some s) = is_empty s

-- UPDATE inbounds SET ... WHERE id=? AND tag=? AND port=?
unfoldable pub update_inbound : InboundRow → Columns → Option InboundRow → Option InboundRow
update_inbound key columns none = none
update_inbound key columns (some row) =
    if row.id == key.id && (text_eq row.tag key.tag && row.port == key.port)
    then some (record row { columns = columns })
    else none

unfoldable pub new_auth : Option Text → Option Text → Option (Option Text)
unfolding is_unset
new_auth none current = some current
new_auth (some auth) current = if is_unset current then some (some auth) else none

unfoldable pub put_client : ℕ → Option (Option Text) → Option Text → Option Client
put_client id none flow = none
put_client id (some auth) flow = some (record { id = id; auth = auth; flow_override = flow })

-- What `persist_template` makes of one client: of the row that was read, and the row that is there.
unfoldable pub persist_client : Template → Client → Client → Option Client
unfolding new_auth auth_update put_client same_value
persist_client template source current =
    if current.id == source.id && same_value current.flow_override source.flow_override
    then put_client current.id
        (new_auth (auth_update template.client_auth_updates current.id) current.auth)
        (some template.flow_override)
    else none

unfoldable pub add_client : Option Client → Option (List Client) → Option (List Client)
add_client (some c) (some cs) = some (c ∷ cs)
add_client (some c) none = none
add_client none cs = none

unfoldable pub persist_clients : Template → List Client → List Client → Option (List Client)
unfolding persist_client add_client
persist_clients template [] [] = some []
persist_clients template [] (c ∷ cs) = none
persist_clients template (s ∷ ss) [] = none
persist_clients template (s ∷ ss) (c ∷ cs) =
    add_client (persist_client template s c) (persist_clients template ss cs)

unfoldable pub put_database : Option InboundRow → Option (List Client) → Option Database
put_database (some row) (some clients) = some (record { inbound = some row; clients = clients })
put_database (some row) none = none
put_database none clients = none

unfoldable pub persist_template : InboundRow → List Client → Template → Database → Option Database
unfolding update_inbound persist_clients put_database
persist_template row clients template db =
    put_database (update_inbound row template.columns db.inbound)
      (persist_clients template clients db.clients)

unfoldable pub restored_auth : Option Text → Option Text → Option Text → Option (Option Text)
unfolding same_value
restored_auth none old current = some current
restored_auth (some desired) old current =
    if same_value current old
    then some current
    else if same_value current (some desired)
    then some old
    else none

unfoldable pub restored_flow : Text → Option Text → Option Text → Option (Option Text)
unfolding same_value
restored_flow desired old current =
    if same_value current old
    then some current
    else if same_value current (some desired)
    then some old
    else none

unfoldable pub put_restored : ℕ → Option (Option Text) → Option (Option Text) → Option Client
put_restored id (some auth) (some flow) =
    some (record { id = id; auth = auth; flow_override = flow })
put_restored id (some auth) none = none
put_restored id none flow = none

-- What `_restore_database` makes of one client.
unfoldable pub restore_client : Template → Client → Client → Option Client
unfolding restored_auth restored_flow auth_update put_restored
restore_client template old current =
    if current.id == old.id
    then put_restored current.id
        (restored_auth (auth_update template.client_auth_updates current.id) old.auth current.auth)
        (restored_flow template.flow_override old.flow_override current.flow_override)
    else none

unfoldable pub restore_clients : Template → List Client → List Client → Option (List Client)
unfolding restore_client add_client
restore_clients template [] [] = some []
restore_clients template [] (c ∷ cs) = none
restore_clients template (o ∷ os) [] = none
restore_clients template (o ∷ os) (c ∷ cs) =
    add_client (restore_client template o c) (restore_clients template os cs)

unfoldable pub restore_database : Snapshot → Database → Option Database
unfolding update_inbound restore_clients put_database
restore_database s db =
    put_database (update_inbound s.row s.row.columns db.inbound)
      (restore_clients s.desired_template s.clients db.clients)

unfoldable pub auth_matches : Option Text → Option Text → Option Text → Bool
unfolding same_value
auth_matches none old current = true
auth_matches (some desired) old current = same_value current old

unfoldable pub clients_match : Template → List Client → List Client → Bool
unfolding auth_matches auth_update same_value
clients_match template [] [] = true
clients_match template [] (c ∷ cs) = false
clients_match template (o ∷ os) [] = false
clients_match template (o ∷ os) (c ∷ cs) =
    c.id == o.id
    && (same_value c.flow_override o.flow_override
        && (auth_matches (auth_update template.client_auth_updates o.id) o.auth c.auth
            && clients_match template os cs))

unfoldable pub columns_match : Columns → Option InboundRow → Bool
unfolding same_columns
columns_match columns none = false
columns_match columns (some row) = same_columns row.columns columns

-- `_database_matches_snapshot`, where the row is there.
unfoldable pub database_matches : Snapshot → Database → Bool
unfolding columns_match clients_match
database_matches s db =
    columns_match s.row.columns db.inbound && clients_match s.desired_template s.clients db.clients

unfoldable pub has_flow : Client → Bool
has_flow c = elim c.flow_override [ none ↦ false | some f ↦ true ]

-- `_validated_snapshot_clients`.
unfoldable pub valid_clients : List Client → Bool
unfolding has_flow
valid_clients [] = false
valid_clients (c ∷ cs) = all has_flow (c ∷ cs)

unfoldable pub is_client : List Client → ℕ → Bool
is_client clients id = any (λ c. c.id == id) clients

-- `_snapshot_auth_updates`: each update belongs to a client of the snapshot.
unfoldable pub valid_updates : List (ℕ × Text) → List Client → Bool
unfolding is_client
valid_updates updates clients = all (λ u. is_client clients u.0) updates

unfoldable pub auth_within : Option Text → Option Text → Option Text → Bool
unfolding same_value
auth_within none old current = true
auth_within (some desired) old current = same_value current old || same_value current (some desired)

unfoldable pub clients_within : Template → List Client → List Client → Bool
unfolding auth_within auth_update same_value
clients_within template [] [] = true
clients_within template [] (c ∷ cs) = false
clients_within template (o ∷ os) [] = false
clients_within template (o ∷ os) (c ∷ cs) =
    c.id == o.id
    && ((same_value c.flow_override o.flow_override
          || same_value c.flow_override (some template.flow_override))
        && (auth_within (auth_update template.client_auth_updates o.id) o.auth c.auth
            && clients_within template os cs))
