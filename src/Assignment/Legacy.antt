-- ===== src/Assignment/Legacy.antt =====
-- The older documents that `_read` of main_assignment.py takes: without a lease, and with the two
-- resolutions that an earlier version wrote.
use aimili_gateway.Prelude.{
  Text, Bool, true, false, not, ◌&&◌, ◌||◌, Option, none, some, [], ◌∷◌, if◌then◌else◌,
}
use mathlib.Core.Option
use aimili_gateway.Prelude.Dicts.{Dict}
use aimili_gateway.Assignment.Types.{
  Operation, Active, absent, corrupt, running, Document, Coordinator,
}
use aimili_gateway.Assignment.Document.{write}
use aimili_gateway.Assignment.Finish.{is_committed, is_rolled_back}
use aimili_gateway.Assignment.Validate.{is_some, valid_document, corrupt_state, start}

-- An operation of an older document. The second's "resolution" is in `_LEGACY_TERMINAL_RESOLUTIONS`,
-- and stands apart from the field, which has no such value.
pub data Stored : Type 0 where
  stored resolved : Operation → Stored

-- A file at start: missing, with the four keys of a document, or without "mutation_lease".
pub data File : Type 0 where
  missing : File
  current : Document → File
  leaseless : Active → Dict Stored → File

-- The document as it stands with no lease; `_valid_operation` refuses the old resolutions.
unfoldable pub plain_history : Dict Stored → Option (Dict Operation)
plain_history [] = some []
plain_history ((k, stored o) ∷ d) = Option.map (λ r. (k, o) ∷ r) (plain_history d)
plain_history ((k, resolved o) ∷ d) = none

-- One turn of the loop of `_canonicalize_legacy_terminal_history`.
unfoldable pub canonical : Stored → Option Operation
unfolding is_committed is_rolled_back is_some
canonical (stored o) = if is_committed o.state || is_rolled_back o.state then some o else none
canonical (resolved o) =
    if is_committed o.state && not (is_some o.repair_request_hash)
    then some (record o { resolution = none })
    else none

unfoldable pub add_canonical :
    Text → Option Operation → Option (Dict Operation) → Option (Dict Operation)
add_canonical k (some o) (some r) = some ((k, o) ∷ r)
add_canonical k (some o) none = none
add_canonical k none r = none

unfoldable pub canonical_history : Dict Stored → Option (Dict Operation)
unfolding canonical add_canonical
canonical_history [] = some []
canonical_history ((k, s) ∷ d) = add_canonical k (canonical s) (canonical_history d)

unfoldable pub has_resolved : Dict Stored → Bool
has_resolved [] = false
has_resolved ((k, stored o) ∷ d) = has_resolved d
has_resolved ((k, resolved o) ∷ d) = true

unfoldable pub canonicalize : Active → Dict Stored → Option (Dict Operation)
unfolding canonical_history has_resolved
canonicalize absent d = if has_resolved d then canonical_history d else none
canonicalize corrupt d = none
canonicalize (running a) d = none

-- The document of an active operation and a history, if it is valid.
unfoldable pub valid_of : Active → Option (Dict Operation) → Option Document
valid_of a none = none
valid_of a (some d) =
    let e : Document = record { active = a; operations = d; mutation_lease = none } in
    if valid_document e then some e else none

unfoldable pub or_else : Option Document → Option Document → Option Document
or_else (some e) x = some e
or_else none x = x

unfoldable pub migrate : Active → Dict Stored → Option Document
unfolding plain_history canonicalize valid_of or_else
migrate a d = or_else (valid_of a (plain_history d)) (valid_of absent (canonicalize a d))

-- A migrated document is written at once. A file that is not taken stands as the corrupt document,
-- which is not valid either.
unfoldable pub open_migrated : Option Document → Coordinator
unfolding write corrupt_state
open_migrated none = start (some corrupt_state)
open_migrated (some e) = write (record { doc = e; disk = some corrupt_state; live = [] })

-- `__init__`, of any of the files.
unfoldable pub open_file : File → Coordinator
unfolding open_migrated migrate
open_file missing = start none
open_file (current d) = start (some d)
open_file (leaseless a d) = open_migrated (migrate a d)
