-- ===== src/Assignment/Validate.antt =====
-- `_valid_document` of main_assignment.py and the tests that it is made of, on a document of the
-- right shape: the tests that a value has its type are the types of the records. Times are numbers
-- that are not negative, every state and error code is one of the known ones, and "version" is 1.
use aimili_gateway.Prelude.{
  ℕ, ◌+◌, Text, codes, Bool, true, false, not, ◌&&◌, ◌||◌, Option, none, some, List, [], ◌∷◌,
  length, all, any, leb, ◌==◌, text_eq, is_empty, if◌then◌else◌,
}
use native.Mathlib.Decide.{ℕ_discrete}
use aimili_gateway.Prelude.Dicts.{Dict, lookup}
use aimili_gateway.Assignment.Types.{
  OpState, repairing, pending_gateway_validation, is_blocking, Previous, Operation, Resolution,
  Lease, is_active, Active, absent, corrupt, running, Document, Coordinator,
}

pub Operation-discrete : Discrete Operation
Operation-discrete = hlevel ℕ_discrete

is_hex : ℕ → Bool
is_hex ch = (leb b'0' ch && leb ch b'9') || (leb b'a' ch && leb ch b'f')

unfoldable pub valid_hash : Text → Bool
unfolding is_hex
valid_hash s = length s == 64 && all is_hex s

unfoldable pub valid_text : Text → ℕ → Bool
valid_text s maximum = leb 1 (length s) && leb (length s) maximum

-- `character.isascii() and (character.isalnum() or character in "_-")`.
is_identifier_char : ℕ → Bool
is_identifier_char ch =
    (leb b'0' ch && leb ch b'9')
    || (leb b'A' ch && leb ch b'Z')
    || (leb b'a' ch && leb ch b'z')
    || ch == b'_'
    || ch == b'-'

unfoldable pub valid_identifier : Text → ℕ → ℕ → Bool
unfolding is_identifier_char
valid_identifier s maximum minimum =
    leb minimum (length s) && (leb (length s) maximum && all is_identifier_char s)

unfoldable pub valid_country : Text → Bool
valid_country s = length s == 2 && all (λ ch. leb b'A' ch && leb ch b'Z') s

-- A key that may be missing passes where it is missing.
unfoldable pub passes {ℓ} : {A : Type ℓ} → (A → Bool) → Option A → Bool
passes p none = true
passes p (some a) = p a

unfoldable pub one_of : List Text → Text → Bool
one_of xs s = any (λ x. text_eq x s) xs

unfoldable pub is_some {ℓ} : {A : Type ℓ} → Option A → Bool
is_some none = false
is_some (some a) = true

unfoldable pub valid_previous : Previous → Bool
unfolding passes one_of is_some valid_country
valid_previous p =
    is_some p.candidate_id
    && passes (λ s. leb (length s) 256) p.candidate_id
    && passes (λ s. is_empty s || valid_country s) p.country
    && passes (one_of ([] ∷ codes "residential" ∷ codes "datacenter" ∷ [])) p.proxy_type
    && passes
        (one_of (codes "auto" ∷ codes "fixed_ip" ∷ codes "fixed_region" ∷ codes "favorites" ∷ []))
        p.routing_mode
    && passes (one_of (codes "all" ∷ codes "residential" ∷ codes "hosting" ∷ [])) p.routing_ip_type
    && passes (λ s. leb (length s) 256) p.fixed_node_id

-- The states whose operation has a repair on record.
unfoldable pub needs_repair_hash : OpState → Bool
needs_repair_hash repairing = true
needs_repair_hash pending_gateway_validation = true
needs_repair_hash _ = false

unfoldable pub valid_repair : OpState → Option Text → Option Resolution → Bool
unfolding valid_hash needs_repair_hash
valid_repair s none none = not (needs_repair_hash s)
valid_repair s (some h) (some r) = valid_hash h
valid_repair s none (some r) = false
valid_repair s (some h) none = false

unfoldable pub valid_operation : Operation → Bool
unfolding valid_identifier valid_text valid_country one_of valid_hash valid_previous valid_repair
valid_operation o =
    valid_identifier o.operation_id 128 1
    && leb (length o.old_candidate_id) 256
    && valid_text o.new_candidate_id 256
    && valid_country o.country
    && one_of (codes "residential" ∷ codes "datacenter" ∷ []) o.proxy_type
    && o.port == 7928
    && leb o.created_at o.expires_at
    && valid_hash o.idempotency_hash
    && valid_hash o.request_hash
    && valid_previous o.previous
    && valid_repair o.state o.repair_request_hash o.resolution

-- A lease that is not active has no "expires_at".
unfoldable pub valid_lease : Lease → Bool
unfolding is_some valid_identifier valid_hash is_active
valid_lease l =
    (if is_active l.state then is_some l.expires_at else not (is_some l.expires_at))
    && l.ok
    && valid_identifier l.lease_id 128 32
    && valid_hash l.idempotency_hash

-- The loop over the history, with the identifiers seen so far.
unfoldable pub valid_history : List Text → Dict Operation → Bool
valid_history seen [] = true
valid_history seen ((k, o) ∷ d) =
    let rest = valid_history (o.operation_id ∷ seen) d in
    valid_hash k
    && (valid_operation o
        && (text_eq o.idempotency_hash k && (not (one_of seen o.operation_id) && rest)))

-- `len(blocking_operations)`.
unfoldable pub count_blocking : Dict Operation → ℕ
unfolding is_blocking
count_blocking [] = 0
count_blocking ((k, o) ∷ d) = if is_blocking o.state then 1 + count_blocking d else count_blocking d

unfoldable pub decided {ℓ} : {A : Type ℓ} → Dec A → Bool
decided (yes p) = true
decided (no p) = false

unfoldable pub is_stored : Operation → Option Operation → Bool
unfolding decided
is_stored a none = false
is_stored a (some o) = decided (Operation-discrete o a)

unfoldable pub valid_active : Dict Operation → Active → Bool
valid_active d absent = count_blocking d == 0
valid_active d corrupt = false
valid_active d (running a) =
    valid_operation a
    && (is_blocking a.state && (is_stored a (lookup a.idempotency_hash d) && count_blocking d == 1))

unfoldable pub valid_document : Document → Bool
valid_document d =
    valid_history [] d.operations
    && (valid_active d.operations d.active && passes valid_lease d.mutation_lease)

-- `_corrupt_state`, and the document of a first start.
unfoldable pub corrupt_state : Document
corrupt_state = record { active = corrupt; operations = []; mutation_lease = none }

unfoldable pub empty_state : Document
empty_state = record { active = absent; operations = []; mutation_lease = none }

-- `_read` where the file is missing or holds a document of the current shape.
unfoldable pub read_document : Option Document → Document
unfolding corrupt_state empty_state
read_document none = empty_state
read_document (some d) = if valid_document d then d else corrupt_state

-- A process that starts: `__init__` reads the file, and no operation is live.
unfoldable pub start : Option Document → Coordinator
unfolding read_document
start file = record { doc = read_document file; disk = file; live = [] }
