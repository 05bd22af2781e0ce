-- ===== src/Assignment/Lease.antt =====
-- The mutation lease of `MainAssignmentCoordinator`, and the tests that other mutations ask. Each
-- reading of the clock is an argument, in the order of the calls.
use aimili_gateway.Prelude.{
  ℕ, ◌+◌, Text, Bool, true, false, not, ◌&&◌, Option, none, some, List, [], ◌∷◌, length, all, leb,
  text_eq, is_empty, is_ascii, strip, if◌then◌else◌,
}
use mathlib.Core.Option
use aimili_gateway.Assignment.Types.{
  OpState, is_blocking, repair_required, invalid_request, lease_busy, operation_busy,
  lease_not_found, Lease, LeaseState, active, released, expired, is_active, Active, absent, corrupt,
  running, Coordinator, Settings, Hashing, PublicLease, Reply, operation, lease, corrupt_marker,
  idle, lease_released, type_error, failed,
}
use aimili_gateway.Assignment.Document.{write, public_view}

unfoldable pub set_lease : Lease → Coordinator → Coordinator
unfolding write
set_lease l c = write (record c { doc = record c.doc { mutation_lease = some l } })

-- `float(lease.get("expires_at") or 0)`.
unfoldable pub expiry : Lease → ℕ
expiry l = Option.get_or l.expires_at 0

-- A lease that stands in the document and is active.
unfoldable pub held : Option Lease → Bool
unfolding is_active
held none = false
held (some l) = is_active l.state

unfoldable pub expire_lease : ℕ → Option Lease → Coordinator → Coordinator
unfolding expiry set_lease
expire_lease t none c = c
expire_lease t (some l) c =
    if is_active l.state && leb (expiry l) t
    then set_lease (record l { state = expired; expires_at = none }) c
    else c

-- `_expire_mutation_lease_locked`.
unfoldable pub expire_mutation_lease : ℕ → Coordinator → Coordinator
unfolding expire_lease
expire_mutation_lease t c = expire_lease t c.mutation_lease c

-- `isinstance(active, dict) and active.get("state") in _BLOCKING_STATES`; the corrupt marker's
-- state is "repair_required".
unfoldable pub is_busy : Active → Bool
unfolding is_blocking
is_busy absent = false
is_busy corrupt = true
is_busy (running o) = is_blocking o.state

unfoldable pub is_background_blocking : OpState → Bool
unfolding is_blocking
is_background_blocking repair_required = false
is_background_blocking s = is_blocking s

-- The same for `_BLOCKING_STATES - {"repair_required"}`.
unfoldable pub is_background_busy : Active → Bool
unfolding is_background_blocking
is_background_busy absent = false
is_background_busy corrupt = false
is_background_busy (running o) = is_background_blocking o.state

unfoldable pub mutation_allowed : ℕ → Coordinator → Coordinator × Bool
unfolding is_busy held
mutation_allowed t c =
    let c' = expire_mutation_lease t c in
    (c', not (is_busy c'.active) && not (held c'.mutation_lease))

unfoldable pub background_mutation_allowed : ℕ → Coordinator → Coordinator × Bool
unfolding is_background_busy held
background_mutation_allowed t c =
    let c' = expire_mutation_lease t c in
    (c', not (is_background_busy c'.active) && not (held c'.mutation_lease))

unfoldable pub assignment_action_allowed : ℕ → Coordinator → Coordinator × Bool
unfolding held
assignment_action_allowed t c =
    let c' = expire_mutation_lease t c in (c', not (held c'.mutation_lease))

unfoldable pub public_lease : Lease → PublicLease
public_lease l = record {
  ok = l.ok;
  state = l.state;
  lease_id = l.lease_id;
  expires_at = l.expires_at;
}

unfoldable pub is_lease_key : Text → Bool
is_lease_key key =
    (leb 8 (length key) && leb (length key) 256) && all (λ ch. leb 0x21 ch && leb ch 0x7e) key

-- The end of `acquire_mutation_lease`, where no active lease is in the way. `fresh` is the token
-- that `secrets.token_urlsafe` returns.
unfoldable pub grant_lease : Settings → ℕ → Text → Text → Coordinator → Coordinator × Reply
unfolding is_busy set_lease public_lease
grant_lease cfg t fresh key_hash c =
    if is_busy c.active
    then (c, failed operation_busy)
    else let l : Lease = record {
      ok = true;
      state = active;
      lease_id = fresh;
      idempotency_hash = key_hash;
      expires_at = some (t + cfg.lease_ttl);
    } in
      (set_lease l c, lease (public_lease l))

unfoldable pub acquire_against :
    Settings → ℕ → Text → Text → Option Lease → Coordinator → Coordinator × Reply
unfolding grant_lease public_lease
acquire_against cfg t fresh key_hash none c = grant_lease cfg t fresh key_hash c
acquire_against cfg t fresh key_hash (some l) c =
    if is_active l.state
    then (
      c,
      if text_eq l.idempotency_hash key_hash then lease (public_lease l) else failed lease_busy,
    )
    else grant_lease cfg t fresh key_hash c

unfoldable pub acquire_mutation_lease :
    Hashing → Settings → ℕ → ℕ → Text → Text → Coordinator → Coordinator × Reply
unfolding is_lease_key acquire_against
acquire_mutation_lease h cfg t₀ t₁ fresh key c =
    let c' = expire_mutation_lease t₀ c in
    if is_lease_key key
    then acquire_against cfg t₁ fresh (h.sha256 key) c'.mutation_lease c'
    else (c, failed invalid_request)

-- `secrets.compare_digest` on two `str`: it raises unless both are ASCII.
unfoldable pub compare_digest : Text → Text → Option Bool
compare_digest a b = if is_ascii a && is_ascii b then some (text_eq a b) else none

unfoldable pub renew_active : ℕ → Lease → Option Bool → Coordinator → Coordinator × Reply
unfolding set_lease public_lease
renew_active until l none c = (c, type_error)
renew_active until l (some false) c = (c, failed lease_not_found)
renew_active until l (some true) c =
    let l' = record l { expires_at = some until } in (set_lease l' c, lease (public_lease l'))

unfoldable pub renew_against : ℕ → Text → Option Lease → Coordinator → Coordinator × Reply
unfolding renew_active compare_digest
renew_against until wanted none c = (c, failed lease_not_found)
renew_against until wanted (some l) c =
    if is_active l.state
    then renew_active until l (compare_digest l.lease_id wanted) c
    else (c, failed lease_not_found)

unfoldable pub renew_mutation_lease : Settings → ℕ → ℕ → Text → Coordinator → Coordinator × Reply
unfolding renew_against
renew_mutation_lease cfg t₀ t₁ wanted c =
    let c' = expire_mutation_lease t₀ c in
    renew_against (t₁ + cfg.lease_ttl) wanted c'.mutation_lease c'

unfoldable pub release_known : ℕ → LeaseState → Lease → Coordinator → Coordinator × Reply
unfolding expiry set_lease
release_known t released l c = (c, lease_released)
release_known t expired l c = (c, failed lease_not_found)
release_known t active l c =
    if leb (expiry l) t
    then (c, failed lease_not_found)
    else (set_lease (record l { state = released; expires_at = none }) c, lease_released)

unfoldable pub release_matched : ℕ → Lease → Option Bool → Coordinator → Coordinator × Reply
unfolding release_known
release_matched t l none c = (c, type_error)
release_matched t l (some false) c = (c, failed lease_not_found)
release_matched t l (some true) c = release_known t l.state l c

unfoldable pub release_against : ℕ → Text → Option Lease → Coordinator → Coordinator × Reply
unfolding release_matched compare_digest
release_against t wanted none c = (c, failed lease_not_found)
release_against t wanted (some l) c = release_matched t l (compare_digest l.lease_id wanted) c

-- `release_mutation_lease`, which does not expire the lease first.
unfoldable pub release_mutation_lease : ℕ → Text → Coordinator → Coordinator × Reply
unfolding release_against
release_mutation_lease t wanted c = release_against t wanted c.mutation_lease c

unfoldable pub nonempty_ids : List Text → List Text
nonempty_ids [] = []
nonempty_ids (x ∷ xs) = let rest = nonempty_ids xs in if is_empty x then rest else x ∷ rest

-- `reserved_candidate_ids`, a set, as a list.
unfoldable pub reserved_of : Active → List Text
unfolding nonempty_ids
reserved_of absent = []
reserved_of corrupt = []
reserved_of (running o) =
    if is_blocking o.state
    then nonempty_ids (strip o.old_candidate_id ∷ strip o.new_candidate_id ∷ [])
    else []

unfoldable pub reserved_candidate_ids : Coordinator → List Text
unfolding reserved_of
reserved_candidate_ids c = reserved_of c.active

unfoldable pub public_active : Active → Reply
public_active absent = idle
public_active corrupt = corrupt_marker
public_active (running o) = operation (public_view o)

-- `snapshot`.
unfoldable pub snapshot : Coordinator → Reply
unfolding public_active
snapshot c = public_active c.active
