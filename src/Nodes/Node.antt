-- ===== src/Nodes/Node.antt =====
-- The nodes of services/aimili-egress/node_pool.py, and the functions that only select from a list. A
-- dictionary is a record of the keys that the code reads: a missing text is "", and a missing number is
-- 0, which the code does not tell apart. The numbers are not negative. A set of texts is a list.
use aimili_gateway.Prelude.{
  ℕ, Text, codes, Bool, not, ◌&&◌, ◌||◌, List, [], ◌∷◌, ◌++◌, map, keep, ltb, text_eq, is_empty,
  is_in, strip, upper, if◌then◌else◌,
}
use mathlib.Core.Option
use aimili_gateway.Prelude.Dicts.{Dict, lookup}
use aimili_gateway.Prelude.Folds.{fold}
use aimili_gateway.Prelude.Sorting.{sorted}

pub record Node : Type 0 where
  pub id : Text
  pub country_short : Text
  pub probe_status : Text
  pub ip_type : Text
  pub latency_ms : ℕ
  pub ping : ℕ
  pub score : ℕ

unfoldable pub node_id : Node → Text
node_id n = strip n.id

unfoldable pub country : Node → Text
country n = upper (strip n.country_short)

unfoldable pub is_available : Node → Bool
is_available n = text_eq n.probe_status (codes "available")

-- The nodes that a loop has taken so far, and the set of their identifiers.
pub record Chosen : Type 0 where
  pub nodes : List Node
  pub seen : List Text

unfoldable pub nothing : Chosen
nothing = record { nodes = []; seen = [] }

-- `merged.append(node)` and `seen.add(node_id)`.
unfoldable pub choose : Node → Chosen → Chosen
unfolding node_id
choose n c = record { nodes = c.nodes ++ n ∷ []; seen = node_id n ∷ c.seen }

-- `not node_id or node_id in seen`.
unfoldable pub is_repeated : Node → Chosen → Bool
unfolding node_id
is_repeated n c = is_empty (node_id n) || is_in (node_id n) c.seen

-- Rows of the catalogue are dictionaries of texts.
unfoldable pub filter_country_rows : List (Dict Text) → Text → List (Dict Text)
filter_country_rows rows wanted_country =
    keep
      (λ row.
        text_eq (upper (strip (Option.get_or (lookup (codes "CountryShort") row) [])))
          (upper (strip wanted_country)))
      rows

unfoldable pub protected_node_ids : Text → List Text → List Text
protected_node_ids active_node_id slot_node_ids =
    keep (λ s. not (is_empty s)) (map strip (active_node_id ∷ slot_node_ids))

unfoldable pub first_with_id : Text → List Node → List Node
unfolding node_id
first_with_id wanted [] = []
first_with_id wanted (n ∷ ns) =
    let rest = first_with_id wanted ns in if text_eq (node_id n) wanted then n ∷ [] else rest

unfoldable pub protected_active_nodes : List Node → Text → List Node
unfolding first_with_id
protected_active_nodes existing active_node_id =
    if is_empty (strip active_node_id) then [] else first_with_id (strip active_node_id) existing

-- `float((blacklist.get(node_id) or {}).get("until", 0) or 0) > now`.
unfoldable pub is_cooling : Dict ℕ → ℕ → Text → Bool
is_cooling blacklist now id = ltb now (Option.get_or (lookup id blacklist) 0)

-- One turn of the loop of `candidate_queue`.
unfoldable pub queue_node : List Text → Dict ℕ → ℕ → Chosen → Node → Chosen
unfolding is_repeated is_cooling choose node_id
queue_node excluded blacklist now c n =
    if is_repeated n c || (is_in (node_id n) excluded || is_cooling blacklist now (node_id n))
    then c
    else choose n c

-- The key is 0 for a preferred node and 1 for another.
unfoldable pub preferred_less : List Text → Node → Node → Bool
unfolding node_id
preferred_less preferred a b = is_in (node_id a) preferred && not (is_in (node_id b) preferred)

-- `blacklist` holds the number "until" of each identifier.
unfoldable pub candidate_queue :
    List Node → List Node → Dict ℕ → List Text → ℕ → List Text → List Node
unfolding queue_node preferred_less nothing node_id
candidate_queue candidates retained blacklist tested_ids now preferred_ids =
    let excluded = map node_id retained ++ tested_ids in
    sorted (preferred_less preferred_ids)
      (fold (queue_node excluded blacklist now) nothing candidates).nodes
