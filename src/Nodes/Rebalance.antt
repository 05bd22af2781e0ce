-- ===== src/Nodes/Rebalance.antt =====
-- `rebalance_valid_pool` of services/aimili-egress/node_pool.py.
use aimili_gateway.Prelude.{
  ℕ, min, Text, codes, Bool, true, false, not, ◌&&◌, ◌||◌, Option, none, some, List, [], ◌∷◌, ◌++◌,
  map, keep, any, length, leb, ltb, ◌==◌, text_eq, is_empty, is_in, strip, lower, if◌then◌else◌,
}
use aimili_gateway.Prelude.Dicts.{Dict, lookup, insert}
use aimili_gateway.Prelude.Folds.{fold}
use aimili_gateway.Prelude.Sorting.{sorted, least, text_less}
use aimili_gateway.Nodes.Node.{
  Node, node_id, country, is_available, Chosen, nothing, choose, is_repeated,
}

-- One turn of the loop that fills `by_id`.
unfoldable pub record_node : Dict Node → Node → Dict Node
unfolding node_id
record_node by_id n = if is_empty (node_id n) then by_id else insert (node_id n) n by_id

unfoldable pub residential_or_mobile : Text → Bool
residential_or_mobile kind = text_eq kind (codes "residential") || text_eq kind (codes "mobile")

-- The `latency` of `quality`.
unfoldable pub latency : Node → ℕ
latency n = if n.latency_ms == 0 then (if n.ping == 0 then 999999 else n.ping) else n.latency_ms

-- The `kind_rank` of `quality`.
unfoldable pub kind_rank : Node → ℕ
unfolding residential_or_mobile
kind_rank n = if residential_or_mobile (lower (strip n.ip_type)) then 0 else 1

-- The tuples of `quality`, compared; the third component is the score, negated.
unfoldable pub quality_less : Node → Node → Bool
unfolding latency kind_rank node_id
quality_less a b =
    if not (kind_rank a == kind_rank b)
    then ltb (kind_rank a) (kind_rank b)
    else if not (latency a == latency b)
    then ltb (latency a) (latency b)
    else if not (a.score == b.score)
    then ltb b.score a.score
    else text_less (node_id a) (node_id b)

-- The inner `add`.
unfoldable pub add : ℕ → Bool → Node → Chosen → Chosen
unfolding is_repeated is_available choose
add capacity allow_unavailable n c =
    if leb capacity (length c.nodes) || is_repeated n c
    then c
    else if not allow_unavailable && not (is_available n)
    then c
    else choose n c

unfoldable pub add_found : ℕ → Bool → Option Node → Chosen → Chosen
unfolding add
add_found capacity allow_unavailable none c = c
add_found capacity allow_unavailable (some n) c = add capacity allow_unavailable n c

-- A turn of the loops over protected and over manual identifiers.
unfoldable pub add_by_id : ℕ → Bool → Dict Node → Chosen → Text → Chosen
unfolding add_found
add_by_id capacity allow_unavailable by_id c id =
    add_found capacity allow_unavailable (lookup id by_id) c

unfoldable pub values : Dict Node → List Node
values d = map (λ e. e.1) d

-- The set of a list's items, as a list without repetition.
unfoldable pub distinct : List Text → List Text
distinct [] = []
distinct (x ∷ xs) = let rest = distinct xs in if is_in x rest then rest else x ∷ rest

unfoldable pub countries : List Node → List Text
unfolding country distinct
countries ns = distinct (keep (λ s. not (is_empty s)) (map country ns))

unfoldable pub is_old : List Text → Node → Bool
unfolding node_id
is_old existing_ids n = is_in (node_id n) existing_ids

unfoldable pub add_least : ℕ → List Node → Chosen → Chosen
unfolding quality_less add
add_least capacity [] c = c
add_least capacity (n ∷ ns) c = add capacity false (least quality_less n ns) c

-- `old or candidates`.
unfoldable pub or_else : List Node → List Node → List Node
or_else [] ys = ys
or_else (x ∷ xs) ys = x ∷ xs

-- A turn of the loop over countries.
unfoldable pub cover : ℕ → List Text → List Node → Chosen → Text → Chosen
unfolding country is_old add_least or_else
cover capacity existing_ids available c code =
    let candidates = keep (λ n. text_eq (country n) code) available in
    if any (λ n. text_eq (country n) code) c.nodes
    then c
    else add_least capacity (or_else (keep (is_old existing_ids) candidates) candidates) c

unfoldable pub add_available : ℕ → Chosen → Node → Chosen
unfolding add
add_available capacity c n = add capacity false n c

-- The three lists of the last loop. The items of `by_id` have different identifiers, so an item is in
-- `new_residential` exactly if its type passes that list's test.
unfoldable pub ranked : List Text → List Node → List Node
unfolding quality_less is_old residential_or_mobile
ranked existing_ids available =
    let fresh = keep (λ n. not (is_old existing_ids n)) available in
    sorted quality_less (keep (is_old existing_ids) available)
    ++ sorted quality_less (keep (λ n. residential_or_mobile (lower n.ip_type)) fresh)
    ++ sorted quality_less (keep (λ n. not (residential_or_mobile (lower n.ip_type))) fresh)

-- The order in which countries are covered.
unfoldable pub country_order : List Text → List Node → List Text
unfolding countries is_old
country_order existing_ids available =
    let old = sorted text_less (countries (keep (is_old existing_ids) available)) in
    old ++ sorted text_less (keep (λ code. not (is_in code old)) (countries available))

unfoldable pub known_nodes : List Node → List Node → Dict Node
unfolding record_node
known_nodes existing refreshed = fold record_node [] (existing ++ refreshed)

unfoldable pub rebalance_valid_pool : List Node → List Node → List Text → List Text → ℕ → List Node
unfolding node_id known_nodes add_by_id nothing is_available values cover country_order ranked
    add_available
rebalance_valid_pool existing refreshed protected_ids manual_ids limit =
    let capacity = min 512 limit in
    let existing_ids = map node_id existing in
    let by_id = known_nodes existing refreshed in
    let available = keep is_available (values by_id) in
    let protected =
      fold (add_by_id capacity true by_id) nothing (sorted text_less (distinct protected_ids)) in
    let manual =
      fold (add_by_id capacity false by_id) protected (sorted text_less (distinct manual_ids)) in
    let covered =
      fold (cover capacity existing_ids available) manual (country_order existing_ids available) in
    (fold (add_available capacity) covered (ranked existing_ids available)).nodes
