-- ===== src/Nodes/Merge.antt =====
-- `merge_country_pool` and `merge_probe_results` of services/aimili-egress/node_pool.py.
use aimili_gateway.Prelude.{
  ℕ, ◌+◌, Text, not, ◌&&◌, ◌||◌, List, [], ◌∷◌, ◌++◌, map, take, length, leb, ltb, text_eq, is_in,
  strip, upper, if◌then◌else◌,
}
use aimili_gateway.Prelude.Folds.{fold}
use aimili_gateway.Nodes.Node.{
  Node, node_id, country, is_available, Chosen, nothing, choose, is_repeated,
}

-- The inner `append`, without its result.
unfoldable pub append : Node → Chosen → Chosen
unfolding is_repeated choose
append n c = if is_repeated n c then c else choose n c

-- The first loop: the nodes of other countries.
unfoldable pub append_foreign : Text → Chosen → Node → Chosen
unfolding append country
append_foreign wanted c n = if text_eq (country n) wanted then c else append n c

-- The state of the other two loops: what is merged, and `selected_count`.
pub record Merged : Type 0 where
  pub chosen : Chosen
  pub selected_count : ℕ

-- `if append(node): selected_count += 1`.
unfoldable pub append_counted : Node → Merged → Merged
unfolding is_repeated choose
append_counted n m =
    if is_repeated n m.chosen
    then m
    else record { chosen = choose n m.chosen; selected_count = m.selected_count + 1 }

unfoldable pub append_protected : Text → List Text → Merged → Node → Merged
unfolding append_counted node_id country
append_protected wanted protected m n =
    if text_eq (country n) wanted && is_in (node_id n) protected then append_counted n m else m

-- After the `break` the turns that are left change nothing.
unfoldable pub append_refreshed : Text → ℕ → Merged → Node → Merged
unfolding append_counted country is_available
append_refreshed wanted target_size m n =
    if leb target_size m.selected_count
    then m
    else if not (text_eq (country n) wanted) || not (is_available n)
    then m
    else append_counted n m

unfoldable pub merge_country_pool : List Node → List Node → Text → List Text → ℕ → List Node
unfolding append_foreign append_protected append_refreshed nothing
merge_country_pool existing refreshed wanted_country protected_ids target_size =
    let wanted = upper (strip wanted_country) in
    let foreign = fold (append_foreign wanted) nothing existing in
    let kept =
      fold (append_protected wanted (map strip protected_ids))
        (record { chosen = foreign; selected_count = 0 }) existing in
    (fold (append_refreshed wanted target_size) kept refreshed).chosen.nodes

-- `merged` and `seen`, and the nodes that failed.
pub record Probed : Type 0 where
  pub chosen : Chosen
  pub failed : List Node

unfoldable pub probe_result : ℕ → Probed → Node → Probed
unfolding is_available is_repeated choose
probe_result target_size p n =
    if is_available n
    then (if not (is_repeated n p.chosen) && ltb (length p.chosen.nodes) target_size
        then record p { chosen = choose n p.chosen }
        else p)
    else record p { failed = p.failed ++ n ∷ [] }

-- The pool, cut to its size, and the nodes that failed.
unfoldable pub merge_probe_results : List Node → List Node → ℕ → List Node × List Node
unfolding probe_result node_id
merge_probe_results pool results target_size =
    let p =
      fold (probe_result target_size)
        (record { chosen = record { nodes = pool; seen = map node_id pool }; failed = [] })
        results in
    (take target_size p.chosen.nodes, p.failed)
