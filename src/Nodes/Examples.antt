-- ===== src/Nodes/Examples.antt =====
-- The node pool of services/aimili-egress/node_pool.py at concrete data.
use mathlib.Core.List.{Memᴰ}
use aimili_gateway.Prelude.{
  ◌≤◌, min, max, Text, codes, ◌≡◌, true, false, not, ◌&&◌, ◌⊎◌, some, List, [], ◌∷◌, ◌++◌, map,
  take, keep, length, All, arith, text_eq, is_empty, strip, upper,
}
use aimili_gateway.Prelude.Strings.{is_in}
use aimili_gateway.Prelude.Dicts.{lookup}
use aimili_gateway.Nodes.Node.{Node, node_id, country, is_available, is_cooling, candidate_queue}
use aimili_gateway.Nodes.Merge.{merge_country_pool, merge_probe_results}
use aimili_gateway.Nodes.Rebalance.{known_nodes, values, rebalance_valid_pool}
use aimili_gateway.Nodes.Unique.{IsDistinct, ids}
use aimili_gateway.Nodes.MergeKeeps.{merge_country_pool_keeps}
use aimili_gateway.Nodes.MergeBounds.{merge_country_pool-bounds}
use aimili_gateway.Nodes.Probes.{merge_probe_results_lem}
use aimili_gateway.Nodes.Queue.{candidate_queue_lem}
use aimili_gateway.Nodes.Pool.{rebalance_valid_pool_complete, rebalance_valid_pool_protects}

abbrev node : Text → Text → Text → Node
node id code status = record {
  id = id;
  country_short = code;
  probe_status = status;
  ip_type = codes "residential";
  latency_ms = 120;
  ping = 0;
  score = 10;
}

abbrev pool : List Node
pool =
    node (codes "a") (codes "JP") (codes "available")
    ∷ node (codes "b") (codes "KR") (codes "unavailable")
    ∷ node (codes "c") (codes "jp ") (codes "available")
    ∷ []

abbrev fresh : List Node
fresh =
    node (codes "d") (codes "JP") (codes "available")
    ∷ node (codes "a") (codes "JP") (codes "available")
    ∷ []

abbrev protected : List Text
protected = codes "b" ∷ []

merge_country_pool_keeps_example :
    let merged = merge_country_pool pool fresh (codes "jp") protected 2 in
    IsDistinct (ids merged)
    × All
        (λ n.
          is_empty (node_id n) ≡ false
          → (text_eq (country n) (upper (strip (codes "jp"))) ≡ false)
            ⊎ (is_in (node_id n) (map strip protected) ≡ true)
          → (r : Node) × Memᴰ r pool × Memᴰ r merged × (node_id r ≡ node_id n))
        pool
merge_country_pool_keeps_example = merge_country_pool_keeps pool fresh (codes "jp") protected 2

merge_country_pool-bounds_example :
    let wanted = upper (strip (codes "jp")) in
    length (
      keep
        (λ n. text_eq (country n) wanted)
        (merge_country_pool pool fresh (codes "jp") protected 2))
    ≤ max 2 (
        length
          (keep (λ n. text_eq (country n) wanted && is_in (node_id n) (map strip protected)) pool))
merge_country_pool-bounds_example = merge_country_pool-bounds pool fresh (codes "jp") protected 2

merge_probe_results_lem_example :
    let (good, failed) = merge_probe_results pool fresh 4 in
    (extra : List Node) × (good ≡ take 4 pool ++ extra)
    × All (λ n. Memᴰ n fresh × (is_available n ≡ true)) extra
    × All (λ n. (is_empty (node_id n) ≡ false) × (is_in (node_id n) (ids pool) ≡ false)) extra
    × IsDistinct (ids extra)
    × (length good ≤ 4)
    × All
        (λ n.
          (is_available n ≡ true) × (is_empty (node_id n) ≡ false)
          → (is_in (node_id n) (ids good) ≡ true) ⊎ (4 ≤ length good))
        fresh
    × (failed ≡ keep (λ n. not (is_available n)) fresh)
merge_probe_results_lem_example = merge_probe_results_lem pool fresh 4

candidate_queue_lem_example :
    (queue : List Node) × (candidate_queue (fresh ++ pool) [] ((codes "c", 50) ∷ []) [] 20 protected
      ≡ keep (λ n. is_in (node_id n) protected) queue
        ++ keep (λ n. not (is_in (node_id n) protected)) queue)
    × IsDistinct (ids queue)
    × All
        (λ n.
          (is_empty (node_id n) ≡ false)
          × (is_in (node_id n) (map node_id [] ++ []) ≡ false)
          × (is_cooling ((codes "c", 50) ∷ []) 20 (node_id n) ≡ false))
        queue
    × All
        (λ n.
          (is_empty (node_id n) ≡ false)
            × (is_in (node_id n) (map node_id [] ++ []) ≡ false)
            × (is_cooling ((codes "c", 50) ∷ []) 20 (node_id n) ≡ false)
          → is_in (node_id n) (ids queue) ≡ true)
        (fresh ++ pool)
candidate_queue_lem_example =
    candidate_queue_lem (fresh ++ pool) [] ((codes "c", 50) ∷ []) [] 20 protected

rebalance_valid_pool_complete_example :
    All
      (λ n.
        (min 512 2 ≤ length (rebalance_valid_pool pool fresh protected [] 2))
        ⊎ (is_in (node_id n) (ids (rebalance_valid_pool pool fresh protected [] 2)) ≡ true))
      (keep is_available (values (known_nodes pool fresh)))
rebalance_valid_pool_complete_example = rebalance_valid_pool_complete pool fresh protected [] 2

rebalance_valid_pool_protects_example :
    All
      (λ id.
        (n : Node)
        → lookup id (known_nodes pool fresh) ≡ some n
        → is_in id (ids (rebalance_valid_pool pool fresh protected [] 2)) ≡ true)
      protected
rebalance_valid_pool_protects_example =
    rebalance_valid_pool_protects pool fresh protected [] 2 (omega arith)
