-- ===== src/Nodes/Queue.antt =====
-- What `candidate_queue` of services/aimili-egress/node_pool.py returns.
use aimili_gateway.Prelude.{
  ℕ, Text, ◌≡◌, true, false, not, ◌||◌, List, [], ◌∷◌, ◌++◌, map, keep, All, arith, is_empty,
  Bool-cases, inl, inr,
}
use aimili_gateway.Prelude.Strings.{is_in}
use aimili_gateway.Prelude.Dicts.{Dict}
use aimili_gateway.Prelude.Folds.{fold, fold_inv, fold_all, All-Unit}
use aimili_gateway.Prelude.Sorting.{sorted_parts}
use aimili_gateway.Nodes.Node.{
  Node, node_id, Chosen, nothing, choose, is_repeated, is_cooling, queue_node, candidate_queue,
  preferred_less,
}
use aimili_gateway.Nodes.Unique.{
  IsDistinct, ids, IsClean, nothing-IsClean, choose-IsClean, All-append, Taken, choose-Taken,
  chosen-Taken, repeated-Taken,
}

module _ (excluded : List Text) (blacklist : Dict ℕ) (now : ℕ) where
  abbrev IsOpen : Node → Type 0
  IsOpen n =
      (is_empty (node_id n) ≡ false)
      × (is_in (node_id n) excluded ≡ false)
      × (is_cooling blacklist now (node_id n) ≡ false)

  abbrev Queues : Chosen → Type 0
  Queues c = IsClean c × All IsOpen c.nodes

  queue-Queues : (c : Chosen) (n : Node) → Queues c → Queues (queue_node excluded blacklist now c n)
  unfolding queue_node choose is_repeated
  queue-Queues c n (h, k) =
      let stop = is_in (node_id n) excluded || is_cooling blacklist now (node_id n) in
      elim (Bool-cases (is_repeated n c || stop)) [
        | inl e ↦ rw e (h, k)
        | inr e ↦ rw e (
          choose-IsClean n c h (ground (arith, e)),
          All-append IsOpen c.nodes (n ∷ []) k
              ((ground (arith, e), ground (arith, e), ground (arith, e)), tt),
        )
      ]

  queued :
      (candidates : List Node)
      → Queues (fold (queue_node excluded blacklist now) nothing candidates)
  unfolding nothing
  queued candidates =
      fold_inv Queues (λ _. Unit) (queue_node excluded blacklist now)
        (λ c n _ h. queue-Queues c n h) nothing candidates (All-Unit candidates)
        (nothing-IsClean, tt)

  queue-Taken :
      (c : Chosen) (n : Node) (x : Text)
      → Taken x c
      → Taken x (queue_node excluded blacklist now c n)
  unfolding queue_node
  queue-Taken c n x h = ground (arith, choose-Taken n c x h)

  queue_made :
      (c : Chosen) (n : Node)
      → Queues c
      → IsOpen n
      → Taken (node_id n) (queue_node excluded blacklist now c n)
  unfolding queue_node
  queue_made c n h (e, x, k) = ground (arith, x, k, chosen-Taken n c, repeated-Taken n c h.0)

  all_queued :
      (candidates : List Node)
      → All
          (λ n.
            IsOpen n
            → Taken (node_id n) (fold (queue_node excluded blacklist now) nothing candidates))
          candidates
  unfolding nothing
  all_queued candidates =
      fold_all Queues (λ n c. IsOpen n → Taken (node_id n) c) (queue_node excluded blacklist now)
        queue-Queues queue_made (λ c n y h q f. queue-Taken c n (node_id y) (q f)) nothing
        candidates (nothing-IsClean, tt)

-- The queue is a list, of which the preferred nodes come first and both parts keep its order: its nodes
-- differ, and are named, neither retained nor tested, and not cooling down; and every candidate that is
-- all that is in it by its identifier.
pub candidate_queue_lem :
    (candidates retained : List Node) (blacklist : Dict ℕ) (tested_ids : List Text) (now : ℕ)
    (preferred_ids : List Text)
    → (queue : List Node) × (candidate_queue candidates retained blacklist tested_ids now
          preferred_ids
        ≡ keep (λ n. is_in (node_id n) preferred_ids) queue
          ++ keep (λ n. not (is_in (node_id n) preferred_ids)) queue)
      × IsDistinct (ids queue)
      × All
          (λ n.
            (is_empty (node_id n) ≡ false)
            × (is_in (node_id n) (map node_id retained ++ tested_ids) ≡ false)
            × (is_cooling blacklist now (node_id n) ≡ false))
          queue
      × All
          (λ n.
            (is_empty (node_id n) ≡ false)
              × (is_in (node_id n) (map node_id retained ++ tested_ids) ≡ false)
              × (is_cooling blacklist now (node_id n) ≡ false)
            → is_in (node_id n) (ids queue) ≡ true)
          candidates
unfolding candidate_queue preferred_less
candidate_queue_lem candidates retained blacklist tested_ids now preferred_ids =
    let excluded = map node_id retained ++ tested_ids in
    let q = fold (queue_node excluded blacklist now) nothing candidates in
    let (clean, open_nodes) = queued excluded blacklist now candidates in
    (
      q.nodes,
      sorted_parts (λ n. is_in (node_id n) preferred_ids) q.nodes,
      clean.different,
      open_nodes,
      all_queued excluded blacklist now candidates,
    )
