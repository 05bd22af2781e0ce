-- ===== src/Nodes/Pool.antt =====
-- `rebalance_valid_pool` of services/aimili-egress/node_pool.py as a whole.
use aimili_gateway.Prelude.{
  ℕ, ◌≤◌, min, Text, ◌≡◌, true, false, ◌⊎◌, some, List, keep, length, All, All-imply, All-both,
  arith,
}
use aimili_gateway.Prelude.Strings.{is_in}
use aimili_gateway.Prelude.Dicts.{Dict, lookup}
use aimili_gateway.Prelude.Folds.{fold, fold_inv, fold_all, All-Unit}
use aimili_gateway.Prelude.Sorting.{sorted, length-sorted, sorted-All, All-sorted, text_less}
use aimili_gateway.Nodes.Node.{Node, node_id, is_available, Chosen, nothing}
use aimili_gateway.Nodes.Rebalance.{
  add_by_id, values, distinct, cover, add_available, ranked, country_order, known_nodes,
  rebalance_valid_pool,
}
use aimili_gateway.Nodes.Unique.{ids, IsClean, Taken}
use aimili_gateway.Nodes.Known.{IsIndex, IsRecorded, known-IsIndex, values-IsRecorded}
use aimili_gateway.Nodes.Members.{
  length-distinct, All-is_in, distinct-All, All-distinct, keep-All, kept,
}
use aimili_gateway.Nodes.Selection.{Selects, nothing-Selects, by_id-Selects, cover-Selects}
use aimili_gateway.Nodes.Coverage.{
  IsServed, available-made, available-IsServed, available-IsClean, All-ranked, by_id-Taken,
  cover-Taken, available-Taken, IsKept, all-IsKept,
}

module _ (d : Dict Node) (index : IsIndex d) (capacity : ℕ)
    (protected manual existing_ids : List Text) where
  available : List Node
  available = keep is_available (values d)

  order : List Text → List Text
  order xs = sorted text_less (distinct xs)

  by_protection : Chosen
  by_protection = fold (add_by_id capacity true d) nothing (order protected)

  by_hand : Chosen
  by_hand = fold (add_by_id capacity false d) by_protection (order manual)

  by_country : Chosen
  by_country =
      fold (cover capacity existing_ids available) by_hand (country_order existing_ids available)

  selected : Chosen
  selected = fold (add_available capacity) by_country (ranked existing_ids available)

  all-IsRecorded : All (IsRecorded d) available
  unfolding available
  all-IsRecorded = keep-All (IsRecorded d) is_available (values d) (values-IsRecorded d index)

  abbrev Good : Chosen → Type 0
  Good c = Selects d index capacity protected c

  ordered : All (λ id. is_in id protected ≡ true) (order protected)
  unfolding order
  ordered = sorted-All text_less _ _ (distinct-All _ protected (All-is_in protected))

  protected-Good : Good by_protection
  unfolding by_protection
  protected-Good =
      fold_inv Good (λ id. is_in id protected ≡ true) (add_by_id capacity true d)
        (λ c id p h. by_id-Selects d index capacity protected true c id (λ _. p) h) nothing
        (order protected) ordered (nothing-Selects d index capacity protected)

  hand-Good : Good by_hand
  unfolding by_hand
  hand-Good =
      fold_inv Good (λ _. Unit) (add_by_id capacity false d)
        (λ c id _ h.
          by_id-Selects d index capacity protected false c id (λ t. absurd (ground arith)) h)
        by_protection (order manual) (All-Unit (order manual)) protected-Good

  country-Good : Good by_country
  unfolding by_country
  country-Good =
      fold_inv Good (λ _. Unit) (cover capacity existing_ids available)
        (λ c code _ h.
          cover-Selects d index capacity protected existing_ids available c code all-IsRecorded h)
        by_hand (country_order existing_ids available)
        (All-Unit (country_order existing_ids available)) hand-Good

  all-IsServed : All (λ n. IsServed capacity n selected) available
  unfolding selected
  all-IsServed = All-ranked _ existing_ids available (
      fold_all IsClean (IsServed capacity) (add_available capacity) (available-IsClean capacity)
        (available-made capacity) (λ c n m _ q. available-IsServed capacity c n m q) by_country
        (ranked existing_ids available) country-Good.clean)

  all_open : All (λ n. IsRecorded d n × (is_available n ≡ true)) available
  unfolding available
  all_open = kept (IsRecorded d) is_available (values d) (values-IsRecorded d index)

  served : All (λ n. (capacity ≤ length selected.nodes) ⊎ Taken (node_id n) selected) available
  served =
      All-imply _ _ available (λ n h. h.0 h.1.1 h.1.0.1)
        (All-both (λ n. IsServed capacity n selected) _ available all-IsServed all_open)

  kept_on : (x : Text) → Taken x by_protection → Taken x selected
  unfolding selected by_country by_hand
  kept_on x h =
      fold_inv (Taken x) (λ _. Unit) (add_available capacity)
        (λ c n _ t. available-Taken capacity c n x t) by_country (ranked existing_ids available)
        (All-Unit (ranked existing_ids available))
        (fold_inv (Taken x) (λ _. Unit) (cover capacity existing_ids available)
          (λ c code _ t. cover-Taken capacity existing_ids available c code x t) by_hand
          (country_order existing_ids available) (All-Unit (country_order existing_ids available))
          (fold_inv (Taken x) (λ _. Unit) (add_by_id capacity false d)
            (λ c id _ t. by_id-Taken capacity false d c id x t) by_protection (order manual)
            (All-Unit (order manual)) h))

  protected-IsKept :
      length (order protected) ≤ capacity
      → All (λ id. IsKept d index capacity id selected) protected
  unfolding by_protection order nothing
  protected-IsKept room = All-distinct _ protected (
      All-sorted text_less _ (distinct protected) (
        All-imply _ _ (order protected) (λ id k n e. kept_on id (k n e))
          (all-IsKept d index capacity nothing (order protected)
            (nothing-Selects d index capacity protected).clean (omega (arith, room)))))

-- Every known node that is available is in the pool by its identifier, unless the pool is full.
pub rebalance_valid_pool_complete :
    (existing refreshed : List Node) (protected_ids manual_ids : List Text) (limit : ℕ)
    → let pool = rebalance_valid_pool existing refreshed protected_ids manual_ids limit in
      All
        (λ n. (min 512 limit ≤ length pool) ⊎ (is_in (node_id n) (ids pool) ≡ true))
        (keep is_available (values (known_nodes existing refreshed)))
unfolding rebalance_valid_pool selected by_country by_hand by_protection order available
rebalance_valid_pool_complete existing refreshed protected_ids manual_ids limit =
    served (known_nodes existing refreshed) (known-IsIndex existing refreshed) (min 512 limit)
      protected_ids manual_ids (ids existing)

-- As long as there are no more protected identifiers than the pool may hold, the latest record of each
-- that is known is in the pool by its identifier.
pub rebalance_valid_pool_protects :
    (existing refreshed : List Node) (protected_ids manual_ids : List Text) (limit : ℕ)
    → length protected_ids ≤ min 512 limit
    → All
        (λ id.
          (n : Node)
          → lookup id (known_nodes existing refreshed) ≡ some n
          → is_in id (ids (rebalance_valid_pool existing refreshed protected_ids manual_ids limit))
            ≡ true)
        protected_ids
unfolding rebalance_valid_pool selected by_country by_hand by_protection order available
rebalance_valid_pool_protects existing refreshed protected_ids manual_ids limit room =
    protected-IsKept (known_nodes existing refreshed) (known-IsIndex existing refreshed)
      (min 512 limit) protected_ids manual_ids (ids existing)
      (omega (
        arith,
        room,
        length-sorted text_less (distinct protected_ids),
        length-distinct protected_ids,
      ))
