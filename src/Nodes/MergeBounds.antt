-- ===== src/Nodes/MergeBounds.antt =====
-- How many nodes `merge_country_pool` and `merge_probe_results` of services/aimili-egress/node_pool.py
-- take.
use aimili_gateway.Prelude.{
  ℕ, ◌+◌, ◌≤◌, max, Text, ◌≡◌, refl, ◌&&◌, List, [], ◌∷◌, ◌++◌, map, length, keep, arith, text_eq,
  is_in, strip, upper, if◌then◌else◌,
}
use aimili_gateway.Prelude.Folds.{fold, fold_inv, All-Unit}
use aimili_gateway.Nodes.Node.{Node, node_id, country, Chosen, nothing, choose}
use aimili_gateway.Nodes.Merge.{
  append, append_foreign, Merged, append_counted, append_protected, append_refreshed,
  merge_country_pool,
}

-- The nodes of a country.
abbrev of_country : Text → List Node → List Node
of_country code ns = keep (λ n. text_eq (country n) code) ns

length-keep_append :
    (code : Text) (ms : List Node) (n : Node)
    → length (of_country code (ms ++ n ∷ []))
      ≡ length (of_country code ms) + (if text_eq (country n) code then 1 else 0)
length-keep_append code [] n = ground arith
length-keep_append code (m ∷ ms) n = ground (arith, length-keep_append code ms n)

module _ (wanted : Text) (protected : List Text) (target : ℕ) where
  count : Chosen → ℕ
  count c = length (of_country wanted c.nodes)

  no_foreign : (c : Chosen) (n : Node) → count c ≡ 0 → count (append_foreign wanted c n) ≡ 0
  unfolding append_foreign append choose count
  no_foreign c n h = ground (arith, length-keep_append wanted c.nodes n)

  abbrev Counts : Merged → Type 0
  Counts m = m.selected_count ≡ count m.chosen

  protected-Counts :
      (m : Merged) (n : Node) → Counts m → Counts (append_protected wanted protected m n)
  unfolding append_protected append_counted choose count
  protected-Counts m n h = ground (arith, length-keep_append wanted m.chosen.nodes n)

  abbrev Bounded : ℕ → Merged → Type 0
  Bounded b m = Counts m × (m.selected_count ≤ max target b)

  refreshed-Bounded :
      (b : ℕ) (m : Merged) (n : Node) → Bounded b m → Bounded b (append_refreshed wanted target m n)
  unfolding append_refreshed append_counted choose count
  refreshed-Bounded b m n h = ground (arith, length-keep_append wanted m.chosen.nodes n)

  -- The nodes of the country that are protected.
  abbrev staying : List Node → List Node
  staying ns = keep (λ n. text_eq (country n) wanted && is_in (node_id n) protected) ns

  kept_bound :
      (m : Merged) (ns : List Node)
      → (fold (append_protected wanted protected) m ns).selected_count
        ≤ m.selected_count + length (staying ns)
  unfolding fold append_protected append_counted
  kept_bound m [] = omega arith
  kept_bound m (n ∷ ns) = ground (arith, kept_bound (append_protected wanted protected m n) ns)

  pub merged_bound :
      (existing refreshed : List Node)
      → let foreign = fold (append_foreign wanted) nothing existing in
        let kept =
          fold
            (append_protected wanted protected)
            (record { chosen = foreign; selected_count = 0 })
            existing in
        length
          (of_country wanted (fold (append_refreshed wanted target) kept refreshed).chosen.nodes)
        ≤ max target (length (staying existing))
  unfolding count nothing
  merged_bound existing refreshed =
      let foreign = fold (append_foreign wanted) nothing existing in
      let start : Merged = record { chosen = foreign; selected_count = 0 } in
      let kept = fold (append_protected wanted protected) start existing in
      let b = length (staying existing) in
      let none_yet : count foreign ≡ 0 =
        fold_inv (λ c. count c ≡ 0) (λ _. Unit) (append_foreign wanted)
          (λ c n _ h. no_foreign c n h) nothing existing (All-Unit existing) refl in
      let counted : Counts kept =
        fold_inv Counts (λ _. Unit) (append_protected wanted protected)
          (λ m n _ h. protected-Counts m n h) start existing (All-Unit existing)
          (omega (arith, none_yet)) in
      let done : Bounded b (fold (append_refreshed wanted target) kept refreshed) =
        fold_inv (Bounded b) (λ _. Unit) (append_refreshed wanted target)
          (λ m n _ h. refreshed-Bounded b m n h) kept refreshed (All-Unit refreshed)
          (counted, omega (arith, kept_bound start existing)) in
      omega (arith, done.0, done.1)

-- A refresh leaves at most the target size of nodes of the country, or the protected ones of the pool
-- where those are more.
pub merge_country_pool-bounds :
    (existing refreshed : List Node) (wanted_country : Text) (protected_ids : List Text)
    (target_size : ℕ)
    → let wanted = upper (strip wanted_country) in
      length (
        keep
          (λ n. text_eq (country n) wanted)
          (merge_country_pool existing refreshed wanted_country protected_ids target_size))
      ≤ max target_size (
          length (
            keep
              (λ n. text_eq (country n) wanted && is_in (node_id n) (map strip protected_ids))
              existing))
unfolding merge_country_pool
merge_country_pool-bounds existing refreshed wanted_country protected_ids target_size =
    merged_bound (upper (strip wanted_country)) (map strip protected_ids) target_size existing
      refreshed
