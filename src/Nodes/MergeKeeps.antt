-- ===== src/Nodes/MergeKeeps.antt =====
-- What `merge_country_pool` of services/aimili-egress/node_pool.py keeps.
use mathlib.Core.List.{Memᴰ}
use aimili_gateway.Prelude.{
  ℕ, Text, ◌≡◌, true, false, ◌⊎◌, List, [], ◌∷◌, map, All, All-imply, All-both, arith, text_eq,
  is_empty, is_in, strip, upper, Bool-cases, inl, inr,
}
use aimili_gateway.Prelude.Folds.{fold, fold_inv, fold_all, All-Unit}
use aimili_gateway.Nodes.Node.{Node, node_id, country, Chosen, nothing, choose, is_repeated}
use aimili_gateway.Nodes.Merge.{
  append, append_foreign, Merged, append_protected, append_refreshed, merge_country_pool,
}
use aimili_gateway.Nodes.Unique.{IsDistinct, ids, IsClean, nothing-IsClean, Taken, All-append}
use aimili_gateway.Nodes.Membership.{All-Memᴰ, All-at, choose-Memᴰ, found}
use aimili_gateway.Nodes.MergeTurns.{
  append-IsClean, append-Taken, turn_keeps, IsForeign, foreign-IsClean, foreign-Taken, foreign_made,
  IsProtected, protected_step, protected_made, refreshed_step,
}

append-Memᴰ : (n : Node) (c : Chosen) (r : Node) → Memᴰ r c.nodes → Memᴰ r (append n c).nodes
unfolding append
append-Memᴰ n c r h = elim (Bool-cases (is_repeated n c)) [
  | inl e ↦ rw e h
  | inr e ↦ rw e (choose-Memᴰ n c r h)
]

module _ (existing refreshed : List Node) (wanted : Text) (protected : List Text) (target : ℕ) where
  foreign : Chosen
  foreign = fold (append_foreign wanted) nothing existing

  kept : Merged
  kept =
      fold (append_protected wanted protected) (record { chosen = foreign; selected_count = 0 })
        existing

  merged : Merged
  merged = fold (append_refreshed wanted target) kept refreshed

  foreign-IsClean' : IsClean foreign
  unfolding foreign
  foreign-IsClean' =
      fold_inv IsClean (λ _. Unit) (append_foreign wanted) (λ c n _ h. foreign-IsClean wanted c n h)
        nothing existing (All-Unit existing) nothing-IsClean

  protected-IsClean :
      (m : Merged) (n : Node)
      → IsClean m.chosen
      → IsClean (append_protected wanted protected m n).chosen
  protected-IsClean m n h =
      turn_keeps IsClean m.chosen _ n (protected_step wanted protected m n) h
        (append-IsClean n m.chosen h)

  protected-Taken :
      (m : Merged) (n : Node) (x : Text)
      → Taken x m.chosen
      → Taken x (append_protected wanted protected m n).chosen
  protected-Taken m n x h =
      turn_keeps (Taken x) m.chosen _ n (protected_step wanted protected m n) h
        (append-Taken n m.chosen x h)

  kept-IsClean : IsClean kept.chosen
  unfolding kept
  kept-IsClean =
      fold_inv (λ m. IsClean m.chosen) (λ _. Unit) (append_protected wanted protected)
        (λ m n _ h. protected-IsClean m n h) (record { chosen = foreign; selected_count = 0 })
        existing (All-Unit existing) foreign-IsClean'

  kept-Taken : (x : Text) → Taken x foreign → Taken x kept.chosen
  unfolding kept
  kept-Taken x h =
      fold_inv (λ m. Taken x m.chosen) (λ _. Unit) (append_protected wanted protected)
        (λ m n _ k. protected-Taken m n x k) (record { chosen = foreign; selected_count = 0 })
        existing (All-Unit existing) h

  merged-IsClean : IsClean merged.chosen
  unfolding merged
  merged-IsClean =
      fold_inv (λ m. IsClean m.chosen) (λ _. Unit) (append_refreshed wanted target)
        (λ m n _ k.
          turn_keeps IsClean m.chosen _ n (refreshed_step wanted target m n) k
            (append-IsClean n m.chosen k))
        kept refreshed (All-Unit refreshed) kept-IsClean

  all_foreign : All (λ n. IsForeign wanted n → Taken (node_id n) foreign) existing
  unfolding foreign
  all_foreign =
      fold_all IsClean (λ n c. IsForeign wanted n → Taken (node_id n) c) (append_foreign wanted)
        (foreign-IsClean wanted) (λ c n h f. foreign_made wanted c n h f)
        (λ c n y h q f. foreign-Taken wanted c n (node_id y) (q f)) nothing existing nothing-IsClean

  all_protected : All (λ n. IsProtected wanted protected n → Taken (node_id n) kept.chosen) existing
  unfolding kept
  all_protected =
      fold_all (λ m. IsClean m.chosen)
        (λ n m. IsProtected wanted protected n → Taken (node_id n) m.chosen)
        (append_protected wanted protected) protected-IsClean
        (λ m n h f. protected_made wanted protected m n h f)
        (λ m n y h q f. protected-Taken m n (node_id y) (q f))
        (record { chosen = foreign; selected_count = 0 }) existing foreign-IsClean'

  -- A node of the pool that must stay.
  abbrev MustStay : Node → Type 0
  MustStay n =
      (is_empty (node_id n) ≡ false)
      × ((text_eq (country n) wanted ≡ false) ⊎ (is_in (node_id n) protected ≡ true))

  -- The nodes taken are records of the pool before.
  abbrev FromPool : Chosen → Type 0
  FromPool c = All (λ m. Memᴰ m existing) c.nodes

  append-FromPool : (n : Node) (c : Chosen) → Memᴰ n existing → FromPool c → FromPool (append n c)
  unfolding append choose
  append-FromPool n c i h = elim (Bool-cases (is_repeated n c)) [
    | inl e ↦ rw e h
    | inr e ↦ rw e (All-append _ c.nodes (n ∷ []) h (i, tt))
  ]

  foreign-FromPool : FromPool foreign
  unfolding foreign append_foreign nothing
  foreign-FromPool =
      fold_inv FromPool (λ n. Memᴰ n existing) (append_foreign wanted)
        (λ c n i h. elim (Bool-cases (text_eq (country n) wanted)) [
          | inl e ↦ rw e h
          | inr e ↦ rw e (append-FromPool n c i h)
        ])
        nothing existing (All-Memᴰ existing) tt

  kept-FromPool : FromPool kept.chosen
  unfolding kept
  kept-FromPool =
      fold_inv (λ m. FromPool m.chosen) (λ n. Memᴰ n existing) (append_protected wanted protected)
        (λ m n i h.
          turn_keeps FromPool m.chosen _ n (protected_step wanted protected m n) h
            (append-FromPool n m.chosen i h))
        (record { chosen = foreign; selected_count = 0 }) existing (All-Memᴰ existing)
        foreign-FromPool

  -- A record that is taken stays as it is.
  merged-Memᴰ : (r : Node) → Memᴰ r kept.chosen.nodes → Memᴰ r merged.chosen.nodes
  unfolding merged
  merged-Memᴰ r h =
      fold_inv (λ m. Memᴰ r m.chosen.nodes) (λ _. Unit) (append_refreshed wanted target)
        (λ m n _ k.
          turn_keeps (λ c. Memᴰ r c.nodes) m.chosen _ n (refreshed_step wanted target m n) k
            (append-Memᴰ n m.chosen r k))
        kept refreshed (All-Unit refreshed) h

  -- A record of the pool before that is in the pool after, as it was.
  abbrev StaysAs : Text → Type 0
  StaysAs id = (r : Node) × Memᴰ r existing × Memᴰ r merged.chosen.nodes × (node_id r ≡ id)

  Taken-StaysAs : (id : Text) → Taken id kept.chosen → StaysAs id
  Taken-StaysAs id t =
      let (r, m, e) = found id kept.chosen.nodes t in
      (r, All-at _ r kept.chosen.nodes m kept-FromPool, merged-Memᴰ r m, e)

  stays :
      (n : Node)
      → (IsForeign wanted n → Taken (node_id n) foreign)
        × (IsProtected wanted protected n → Taken (node_id n) kept.chosen)
      → MustStay n
      → StaysAs (node_id n)
  stays n (f, p) (e, c) = elim (Bool-cases (text_eq (country n) wanted)) [
    | inl w ↦ elim c [
      | inl x ↦ absurd (ground (arith, w, x))
      | inr x ↦ Taken-StaysAs (node_id n) (p (w, x, e))
    ]
    | inr w ↦ Taken-StaysAs (node_id n) (kept-Taken (node_id n) (f (w, e)))
  ]

  all_stay : All (λ n. MustStay n → StaysAs (node_id n)) existing
  all_stay = All-imply _ _ existing stays (
      All-both (λ n. IsForeign wanted n → Taken (node_id n) foreign) _ existing all_foreign
        all_protected)

-- A refresh of one country's nodes keeps every named node of other countries and every protected one: the
-- new pool has under its identifier a record that the old pool had under it, unchanged. The identifiers in
-- the new pool differ.
pub merge_country_pool_keeps :
    (existing refreshed : List Node) (wanted_country : Text) (protected_ids : List Text)
    (target_size : ℕ)
    → let pool = merge_country_pool existing refreshed wanted_country protected_ids target_size in
      IsDistinct (ids pool)
      × All
          (λ n.
            is_empty (node_id n) ≡ false
            → (text_eq (country n) (upper (strip wanted_country)) ≡ false)
              ⊎ (is_in (node_id n) (map strip protected_ids) ≡ true)
            → (r : Node) × Memᴰ r existing × Memᴰ r pool × (node_id r ≡ node_id n))
          existing
unfolding merge_country_pool merged kept foreign
merge_country_pool_keeps existing refreshed wanted_country protected_ids target_size =
    let wanted = upper (strip wanted_country) in
    let protected = map strip protected_ids in
    (
      (merged-IsClean existing refreshed wanted protected target_size).different,
      All-imply _ _ existing (λ n k e c. k (e, c))
          (all_stay existing refreshed wanted protected target_size),
    )
