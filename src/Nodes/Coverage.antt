-- ===== src/Nodes/Coverage.antt =====
-- That `rebalance_valid_pool` of services/aimili-egress/node_pool.py leaves nothing out but for want of
-- room.
use aimili_gateway.Prelude.{
  ℕ, ◌+◌, ◌≤◌, Text, ◌≡◌, refl, sym, subst, Bool, true, false, not, ◌&&◌, ◌||◌, ◌⊎◌, Option, none,
  some, List, [], ◌∷◌, any, length, length-append, All, lower, arith, text_eq, is_empty, leb,
  Bool-cases, inl, inr,
}
use aimili_gateway.Prelude.Dicts.{Dict, lookup}
use aimili_gateway.Prelude.Folds.{fold, fold_inv, All-Unit}
use aimili_gateway.Prelude.Sorting.{All-sorted}
use aimili_gateway.Nodes.Node.{Node, node_id, country, is_available, Chosen, choose, is_repeated}
use aimili_gateway.Nodes.Rebalance.{
  add, add_found, add_by_id, is_old, add_least, cover, add_available, ranked, quality_less,
  residential_or_mobile,
}
use aimili_gateway.Nodes.Unique.{
  IsClean, choose-IsClean, Taken, choose-Taken, chosen-Taken, repeated-Taken,
}
use aimili_gateway.Nodes.Known.{IsIndex, lookup-IsKeyed}
use aimili_gateway.Nodes.Members.{All-parts, All-ends}

module _ (capacity : ℕ) where
  pub add-Taken :
      (allow : Bool) (n : Node) (c : Chosen) (x : Text)
      → Taken x c
      → Taken x (add capacity allow n c)
  unfolding add
  add-Taken allow n c x h = ground (arith, choose-Taken n c x h)

  found-Taken :
      (allow : Bool) (o : Option Node) (c : Chosen) (x : Text)
      → Taken x c
      → Taken x (add_found capacity allow o c)
  unfolding add_found
  found-Taken allow none c x h = h
  found-Taken allow (some n) c x h = add-Taken allow n c x h

  pub by_id-Taken :
      (allow : Bool) (d : Dict Node) (c : Chosen) (id x : Text)
      → Taken x c
      → Taken x (add_by_id capacity allow d c id)
  unfolding add_by_id
  by_id-Taken allow d c id x h = found-Taken allow (lookup id d) c x h

  least-Taken :
      (ns : List Node) (c : Chosen) (x : Text) → Taken x c → Taken x (add_least capacity ns c)
  unfolding add_least
  least-Taken [] c x h = h
  least-Taken (n ∷ ns) c x h = add-Taken false _ c x h

  pub cover-Taken :
      (existing_ids : List Text) (available : List Node) (c : Chosen) (code x : Text)
      → Taken x c
      → Taken x (cover capacity existing_ids available c code)
  unfolding cover
  cover-Taken existing_ids available c code x h =
      elim (Bool-cases (any (λ n. text_eq (country n) code) c.nodes)) [
        | inl e ↦ rw e h
        | inr e ↦ rw e (least-Taken _ c x h)
      ]

  pub available-Taken :
      (c : Chosen) (n : Node) (x : Text) → Taken x c → Taken x (add_available capacity c n)
  unfolding add_available
  available-Taken c n x h = add-Taken false n c x h

  -- An available node is taken, or there is no room.
  abbrev pub IsServed : Node → Chosen → Type 0
  IsServed n c =
      is_available n ≡ true
      → is_empty (node_id n) ≡ false
      → (capacity ≤ length c.nodes) ⊎ Taken (node_id n) c

  pub available-made : (c : Chosen) (n : Node) → IsClean c → IsServed n (add_available capacity c n)
  unfolding add_available add
  available-made c n h a e = ground (arith, a, e, chosen-Taken n c, repeated-Taken n c h)

  pub available-IsServed :
      (c : Chosen) (n m : Node) → IsServed m c → IsServed m (add_available capacity c n)
  unfolding add_available add choose
  available-IsServed c n m h a e = elim (h a e) [
    | inl f ↦ inl (ground (arith, f))
    | inr t ↦ inr (add-Taken false n c (node_id m) t)
  ]

  add-IsClean :
      (allow : Bool) (n : Node) (c : Chosen) → IsClean c → IsClean (add capacity allow n c)
  unfolding add
  add-IsClean allow n c h = elim (Bool-cases (leb capacity (length c.nodes) || is_repeated n c)) [
    | inl e ↦ rw e h
    | inr e ↦ elim (Bool-cases (not allow && not (is_available n))) [
      | inl x ↦ rw (e, x) h
      | inr x ↦ rw (e, x) (choose-IsClean n c h (ground (arith, e)))
    ]
  ]

  pub available-IsClean : (c : Chosen) (n : Node) → IsClean c → IsClean (add_available capacity c n)
  unfolding add_available
  available-IsClean c n h = add-IsClean false n c h

  found-IsClean :
      (allow : Bool) (o : Option Node) (c : Chosen)
      → IsClean c
      → IsClean (add_found capacity allow o c)
  unfolding add_found
  found-IsClean allow none c h = h
  found-IsClean allow (some n) c h = add-IsClean allow n c h

-- The three lists of the last loop leave no available node out.
pub All-ranked :
    (P : Node → Type 0) (existing_ids : List Text) (available : List Node)
    → All P (ranked existing_ids available)
    → All P available
unfolding ranked
All-ranked P existing_ids available h =
    let (front, datacenter) = All-ends P _ _ h in
    let (old, residential) = All-ends P _ _ front in
    All-parts P (is_old existing_ids) available (All-sorted quality_less P _ old) (
      All-parts P (λ n. residential_or_mobile (lower n.ip_type)) _
        (All-sorted quality_less P _ residential) (All-sorted quality_less P _ datacenter))

-- Nothing that is asked for by its identifier is left out while there is room.
module _ (d : Dict Node) (index : IsIndex d) (capacity : ℕ) where
  -- Selected, if it is known.
  abbrev pub IsKept : Text → Chosen → Type 0
  IsKept id c = (n : Node) → lookup id d ≡ some n → Taken id c

  found-length :
      (o : Option Node) (c : Chosen)
      → length (add_found capacity true o c).nodes ≤ length c.nodes + 1
  unfolding add_found add choose
  found-length none c = omega arith
  found-length (some n) c = ground (arith, length-append c.nodes (n ∷ []))

  found-Kept :
      (id : Text) (o : Option Node) (c : Chosen)
      → lookup id d ≡ o
      → IsClean c
      → length c.nodes + 1 ≤ capacity
      → IsKept id (add_found capacity true o c)
  unfolding add_found add
  found-Kept id none c e h room n f = absurd (ground (arith, e, f))
  found-Kept id (some m) c e h room n f =
      let (same, named) = lookup-IsKeyed d id m index.1 e in
      let m_named : is_empty (node_id m) ≡ false =
        subst (λ (x : Text). is_empty x ≡ false) (sym same) named in
      let taken : Taken (node_id m) (add capacity true m c) =
        ground (arith, room, chosen-Taken m c, repeated-Taken m c h, m_named) in
      subst (λ (x : Text). Taken x (add capacity true m c)) same taken

  pub all-IsKept :
      (c : Chosen) (ids : List Text)
      → IsClean c
      → length c.nodes + length ids ≤ capacity
      → All (λ id. IsKept id (fold (add_by_id capacity true d) c ids)) ids
  unfolding fold add_by_id
  all-IsKept c [] h room = tt
  all-IsKept c (id ∷ ids) h room =
      let o = lookup id d in
      let c' = add_found capacity true o c in
      let now = found-Kept id o c refl h (omega (arith, room)) in
      (
        λ n f.
            fold_inv (Taken id) (λ _. Unit) (add_by_id capacity true d)
              (λ b k _ t. by_id-Taken capacity true d b k id t) c' ids (All-Unit ids) (now n f),
        all-IsKept c' ids (found-IsClean capacity true o c h)
            (omega (arith, room, found-length o c)),
      )
