-- ===== src/Nodes/Selection.antt =====
-- What `rebalance_valid_pool` of services/aimili-egress/node_pool.py selects.
use aimili_gateway.Prelude.{
  ℕ, ◌≤◌, Text, ◌≡◌, refl, sym, subst, Bool, true, false, not, ◌&&◌, ◌||◌, ◌⊎◌, Option, none, some,
  List, [], ◌∷◌, keep, any, length, length-append, All, arith, text_eq, leb, Bool-cases, inl, inr,
}
use aimili_gateway.Prelude.Strings.{is_in}
use aimili_gateway.Prelude.Dicts.{Dict, lookup}
use aimili_gateway.Prelude.Sorting.{sorted-All, least, least_among}
use aimili_gateway.Nodes.Node.{
  Node, node_id, country, is_available, Chosen, nothing, choose, is_repeated,
}
use aimili_gateway.Nodes.Rebalance.{
  add, add_found, add_by_id, is_old, add_least, or_else, cover, add_available, ranked, quality_less,
}
use aimili_gateway.Nodes.Unique.{IsClean, nothing-IsClean, choose-IsClean, All-append}
use aimili_gateway.Nodes.Known.{IsIndex, IsRecorded, lookup-IsKeyed, lookup-IsRecorded}
use aimili_gateway.Nodes.Members.{keep-All}

module _ (d : Dict Node) (index : IsIndex d) (capacity : ℕ) (protected : List Text) where
  -- A selected node is the latest record of its identifier, and is available or protected.
  abbrev pub IsSound : Node → Type 0
  IsSound n = IsRecorded d n × ((is_available n ≡ true) ⊎ (is_in (node_id n) protected ≡ true))

  pub record Selects (c : Chosen) : Type 0 where
    pub clean : IsClean c
    pub fits : length c.nodes ≤ capacity
    pub sound : All IsSound c.nodes

  pub nothing-Selects : Selects nothing
  unfolding nothing
  nothing-Selects = record { clean = nothing-IsClean; fits = omega arith; sound = tt }

  add-Selects :
      (allow : Bool) (n : Node) (c : Chosen)
      → IsRecorded d n
      → (allow ≡ true → is_in (node_id n) protected ≡ true)
      → Selects c
      → Selects (add capacity allow n c)
  unfolding add choose
  add-Selects allow n c r a h =
      elim (Bool-cases (leb capacity (length c.nodes) || is_repeated n c)) [
        | inl e ↦ rw e h
        | inr e ↦ elim (Bool-cases (not allow && not (is_available n))) [
          | inl x ↦ rw (e, x) h
          | inr x ↦
              let good : (is_available n ≡ true) ⊎ (is_in (node_id n) protected ≡ true) =
                elim (Bool-cases allow) [
                  | inl t ↦ inr (a t)
                  | inr t ↦ inl (ground (arith, x, t))
                ] in
              rw (e, x)
                (record {
                  clean = choose-IsClean n c h.clean (ground (arith, e));
                  fits = ground (arith, e, length-append c.nodes (n ∷ []));
                  sound = All-append IsSound c.nodes (n ∷ []) h.sound ((r, good), tt);
                })
        ]
      ]

  found-Selects :
      (allow : Bool) (id : Text) (o : Option Node) (c : Chosen)
      → lookup id d ≡ o
      → (allow ≡ true → is_in id protected ≡ true)
      → Selects c
      → Selects (add_found capacity allow o c)
  unfolding add_found
  found-Selects allow id none c e a h = h
  found-Selects allow id (some n) c e a h =
      let same = (lookup-IsKeyed d id n index.1 e).0 in
      add-Selects allow n c (lookup-IsRecorded d id n index e)
        (λ t. subst (λ (x : Text). is_in x protected ≡ true) (sym same) (a t)) h

  pub by_id-Selects :
      (allow : Bool) (c : Chosen) (id : Text)
      → (allow ≡ true → is_in id protected ≡ true)
      → Selects c
      → Selects (add_by_id capacity allow d c id)
  unfolding add_by_id
  by_id-Selects allow c id a h = found-Selects allow id (lookup id d) c refl a h

  least-Selects :
      (ns : List Node) (c : Chosen)
      → All (IsRecorded d) ns
      → Selects c
      → Selects (add_least capacity ns c)
  unfolding add_least
  least-Selects [] c r h = h
  least-Selects (n ∷ ns) c (r, rs) h =
      add-Selects false (least quality_less n ns) c
        (least_among quality_less (IsRecorded d) n ns r rs) (λ t. absurd (ground arith)) h

  or_else-All :
      (xs ys : List Node)
      → All (IsRecorded d) xs
      → All (IsRecorded d) ys
      → All (IsRecorded d) (or_else xs ys)
  unfolding or_else
  or_else-All [] ys h k = k
  or_else-All (x ∷ xs) ys h k = h

  pub cover-Selects :
      (existing_ids : List Text) (available : List Node) (c : Chosen) (code : Text)
      → All (IsRecorded d) available
      → Selects c
      → Selects (cover capacity existing_ids available c code)
  unfolding cover
  cover-Selects existing_ids available c code r h =
      let candidates = keep (λ n. text_eq (country n) code) available in
      let rc = keep-All (IsRecorded d) (λ n. text_eq (country n) code) available r in
      elim (Bool-cases (any (λ n. text_eq (country n) code) c.nodes)) [
        | inl e ↦ rw e h
        | inr e ↦ rw e (
            least-Selects (or_else (keep (is_old existing_ids) candidates) candidates) c
              (or_else-All (keep (is_old existing_ids) candidates) candidates
                (keep-All (IsRecorded d) (is_old existing_ids) candidates rc) rc)
              h)
      ]

  pub available-Selects :
      (c : Chosen) (n : Node) → IsRecorded d n → Selects c → Selects (add_available capacity c n)
  unfolding add_available
  available-Selects c n r h = add-Selects false n c r (λ t. absurd (ground arith)) h

  pub ranked-All :
      (P : Node → Type 0) (existing_ids : List Text) (available : List Node)
      → All P available
      → All P (ranked existing_ids available)
  unfolding ranked
  ranked-All P existing_ids available h =
      let fresh = keep-All P (λ n. not (is_old existing_ids n)) available h in
      All-append P _ _
        (All-append P _ _ (sorted-All quality_less P _ (keep-All P _ available h))
          (sorted-All quality_less P _ (keep-All P _ _ fresh)))
        (sorted-All quality_less P _ (keep-All P _ _ fresh))
