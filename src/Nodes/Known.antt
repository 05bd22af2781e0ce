-- ===== src/Nodes/Known.antt =====
-- The latest record of each identifier, in `rebalance_valid_pool` of
-- services/aimili-egress/node_pool.py.
use aimili_gateway.Prelude.{
  Text, ◌≡◌, refl, sym, ◌∙◌, false, some, List, [], ◌∷◌, ◌++◌, All, All-imply, All-both, subst,
  arith, text_eq, text_eq_iff, is_empty, Bool-cases, inl, inr,
}
use aimili_gateway.Prelude.Dicts.{Dict, lookup, insert, IsDict, insert-IsDict}
use aimili_gateway.Prelude.Folds.{fold_inv, All-Unit}
use aimili_gateway.Nodes.Node.{Node, node_id}
use aimili_gateway.Nodes.Rebalance.{record_node, values, known_nodes}

-- Every node stands under its own identifier, which is not empty.
abbrev pub IsKeyed : Text × Node → Type 0
IsKeyed e = (node_id e.1 ≡ e.0) × (is_empty e.0 ≡ false)

insert-IsKeyed :
    (k : Text) (n : Node) (d : Dict Node)
    → IsKeyed (k, n)
    → All IsKeyed d
    → All IsKeyed (insert k n d)
unfolding insert
insert-IsKeyed k n [] h hs = (h, tt)
insert-IsKeyed k n ((j, m) ∷ d) h (g, gs) = elim (Bool-cases (text_eq j k)) [
  | inl e ↦ rw e ((h.0 ∙ sym ((text_eq_iff j k).0 e), g.1), gs)
  | inr e ↦ rw e (g, insert-IsKeyed k n d h gs)
]

abbrev pub IsIndex : Dict Node → Type 0
IsIndex d = IsDict d × All IsKeyed d

record-IsIndex : (d : Dict Node) (n : Node) → IsIndex d → IsIndex (record_node d n)
unfolding record_node
record-IsIndex d n (h, k) = elim (Bool-cases (is_empty (node_id n))) [
  | inl e ↦ rw e (h, k)
  | inr e ↦ rw e (insert-IsDict (node_id n) n d h, insert-IsKeyed (node_id n) n d (refl, e) k)
]

pub known-IsIndex : (existing refreshed : List Node) → IsIndex (known_nodes existing refreshed)
unfolding known_nodes
known-IsIndex existing refreshed =
    fold_inv IsIndex (λ _. Unit) record_node (λ d n _ h. record-IsIndex d n h) []
      (existing ++ refreshed) (All-Unit (existing ++ refreshed)) (tt, tt)

-- A node that the index gives under its identifier.
abbrev pub IsRecorded : Dict Node → Node → Type 0
IsRecorded d n = (lookup (node_id n) d ≡ some n) × (is_empty (node_id n) ≡ false)

pub lookup-IsKeyed :
    (d : Dict Node) (k : Text) (n : Node) → All IsKeyed d → lookup k d ≡ some n → IsKeyed (k, n)
unfolding lookup
lookup-IsKeyed [] k n h e = cc
lookup-IsKeyed ((j, m) ∷ d) k n (h, hs) e =
    ground (arith, e, h, text_eq_iff j k, lookup-IsKeyed d k n hs)

pub lookup-IsRecorded :
    (d : Dict Node) (k : Text) (n : Node) → IsIndex d → lookup k d ≡ some n → IsRecorded d n
lookup-IsRecorded d k n (h, hs) e =
    let (same, named) = lookup-IsKeyed d k n hs e in
    subst (λ (x : Text). (lookup x d ≡ some n) × (is_empty x ≡ false)) (sym same) (e, named)

entries : (d : Dict Node) → IsDict d → All (λ e. lookup e.0 d ≡ some e.1) d
unfolding lookup
entries [] h = tt
entries ((j, m) ∷ d) (h, hs) = (
  ground (arith, text_eq_iff j j),
  All-imply _ _ d (λ e k. ground (arith, k, h, text_eq_iff j e.0)) (entries d hs),
)

values-lookup :
    (d : Dict Node) (e : Text × Node) → (lookup e.0 d ≡ some e.1) × IsKeyed e → IsRecorded d e.1
values-lookup d e (l, (same, named)) =
    subst (λ (x : Text). (lookup x d ≡ some e.1) × (is_empty x ≡ false)) (sym same) (l, named)

All-values : (P : Node → Type 0) (d : Dict Node) → All (λ e. P e.1) d → All P (values d)
unfolding values
All-values P [] h = tt
All-values P (e ∷ d) (h, hs) = (h, All-values P d hs)

pub values-IsRecorded : (d : Dict Node) → IsIndex d → All (IsRecorded d) (values d)
values-IsRecorded d (h, hs) =
    All-values (IsRecorded d) d
      (All-imply _ _ d (values-lookup d) (All-both _ IsKeyed d (entries d h) hs))
