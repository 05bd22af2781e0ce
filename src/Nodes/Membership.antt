-- ===== src/Nodes/Membership.antt =====
-- Membership in the lists of nodes of services/aimili-egress/node_pool.py.
use mathlib.Core.List.{Memᴰ}
use mathlib.Core.List.Memᴰ
use aimili_gateway.Prelude.{
  Text, ◌≡◌, refl, sym, subst, true, Bool-cases, inl, inr, List, [], ◌∷◌, All, All-imply, arith,
  text_eq, text_eq_iff,
}
use aimili_gateway.Prelude.Strings.{is_in}
use aimili_gateway.Nodes.Node.{Node, node_id, choose, Chosen}
use aimili_gateway.Nodes.Unique.{ids}

module _ {ℓ} {A : Type ℓ} where
  pub All-Memᴰ : (xs : List A) → All (λ x. Memᴰ x xs) xs
  All-Memᴰ [] = tt
  All-Memᴰ (x ∷ xs) = (Memᴰ.head refl, All-imply _ _ xs (λ y m. Memᴰ.tail m) (All-Memᴰ xs))

  -- What holds of every item holds of one.
  pub All-at {κ} : (P : A → Type κ) (x : A) (xs : List A) → Memᴰ x xs → All P xs → P x
  All-at P x [] m hs = elim m [ ]
  All-at P x (y ∷ ys) (Memᴰ.head e) (h, hs) = subst P (sym e) h
  All-at P x (y ∷ ys) (Memᴰ.tail m) (h, hs) = All-at P x ys m hs

pub choose-Memᴰ : (n : Node) (c : Chosen) (r : Node) → Memᴰ r c.nodes → Memᴰ r (choose n c).nodes
unfolding choose
choose-Memᴰ n c r m = Memᴰ.append_left (n ∷ []) m

-- An identifier of the list is that of a node in it.
pub found :
    (id : Text) (ns : List Node)
    → is_in id (ids ns) ≡ true
    → (r : Node) × Memᴰ r ns × (node_id r ≡ id)
unfolding is_in
found id [] h = absurd (ground arith)
found id (n ∷ ns) h = elim (Bool-cases (text_eq (node_id n) id)) [
  | inl e ↦ (n, Memᴰ.head refl, (text_eq_iff (node_id n) id).0 e)
  | inr e ↦ let (r, m, k) = found id ns (ground (arith, h, e)) in (r, Memᴰ.tail m, k)
]
