-- ===== src/Nodes/Unique.antt =====
-- What the loops of services/aimili-egress/node_pool.py keep of the nodes they have taken.
use aimili_gateway.Prelude.{
  Text, ◌≡◌, refl, true, false, ◌||◌, List, [], ◌∷◌, ◌++◌, map, All, arith, text_eq, text_eq_iff,
  is_empty,
}
use aimili_gateway.Prelude.Strings.{is_in}
use aimili_gateway.Nodes.Node.{Node, node_id, Chosen, nothing, choose, is_repeated}

abbrev pub IsDistinct : List Text → Type 0
IsDistinct [] = Unit
IsDistinct (x ∷ xs) = (is_in x xs ≡ false) × IsDistinct xs

abbrev pub ids : List Node → List Text
ids ns = map node_id ns

pub is_in-append : (x : Text) (xs ys : List Text) → is_in x (xs ++ ys) ≡ is_in x xs || is_in x ys
unfolding is_in
is_in-append x [] ys = refl
is_in-append x (y ∷ xs) ys = ground (arith, is_in-append x xs ys)

-- A text that is at the end of no other.
pub append-IsDistinct :
    (xs : List Text) (y : Text) → IsDistinct xs → is_in y xs ≡ false → IsDistinct (xs ++ y ∷ [])
unfolding is_in
append-IsDistinct [] y h n = (refl, tt)
append-IsDistinct (x ∷ xs) y h n = ground (
  arith,
  append-IsDistinct xs y h.1,
  is_in-append x xs (y ∷ []),
  text_eq_iff x y,
  text_eq_iff y x,
)

pub ids-append : (ms ns : List Node) → ids (ms ++ ns) ≡ ids ms ++ ids ns
ids-append [] ns = refl
ids-append (m ∷ ms) ns = rw (ids-append ms ns) refl

pub All-append {ℓ κ} :
    {A : Type ℓ} (P : A → Type κ) (xs ys : List A) → All P xs → All P ys → All P (xs ++ ys)
All-append P [] ys hx hy = hy
All-append P (x ∷ xs) ys hx hy = (hx.0, All-append P xs ys hx.1 hy)

-- The identifiers taken are not empty, differ, and are those seen.
pub record IsClean (c : Chosen) : Type 0 where
  pub different : IsDistinct (ids c.nodes)
  pub named : All (λ n. is_empty (node_id n) ≡ false) c.nodes
  pub covered : (x : Text) → is_in x c.seen ≡ is_in x (ids c.nodes)

pub nothing-IsClean : IsClean nothing
unfolding nothing is_in
nothing-IsClean = record { different = tt; named = tt; covered = λ x. refl }

pub is_in-choose :
    (n : Node) (c : Chosen) (x : Text)
    → is_in x (ids (choose n c).nodes) ≡ is_in x (ids c.nodes) || text_eq (node_id n) x
unfolding choose is_in
is_in-choose n c x =
    rw (ids-append c.nodes (n ∷ [])) (ground (arith, is_in-append x (ids c.nodes) (node_id n ∷ [])))

pub choose-IsClean :
    (n : Node) (c : Chosen) → IsClean c → is_repeated n c ≡ false → IsClean (choose n c)
unfolding choose is_repeated is_in
choose-IsClean n c h r = record {
  different = rw (ids-append c.nodes (n ∷ [])) (
      append-IsDistinct (ids c.nodes) (node_id n) h.different
        (ground (arith, r, h.covered (node_id n))));
  named = All-append _ c.nodes (n ∷ []) h.named (ground (arith, r), tt);
  covered = λ x. ground (arith, h.covered x, is_in-choose n c x);
}

-- Whether a node of this identifier is taken.
abbrev pub Taken : Text → Chosen → Type 0
Taken x c = is_in x (ids c.nodes) ≡ true

pub choose-Taken : (n : Node) (c : Chosen) (x : Text) → Taken x c → Taken x (choose n c)
choose-Taken n c x h = ground (arith, is_in-choose n c x)

pub chosen-Taken : (n : Node) (c : Chosen) → Taken (node_id n) (choose n c)
chosen-Taken n c = ground (arith, is_in-choose n c (node_id n), text_eq_iff (node_id n) (node_id n))

-- A named node that is not taken now is taken already.
pub repeated-Taken :
    (n : Node) (c : Chosen)
    → IsClean c
    → is_repeated n c ≡ true
    → is_empty (node_id n) ≡ false
    → Taken (node_id n) c
unfolding is_repeated
repeated-Taken n c h r e = ground (arith, r, e, h.covered (node_id n))
