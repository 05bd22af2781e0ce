-- ===== src/Nodes/MergeTurns.antt =====
-- What one turn of the loops of `merge_country_pool` of services/aimili-egress/node_pool.py keeps.
use aimili_gateway.Prelude.{
  ℕ, Text, ◌≡◌, true, false, ◌⊎◌, List, arith, text_eq, is_empty, is_in, Bool-cases, inl, inr,
}
use aimili_gateway.Nodes.Node.{Node, node_id, country, Chosen, is_repeated}
use aimili_gateway.Nodes.Merge.{
  append, append_foreign, Merged, append_counted, append_protected, append_refreshed,
}
use aimili_gateway.Nodes.Unique.{
  IsClean, choose-IsClean, Taken, choose-Taken, chosen-Taken, repeated-Taken,
}

pub append-IsClean : (n : Node) (c : Chosen) → IsClean c → IsClean (append n c)
unfolding append
append-IsClean n c h = elim (Bool-cases (is_repeated n c)) [
  | inl e ↦ rw e h
  | inr e ↦ rw e (choose-IsClean n c h e)
]

pub append-Taken : (n : Node) (c : Chosen) (x : Text) → Taken x c → Taken x (append n c)
unfolding append
append-Taken n c x h = ground (arith, choose-Taken n c x h)

appended-Taken :
    (n : Node) (c : Chosen)
    → IsClean c
    → is_empty (node_id n) ≡ false
    → Taken (node_id n) (append n c)
unfolding append
appended-Taken n c h e = ground (arith, chosen-Taken n c, repeated-Taken n c h)

counted-chosen : (n : Node) (m : Merged) → (append_counted n m).chosen ≡ append n m.chosen
unfolding append_counted append
counted-chosen n m = ground arith

module _ (wanted : Text) where
  -- A node that the first loop takes.
  abbrev pub IsForeign : Node → Type 0
  IsForeign n = (text_eq (country n) wanted ≡ false) × (is_empty (node_id n) ≡ false)

  pub foreign-IsClean : (c : Chosen) (n : Node) → IsClean c → IsClean (append_foreign wanted c n)
  unfolding append_foreign
  foreign-IsClean c n h = elim (Bool-cases (text_eq (country n) wanted)) [
    | inl e ↦ rw e h
    | inr e ↦ rw e (append-IsClean n c h)
  ]

  pub foreign-Taken :
      (c : Chosen) (n : Node) (x : Text) → Taken x c → Taken x (append_foreign wanted c n)
  unfolding append_foreign
  foreign-Taken c n x h = ground (arith, append-Taken n c x h)

  pub foreign_made :
      (c : Chosen) (n : Node)
      → IsClean c
      → IsForeign n
      → Taken (node_id n) (append_foreign wanted c n)
  unfolding append_foreign
  foreign_made c n h (f, e) = rw f (appended-Taken n c h e)

module _ (wanted : Text) (protected : List Text) where
  abbrev pub IsProtected : Node → Type 0
  IsProtected n =
      (text_eq (country n) wanted ≡ true)
      × (is_in (node_id n) protected ≡ true)
      × (is_empty (node_id n) ≡ false)

  pub protected_step :
      (m : Merged) (n : Node)
      → ((append_protected wanted protected m n).chosen ≡ m.chosen)
        ⊎ ((append_protected wanted protected m n).chosen ≡ append n m.chosen)
  unfolding append_protected
  protected_step m n = ground (arith, counted-chosen n m)

  pub protected_made :
      (m : Merged) (n : Node)
      → IsClean m.chosen
      → IsProtected n
      → Taken (node_id n) (append_protected wanted protected m n).chosen
  unfolding append_protected
  protected_made m n h (f, p, e) =
      ground (arith, f, p, counted-chosen n m, appended-Taken n m.chosen h e)

pub refreshed_step :
    (wanted : Text) (target : ℕ) (m : Merged) (n : Node)
    → ((append_refreshed wanted target m n).chosen ≡ m.chosen)
      ⊎ ((append_refreshed wanted target m n).chosen ≡ append n m.chosen)
unfolding append_refreshed
refreshed_step wanted target m n = ground (arith, counted-chosen n m)

-- What the appended node does not disturb, a turn does not.
pub turn_keeps :
    (P : Chosen → Type 0) (c d : Chosen) (n : Node)
    → (d ≡ c) ⊎ (d ≡ append n c)
    → P c
    → P (append n c)
    → P d
turn_keeps P c d n (inl e) h k = rw e h
turn_keeps P c d n (inr e) h k = rw e k
