-- ===== src/Proxy/Totals.antt =====
-- The sum of the counts of a dictionary.
use aimili_gateway.Prelude.{ℕ, ◌+◌, Text, ◌≡◌, refl, [], ◌∷◌, Bool-cases, inl, inr, arith, text_eq}
use aimili_gateway.Prelude.Dicts.{Dict, lookup, insert, remove}
use aimili_gateway.Proxy.Capacity.{held_by}

unfoldable pub total : Dict ℕ → ℕ
total [] = 0
total ((k, n) ∷ d) = n + total d

pub total-insert :
    (k : Text) (n : ℕ) (d : Dict ℕ) → total (insert k n d) + held_by k d ≡ total d + n
unfolding total insert held_by lookup
total-insert k n [] = omega arith
total-insert k n ((j, m) ∷ d) = elim (Bool-cases (text_eq j k)) [
  | inl y ↦ rw y (omega arith)
  | inr x ↦ rw x (omega (arith, total-insert k n d))
]

pub total-remove : (k : Text) (d : Dict ℕ) → total (remove k d) + held_by k d ≡ total d
unfolding total remove held_by lookup
total-remove k [] = refl
total-remove k ((j, m) ∷ d) = elim (Bool-cases (text_eq j k)) [
  | inl y ↦ rw y (omega arith)
  | inr x ↦ rw x (omega (arith, total-remove k d))
]
