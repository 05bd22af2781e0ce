-- ===== src/Prelude/Folds.antt =====
-- Python's `for` over a list, whose body changes a state, and the rules that the proofs use.
use mathlib.Core.List.{List, [], ◌∷◌}
use aimili_gateway.Prelude.Lists.{All}

module _ {ℓ κ} {A : Type ℓ} {S : Type κ} (body : S → A → S) where
  unfoldable pub fold : S → List A → S
  fold s [] = s
  fold s (x ∷ xs) = fold (body s x) xs

pub All-Unit {ℓ} : {A : Type ℓ} (xs : List A) → All {ℓ, 0} (λ _. Unit) xs
All-Unit [] = tt
All-Unit (x ∷ xs) = (tt, All-Unit xs)

-- What every turn keeps holds at the end. A turn may use what holds of every item.
pub fold_inv {ℓ κ μ ν} :
    {A : Type ℓ} {S : Type κ} (P : S → Type μ) (R : A → Type ν) (body : S → A → S)
    → ((s : S) (x : A) → R x → P s → P (body s x))
    → (s : S) (xs : List A) → All R xs
    → P s
    → P (fold body s xs)
unfolding fold
fold_inv P R body keep s [] r h = h
fold_inv P R body keep s (x ∷ xs) (r, rs) h = fold_inv P R body keep (body s x) xs rs (keep s x r h)

-- What a turn establishes of its item, and the later turns keep, holds of every item at the end.
pub fold_all {ℓ κ μ ν} :
    {A : Type ℓ} {S : Type κ} (P : S → Type μ) (Q : A → S → Type ν) (body : S → A → S)
    → ((s : S) (x : A) → P s → P (body s x))
    → ((s : S) (x : A) → P s → Q x (body s x))
    → ((s : S) (x y : A) → P s → Q y s → Q y (body s x))
    → (s : S) (xs : List A) → P s
    → All (λ x. Q x (fold body s xs)) xs
unfolding fold
fold_all P Q body keep make hold s [] h = tt
fold_all P Q body keep make hold s (x ∷ xs) h = (
  (fold_inv (λ t. P t × Q x t) (λ _. Unit) body (λ t y _ k. (keep t y k.0, hold t y x k.0 k.1))
      (body s x) xs (All-Unit xs) (keep s x h, make s x h)).1,
  fold_all P Q body keep make hold (body s x) xs (keep s x h),
)
