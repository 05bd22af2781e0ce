-- ===== src/Prelude/Sorting.antt =====
-- Python's stable `sorted` and `min` with a key, of which `less` says whether one is before another,
-- and the order of `str`.

use Prim.Native.Nat.{suc}
use mathlib.Core.Path.{◌≡◌, refl, ap, ◌∙◌}
use mathlib.Core.Bool.{Bool, true, false, not, ◌&&◌}
use mathlib.Core.List.{List, [], ◌∷◌, ◌++◌}
use mathlib.Core.Logic.{inl, inr}
use native.Mathlib.Omega.{arith}
use aimili_gateway.Prelude.Tests.{ltb, if◌then◌else◌, Bool-cases}
use aimili_gateway.Prelude.Lists.{All, keep, length}
use aimili_gateway.Prelude.Strings.{Text}

unfoldable pub text_less : Text → Text → Bool
text_less [] [] = false
text_less [] (y ∷ t) = true
text_less (x ∷ s) [] = false
text_less (x ∷ s) (y ∷ t) =
    let rest = text_less s t in if ltb x y then true else if ltb y x then false else rest

module _ {ℓ} {A : Type ℓ} (less : A → A → Bool) where
  unfoldable pub place : A → List A → List A
  place x [] = x ∷ []
  place x (y ∷ ys) = let rest = place x ys in if less y x then y ∷ rest else x ∷ y ∷ ys

  unfoldable pub sorted : List A → List A
  unfolding place
  sorted [] = []
  sorted (x ∷ xs) = place x (sorted xs)

  -- The first of the least items of `x ∷ xs`.
  unfoldable pub least : A → List A → A
  least x [] = x
  least x (y ∷ ys) = least (if less y x then y else x) ys

module _ {ℓ} {A : Type ℓ} (less : A → A → Bool) where
  length-place : (x : A) (ys : List A) → length (place less x ys) ≡ suc (length ys)
  unfolding place
  length-place x [] = refl
  length-place x (y ∷ ys) = ground (arith, length-place x ys)

  pub length-sorted : (xs : List A) → length (sorted less xs) ≡ length xs
  unfolding sorted
  length-sorted [] = refl
  length-sorted (x ∷ xs) = omega (arith, length-place x (sorted less xs), length-sorted xs)

-- What holds of every item holds of every item sorted, and back, and of the least.
module _ {ℓ κ} {A : Type ℓ} (less : A → A → Bool) (P : A → Type κ) where
  place-All : (x : A) (ys : List A) → P x → All P ys → All P (place less x ys)
  unfolding place
  place-All x [] h hs = (h, tt)
  place-All x (y ∷ ys) h (k, ks) = elim (Bool-cases (less y x)) [
    | inl e ↦ rw e (k, place-All x ys h ks)
    | inr e ↦ rw e (h, (k, ks))
  ]

  pub sorted-All : (xs : List A) → All P xs → All P (sorted less xs)
  unfolding sorted
  sorted-All [] h = tt
  sorted-All (x ∷ xs) (h, hs) = place-All x (sorted less xs) h (sorted-All xs hs)

  All-place : (x : A) (ys : List A) → All P (place less x ys) → P x × All P ys
  unfolding place
  All-place x [] h = (h.0, tt)
  All-place x (y ∷ ys) h =
      let parts : All P (place less x (y ∷ ys)) → P x × (P y × All P ys) =
        elim (Bool-cases (less y x)) [
          | inl e ↦ rw e (λ k. ((All-place x ys k.1).0, (k.0, (All-place x ys k.1).1)))
          | inr e ↦ rw e (λ k. (k.0, k.1))
        ] in
      parts h

  pub All-sorted : (xs : List A) → All P (sorted less xs) → All P xs
  unfolding sorted
  All-sorted [] h = tt
  All-sorted (x ∷ xs) h = let (k, ks) = All-place x (sorted less xs) h in (k, All-sorted xs ks)

  pub least_among : (x : A) (xs : List A) → P x → All P xs → P (least less x xs)
  unfolding least
  least_among x [] h hs = h
  least_among x (y ∷ ys) h (k, ks) = elim (Bool-cases (less y x)) [
    | inl e ↦ rw e (least_among y ys k ks)
    | inr e ↦ rw e (least_among x ys h ks)
  ]

-- A key with two values sorts into two parts, each in the order of the list.
module _ {ℓ} {A : Type ℓ} (first : A → Bool) where
  abbrev pub first_less : A → A → Bool
  first_less a b = first a && not (first b)

  place_front : (x : A) (ys : List A) → first x ≡ true → place first_less x ys ≡ x ∷ ys
  unfolding place
  place_front x [] h = refl
  place_front x (y ∷ ys) h = ground (arith, h)

  place_back :
      (x : A) (ys zs : List A)
      → first x ≡ false
      → All (λ y. first y ≡ true) ys
      → All (λ z. first z ≡ false) zs
      → place first_less x (ys ++ zs) ≡ ys ++ (x ∷ zs)
  unfolding place
  place_back x [] [] h hy hz = refl
  place_back x [] (z ∷ zs) h hy hz = ground (arith, h, hz.0)
  place_back x (y ∷ ys) zs h (k, ks) hz = rw (k, h) (ap (λ l. y ∷ l) (place_back x ys zs h ks hz))

  keep-All : (p : A → Bool) (xs : List A) → All (λ x. p x ≡ true) (keep p xs)
  keep-All p [] = tt
  keep-All p (x ∷ xs) = elim (Bool-cases (p x)) [
    | inl e ↦ rw e (e, keep-All p xs)
    | inr e ↦ rw e (keep-All p xs)
  ]

  keep_other : (xs : List A) → All (λ x. first x ≡ false) (keep (λ x. not (first x)) xs)
  keep_other [] = tt
  keep_other (x ∷ xs) = elim (Bool-cases (first x)) [
    | inl e ↦ rw e (keep_other xs)
    | inr e ↦ rw e (e, keep_other xs)
  ]

  pub sorted_parts :
      (xs : List A) → sorted first_less xs ≡ keep first xs ++ keep (λ x. not (first x)) xs
  unfolding sorted
  sorted_parts [] = refl
  sorted_parts (x ∷ xs) = ap (place first_less x) (sorted_parts xs) ∙ placed
    where
      placed :
          place first_less x (keep first xs ++ keep (λ y. not (first y)) xs)
          ≡ keep first (x ∷ xs) ++ keep (λ y. not (first y)) (x ∷ xs)
      placed = elim (Bool-cases (first x)) [
        | inl e ↦ rw e (place_front x (keep first xs ++ keep (λ y. not (first y)) xs) e)
        | inr e ↦ rw e (place_back x (keep first xs) _ e (keep-All first xs) (keep_other xs))
      ]

-- Each item is followed by one that is not before it.
abbrev pub IsOrdered {ℓ} : {A : Type ℓ} → (A → A → Bool) → List A → Type 0
IsOrdered less [] = Unit
IsOrdered less (x ∷ []) = Unit
IsOrdered less (x ∷ y ∷ ys) = (less y x ≡ false) × IsOrdered less (y ∷ ys)

module _ {ℓ} {A : Type ℓ} (less : A → A → Bool) where
  keep-place :
      (p : A → Bool) (x : A) (ys : List A)
      → length (keep p (place less x ys)) ≡ length (keep p (x ∷ ys))
  unfolding place
  keep-place p x [] = refl
  keep-place p x (y ∷ ys) = ground (arith, keep-place p x ys)

  -- To sort keeps how many items pass a test, whatever the test.
  pub keep-sorted :
      (p : A → Bool) (xs : List A) → length (keep p (sorted less xs)) ≡ length (keep p xs)
  unfolding sorted
  keep-sorted p [] = refl
  keep-sorted p (x ∷ xs) = ground (arith, keep-place p x (sorted less xs), keep-sorted p xs)

module _ {ℓ} {A : Type ℓ} (less : A → A → Bool)
    (asym : (x y : A) → less x y ≡ true → less y x ≡ false) where
  place_after :
      (y x : A) (ys : List A)
      → less y x ≡ true
      → IsOrdered less (y ∷ ys)
      → IsOrdered less (place less x ys)
      → IsOrdered less (y ∷ place less x ys)
  unfolding place
  place_after y x [] e h k = (asym y x e, tt)
  place_after y x (z ∷ zs) e h k = elim (Bool-cases (less z x)) [
    | inl f ↦
        let go : IsOrdered less (place less x (z ∷ zs))
            → IsOrdered less (y ∷ place less x (z ∷ zs)) =
          rw f (λ m. (h.0, m)) in
        go k
    | inr f ↦ rw f (asym y x e, (f, h.1))
  ]

  place-IsOrdered : (x : A) (ys : List A) → IsOrdered less ys → IsOrdered less (place less x ys)
  unfolding place
  place-IsOrdered x [] h = tt
  place-IsOrdered x (y ∷ []) h = elim (Bool-cases (less y x)) [
    | inl e ↦ rw e (asym y x e, tt)
    | inr e ↦ rw e (e, tt)
  ]
  place-IsOrdered x (y ∷ z ∷ zs) h = elim (Bool-cases (less y x)) [
    | inl e ↦ rw e (place_after y x (z ∷ zs) e h (place-IsOrdered x (z ∷ zs) h.1))
    | inr e ↦ rw e (e, h)
  ]

  pub sorted-IsOrdered : (xs : List A) → IsOrdered less (sorted less xs)
  unfolding sorted
  sorted-IsOrdered [] = tt
  sorted-IsOrdered (x ∷ xs) = place-IsOrdered x (sorted less xs) (sorted-IsOrdered xs)

pub text_less_asym : (s t : Text) → text_less s t ≡ true → text_less t s ≡ false
unfolding text_less
text_less_asym [] [] h = cc
text_less_asym [] (y ∷ t) h = refl
text_less_asym (x ∷ s) [] h = cc
text_less_asym (x ∷ s) (y ∷ t) h = ground (arith, text_less_asym s t)
