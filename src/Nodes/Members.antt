-- ===== src/Nodes/Members.antt =====
-- Lists of texts as sets, and lists that a comprehension makes from another.
use aimili_gateway.Prelude.{
  Text, ◌≡◌, subst, Bool, true, not, List, [], ◌∷◌, ◌++◌, keep, ◌≤◌, length, All, All-imply, arith,
  text_eq, text_eq_iff, Bool-cases, inl, inr,
}
use aimili_gateway.Prelude.Strings.{is_in}
use aimili_gateway.Nodes.Rebalance.{distinct}

pub All-is_in : (xs : List Text) → All (λ x. is_in x xs ≡ true) xs
unfolding is_in
All-is_in [] = tt
All-is_in (x ∷ xs) =
    (ground (arith, text_eq_iff x x), All-imply _ _ xs (λ y h. ground (arith, h)) (All-is_in xs))

pub is_in-All {κ} :
    (P : Text → Type κ) (x : Text) (xs : List Text) → is_in x xs ≡ true → All P xs → P x
unfolding is_in
is_in-All P x [] e h = absurd (ground arith)
is_in-All P x (y ∷ ys) e (h, hs) = elim (Bool-cases (text_eq y x)) [
  | inl t ↦ subst P ((text_eq_iff y x).0 t) h
  | inr t ↦ is_in-All P x ys (ground (arith, e, t)) hs
]

pub length-distinct : (xs : List Text) → length (distinct xs) ≤ length xs
unfolding distinct
length-distinct [] = omega arith
length-distinct (x ∷ xs) = ground (arith, length-distinct xs)

module _ {κ} (P : Text → Type κ) where
  pub distinct-All : (xs : List Text) → All P xs → All P (distinct xs)
  unfolding distinct
  distinct-All [] h = tt
  distinct-All (x ∷ xs) (h, hs) = elim (Bool-cases (is_in x (distinct xs))) [
    | inl e ↦ rw e (distinct-All xs hs)
    | inr e ↦ rw e (h, distinct-All xs hs)
  ]

  pub All-distinct : (xs : List Text) → All P (distinct xs) → All P xs
  unfolding distinct
  All-distinct [] h = tt
  All-distinct (x ∷ xs) h =
      let both : All P (distinct (x ∷ xs)) → P x × All P xs =
        elim (Bool-cases (is_in x (distinct xs))) [
          | inl e ↦ rw e (λ k. (is_in-All P x (distinct xs) e k, All-distinct xs k))
          | inr e ↦ rw e (λ k. (k.0, All-distinct xs k.1))
        ] in
      both h

module _ {ℓ κ} {A : Type ℓ} (P : A → Type κ) where
  pub keep-All : (p : A → Bool) (xs : List A) → All P xs → All P (keep p xs)
  keep-All p [] h = tt
  keep-All p (x ∷ xs) (h, hs) = elim (Bool-cases (p x)) [
    | inl e ↦ rw e (h, keep-All p xs hs)
    | inr e ↦ rw e (keep-All p xs hs)
  ]

  pub kept : (p : A → Bool) (xs : List A) → All P xs → All (λ x. P x × (p x ≡ true)) (keep p xs)
  kept p [] h = tt
  kept p (x ∷ xs) (h, hs) = elim (Bool-cases (p x)) [
    | inl e ↦ rw e ((h, e), kept p xs hs)
    | inr e ↦ rw e (kept p xs hs)
  ]

  -- What holds of both parts of a list holds of the list.
  pub All-parts :
      (p : A → Bool) (xs : List A) → All P (keep p xs) → All P (keep (λ x. not (p x)) xs) → All P xs
  All-parts p [] h k = tt
  All-parts p (x ∷ xs) h k =
      let both : All P (keep p (x ∷ xs)) → All P (keep (λ y. not (p y)) (x ∷ xs)) → P x × All P xs =
        elim (Bool-cases (p x)) [
          | inl e ↦ rw e (λ f g. (f.0, All-parts p xs f.1 g))
          | inr e ↦ rw e (λ f g. (g.0, All-parts p xs f g.1))
        ] in
      both h k

  pub All-ends : (xs ys : List A) → All P (xs ++ ys) → All P xs × All P ys
  All-ends [] ys h = (tt, h)
  All-ends (x ∷ xs) ys (h, hs) = let (f, g) = All-ends xs ys hs in ((h, f), g)
