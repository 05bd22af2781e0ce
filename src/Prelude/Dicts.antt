-- ===== src/Prelude/Dicts.antt =====
-- A Python `dict` with text keys: an association list in insertion order. Writing a key that is
-- there keeps its place.
use mathlib.Core.Path.{◌≡◌, refl}
use mathlib.Core.Bool.{Bool, true}
use mathlib.Core.List.{List, [], ◌∷◌}
use mathlib.Core.Option.{Option, none, some}
use mathlib.Core.Logic.{inl, inr}
use native.Mathlib.Omega.{arith}
use aimili_gateway.Prelude.Tests.{if◌then◌else◌, Bool-cases}
use aimili_gateway.Prelude.Strings.{Text, text_eq, text_eq_iff}

abbrev pub Dict {ℓ} : Type ℓ → Type ℓ
Dict V = List (Text × V)

module _ {ℓ} {V : Type ℓ} where
  -- `d.get(k)`
  unfoldable pub lookup : Text → Dict V → Option V
  lookup k [] = none
  lookup k ((j, v) ∷ d) = if text_eq j k then some v else lookup k d

  -- `d[k] = v`
  unfoldable pub insert : Text → V → Dict V → Dict V
  insert k v [] = (k, v) ∷ []
  insert k v ((j, w) ∷ d) = if text_eq j k then (j, v) ∷ d else (j, w) ∷ insert k v d

  -- `d.pop(k, None)`
  unfoldable pub remove : Text → Dict V → Dict V
  remove k [] = []
  remove k ((j, w) ∷ d) = if text_eq j k then d else (j, w) ∷ remove k d

  -- The first value, in insertion order, that passes a test.
  unfoldable pub find : (V → Bool) → Dict V → Option V
  find p [] = none
  find p ((j, v) ∷ d) = if p v then some v else find p d

  -- No key stands twice.
  abbrev pub IsDict : Dict V → Type ℓ
  IsDict [] = Unit
  IsDict ((k, v) ∷ d) = (lookup k d ≡ none) × IsDict d

  pub lookup-insert :
      (k j : Text) (v : V) (d : Dict V)
      → lookup j (insert k v d) ≡ (if text_eq k j then some v else lookup j d)
  unfolding lookup insert
  lookup-insert k j v [] = refl
  lookup-insert k j v ((i, w) ∷ d) =
      ground (arith, text_eq_iff k j, text_eq_iff i k, text_eq_iff i j, lookup-insert k j v d)

  pub insert-IsDict : (k : Text) (v : V) (d : Dict V) → IsDict d → IsDict (insert k v d)
  unfolding lookup insert
  insert-IsDict k v [] h = (refl, tt)
  insert-IsDict k v ((j, w) ∷ d) h =
      ground
        (arith, insert-IsDict k v d h.1, lookup-insert k j v d, text_eq_iff j k, text_eq_iff k j)

  pub lookup-remove :
      (k j : Text) (d : Dict V)
      → IsDict d
      → lookup j (remove k d) ≡ (if text_eq k j then none else lookup j d)
  unfolding lookup remove
  lookup-remove k j [] h = elim (Bool-cases (text_eq k j)) [ inl e ↦ rw e refl | inr e ↦ rw e refl ]
  lookup-remove k j ((i, w) ∷ d) h =
      ground
        (arith, lookup-remove k j d h.1, h.0, text_eq_iff i k, text_eq_iff i j, text_eq_iff k j)

  pub remove-IsDict : (k : Text) (d : Dict V) → IsDict d → IsDict (remove k d)
  unfolding remove
  remove-IsDict k [] h = tt
  remove-IsDict k ((j, w) ∷ d) h =
      ground
        (arith, remove-IsDict k d h.1, lookup-remove k j d h.1, text_eq_iff k j, text_eq_iff j k)

  -- What `find` returns passes the test and is stored under some key.
  pub find_sound :
      (p : V → Bool) (d : Dict V) (v : V)
      → IsDict d
      → find p d ≡ some v
      → (k : Text) × (lookup k d ≡ some v) × (p v ≡ true)
  unfolding lookup find
  find_sound p [] v h e = cc
  find_sound p ((j, w) ∷ d) v h e = elim (Bool-cases (p w)) [
    | inl hit ↦ (j, ground (arith, text_eq_iff j j), ground arith)
    | inr miss ↦
        let (k, at, ok) = find_sound p d v h.1 (ground arith) in
        (k, ground (arith, text_eq_iff j k), ok)
  ]

  -- A stored value that passes the test is found, or another one is.
  pub find_complete :
      (p : V → Bool) (d : Dict V) (k : Text) (v : V)
      → lookup k d ≡ some v
      → p v ≡ true
      → (w : V) × (find p d ≡ some w)
  unfolding lookup find
  find_complete p [] k v e ok = cc
  find_complete p ((j, w) ∷ d) k v e ok = elim (Bool-cases (p w)) [
    | inl hit ↦ (w, ground arith)
    | inr miss ↦ let (u, at) = find_complete p d k v (ground arith) ok in (u, ground arith)
  ]
