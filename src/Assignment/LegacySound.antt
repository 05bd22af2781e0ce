-- ===== src/Assignment/LegacySound.antt =====
-- What a process of main_assignment.py that opens an older document starts with.
use aimili_gateway.Prelude.{
  Text, ◌≡◌, refl, true, Option, none, some, [], ◌∷◌, Bool-cases, inl, inr, arith, text_eq,
}
use mathlib.Core.Option
use aimili_gateway.Prelude.Dicts.{Dict, lookup, IsDict}
use aimili_gateway.Assignment.Types.{
  Operation, Active, absent, corrupt, running, Document, Coordinator,
}
use aimili_gateway.Assignment.Document.{write}
use aimili_gateway.Assignment.Validate.{valid_document, corrupt_state, start}
use aimili_gateway.Assignment.Sound.{IsFile}
use aimili_gateway.Assignment.Deadlock.{some-IsFile}
use aimili_gateway.Assignment.Legacy.{
  Stored, stored, resolved, File, missing, current, leaseless, plain_history, canonical,
  add_canonical, canonical_history, has_resolved, canonicalize, valid_of, or_else, migrate,
  open_migrated, open_file,
}

-- A file whose history has no key twice.
abbrev pub HasKeys : File → Type 0
HasKeys missing = Unit
HasKeys (current d) = IsDict d.operations
HasKeys (leaseless a d) = IsDict d

-- A history and its migration have the same keys, in the same order.
SameKeys : Dict Stored → Dict Operation → Type 0
SameKeys [] [] = Unit
SameKeys [] (y ∷ r) = ⊥
SameKeys (x ∷ d) [] = ⊥
SameKeys ((k, s) ∷ d) ((j, o) ∷ r) = (k ≡ j) × SameKeys d r

abbrev Kept : Dict Stored → Option (Dict Operation) → Type 0
Kept d none = Unit
Kept d (some r) = SameKeys d r

SameKeys-lookup :
    (k : Text) (d : Dict Stored) (r : Dict Operation)
    → SameKeys d r
    → lookup k d ≡ none
    → lookup k r ≡ none
unfolding lookup SameKeys
SameKeys-lookup k [] [] h n = refl
SameKeys-lookup k [] (y ∷ r) h n = elim h [ ]
SameKeys-lookup k (x ∷ d) [] h n = elim h [ ]
SameKeys-lookup k ((i, s) ∷ d) ((j, o) ∷ r) (e, h) n = elim (Bool-cases (text_eq i k)) [
  | inl t ↦ ground (arith, n, t)
  | inr t ↦ rw (← e, t) (SameKeys-lookup k d r h (ground (arith, n, t)))
]

SameKeys-IsDict : (d : Dict Stored) (r : Dict Operation) → SameKeys d r → IsDict d → IsDict r
unfolding SameKeys
SameKeys-IsDict [] [] h n = tt
SameKeys-IsDict [] (y ∷ r) h n = elim h [ ]
SameKeys-IsDict (x ∷ d) [] h n = elim h [ ]
SameKeys-IsDict ((i, s) ∷ d) ((j, o) ∷ r) (e, h) (n, m) =
    (rw (← e) (SameKeys-lookup i d r h n), SameKeys-IsDict d r h m)

map-Kept :
    (k : Text) (s : Stored) (o : Operation) (d : Dict Stored) (f : Option (Dict Operation))
    → Kept d f
    → Kept ((k, s) ∷ d) (Option.map (λ r. (k, o) ∷ r) f)
unfolding SameKeys
map-Kept k s o d none h = tt
map-Kept k s o d (some r) h = (refl, h)

plain-Kept : (d : Dict Stored) → Kept d (plain_history d)
unfolding plain_history SameKeys
plain-Kept [] = tt
plain-Kept ((k, stored o) ∷ d) = map-Kept k (stored o) o d (plain_history d) (plain-Kept d)
plain-Kept ((k, resolved o) ∷ d) = tt

add-Kept :
    (k : Text) (s : Stored) (x : Option Operation) (d : Dict Stored) (f : Option (Dict Operation))
    → Kept d f
    → Kept ((k, s) ∷ d) (add_canonical k x f)
unfolding add_canonical SameKeys
add-Kept k s (some o) d (some r) h = (refl, h)
add-Kept k s (some o) d none h = tt
add-Kept k s none d f h = tt

canonical-Kept : (d : Dict Stored) → Kept d (canonical_history d)
unfolding canonical_history SameKeys
canonical-Kept [] = tt
canonical-Kept ((k, s) ∷ d) = add-Kept k s (canonical s) d (canonical_history d) (canonical-Kept d)

canonicalize-Kept : (a : Active) (d : Dict Stored) → Kept d (canonicalize a d)
unfolding canonicalize
canonicalize-Kept absent d = elim (Bool-cases (has_resolved d)) [
  | inl e ↦ rw e (canonical-Kept d)
  | inr e ↦ rw e tt
]
canonicalize-Kept corrupt d = tt
canonicalize-Kept (running a) d = tt

abbrev IsGood : Option Document → Type 0
IsGood none = Unit
IsGood (some e) = IsDict e.operations × (valid_document e ≡ true)

valid_of-IsGood :
    (a : Active) (d : Dict Stored) (f : Option (Dict Operation))
    → IsDict d
    → Kept d f
    → IsGood (valid_of a f)
unfolding valid_of
valid_of-IsGood a d none n h = tt
valid_of-IsGood a d (some r) n h =
    let e : Document = record { active = a; operations = r; mutation_lease = none } in
    elim (Bool-cases (valid_document e)) [
      | inl v ↦ rw v (SameKeys-IsDict d r h n, v)
      | inr v ↦ rw v tt
    ]

or_else-IsGood : (x y : Option Document) → IsGood x → IsGood y → IsGood (or_else x y)
unfolding or_else
or_else-IsGood (some e) y g h = g
or_else-IsGood none y g h = h

migrate-IsGood : (a : Active) (d : Dict Stored) → IsDict d → IsGood (migrate a d)
unfolding migrate
migrate-IsGood a d n =
    or_else-IsGood (valid_of a (plain_history d)) (valid_of absent (canonicalize a d))
      (valid_of-IsGood a d (plain_history d) n (plain-Kept d))
      (valid_of-IsGood absent d (canonicalize a d) n (canonicalize-Kept a d))

-- A file that the current version may have written, from which a process starts in the same state.
abbrev pub Starts : Coordinator → Type 0
Starts c = (file : Option Document) × IsFile file × (c ≡ start file)

open_migrated-Starts : (x : Option Document) → IsGood x → Starts (open_migrated x)
unfolding open_migrated start write corrupt_state
open_migrated-Starts none g = (some corrupt_state, some-IsFile corrupt_state tt, refl)
open_migrated-Starts (some e) (n, v) = (some e, some-IsFile e n, rw v refl)

-- From a file of any version whose history has no key twice, a process starts in the state in which it
-- would start from some file of the current version, again with no key twice.
pub open_file-Starts : (f : File) → HasKeys f → Starts (open_file f)
unfolding open_file
open_file-Starts missing h = (none, (λ d e. cc), refl)
open_file-Starts (current d) h = (some d, some-IsFile d h, refl)
open_file-Starts (leaseless a d) h = open_migrated-Starts (migrate a d) (migrate-IsGood a d h)
