-- ===== src/Assignment/Invariants.antt =====
-- Properties of the document of main_assignment.py that hold from the first start on.
use aimili_gateway.Prelude.{
  Text, ◌≡◌, refl, sym, ◌∙◌, true, inl, inr, Option, none, some, Bool-cases,
}
use aimili_gateway.Prelude.Dicts.{lookup}
use aimili_gateway.Assignment.Types.{Operation, absent, Document, Coordinator, Settings, Hashing}
use aimili_gateway.Assignment.Document.{is_verified}
use aimili_gateway.Assignment.Lease.{held}
use aimili_gateway.Assignment.Validate.{
  valid_document, start, read_document, empty_state, corrupt_state,
}
use aimili_gateway.Assignment.Consistency.{
  IsConsistent, Move, same, opened, updated, Edge, is_trusted,
}
use aimili_gateway.Assignment.Written.{written-cases}
use aimili_gateway.Assignment.Saves.{Saves}
use aimili_gateway.Assignment.Shape.{Section-Changes}
use aimili_gateway.Assignment.World.{World, Step, runs, restarts, Reach, here, next, started}
use aimili_gateway.Assignment.Sound.{IsSound, IsFile, started-IsSound, Reach-IsSound}

-- A property that every change keeps, and that the documents of a fresh start have.
record Invariant (P : Document → Type 0) : Type 0 where
  keeps : (c d : Coordinator) → IsConsistent c → P c.doc → Move c d → P d.doc
  empty : P empty_state
  corrupt : P corrupt_state

-- It holds of the document in memory and of the one in the file.
record Holds (P : Document → Type 0) (c : Coordinator) : Type 0 where
  now : P c.doc
  file : (d : Document) → c.disk ≡ some d → P d

some_document : (a b : Document) → some a ≡ some b → a ≡ b
some_document a b e = cc

module _ (P : Document → Type 0) (i : Invariant P) where
  start-Holds : (f : Option Document) → ((d : Document) → f ≡ some d → P d) → Holds P (start f)
  unfolding start
  start-Holds none h = record { now = i.empty; file = h }
  start-Holds (some d) h = record { now = read; file = h }
    where
      read : P (read_document (some d))
      read = elim (Bool-cases (valid_document d)) [
        | inl good ↦ rw (good, read_document) (h d refl)
        | inr bad ↦ rw (bad, read_document) i.corrupt
      ]

  saved-Holds :
      (c d : Coordinator) → Holds P c → P d.doc → Saves c d → (x : Document) → d.disk ≡ some x → P x
  saved-Holds c d h p (inl (e, _)) x f = h.file x (sym e ∙ f)
  saved-Holds c d h p (inr e) x f = rw (← some_document d.doc x (sym e ∙ f)) p

  Step-Holds :
      {g : Hashing} {cfg : Settings} (w u : World)
      → IsSound w
      → Holds P w.coord
      → Step g cfg w u
      → Holds P u.coord
  Step-Holds w u s h (runs x) =
      let c = Section-Changes w u s.consistent s.carries x in
      let p = i.keeps w.coord u.coord s.consistent h.now c.move in
      record { now = p; file = saved-Holds w.coord u.coord h p c.saves }
  Step-Holds w u s h (restarts e) = rw e (start-Holds w.coord.disk h.file)

  Reach-Holds :
      {g : Hashing} {cfg : Settings} {w u : World}
      → IsSound w
      → Holds P w.coord
      → Reach g cfg w u
      → Holds P u.coord
  Reach-Holds s h here = h
  Reach-Holds {u = u} s h (next {u = v} r x) =
      Step-Holds v u (Reach-IsSound s r) (Reach-Holds s h r) x

none-IsFile : IsFile none
none-IsFile d e = cc

first_start : (P : Document → Type 0) → Invariant P → Holds P (start none)
first_start P i = start-Holds P i none (λ d e. cc)

abbrev IsExclusive : Document → Type 0
IsExclusive d = held d.mutation_lease ≡ true → d.active ≡ absent

Move-IsExclusive : (c d : Coordinator) → IsExclusive c.doc → Move c d → IsExclusive d.doc
Move-IsExclusive c d h (same ea eo l) x = elim (l x) [ inl y ↦ ea ∙ h y | inr y ↦ ea ∙ y ]
Move-IsExclusive c d h (opened o a n f s da do' l) x = cc
Move-IsExclusive c d h (updated a o e g da do' l) x = cc (h (l x))

IsExclusive-Invariant : Invariant IsExclusive
unfolding empty_state corrupt_state held
IsExclusive-Invariant = record {
  keeps = λ c d k h m. Move-IsExclusive c d h m;
  empty = λ x. refl;
  corrupt = λ x. cc;
}

-- From a first start, with any threads and restarts: while the mutation lease is active, no
-- operation is.
pub Reach-exclusive :
    {g : Hashing} {cfg : Settings} {w : World}
    → Reach g cfg (started none) w
    → held w.coord.mutation_lease ≡ true
    → w.coord.active ≡ absent
Reach-exclusive r =
    (Reach-Holds IsExclusive IsExclusive-Invariant (started-IsSound none none-IsFile)
      (first_start IsExclusive IsExclusive-Invariant) r).now

abbrev IsTruthful : Document → Type 0
IsTruthful d =
    (k : Text) (o : Operation)
    → lookup k d.operations ≡ some o
    → is_trusted o.state ≡ true
    → is_verified o ≡ true

Edge-IsTruthful :
    (a o : Operation)
    → Edge a o
    → (is_trusted a.state ≡ true → is_verified a ≡ true)
    → is_trusted o.state ≡ true
    → is_verified o ≡ true
Edge-IsTruthful a o g h t = elim (g.checked t) [ inl y ↦ y | inr (b, e) ↦ e ∙ h b ]

Move-IsTruthful :
    (c d : Coordinator) → IsConsistent c → IsTruthful c.doc → Move c d → IsTruthful d.doc
Move-IsTruthful c d k h (same ea eo l) j p at t = h j p (rw eo at at) t
Move-IsTruthful c d k h (opened o a n f s da do' l) j p at t =
    elim (written-cases c d o do' j p at) [
      | inl (_, po) ↦ unfold is_trusted in cc (rw (po, s) at t)
      | inr (_, old) ↦ h j p old t
    ]
Move-IsTruthful c d k h (updated a o e g da do' l) j p at t =
    elim (written-cases c d o do' j p at) [
      | inl (_, po) ↦
          rw po (Edge-IsTruthful a o g (h a.idempotency_hash a (k.stored a e)) (rw po at t))
      | inr (_, old) ↦ h j p old t
    ]

IsTruthful-Invariant : Invariant IsTruthful
unfolding empty_state corrupt_state lookup
IsTruthful-Invariant = record {
  keeps = Move-IsTruthful;
  empty = λ k o e t. cc;
  corrupt = λ k o e t. cc;
}

-- From a first start, with any threads and restarts: an operation that waits for its commit, is
-- committed or is rolled back is recorded with its DNS, exit and availability checks all passed.
pub Reach-verified :
    {g : Hashing} {cfg : Settings} {w : World} (k : Text) (o : Operation)
    → Reach g cfg (started none) w
    → lookup k w.coord.operations ≡ some o
    → is_trusted o.state ≡ true
    → is_verified o ≡ true
Reach-verified k o r =
    (Reach-Holds IsTruthful IsTruthful-Invariant (started-IsSound none none-IsFile)
        (first_start IsTruthful IsTruthful-Invariant) r).now
      k o
