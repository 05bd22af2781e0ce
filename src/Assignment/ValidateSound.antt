-- ===== src/Assignment/ValidateSound.antt =====
-- What `_valid_document` of main_assignment.py accepts is consistent.
use aimili_gateway.Prelude.{
  ◌≤◌, Text, ◌≡◌, ◌≢◌, refl, sym, ◌∙◌, true, false, some, none, inl, inr, [], ◌∷◌, List, arith,
  text_eq, text_eq_iff, Bool-cases, Option,
}
use aimili_gateway.Prelude.Dicts.{Dict, lookup, IsDict}
use aimili_gateway.Assignment.Types.{
  is_blocking, Operation, Active, absent, corrupt, running, Document, Coordinator,
}
use aimili_gateway.Assignment.Validate.{
  one_of, valid_history, count_blocking, decided, is_stored, valid_active, valid_document,
  Operation-discrete, start,
}
use aimili_gateway.Assignment.Consistency.{IsConsistent}
use aimili_gateway.Assignment.Written.{some_injective}

history-keyed :
    (seen : List Text) (d : Dict Operation) (k : Text) (o : Operation)
    → valid_history seen d ≡ true
    → lookup k d ≡ some o
    → o.idempotency_hash ≡ k
unfolding valid_history lookup
history-keyed seen [] k o v e = cc
history-keyed seen ((j, p) ∷ d) k o v e = ground (
  arith,
  history-keyed (p.operation_id ∷ seen) d k o,
  text_eq_iff j k,
  text_eq_iff p.idempotency_hash j,
)

-- An identifier of the history is none of those seen before.
history-unseen :
    (seen : List Text) (d : Dict Operation) (k : Text) (o : Operation)
    → valid_history seen d ≡ true
    → lookup k d ≡ some o
    → one_of seen o.operation_id ≡ false
unfolding valid_history lookup one_of
history-unseen seen [] k o v e = cc
history-unseen seen ((j, p) ∷ d) k o v e =
    ground (arith, history-unseen (p.operation_id ∷ seen) d k o)

history_unique :
    (seen : List Text) (d : Dict Operation) (k j : Text) (o p : Operation)
    → valid_history seen d ≡ true
    → lookup k d ≡ some o
    → lookup j d ≡ some p
    → o.operation_id ≡ p.operation_id
    → k ≡ j
unfolding valid_history lookup one_of
history_unique seen [] k j o p v e f id = cc
history_unique seen ((i, q) ∷ d) k j o p v e f id = ground (
  arith,
  history_unique (q.operation_id ∷ seen) d k j o p,
  history-unseen (q.operation_id ∷ seen) d k o,
  history-unseen (q.operation_id ∷ seen) d j p,
  text_eq_iff i k,
  text_eq_iff i j,
  text_eq_iff q.operation_id o.operation_id,
  text_eq_iff q.operation_id p.operation_id,
)

count-pos :
    (d : Dict Operation) (k : Text) (o : Operation)
    → lookup k d ≡ some o
    → is_blocking o.state ≡ true
    → 1 ≤ count_blocking d
unfolding count_blocking lookup
count-pos [] k o e b = cc
count-pos ((j, p) ∷ d) k o e b = ground (arith, count-pos d k o)

count_two :
    (d : Dict Operation) (k j : Text) (o p : Operation)
    → lookup k d ≡ some o
    → lookup j d ≡ some p
    → is_blocking o.state ≡ true
    → is_blocking p.state ≡ true
    → k ≢ j
    → 2 ≤ count_blocking d
unfolding count_blocking lookup
count_two [] k j o p e f b c n = cc
count_two ((i, q) ∷ d) k j o p e f b c n =
    ground (
      arith,
      count_two d k j o p,
      count-pos d k o,
      count-pos d j p,
      text_eq_iff i k,
      text_eq_iff i j,
    )

pub is_stored_refl : (a : Operation) → is_stored a (some a) ≡ true
unfolding is_stored decided
is_stored_refl a = elim (Operation-discrete a a) as (λ d. decided d ≡ true) [
  | yes p ↦ refl
  | no q ↦ elim (q refl) [ ]
]

is_stored_sound : (a : Operation) (f : Option Operation) → is_stored a f ≡ true → f ≡ some a
unfolding is_stored
is_stored_sound a none e = cc
is_stored_sound a (some o) e = stored_if (Operation-discrete o a) e
  where
    stored_if : (x : Dec (o ≡ a)) → decided x ≡ true → some o ≡ some a
    stored_if (yes p) e = rw p
    stored_if (no p) e = cc

-- A validated document is consistent.
module _ (c : Coordinator) (dict : IsDict c.operations) (v : valid_document c.doc ≡ true) where
  history : valid_history [] c.operations ≡ true
  unfolding valid_document
  history = ground arith

  active : valid_active c.operations c.active ≡ true
  unfolding valid_document
  active = ground arith

  active_facts :
      (x : Active) (a : Operation)
      → valid_active c.operations x ≡ true
      → x ≡ running a
      → (is_blocking a.state ≡ true)
        × (lookup a.idempotency_hash c.operations ≡ some a)
        × (count_blocking c.operations ≡ 1)
  unfolding valid_active
  active_facts absent a w e = cc
  active_facts corrupt a w e = cc
  active_facts (running b) a w e =
      ground (arith, is_stored_sound a (lookup a.idempotency_hash c.operations))

  two_blocking :
      (a o : Operation) (k : Text)
      → lookup a.idempotency_hash c.operations ≡ some a
      → lookup k c.operations ≡ some o
      → is_blocking a.state ≡ true
      → is_blocking o.state ≡ true
      → count_blocking c.operations ≡ 1
      → a.idempotency_hash ≢ k
      → ⊥
  two_blocking a o k at e b b' one n =
      omega (arith, count_two c.operations a.idempotency_hash k a o at e b b' n)

  only_cases :
      (x : Active) (k : Text) (o : Operation)
      → valid_active c.operations x ≡ true
      → lookup k c.operations ≡ some o
      → is_blocking o.state ≡ true
      → x ≡ running o
  unfolding valid_active
  only_cases absent k o w e b = absurd (ground (arith, count-pos c.operations k o))
  only_cases corrupt k o w e b = cc
  only_cases (running a) k o w e b =
      let (b', at, one) = active_facts (running a) a w refl in
      elim (Bool-cases (text_eq a.idempotency_hash k)) [
        | inl same_key ↦
            rw (some_injective a o (sym at ∙ rw ((text_eq_iff a.idempotency_hash k).0 same_key) e))
              refl
        | inr other ↦ absurd (
            two_blocking a o k at e b' b one
              (λ p. cc (other, (text_eq_iff a.idempotency_hash k).1 p)))
      ]

  pub valid-IsConsistent : IsConsistent c
  valid-IsConsistent = record {
    dict = dict;
    keyed = λ k o e. history-keyed [] c.operations k o history e;
    unique = λ k j o p e f id. history_unique [] c.operations k j o p history e f id;
    stored = λ a e. (active_facts c.active a active e).1;
    blocking = λ a e. (active_facts c.active a active e).0;
    only = λ k o e b. only_cases c.active k o active e b;
  }

bare-IsConsistent :
    (c : Coordinator)
    → ((a : Operation) → c.active ≢ running a)
    → c.operations ≡ []
    → IsConsistent c
unfolding lookup
bare-IsConsistent c e o = record {
  dict = rw o tt;
  keyed = λ k p f. cc (rw o at f);
  unique = λ k j p q f _ _. cc (rw o at f);
  stored = λ a f. absurd (e a f);
  blocking = λ a f. absurd (e a f);
  only = λ k p f _. cc (rw o at f);
}

-- A process that starts from any file whose history has no key twice is consistent.
pub start-IsConsistent :
    (file : Option Document)
    → ((d : Document) → file ≡ some d → IsDict d.operations)
    → IsConsistent (start file)
unfolding start
start-IsConsistent none h = bare-IsConsistent (start none) (λ a e. cc) refl
start-IsConsistent (some d) h = elim (Bool-cases (valid_document d)) [
  | inl good ↦ read-IsConsistent (start (some d)) d (rw good refl) (h d refl) good
  | inr bad ↦ bare-IsConsistent (start (some d)) (λ a e. cc (rw bad at e)) (rw bad refl)
]
  where
    read-IsConsistent :
        (c : Coordinator) (x : Document)
        → c.doc ≡ x
        → IsDict x.operations
        → valid_document x ≡ true
        → IsConsistent c
    read-IsConsistent c x e dict v = valid-IsConsistent c (rw e dict) (rw e v)
