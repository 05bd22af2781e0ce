-- ===== src/Assignment/Written.antt =====
-- What writing one operation under its key does to the document of main_assignment.py.
use aimili_gateway.Prelude.{
  Text, ◌≡◌, ◌≢◌, refl, sym, ap, ◌∙◌, ◌⊎◌, inl, inr, none, some, arith, text_eq, text_eq_iff,
  Bool-cases, true, if◌then◌else◌,
}
use aimili_gateway.Prelude.Dicts.{lookup, insert, lookup-insert, insert-IsDict}
use aimili_gateway.Assignment.Types.{is_blocking, Operation, absent, running, Coordinator}
use aimili_gateway.Assignment.Consistency.{IsConsistent, SameOrigin, Known}

pub running_injective : (a b : Operation) → running a ≡ running b → a ≡ b
running_injective a b e = cc

pub some_injective : (a b : Operation) → some a ≡ some b → a ≡ b
some_injective a b e = cc

pub SameOrigin-refl : (a : Operation) → SameOrigin a a
SameOrigin-refl a = record { id = refl; hash = refl; request = refl; created = refl }

pub SameOrigin-symm : (a b : Operation) → SameOrigin a b → SameOrigin b a
SameOrigin-symm a b h = record {
  id = sym h.id;
  hash = sym h.hash;
  request = sym h.request;
  created = sym h.created;
}

pub SameOrigin-trans : (a b c : Operation) → SameOrigin a b → SameOrigin b c → SameOrigin a c
SameOrigin-trans a b c h k = record {
  id = h.id ∙ k.id;
  hash = h.hash ∙ k.hash;
  request = h.request ∙ k.request;
  created = h.created ∙ k.created;
}

pub none-ne-some : (a : Operation) → none ≡ some a → ⊥
none-ne-some a e = cc

-- A document in which one operation was written under its key.
module _ (c d : Coordinator) (o : Operation)
    (written : d.operations ≡ insert o.idempotency_hash o c.operations) where
  pub lookup-written :
      (k : Text)
      → lookup k d.operations
        ≡ (if text_eq o.idempotency_hash k then some o else lookup k c.operations)
  lookup-written k = rw written (lookup-insert o.idempotency_hash k o c.operations)

  pub lookup-written_self : lookup o.idempotency_hash d.operations ≡ some o
  lookup-written_self =
      ground (
        arith,
        lookup-written o.idempotency_hash,
        text_eq_iff o.idempotency_hash o.idempotency_hash,
      )

  pub written-cases :
      (k : Text) (p : Operation)
      → lookup k d.operations ≡ some p
      → ((k ≡ o.idempotency_hash) × (p ≡ o))
        ⊎ ((k ≢ o.idempotency_hash) × (lookup k c.operations ≡ some p))
  written-cases k p e = ground (arith, lookup-written k, text_eq_iff o.idempotency_hash k)

  module _ (h : IsConsistent c)
      (own : (k : Text) (p : Operation)
        → lookup k c.operations ≡ some p
        → p.operation_id ≡ o.operation_id
        → k ≡ o.idempotency_hash)
      (alone : (k : Text) (p : Operation)
        → lookup k c.operations ≡ some p
        → is_blocking p.state ≡ true
        → k ≡ o.idempotency_hash)
      (marked : d.active ≡ (if is_blocking o.state then running o else absent)) where
    written_unique :
        (k j : Text) (p q : Operation)
        → lookup k d.operations ≡ some p
        → lookup j d.operations ≡ some q
        → p.operation_id ≡ q.operation_id
        → k ≡ j
    written_unique k j p q ek ej e = elim (written-cases k p ek) [
      | inl (kh, po) ↦ elim (written-cases j q ej) [
        | inl (jh, qo) ↦ kh ∙ sym jh
        | inr (jn, at) ↦ kh ∙ sym (own j q at (sym e ∙ ap (λ (x : Operation). x.operation_id) po))
      ]
      | inr (kn, at) ↦ elim (written-cases j q ej) [
        | inl (jh, qo) ↦ own k p at (e ∙ ap (λ (x : Operation). x.operation_id) qo) ∙ sym jh
        | inr (jn, at') ↦ h.unique k j p q at at' e
      ]
    ]

    written-stored :
        (a : Operation) → d.active ≡ running a → lookup a.idempotency_hash d.operations ≡ some a
    written-stored a e = elim (Bool-cases (is_blocking o.state)) [
      | inl b ↦ let ao : o ≡ a = running_injective o a (sym (rw b at marked) ∙ e) in subst-at a ao
      | inr b ↦ cc (rw b at marked)
    ]
      where
        subst-at : (a : Operation) → o ≡ a → lookup a.idempotency_hash d.operations ≡ some a
        subst-at a ao = rw (← ao) lookup-written_self

    written-blocking : (a : Operation) → d.active ≡ running a → is_blocking a.state ≡ true
    written-blocking a e = elim (Bool-cases (is_blocking o.state)) [
      | inl b ↦ rw (← running_injective o a (sym (rw b at marked) ∙ e)) b
      | inr b ↦ cc (rw b at marked)
    ]

    written-only :
        (k : Text) (p : Operation)
        → lookup k d.operations ≡ some p
        → is_blocking p.state ≡ true
        → d.active ≡ running p
    written-only k p e b = elim (written-cases k p e) [
      | inl (kh, po) ↦ rw (marked, po, rw po at b) refl
      | inr (kn, at) ↦ absurd (kn (alone k p at b))
    ]

    pub written-IsConsistent : IsConsistent d
    written-IsConsistent = record {
      dict = rw written (insert-IsDict o.idempotency_hash o c.operations h.dict);
      keyed = λ k p e. elim (written-cases k p e) [
        | inl (kh, po) ↦ ap (λ (x : Operation). x.idempotency_hash) po ∙ sym kh
        | inr (kn, at) ↦ h.keyed k p at
      ];
      unique = written_unique;
      stored = written-stored;
      blocking = written-blocking;
      only = written-only;
    }

  -- A copy stays known if the operation that was written is of its origin.
  pub written-Known :
      ((p : Operation) → lookup o.idempotency_hash c.operations ≡ some p → SameOrigin o p)
      → (x : Operation) → Known x c
      → Known x d
  written-Known origin x k = elim (Bool-cases (text_eq o.idempotency_hash x.idempotency_hash)) [
    | inl e ↦
        let e' = (text_eq_iff o.idempotency_hash x.idempotency_hash).0 e in
        record {
          now = o;
          on_record = rw (← e') lookup-written_self;
          origin = SameOrigin-trans o k.now x (origin k.now (rw e' k.on_record)) k.origin;
        }
    | inr e ↦ record {
      now = k.now;
      on_record = ground (arith, lookup-written x.idempotency_hash);
      origin = k.origin;
    }
  ]
