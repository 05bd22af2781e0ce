-- ===== src/Assignment/Moves.antt =====
-- Every kind of change keeps the document of main_assignment.py consistent, and keeps what threads
-- know of its operations.
use aimili_gateway.Prelude.{Text, ◌≡◌, sym, ap, ◌∙◌, true, inl, inr, some, if◌then◌else◌}
use aimili_gateway.Prelude.Dicts.{lookup}
use aimili_gateway.Assignment.Types.{OpState, is_blocking, Operation, absent, running, Coordinator}
use aimili_gateway.Assignment.Lease.{held}
use aimili_gateway.Assignment.Consistency.{
  IsConsistent, SameOrigin, Known, Move, same, opened, updated,
}
use aimili_gateway.Assignment.Written.{
  running_injective, some_injective, none-ne-some, SameOrigin-symm, written-IsConsistent,
  written-Known,
}

-- A change after one that left the operations alone is one change.
pub Move-after :
    (c e d : Coordinator)
    → e.active ≡ c.active
    → e.operations ≡ c.operations
    → (held e.mutation_lease ≡ true → held c.mutation_lease ≡ true)
    → Move e d
    → Move c d
Move-after c e d ea eo el (same da do' l) =
    same (da ∙ ea) (do' ∙ eo) (λ x. elim (l x) [ inl y ↦ inl (el y) | inr y ↦ inr (sym ea ∙ y) ])
Move-after c e d ea eo el (opened o a new fresh st da do' l) =
    opened o (sym ea ∙ a) (rw eo at new) (λ k p at. fresh k p (rw eo at)) st da (rw eo at do') l
Move-after c e d ea eo el (updated a o act edge da do' l) =
    updated a o (sym ea ∙ act) edge da (rw eo at do') (λ x. el (l x))

module _ (c d : Coordinator) (h : IsConsistent c) where
  unchanged-IsConsistent : d.active ≡ c.active → d.operations ≡ c.operations → IsConsistent d
  unchanged-IsConsistent ea eo = record {
    dict = rw eo h.dict;
    keyed = λ k o e. h.keyed k o (rw eo at e);
    unique = λ k j o p e f. h.unique k j o p (rw eo at e) (rw eo at f);
    stored = λ a e. rw eo (h.stored a (rw ea at e));
    blocking = λ a e. h.blocking a (rw ea at e);
    only = λ k o e b. rw ea (h.only k o (rw eo at e) b);
  }

  no_blocking :
      c.active ≡ absent
      → (k : Text) (p : Operation) → lookup k c.operations ≡ some p
      → is_blocking p.state ≡ true
      → ⊥
  no_blocking e k p at b = cc (h.only k p at b)

  -- The operation under the key of the active one's successor is the active one.
  on_record_is_active :
      (a o p : Operation)
      → c.active ≡ running a
      → SameOrigin a o
      → lookup o.idempotency_hash c.operations ≡ some p
      → p ≡ a
  on_record_is_active a o p e s at = some_injective p a (sym at ∙ rw (← s.hash) (h.stored a e))

  -- One locked section keeps the document consistent.
  pub Move-IsConsistent : Move c d → IsConsistent d
  Move-IsConsistent (same ea eo l) = unchanged-IsConsistent ea eo
  Move-IsConsistent (opened o ea new fresh st da do' l) =
      written-IsConsistent c d o do' h (λ k p at e. absurd (fresh k p at e))
        (λ k p at b. absurd (no_blocking ea k p at b))
        (unfold is_blocking in
          da ∙ ap (λ (s : OpState). if is_blocking s then running o else absent) (sym st))
  Move-IsConsistent (updated a o ea edge da do' l) =
      written-IsConsistent c d o do' h
        (λ k p at e.
          h.unique k a.idempotency_hash p a at (h.stored a ea) (e ∙ sym edge.origin.id)
          ∙ edge.origin.hash)
        (λ k p at b.
          sym (h.keyed k p at)
          ∙ ap (λ (x : Operation). x.idempotency_hash)
              (running_injective p a (sym (h.only k p at b) ∙ ea))
          ∙ edge.origin.hash)
        da

  -- A copy that a thread holds stays a copy of an operation on record.
  pub Move-Known : Move c d → (x : Operation) → Known x c → Known x d
  Move-Known (same ea eo l) x k = record {
    now = k.now;
    on_record = rw eo k.on_record;
    origin = k.origin;
  }
  Move-Known (opened o ea new fresh st da do' l) x k =
      written-Known c d o do' (λ p at. absurd (none-ne-some p (sym new ∙ at))) x k
  Move-Known (updated a o ea edge da do' l) x k =
      written-Known c d o do'
        (λ p at. rw (on_record_is_active a o p ea edge.origin at) (SameOrigin-symm a o edge.origin))
        x k
