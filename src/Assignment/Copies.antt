-- ===== src/Assignment/Copies.antt =====
-- What a section of main_assignment.py knows of the copies that it works on.
use aimili_gateway.Prelude.{
  Text, ◌≡◌, refl, sym, ap, ◌∙◌, subst, Bool, true, Option, none, some, text_eq, text_eq_iff,
}
use aimili_gateway.Prelude.Dicts.{lookup, find_sound}
use aimili_gateway.Assignment.Types.{
  is_blocking, Operation, Active, absent, corrupt, running, Coordinator, Validation, calls,
}
use aimili_gateway.Assignment.Document.{
  save_operation, find_operation, with_validation, add_live, discard_live,
}
use aimili_gateway.Assignment.Finish.{is_active_id}
use aimili_gateway.Assignment.Consistency.{
  IsConsistent, SameOrigin, Known, Edge, Move, same, opened, updated,
}
use aimili_gateway.Assignment.Written.{some_injective, SameOrigin-refl, lookup-written_self}

-- A copy with the identifier of the active operation has its origin.
pub active_origin :
    (c : Coordinator) (a o : Operation)
    → IsConsistent c
    → Known o c
    → c.active ≡ running a
    → a.operation_id ≡ o.operation_id
    → SameOrigin a o
active_origin c a o h k e id =
    let same_key =
      h.unique o.idempotency_hash a.idempotency_hash k.now a k.on_record (h.stored a e)
        (k.origin.id ∙ sym id) in
    let now_is_a : k.now ≡ a =
      some_injective k.now a (sym k.on_record ∙ rw same_key (h.stored a e)) in
    subst (λ (x : Operation). SameOrigin x o) now_is_a k.origin

-- The change that saving a successor of the active operation makes.
pub save-Move :
    (c : Coordinator) (a o : Operation) (b : Bool)
    → c.active ≡ running a
    → Edge a o
    → b ≡ is_blocking o.state
    → Move c (save_operation o b c)
unfolding save_operation
save-Move c a o b e edge m = updated a o e edge (rw m refl) refl (λ l. l)

pub calls_injective : (o p : Operation) → calls o ≡ calls p → o ≡ p
calls_injective o p e = cc

pub save-Known : (c : Coordinator) (o : Operation) (b : Bool) → Known o (save_operation o b c)
unfolding save_operation
save-Known c o b = record {
  now = o;
  on_record = lookup-written_self c (save_operation o b c) o refl;
  origin = SameOrigin-refl o;
}

-- The copy that a section hands out, where it hands out what it saved.
pub save-Known_calls :
    (c : Coordinator) (o p : Operation) (b : Bool)
    → calls o ≡ calls p
    → Known p (save_operation o b c)
save-Known_calls c o p b e =
    subst (λ (x : Operation). Known x (save_operation o b c)) (calls_injective o p e)
      (save-Known c o b)

module _ (c : Coordinator) (h : IsConsistent c) (id : Text) (o : Operation)
    (found : find_operation id c ≡ some o) where
  found_on_record : lookup o.idempotency_hash c.operations ≡ some o
  unfolding find_operation
  found_on_record =
      let (k, at, e) = find_sound (λ o. text_eq o.operation_id id) c.operations o h.dict found in
      subst (λ (x : Text). lookup x c.operations ≡ some o) (sym (h.keyed k o at)) at

  -- What `_find_operation` returns is on record, under the identifier that was asked for.
  pub found-Known : Known o c
  found-Known = record { now = o; on_record = found_on_record; origin = SameOrigin-refl o }

  pub found_id : o.operation_id ≡ id
  unfolding find_operation
  found_id =
      let (k, at, e) = find_sound (λ o. text_eq o.operation_id id) c.operations o h.dict found in
      (text_eq_iff o.operation_id id).0 e

module _ (c : Coordinator) (h : IsConsistent c) (o : Operation)
    (k : lookup o.idempotency_hash c.operations ≡ some o) where
  active_cases :
      (a : Active) → c.active ≡ a → is_active_id o.operation_id a ≡ true → c.active ≡ running o
  unfolding is_active_id
  active_cases absent e m = cc
  active_cases corrupt e m = cc
  active_cases (running a) e m =
      let same_key =
        h.unique a.idempotency_hash o.idempotency_hash a o (h.stored a e) k
          ((text_eq_iff a.operation_id o.operation_id).0 m) in
      let a_is_o : a ≡ o = some_injective a o (sym (h.stored a e) ∙ rw same_key k) in
      e ∙ ap running a_is_o

module _ (c : Coordinator) (h : IsConsistent c) (id : Text) (o : Operation)
    (found : find_operation id c ≡ some o) where
  -- If the active operation has the identifier that was asked for, it is the one found.
  pub found_is_active : is_active_id id c.active ≡ true → c.active ≡ running o
  found_is_active e =
      active_cases c h o (found_on_record c h id o found) c.active refl
        (subst (λ (x : Text). is_active_id x c.active ≡ true) (sym (found_id c h id o found)) e)

pub active-Known :
    (c : Coordinator) (p : Operation) → IsConsistent c → c.active ≡ running p → Known p c
active-Known c p h e = record { now = p; on_record = h.stored p e; origin = SameOrigin-refl p }

-- A callback's answer does not change where an operation comes from.
pub checked-Known :
    (c : Coordinator) (o : Operation) (v : Option Validation)
    → Known o c
    → Known (with_validation v o) c
unfolding with_validation
checked-Known c o none k = record {
  now = k.now;
  on_record = k.on_record;
  origin = record {
    id = k.origin.id;
    hash = k.origin.hash;
    request = k.origin.request;
    created = k.origin.created;
  };
}
checked-Known c o (some v) k = record {
  now = k.now;
  on_record = k.on_record;
  origin = record {
    id = k.origin.id;
    hash = k.origin.hash;
    request = k.origin.request;
    created = k.origin.created;
  };
}

-- Discarding a live identifier leaves the document alone.
pub discard-Move :
    {c : Coordinator} (d : Coordinator) (x : Text) → Move c d → Move c (discard_live x d)
unfolding discard_live
discard-Move d x (same a b l) = same a b l
discard-Move d x (opened p a n f s da do' l) = opened p a n f s da do' l
discard-Move d x (updated a p e g da do' l) = updated a p e g da do' l

-- The change of a section that saves and then adds a live identifier.
pub add-Move : {c : Coordinator} (d : Coordinator) (x : Text) → Move c d → Move c (add_live x d)
unfolding add_live
add-Move d x (same a b l) = same a b l
add-Move d x (opened p a n f s da do' l) = opened p a n f s da do' l
add-Move d x (updated a p e g da do' l) = updated a p e g da do' l

pub add-Known : (c : Coordinator) (o : Operation) (x : Text) → Known o c → Known o (add_live x c)
unfolding add_live
add-Known c o x k = record { now = k.now; on_record = k.on_record; origin = k.origin }

pub discard-Known :
    (c : Coordinator) (o : Operation) (x : Text) → Known o c → Known o (discard_live x c)
unfolding discard_live
discard-Known c o x k = record { now = k.now; on_record = k.on_record; origin = k.origin }
