-- ===== src/Assignment/History.antt =====
-- The history of main_assignment.py within the life of a process: operations are never lost, they
-- follow the transitions, and a request that is repeated gets the operation that it started.
use aimili_gateway.Prelude.{
  ℕ, Text, ◌≡◌, refl, sym, ap, ◌∙◌, subst, true, false, inl, inr, some, List, arith, text_eq,
  text_eq_iff, Bool-cases, if◌then◌else◌,
}
use aimili_gateway.Prelude.Dicts.{lookup}
use aimili_gateway.Assignment.Types.{
  OpState, is_blocking, Operation, Coordinator, Settings, Hashing, operation, failed,
  idempotency_conflict, Begun, answered, calls,
}
use aimili_gateway.Assignment.Document.{public_view}
use aimili_gateway.Assignment.Stage.{
  StageCall, stage_begin, stage_known, stage_against, new_operation, stage_request_hash,
  stage_request,
}
use aimili_gateway.Assignment.Consistency.{
  IsConsistent, Move, same, opened, updated, Edge, SameOrigin, may_follow,
}
use aimili_gateway.Assignment.Written.{
  some_injective, none-ne-some, SameOrigin-refl, SameOrigin-trans, lookup-written,
}
use aimili_gateway.Assignment.Shape.{Section-Changes}
use aimili_gateway.Assignment.World.{
  Flight, World, in_stage, land, Section, stages, Lives, here, next,
}
use aimili_gateway.Assignment.StageMoves.{IsFresh, begin-calls, stage_begin-Known}
use aimili_gateway.Assignment.Sound.{IsSound, Section-IsSound, Lives-IsSound}

-- What becomes of an operation in one section: nothing, or a transition.
pub data Becomes (o p : Operation) : Type 0 where
  stays : p ≡ o → Becomes o p
  moves : Edge o p → Becomes o p

module _ (c d : Coordinator) (h : IsConsistent c) (k : Text) (o : Operation)
    (at : lookup k c.operations ≡ some o) where
  -- A key of the history before the change, as it reads after the change.
  elsewhere :
      (p : Operation)
      → text_eq p.idempotency_hash k ≡ false
      → lookup k d.operations
        ≡ (if text_eq p.idempotency_hash k then some p else lookup k c.operations)
      → (q : Operation) × (lookup k d.operations ≡ some q) × Becomes o q
  elsewhere p n e = (o, e ∙ rw n at, stays refl)

  updated-Becomes :
      (a p : Operation)
      → Edge a p
      → lookup a.idempotency_hash c.operations ≡ some a
      → lookup k d.operations
        ≡ (if text_eq p.idempotency_hash k then some p else lookup k c.operations)
      → (q : Operation) × (lookup k d.operations ≡ some q) × Becomes o q
  updated-Becomes a p g st e = elim (Bool-cases (text_eq p.idempotency_hash k)) [
    | inr n ↦ elsewhere p n e
    | inl y ↦
        let key = g.origin.hash ∙ (text_eq_iff p.idempotency_hash k).0 y in
        let a_is_o : a ≡ o =
          some_injective a o (sym st ∙ ap (λ (x : Text). lookup x c.operations) key ∙ at) in
        (p, e ∙ rw y refl, moves (subst (λ (x : Operation). Edge x p) a_is_o g))
  ]

  pub Move-Becomes : Move c d → (q : Operation) × (lookup k d.operations ≡ some q) × Becomes o q
  Move-Becomes (same ea eo l) = (o, rw eo at, stays refl)
  Move-Becomes (opened p a n f s da do' l) = elim (Bool-cases (text_eq p.idempotency_hash k)) [
    | inr m ↦ elsewhere p m (lookup-written c d p do' k)
    | inl y ↦ absurd (
        none-ne-some o (
          sym n
          ∙ ap (λ (x : Text). lookup x c.operations) ((text_eq_iff p.idempotency_hash k).0 y)
          ∙ at))
  ]
  Move-Becomes (updated a p e g da do' l) =
      updated-Becomes a p g (h.stored a e) (lookup-written c d p do' k)

-- From a sound state, in one section, every operation on record stays on record under its key,
-- and stays as it is or makes a transition of the state machine that keeps its origin and claims
-- no check that was not made.
pub Section-Becomes :
    {g : Hashing} {cfg : Settings} (w u : World) (k : Text) (o : Operation)
    → IsSound w
    → Section g cfg w u
    → lookup k w.coord.operations ≡ some o
    → (q : Operation) × (lookup k u.coord.operations ≡ some q) × Becomes o q
Section-Becomes w u k o h s at =
    Move-Becomes w.coord u.coord h.consistent k o at
      (Section-Changes w u h.consistent h.carries s).move

-- An operation in the course of a process: its origin stays, and a finished one does not change.
pub record Later (o q : Operation) : Type 0 where
  pub origin : SameOrigin o q
  pub final : is_blocking o.state ≡ false → q ≡ o

no_way_on : (s t : OpState) → is_blocking s ≡ false → may_follow s t ≡ true → ⊥
unfolding is_blocking may_follow
no_way_on s t b f = ground arith

Becomes-Later : (o q : Operation) → Becomes o q → Later o q
Becomes-Later o q (stays e) = record { origin = rw e (SameOrigin-refl o); final = λ _. e }
Becomes-Later o q (moves g) = record {
  origin = g.origin;
  final = λ b. absurd (no_way_on o.state q.state b g.follows);
}

Later-trans : (o p q : Operation) → Later o p → Becomes p q → Later o q
Later-trans o p q h b =
    let k = Becomes-Later p q b in
    record {
      origin = SameOrigin-trans o p q h.origin k.origin;
      final = λ e. k.final (rw (h.final e) e) ∙ h.final e;
    }

pub Lives-Later :
    {g : Hashing} {cfg : Settings} {w u : World} (k : Text) (o : Operation)
    → IsSound w
    → Lives g cfg w u
    → lookup k w.coord.operations ≡ some o
    → (q : Operation) × (lookup k u.coord.operations ≡ some q) × Later o q
Lives-Later k o h here at = (o, at, record { origin = SameOrigin-refl o; final = λ _. refl })
Lives-Later {u = u} k o h (next {u = v} r s) at =
    let (p, at', l) = Lives-Later k o h r at in
    let (q, at'', b) = Section-Becomes v u k p (Lives-IsSound h r) s at' in
    (q, at'', Later-trans o p q l b)

stage_on_record :
    (g : Hashing) (cfg : Settings) (t created expires : ℕ) (id : Text) (s : StageCall)
    (c : Coordinator) (q : Operation)
    → lookup (g.sha256 s.idempotency_key) c.operations ≡ some q
    → stage_begin g cfg t created expires id s c ≡ (
      c,
      answered (
          if text_eq q.request_hash (stage_request_hash g (stage_request s))
          then operation (public_view q)
          else failed idempotency_conflict),
    )
unfolding stage_begin stage_known
stage_on_record g cfg t created expires id s c q e = rw (e, stage_against) refl

land-coord :
    (fs : List Flight) (f : Operation → Flight) (c : Coordinator) (b : Begun)
    → (land fs f (c, b)).coord ≡ c
land-coord fs f c (answered r) = refl
land-coord fs f c (calls o) = refl

new_facts :
    (g : Hashing) (cfg : Settings) (created expires : ℕ) (id : Text) (s : StageCall) (o : Operation)
    → new_operation g cfg created expires id s ≡ o
    → (o.idempotency_hash ≡ g.sha256 s.idempotency_key)
      × (o.request_hash ≡ stage_request_hash g (stage_request s))
      × (o.operation_id ≡ id)
unfolding new_operation
new_facts g cfg created expires id s o e = (
  sym (ap (λ (x : Operation). x.idempotency_hash) e),
  sym (ap (λ (x : Operation). x.request_hash) e),
  sym (ap (λ (x : Operation). x.operation_id) e),
)

-- From a sound state and with a fresh identifier, a request that `stage` accepted is remembered
-- for the life of the process. Whatever else has happened, a later `stage` with the same
-- idempotency key changes nothing: it answers with the public view of an operation that has the
-- first one's identifier, or with a conflict if the request's hash differs.
pub stage_idempotent :
    (g : Hashing) (cfg : Settings) (w u : World) (t created expires : ℕ) (id : Text) (s : StageCall)
    (o : Operation)
    → IsSound w
    → IsFresh id w.coord
    → (stage_begin g cfg t created expires id s w.coord).1 ≡ calls o
    → Lives g cfg (land w.flights in_stage (stage_begin g cfg t created expires id s w.coord)) u
    → (t' created' expires' : ℕ) (id' : Text) (s' : StageCall)
    → s'.idempotency_key ≡ s.idempotency_key
    → (q : Operation) × (q.operation_id ≡ id)
      × (stage_begin g cfg t' created' expires' id' s' u.coord ≡ (
        u.coord,
        answered (
            if text_eq
              (stage_request_hash g (stage_request s))
              (stage_request_hash g (stage_request s'))
            then operation (public_view q)
            else failed idempotency_conflict),
      ))
stage_idempotent g cfg w u t created expires id s o h fresh e l t' created' expires' id' s' key =
    let b = stage_begin g cfg t created expires id s w.coord in
    let k = stage_begin-Known g cfg t created expires id s w.coord h.consistent fresh o e in
    let sound =
      Section-IsSound w (land w.flights in_stage b) h (stages t created expires id s fresh refl) in
    let new = begin-calls g cfg t created expires id s w.coord o e in
    let at =
      ap (λ (c : Coordinator). lookup o.idempotency_hash c.operations)
        (land-coord w.flights in_stage b.0 b.1)
      ∙ k.on_record in
    let (q, at', later) = Lives-Later o.idempotency_hash k.now sound l at in
    let (hash, request, name) = new_facts g cfg created expires id s o new in
    let asked = sym later.origin.request ∙ k.origin.request ∙ request in
    (
      q,
      sym later.origin.id ∙ k.origin.id ∙ name,
      stage_on_record g cfg t' created' expires' id' s' u.coord q
            (ap (λ (x : Text). lookup x u.coord.operations) (ap g.sha256 key ∙ sym hash) ∙ at')
          ∙ ap
              (λ (x : Text). (
                u.coord,
                answered (
                    if text_eq x (stage_request_hash g (stage_request s'))
                    then operation (public_view q)
                    else failed idempotency_conflict),
              ))
              asked,
    )
