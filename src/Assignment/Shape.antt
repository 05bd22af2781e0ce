-- ===== src/Assignment/Shape.antt =====
-- A section of World.antt makes one change of Consistency.antt and saves it.
use aimili_gateway.Prelude.{◌≡◌, refl, Bool, true, false, inl, Option, List, [], ◌∷◌, All}
use aimili_gateway.Assignment.Types.{
  ErrorCode, Operation, Coordinator, Settings, Hashing, Begun, answered, calls,
}
use aimili_gateway.Assignment.Document.{discard_live}
use aimili_gateway.Assignment.Restore.{restore_finish}
use aimili_gateway.Assignment.Consistency.{IsConsistent, Known, Move, stay}
use aimili_gateway.Assignment.Moves.{Move-Known}
use aimili_gateway.Assignment.Copies.{discard-Move, active-Known}
use aimili_gateway.Assignment.LeaseMoves.{expire-Move, acquire-Move, renew-Move, release-Move}
use aimili_gateway.Assignment.RestoreMoves.{
  restore_begin-Move, restore_begin-Known, restore_finish-Move,
}
use aimili_gateway.Assignment.FinishMoves.{commit-Move, rollback_begin-Known, recover_begin-active}
use aimili_gateway.Assignment.StageMoves.{stage_begin-Move, stage_begin-Known}
use aimili_gateway.Assignment.StageFinishMoves.{stage_finish-Move, stage_finish-Known}
use aimili_gateway.Assignment.RepairMoves.{
  repair_begin-Move, repair_begin-Known, repair_finish-Move,
}
use aimili_gateway.Assignment.Saves.{
  Saves, expire-Saves, acquire-Saves, renew-Saves, release-Saves, commit-Saves, restore_begin-Saves,
  restore_finish-Saves, stage_begin-Saves, stage_finish-Saves, repair_begin-Saves,
  repair_finish-Saves,
}
use aimili_gateway.Assignment.World.{
  Flight, in_stage, in_repair, to_restore, in_restore, World, Takes, here, there, land, settle,
  settle_begun, Section, asks, acquires, renews, releases, stages, stage_returns, commits,
  rolls_back, recovers, repairs, repair_returns, restores, restore_returns,
}

-- The operation that a flight carries.
abbrev pub copy : Flight → Operation
copy (in_stage o) = o
copy (in_repair o x) = o
copy (to_restore o x s) = o
copy (in_restore o x s) = o

-- Every flight carries a copy of an operation on record.
abbrev pub Carries : Coordinator → List Flight → Type 0
Carries c fs = All (λ f. Known (copy f) c) fs

Takes-Carries :
    {f : Flight} {fs rest : List Flight} (c : Coordinator)
    → Takes f fs rest
    → Carries c fs
    → Known (copy f) c × Carries c rest
Takes-Carries c here h = (h.0, h.1)
Takes-Carries c (there t) h = let (p, others) = Takes-Carries c t h.1 in (p, (h.0, others))

Carries-Move :
    (c d : Coordinator) (fs : List Flight) → IsConsistent c → Move c d → Carries c fs → Carries d fs
Carries-Move c d [] h m k = tt
Carries-Move c d (f ∷ fs) h m k = (Move-Known c d h m (copy f) k.0, Carries-Move c d fs h m k.1)

-- A saved change after which the flights carry copies.
pub record Changes (c : Coordinator) (u : World) : Type 0 where
  pub move : Move c u.coord
  pub saves : Saves c u.coord
  pub carries : Carries u.coord u.flights

module _ (c : Coordinator) (h : IsConsistent c) where
  -- A section that ends its method.
  ends :
      (d : Coordinator) (fs : List Flight)
      → Carries c fs
      → Move c d
      → Saves c d
      → Changes c (record { coord = d; flights = fs })
  ends d fs k m s = record { move = m; saves = s; carries = Carries-Move c d fs h m k }

  -- A section that may call out.
  lands :
      (d : Coordinator) (b : Begun) (fs : List Flight) (flight : Operation → Flight)
      → ((p : Operation) → copy (flight p) ≡ p)
      → Carries c fs
      → Move c d
      → Saves c d
      → ((p : Operation) → b ≡ calls p → Known p d)
      → Changes c (land fs flight (d, b))
  lands d (answered r) fs flight e k m s n = ends d fs k m s
  lands d (calls p) fs flight e k m s n = record {
    move = m;
    saves = s;
    carries = (rw e (n p refl), Carries-Move c d fs h m k);
  }

discard-Saves :
    (c d : Coordinator) (o : Operation) → Saves c d → Saves c (discard_live o.operation_id d)
unfolding discard_live
discard-Saves c d o s = s

module _ (c d : Coordinator) (o : Operation) where
  settle-Move : (s : Bool) → Move c d → Move c (settle s o d)
  unfolding settle
  settle-Move true m = discard-Move d o.operation_id m
  settle-Move false m = m

  settle-Saves : (s : Bool) → Saves c d → Saves c (settle s o d)
  unfolding settle
  settle-Saves true m = discard-Saves c d o m
  settle-Saves false m = m

module _ (c : Coordinator) (h : IsConsistent c) (o : Operation) (s : Bool) (fs : List Flight)
    (x : Option ErrorCode) (k : Carries c fs) where
  settled :
      (d : Coordinator) (b : Begun)
      → Move c d
      → Saves c d
      → ((p : Operation) → b ≡ calls p → Known p d)
      → Changes c (land fs (λ p. in_restore p x s) (settle_begun s o (d, b)))
  settled d (answered r) m w n =
      ends c h (settle s o d) fs k (settle-Move c d o s m) (settle-Saves c d o s w)
  settled d (calls p) m w n = lands c h d (calls p) fs (λ y. in_restore y x s) (λ y. refl) k m w n

-- From a consistent document whose flights carry copies, every section makes such changes.
pub Section-Changes :
    {g : Hashing} {cfg : Settings} (w u : World)
    → IsConsistent w.coord
    → Carries w.coord w.flights
    → Section g cfg w u
    → Changes w.coord u
Section-Changes w u h k (asks t e) =
    rw e (ends w.coord h _ _ k (expire-Move w.coord t) (expire-Saves w.coord t))
Section-Changes {g} {cfg} w u h k (acquires a b f i e) = rw e (
    ends w.coord h _ _ k (acquire-Move w.coord h cfg g a b f i)
      (acquire-Saves w.coord g cfg a b f i))
Section-Changes {g} {cfg} w u h k (renews a b i e) =
    rw e (ends w.coord h _ _ k (renew-Move w.coord h cfg a b i) (renew-Saves w.coord cfg a b i))
Section-Changes {g} {cfg} w u h k (releases a i e) =
    rw e (ends w.coord h _ _ k (release-Move w.coord h cfg a i) (release-Saves w.coord a i))
Section-Changes {g} {cfg} w u h k (stages t a b i s fresh e) = rw e (
    lands w.coord h _ _ _ in_stage (λ p. refl) k (stage_begin-Move g cfg t a b i s w.coord h fresh)
      (stage_begin-Saves w.coord g cfg t a b i s)
      (stage_begin-Known g cfg t a b i s w.coord h fresh))
Section-Changes w u h k (stage_returns o v rest tk e) =
    let (mine, others) = Takes-Carries w.coord tk k in
    rw e (
      lands w.coord h _ _ rest _ (λ p. refl) others (stage_finish-Move w.coord h o v mine)
        (stage_finish-Saves w.coord o v) (stage_finish-Known w.coord h o v mine))
Section-Changes w u h k (commits a b i e) =
    rw e (ends w.coord h _ _ k (commit-Move w.coord a b i h) (commit-Saves w.coord a b i))
Section-Changes w u h k (rolls_back i e) = rw e (
    lands w.coord h w.coord _ _ _ (λ p. refl) k (stay w.coord) (inl (refl, refl))
      (rollback_begin-Known w.coord h i))
Section-Changes w u h k (recovers t e) = rw e (
    lands w.coord h w.coord _ _ _ (λ p. refl) k (stay w.coord) (inl (refl, refl))
      (λ p q. active-Known w.coord p h (recover_begin-active w.coord h t p q)))
Section-Changes {g} {cfg} w u h k (repairs a b plan i is e) = rw e (
    lands w.coord h _ _ _ _ (λ p. refl) k (repair_begin-Move g cfg a b plan i w.coord h)
      (repair_begin-Saves w.coord g cfg a b plan i) (repair_begin-Known g cfg a b plan i w.coord h))
Section-Changes w u h k (repair_returns o x v rest tk e) =
    let (mine, others) = Takes-Carries w.coord tk k in
    rw e (
      ends w.coord h _ rest others (repair_finish-Move w.coord h o v x mine)
        (repair_finish-Saves w.coord o v x))
Section-Changes w u h k (restores o x s rest tk e) =
    let (mine, others) = Takes-Carries w.coord tk k in
    rw e (
      settled w.coord h o s rest x others _ _ (restore_begin-Move w.coord h o)
        (restore_begin-Saves w.coord o) (λ p. restore_begin-Known w.coord o p))
Section-Changes w u h k (restore_returns o x s v rest tk e) =
    let (mine, others) = Takes-Carries w.coord tk k in
    let d = (restore_finish o v x w.coord).0 in
    rw e (
      ends w.coord h _ rest others
        (settle-Move w.coord d o s (restore_finish-Move w.coord h o v x mine))
        (settle-Saves w.coord d o s (restore_finish-Saves w.coord o v x)))
