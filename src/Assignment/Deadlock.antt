-- ===== src/Assignment/Deadlock.antt =====
-- A process of main_assignment.py that starts from a file in which a rollback was under way.
use aimili_gateway.Prelude.{◌≡◌, refl, subst, ◌∙◌, true, false, some, List, All}
use aimili_gateway.Prelude.Dicts.{IsDict}
use aimili_gateway.Assignment.Types.{
  rolling_back, Operation, running, Document, Coordinator, Settings, Hashing, Begun, answered,
  calls,
}
use aimili_gateway.Assignment.LeaseMoves.{active-expire}
use aimili_gateway.Assignment.Validate.{start, valid_document}
use aimili_gateway.Assignment.Stuck.{
  lease-active, renew-active, release-active, stage-active, stage-silent, restore-active,
  restore-silent, repair-still, commit-active,
}
use aimili_gateway.Assignment.World.{
  Flight, in_stage, in_repair, to_restore, in_restore, World, Takes, here, there, land,
  settle_begun, settle, Section, asks, acquires, renews, releases, stages, stage_returns, commits,
  rolls_back, recovers, repairs, repair_returns, restores, restore_returns, Lives, next, started,
}
use aimili_gateway.Assignment.Document.{discard_live}
use aimili_gateway.Assignment.Sound.{IsSound, IsFile, started-IsSound, Lives-IsSound}

-- The flights of a process that has nothing to wait for: calls of `_restore` that have not begun.
abbrev IsWaiting : Flight → Type 0
IsWaiting (to_restore o x s) = Unit
IsWaiting (in_stage o) = ⊥
IsWaiting (in_repair o x) = ⊥
IsWaiting (in_restore o x s) = ⊥

abbrev Waits : List Flight → Type 0
Waits fs = All IsWaiting fs

Takes-Waits :
    {f : Flight} {fs rest : List Flight} → Takes f fs rest → Waits fs → IsWaiting f × Waits rest
Takes-Waits here h = (h.0, h.1)
Takes-Waits (there t) h = let (p, q) = Takes-Waits t h.1 in (p, (h.0, q))

record IsStuck (a : Operation) (w : World) : Type 0 where
  active : w.coord.active ≡ running a
  waits : Waits w.flights

module _ (a : Operation) where
  ends-IsStuck :
      (c d : Coordinator) (fs : List Flight)
      → c.active ≡ running a
      → d.active ≡ c.active
      → Waits fs
      → IsStuck a (record { coord = d; flights = fs })
  ends-IsStuck c d fs e k w = record { active = k ∙ e; waits = w }

  lands-IsStuck :
      (c d : Coordinator) (b : Begun) (fs : List Flight) (flight : Operation → Flight)
      → c.active ≡ running a
      → d.active ≡ c.active
      → Waits fs
      → ((o : Operation) → b ≡ calls o → IsWaiting (flight o))
      → IsStuck a (land fs flight (d, b))
  lands-IsStuck c d (answered x) fs flight e k w n = ends-IsStuck c d fs e k w
  lands-IsStuck c d (calls o) fs flight e k w n = record { active = k ∙ e; waits = (n o refl, w) }

  settled-IsStuck :
      (c d : Coordinator) (b : Begun) (fs : List Flight) (o : Operation) (x : _) (s : _)
      → c.active ≡ running a
      → d.active ≡ c.active
      → Waits fs
      → ((p : Operation) → b ≡ calls p → ⊥)
      → IsStuck a (land fs (λ y. in_restore y x s) (settle_begun s o (d, b)))
  settled-IsStuck c d (calls p) fs o x s e k w n = absurd (n p refl)
  settled-IsStuck c d (answered r) fs o x true e k w n =
      unfold settle discard_live in ends-IsStuck c _ fs e k w
  settled-IsStuck c d (answered r) fs o x false e k w n = unfold settle in ends-IsStuck c d fs e k w

  module _ {g : Hashing} {cfg : Settings} (w u : World) (h : IsSound w) (r : a.state ≡ rolling_back)
      (st : IsStuck a w) where
    Section-IsStuck : Section g cfg w u → IsStuck a u
    Section-IsStuck (asks t e) =
        rw e (ends-IsStuck w.coord _ _ st.active (active-expire w.coord t) st.waits)
    Section-IsStuck (acquires x y i k e) = rw e (
        ends-IsStuck w.coord _ _ st.active (lease-active w.coord a (st.active, r) g cfg x y i k)
          st.waits)
    Section-IsStuck (renews x y i e) = rw e (
        ends-IsStuck w.coord _ _ st.active (renew-active w.coord a (st.active, r) cfg x y i)
          st.waits)
    Section-IsStuck (releases x i e) =
        rw e (
          ends-IsStuck w.coord _ _ st.active (release-active w.coord a (st.active, r) x i) st.waits)
    Section-IsStuck (stages t x y i s fresh e) = rw e (
        lands-IsStuck w.coord _ _ _ in_stage st.active
          (stage-active w.coord a (st.active, r) g cfg t x y i s) st.waits
          (λ o q. stage-silent w.coord a (st.active, r) g cfg t x y i s o q))
    Section-IsStuck (stage_returns o v rest tk e) = absurd (Takes-Waits tk st.waits).0
    Section-IsStuck (commits x y i e) = rw e (
        ends-IsStuck w.coord _ _ st.active
          (commit-active w.coord a x y i (st.active, r) h.consistent) st.waits)
    Section-IsStuck (rolls_back i e) =
        rw e (lands-IsStuck w.coord w.coord _ _ _ st.active refl st.waits (λ o q. tt))
    Section-IsStuck (recovers t e) =
        rw e (lands-IsStuck w.coord w.coord _ _ _ st.active refl st.waits (λ o q. tt))
    Section-IsStuck (repairs x y plan i is e) = rw e (
        lands-IsStuck w.coord _ _ _ _ st.active
          (repair-still w.coord a (st.active, r) h.consistent i g cfg x y plan a).0 st.waits
          (λ o q.
            absurd ((repair-still w.coord a (st.active, r) h.consistent i g cfg x y plan o).1 q)))
    Section-IsStuck (repair_returns o x v rest tk e) = absurd (Takes-Waits tk st.waits).0
    Section-IsStuck (restores o x s rest tk e) = rw e (
        settled-IsStuck w.coord _ _ rest o x s st.active (restore-active w.coord a (st.active, r) o)
          (Takes-Waits tk st.waits).1 (λ p q. restore-silent w.coord a (st.active, r) o p q))
    Section-IsStuck (restore_returns o x s v rest tk e) = absurd (Takes-Waits tk st.waits).0

Lives-IsStuck :
    {g : Hashing} {cfg : Settings} {w u : World} (a : Operation)
    → IsSound w
    → a.state ≡ rolling_back
    → IsStuck a w
    → Lives g cfg w u
    → IsStuck a u
Lives-IsStuck a h r st Lives.here = st
Lives-IsStuck {u = u} a h r st (next {u = v} l s) =
    Section-IsStuck a v u (Lives-IsSound h l) r (Lives-IsStuck a h r st l) s

document_injective : (a b : Document) → some a ≡ some b → a ≡ b
document_injective a b e = cc

read-active : (d : Document) → valid_document d ≡ true → (start (some d)).active ≡ d.active
unfolding start
read-active d v = rw v refl

pub some-IsFile : (d : Document) → IsDict d.operations → IsFile (some d)
some-IsFile d h x e = subst (λ (y : Document). IsDict y.operations) (document_injective d x e) h

-- A process that starts from a valid file, with no key twice in the history, whose active
-- operation is in `rolling_back` never gets out of it: whatever is called, in any order, by any
-- threads, as long as the process lives, that operation stays the active one, in that state.
pub rolling_back_stuck :
    {g : Hashing} {cfg : Settings} {w : World} (d : Document) (a : Operation)
    → IsDict d.operations
    → valid_document d ≡ true
    → d.active ≡ running a
    → a.state ≡ rolling_back
    → Lives g cfg (started (some d)) w
    → w.coord.active ≡ running a
rolling_back_stuck d a dict v e r l =
    (Lives-IsStuck a (started-IsSound (some d) (some-IsFile d dict)) r
      (record { active = read-active d v ∙ e; waits = tt }) l).active
