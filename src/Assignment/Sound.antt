-- ===== src/Assignment/Sound.antt =====
-- What holds of the coordinator of main_assignment.py in every reachable state.
use aimili_gateway.Prelude.{◌≡◌, refl, sym, ◌∙◌, inl, inr, Option, some}
use aimili_gateway.Prelude.Dicts.{IsDict}
use aimili_gateway.Assignment.Types.{Document, Coordinator, Settings, Hashing}
use aimili_gateway.Assignment.Validate.{start}
use aimili_gateway.Assignment.ValidateSound.{start-IsConsistent}
use aimili_gateway.Assignment.Consistency.{IsConsistent}
use aimili_gateway.Assignment.Moves.{Move-IsConsistent}
use aimili_gateway.Assignment.Saves.{Saves}
use aimili_gateway.Assignment.Shape.{Carries, Section-Changes}
use aimili_gateway.Assignment.World.{
  World, Section, Step, runs, restarts, Reach, here, next, Lives, started,
}

-- The file's objects have no key twice: so `json.loads` builds them.
abbrev pub IsFile : Option Document → Type 0
IsFile file = (d : Document) → file ≡ some d → IsDict d.operations

pub record IsSound (w : World) : Type 0 where
  pub consistent : IsConsistent w.coord
  pub carries : Carries w.coord w.flights
  pub file : IsFile w.coord.disk

disk-start : (file : Option Document) → (start file).disk ≡ file
unfolding start
disk-start file = refl

pub started-IsSound : (file : Option Document) → IsFile file → IsSound (started file)
started-IsSound file h = record {
  consistent = start-IsConsistent file h;
  carries = tt;
  file = λ d e. h d (sym (disk-start file) ∙ e);
}

some_document : (a b : Document) → some a ≡ some b → a ≡ b
some_document a b e = cc

saved-IsFile : (c d : Coordinator) → IsFile c.disk → IsConsistent d → Saves c d → IsFile d.disk
saved-IsFile c d h k (inl (e, _)) x f = h x (sym e ∙ f)
saved-IsFile c d h k (inr e) x f = rw (← some_document d.doc x (sym e ∙ f)) k.dict

pub Section-IsSound :
    {g : Hashing} {cfg : Settings} (w u : World) → IsSound w → Section g cfg w u → IsSound u
Section-IsSound w u h s =
    let c = Section-Changes w u h.consistent h.carries s in
    let k = Move-IsConsistent w.coord u.coord h.consistent c.move in
    record {
      consistent = k;
      carries = c.carries;
      file = saved-IsFile w.coord u.coord h.file k c.saves;
    }

pub Step-IsSound :
    {g : Hashing} {cfg : Settings} (w u : World) → IsSound w → Step g cfg w u → IsSound u
Step-IsSound w u h (runs s) = Section-IsSound w u h s
Step-IsSound w u h (restarts e) = rw e (started-IsSound w.coord.disk h.file)

pub Reach-IsSound :
    {g : Hashing} {cfg : Settings} {w u : World} → IsSound w → Reach g cfg w u → IsSound u
Reach-IsSound h here = h
Reach-IsSound {u = u} h (next {u = v} r s) = Step-IsSound v u (Reach-IsSound h r) s

pub Lives-IsSound :
    {g : Hashing} {cfg : Settings} {w u : World} → IsSound w → Lives g cfg w u → IsSound u
Lives-IsSound h here = h
Lives-IsSound {u = u} h (next {u = v} r s) = Section-IsSound v u (Lives-IsSound h r) s

-- However threads interleave and however often the process restarts, from any file whose history
-- has no key twice: the history's keys are its operations' idempotency hashes, identifiers are
-- unique, and at most one operation blocks, which is the active one.
pub Reach-IsConsistent :
    {g : Hashing} {cfg : Settings} {w : World} (file : Option Document)
    → IsFile file
    → Reach g cfg (started file) w
    → IsConsistent w.coord
Reach-IsConsistent file h r = (Reach-IsSound (started-IsSound file h) r).consistent
