-- ===== src/Protocol/World.antt =====
-- What scripts/aimili_xui_protocol_transaction.py acts on, and how its calls can end. Every call that
-- leaves the process works, fails before or after it has taken effect, or is where the process dies,
-- before or after; which of these is given by a list, and calls after the list's end work.
use aimili_gateway.Prelude.{Text, Bool, true, false, Option, List, [], ◌∷◌}
use aimili_gateway.Protocol.Types.{Database, Stored, Code}

pub data Luck : Type 0 where
  works breaks breaks_late dies dies_late : Luck

-- The inbound that Xray runs under the tag, the database, snapshot.json, and whether the directory of
-- the operation holds a file rollback-inbound.json.
pub record State : Type 0 where
  pub runtime : Option Text
  pub database : Database
  pub stored : Option Stored
  pub leftover : Bool

pub record World : Type 0 where
  pub state : State
  pub open state use *
  pub luck : List Luck

-- How a piece of the program ends: it runs on, raises, or the process is dead.
pub data Result : Type 0 where
  done dead : Result
  raised : Code → Result

unfoldable pub outcome : Luck → (State → State) → Code → World → World × Result
outcome works f code w = (record w { state = f w.state }, done)
outcome breaks f code w = (w, raised code)
outcome breaks_late f code w = (record w { state = f w.state }, raised code)
outcome dies f code w = (w, dead)
outcome dies_late f code w = (record w { state = f w.state }, dead)

unfoldable pub call_by : List Luck → (State → State) → Code → World → World × Result
unfolding outcome
call_by [] f code w = (record w { state = f w.state }, done)
call_by (x ∷ xs) f code w = outcome x f code (record w { luck = xs })

-- A call, with its effect and the code that it raises.
unfoldable pub call : (State → State) → Code → World → World × Result
unfolding call_by
call f code w = call_by w.luck f code w

-- One statement after another.
unfoldable pub next : World × Result → (World → World × Result) → World × Result
next (w, done) k = k w
next (w, dead) k = (w, dead)
next (w, raised c) k = (w, raised c)

-- `if not test: raise code`.
unfoldable pub require : Bool → Code → World → World × Result
require true code w = (w, done)
require false code w = (w, raised code)

-- `finally`, which a dead process does not reach.
unfoldable pub lastly : World × Result → (State → State) → World × Result
lastly (w, done) f = (record w { state = f w.state }, done)
lastly (w, dead) f = (w, dead)
lastly (w, raised c) f = (record w { state = f w.state }, raised c)

-- A call with no effect.
unfoldable pub ask : Code → World → World × Result
unfolding call
ask code w = call (λ s. s) code w
