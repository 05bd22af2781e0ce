-- ===== src/Protocol/Triples.antt =====
-- Rules for programs whose calls may fail or be the last: what holds wherever a program ends, and what
-- holds where it runs on; and rules for programs whose calls work.
use aimili_gateway.Prelude.{◌≡◌, refl, Bool, true, false, List, [], ◌∷◌}
use aimili_gateway.Protocol.Types.{Code}
use aimili_gateway.Protocol.World.{
  Luck, works, breaks, breaks_late, dies, dies_late, State, World, Result, done, dead, raised,
  outcome, call_by, call, next, require, lastly, ask,
}

-- `I` holds wherever the program ends, and `Q` where it runs on.
pub record Ends (I Q : State → Type 0) (r : World × Result) : Type 0 where
  pub always : I r.0.state
  pub when_done : r.1 ≡ done → Q r.0.state

outcome-Ends :
    (I Q : State → Type 0) (x : Luck) (f : State → State) (code : Code) (w : World)
    → I w.state
    → I (f w.state)
    → Q (f w.state)
    → Ends I Q (outcome x f code w)
unfolding outcome
outcome-Ends I Q works f code w i j q = record { always = j; when_done = λ _. q }
outcome-Ends I Q breaks f code w i j q = record { always = i; when_done = λ e. cc }
outcome-Ends I Q breaks_late f code w i j q = record { always = j; when_done = λ e. cc }
outcome-Ends I Q dies f code w i j q = record { always = i; when_done = λ e. cc }
outcome-Ends I Q dies_late f code w i j q = record { always = j; when_done = λ e. cc }

by-Ends :
    (I Q : State → Type 0) (xs : List Luck) (f : State → State) (code : Code) (w : World)
    → I w.state
    → I (f w.state)
    → Q (f w.state)
    → Ends I Q (call_by xs f code w)
unfolding call_by
by-Ends I Q [] f code w i j q = record { always = j; when_done = λ _. q }
by-Ends I Q (x ∷ xs) f code w i j q = outcome-Ends I Q x f code (record w { luck = xs }) i j q

pub call-Ends :
    (I Q : State → Type 0) (f : State → State) (code : Code) (w : World)
    → I w.state
    → I (f w.state)
    → Q (f w.state)
    → Ends I Q (call f code w)
unfolding call
call-Ends I Q f code w i j q = by-Ends I Q w.luck f code w i j q

pub ask-Ends :
    (I Q : State → Type 0) (code : Code) (w : World) → I w.state → Q w.state → Ends I Q (ask code w)
unfolding ask
ask-Ends I Q code w i q = call-Ends I Q (λ s. s) code w i i q

pub next-Ends :
    (I Q R : State → Type 0) (r : World × Result) (k : World → World × Result)
    → Ends I Q r
    → ((w : World) → I w.state → Q w.state → Ends I R (k w))
    → Ends I R (next r k)
unfolding next
next-Ends I Q R (w, done) k h f = f w h.always (h.when_done refl)
next-Ends I Q R (w, dead) k h f = record { always = h.always; when_done = λ e. cc }
next-Ends I Q R (w, raised c) k h f = record { always = h.always; when_done = λ e. cc }

pub require-Ends :
    (I Q : State → Type 0) (b : Bool) (code : Code) (w : World)
    → I w.state
    → (b ≡ true → Q w.state)
    → Ends I Q (require b code w)
unfolding require
require-Ends I Q true code w i q = record { always = i; when_done = λ _. q refl }
require-Ends I Q false code w i q = record { always = i; when_done = λ e. cc }

pub lastly-Ends :
    (I Q R : State → Type 0) (r : World × Result) (f : State → State)
    → Ends I Q r
    → ((s : State) → I s → I (f s))
    → ((s : State) → Q s → R (f s))
    → Ends I R (lastly r f)
unfolding lastly
lastly-Ends I Q R (w, done) f h i q = record {
  always = i w.state h.always;
  when_done = λ _. q w.state (h.when_done refl);
}
lastly-Ends I Q R (w, dead) f h i q = record { always = h.always; when_done = λ e. cc }
lastly-Ends I Q R (w, raised c) f h i q = record {
  always = i w.state h.always;
  when_done = λ e. cc;
}

-- The program runs on, its calls still work, and `Q` holds.
pub record Works (Q : State → Type 0) (r : World × Result) : Type 0 where
  pub is_done : r.1 ≡ done
  pub no_luck : r.0.luck ≡ []
  pub result : Q r.0.state

by-Works :
    (Q : State → Type 0) (xs : List Luck) (f : State → State) (code : Code) (w : World)
    → xs ≡ []
    → w.luck ≡ []
    → Q (f w.state)
    → Works Q (call_by xs f code w)
unfolding call_by
by-Works Q [] f code w e l q = record { is_done = refl; no_luck = l; result = q }
by-Works Q (x ∷ xs) f code w e l q = cc

pub call-Works :
    (Q : State → Type 0) (f : State → State) (code : Code) (w : World)
    → w.luck ≡ []
    → Q (f w.state)
    → Works Q (call f code w)
unfolding call
call-Works Q f code w e q = by-Works Q w.luck f code w e e q

pub ask-Works :
    (Q : State → Type 0) (code : Code) (w : World) → w.luck ≡ [] → Q w.state → Works Q (ask code w)
unfolding ask
ask-Works Q code w e q = call-Works Q (λ s. s) code w e q

pub next-Works :
    (Q R : State → Type 0) (r : World × Result) (k : World → World × Result)
    → Works Q r
    → ((w : World) → w.luck ≡ [] → Q w.state → Works R (k w))
    → Works R (next r k)
unfolding next
next-Works Q R (w, done) k h f = f w h.no_luck h.result
next-Works Q R (w, dead) k h f = let e = h.is_done in cc
next-Works Q R (w, raised c) k h f = let e = h.is_done in cc

pub require-Works :
    (Q : State → Type 0) (b : Bool) (code : Code) (w : World)
    → w.luck ≡ []
    → b ≡ true
    → Q w.state
    → Works Q (require b code w)
unfolding require
require-Works Q b code w e t q = rw t (record { is_done = refl; no_luck = e; result = q })

pub lastly-Works :
    (Q R : State → Type 0) (r : World × Result) (f : State → State)
    → Works Q r
    → ((s : State) → Q s → R (f s))
    → Works R (lastly r f)
unfolding lastly
lastly-Works Q R (w, done) f h q = record {
  is_done = refl;
  no_luck = h.no_luck;
  result = q w.state h.result;
}
lastly-Works Q R (w, dead) f h q = let e = h.is_done in cc
lastly-Works Q R (w, raised c) f h q = let e = h.is_done in cc

-- What holds wherever a program ends may be weakened.
pub Ends-imply :
    (I J Q : State → Type 0) (r : World × Result)
    → ((s : State) → I s → J s)
    → Ends I Q r
    → Ends J Q r
Ends-imply I J Q r f h = record { always = f r.0.state h.always; when_done = h.when_done }

-- What holds wherever a program ends holds where it runs on.
pub Ends-both : (I Q : State → Type 0) (r : World × Result) → Ends I Q r → Ends I (λ s. I s × Q s) r
Ends-both I Q r h = record { always = h.always; when_done = λ e. (h.always, h.when_done e) }

-- What holds where a program runs on may be weakened.
pub Ends-weaker :
    (I Q R : State → Type 0) (r : World × Result)
    → ((s : State) → Q s → R s)
    → Ends I Q r
    → Ends I R r
Ends-weaker I Q R r f h = record { always = h.always; when_done = λ e. f r.0.state (h.when_done e) }

pub Ends-second :
    (I P Q : State → Type 0) (r : World × Result) → Ends I (λ s. P s × Q s) r → Ends I Q r
Ends-second I P Q r h = record { always = h.always; when_done = λ e. (h.when_done e).1 }
