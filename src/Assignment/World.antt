-- ===== src/Assignment/World.antt =====
-- The coordinator of main_assignment.py among threads: a locked section is one step, and between
-- the sections of a method other threads may run. A flight is a thread that is between two sections,
-- with its copy of the operation.
use aimili_gateway.Prelude.{ℕ, Text, ◌≡◌, Bool, true, false, ◌⊎◌, Option, none, some, List, [], ◌∷◌}
use aimili_gateway.Assignment.Types.{
  Document, ErrorCode, assign_failed_rolled_back, assignment_expired, Operation, Coordinator,
  Settings, Hashing, Validation, Begun, answered, calls,
}
use aimili_gateway.Assignment.Document.{discard_live}
use aimili_gateway.Assignment.Lease.{
  expire_mutation_lease, acquire_mutation_lease, renew_mutation_lease, release_mutation_lease,
}
use aimili_gateway.Assignment.Stage.{StageCall, stage_begin, stage_finish}
use aimili_gateway.Assignment.Finish.{commit, rollback_begin, recover_begin}
use aimili_gateway.Assignment.Restore.{restore_begin, restore_finish}
use aimili_gateway.Assignment.Repair.{
  Replacement, RepairPlan, commit_plan, replace_plan, is_replacement, repair_begin, repair_finish,
}
use aimili_gateway.Assignment.StageMoves.{IsFresh}
use aimili_gateway.Assignment.Validate.{start}

-- A thread in the callback of `stage` or of a repair, about to enter `_restore`, or in the callback
-- of `_restore`. The last two hold the error code that success leaves, and whether `stage` called.
pub data Flight : Type 0 where
  in_stage : Operation → Flight
  in_repair : Operation → ErrorCode → Flight
  to_restore : Operation → Option ErrorCode → Bool → Flight
  in_restore : Operation → Option ErrorCode → Bool → Flight

pub record World : Type 0 where
  pub coord : Coordinator
  pub flights : List Flight

-- One flight taken out of a list.
pub data Takes (f : Flight) : List Flight → List Flight → Type 0 where
  here : {rest : List Flight} → Takes f (f ∷ rest) rest
  there : {g : Flight} {fs rest : List Flight} → Takes f fs rest → Takes f (g ∷ fs) (g ∷ rest)

-- After a section that calls out, its thread is a new flight.
abbrev pub land : List Flight → (Operation → Flight) → Coordinator × Begun → World
land fs flight (c, answered r) = record { coord = c; flights = fs }
land fs flight (c, calls o) = record { coord = c; flights = flight o ∷ fs }

-- The `finally` of `stage`, where it was `stage` that called `_restore`.
unfoldable pub settle : Bool → Operation → Coordinator → Coordinator
settle true o c = discard_live o.operation_id c
settle false o c = c

abbrev pub settle_begun : Bool → Operation → Coordinator × Begun → Coordinator × Begun
settle_begun staged o (c, answered r) = (settle staged o c, answered r)
settle_begun staged o (c, calls p) = (c, calls p)

-- The plans that `repair_commit` and `repair_replace` pass on.
abbrev pub IsPlan : RepairPlan → Type 0
IsPlan plan =
    (plan ≡ commit_plan) ⊎ ((r : Replacement) × (is_replacement r ≡ true) × (plan ≡ replace_plan r))

-- One locked section of one thread.
pub data Section (g : Hashing) (cfg : Settings) (w u : World) : Type 0 where
  asks : (t : ℕ) → u ≡ record w { coord = expire_mutation_lease t w.coord } → Section g cfg w u
  acquires :
      (t₀ t₁ : ℕ) (fresh key : Text)
      → u ≡ record w { coord = (acquire_mutation_lease g cfg t₀ t₁ fresh key w.coord).0 }
      → Section g cfg w u
  renews :
      (t₀ t₁ : ℕ) (wanted : Text)
      → u ≡ record w { coord = (renew_mutation_lease cfg t₀ t₁ wanted w.coord).0 }
      → Section g cfg w u
  releases :
      (t : ℕ) (wanted : Text)
      → u ≡ record w { coord = (release_mutation_lease t wanted w.coord).0 }
      → Section g cfg w u
  stages :
      (t created expires : ℕ) (id : Text) (s : StageCall)
      → IsFresh id w.coord
      → u ≡ land w.flights in_stage (stage_begin g cfg t created expires id s w.coord)
      → Section g cfg w u
  stage_returns :
      (o : Operation) (v : Option Validation) (rest : List Flight)
      → Takes (in_stage o) w.flights rest
      → u
        ≡ land rest
            (λ p. to_restore p (some assign_failed_rolled_back) true)
            (stage_finish o v w.coord)
      → Section g cfg w u
  commits :
      (t₀ t₁ : ℕ) (id : Text)
      → u ≡ record w { coord = (commit t₀ t₁ id w.coord).0 }
      → Section g cfg w u
  rolls_back :
      (id : Text)
      → u ≡ land w.flights (λ p. to_restore p none false) (w.coord, rollback_begin id w.coord)
      → Section g cfg w u
  recovers :
      (t : ℕ)
      → u
        ≡ land w.flights
            (λ p. to_restore p (some assignment_expired) false)
            (w.coord, recover_begin t w.coord)
      → Section g cfg w u
  repairs :
      (t₀ t₁ : ℕ) (plan : RepairPlan) (id : Text)
      → IsPlan plan
      → u
        ≡ land w.flights
            (λ p. in_repair p plan.failure_code)
            (repair_begin g cfg t₀ t₁ plan id w.coord)
      → Section g cfg w u
  repair_returns :
      (o : Operation) (code : ErrorCode) (v : Option Validation) (rest : List Flight)
      → Takes (in_repair o code) w.flights rest
      → u ≡ record { coord = (repair_finish o v code w.coord).0; flights = rest }
      → Section g cfg w u
  restores :
      (o : Operation) (x : Option ErrorCode) (staged : Bool) (rest : List Flight)
      → Takes (to_restore o x staged) w.flights rest
      → u ≡ land rest (λ p. in_restore p x staged) (settle_begun staged o (restore_begin o w.coord))
      → Section g cfg w u
  restore_returns :
      (o : Operation) (x : Option ErrorCode) (staged : Bool) (v : Option Validation)
      (rest : List Flight)
      → Takes (in_restore o x staged) w.flights rest
      → u ≡ record { coord = settle staged o (restore_finish o v x w.coord).0; flights = rest }
      → Section g cfg w u

-- A section, or a crash after which a new process starts from the file.
pub data Step (g : Hashing) (cfg : Settings) (w u : World) : Type 0 where
  runs : Section g cfg w u → Step g cfg w u
  restarts : u ≡ record { coord = start w.coord.disk; flights = [] } → Step g cfg w u

-- What can be reached in any number of steps.
pub data Reach (g : Hashing) (cfg : Settings) (w : World) : World → Type 0 where
  here : Reach g cfg w w
  next : {u v : World} → Reach g cfg w u → Step g cfg u v → Reach g cfg w v

-- What can be reached within the life of one process.
pub data Lives (g : Hashing) (cfg : Settings) (w : World) : World → Type 0 where
  here : Lives g cfg w w
  next : {u v : World} → Lives g cfg w u → Section g cfg u v → Lives g cfg w v

-- A process that starts from a file.
abbrev pub started : Option Document → World
started file = record { coord = start file; flights = [] }
