-- ===== src/Assignment/Saves.antt =====
-- Every section of main_assignment.py that changes the document writes it to the file (a write is taken not
-- to raise).
use aimili_gateway.Prelude.{ℕ, Text, ◌≡◌, ◌⊎◌, Option, some, arith}
use aimili_gateway.Assignment.Types.{
  Operation, Coordinator, Settings, Hashing, Validation, ErrorCode,
}
use aimili_gateway.Assignment.Lease.{
  expire_mutation_lease, acquire_mutation_lease, renew_mutation_lease, release_mutation_lease,
}
use aimili_gateway.Assignment.Finish.{commit}
use aimili_gateway.Assignment.Stage.{StageCall, stage_begin, stage_finish}
use aimili_gateway.Assignment.Restore.{restore_begin, restore_finish}
use aimili_gateway.Assignment.Repair.{RepairPlan, repair_begin, repair_finish}

-- The file and the document are as they were, or the file holds the document.
abbrev pub Saves : Coordinator → Coordinator → Type 0
Saves c d = ((d.disk ≡ c.disk) × (d.doc ≡ c.doc)) ⊎ (d.disk ≡ some d.doc)

module _ (c : Coordinator) where
  pub expire-Saves : (t : ℕ) → Saves c (expire_mutation_lease t c)
  unfolding expire_mutation_lease
  expire-Saves t = ground arith

  pub acquire-Saves :
      (g : Hashing) (cfg : Settings) (t₀ t₁ : ℕ) (fresh key : Text)
      → Saves c (acquire_mutation_lease g cfg t₀ t₁ fresh key c).0
  unfolding acquire_mutation_lease expire_mutation_lease
  acquire-Saves g cfg t₀ t₁ fresh key = ground arith

  pub renew-Saves :
      (cfg : Settings) (t₀ t₁ : ℕ) (wanted : Text)
      → Saves c (renew_mutation_lease cfg t₀ t₁ wanted c).0
  unfolding renew_mutation_lease expire_mutation_lease
  renew-Saves cfg t₀ t₁ wanted = ground arith

  pub release-Saves : (t : ℕ) (wanted : Text) → Saves c (release_mutation_lease t wanted c).0
  unfolding release_mutation_lease
  release-Saves t wanted = ground arith

  pub commit-Saves : (t₀ t₁ : ℕ) (id : Text) → Saves c (commit t₀ t₁ id c).0
  unfolding commit expire_mutation_lease
  commit-Saves t₀ t₁ id = ground arith

  pub restore_begin-Saves : (o : Operation) → Saves c (restore_begin o c).0
  unfolding restore_begin
  restore_begin-Saves o = ground arith

  pub restore_finish-Saves :
      (o : Operation) (v : Option Validation) (x : Option ErrorCode)
      → Saves c (restore_finish o v x c).0
  unfolding restore_finish
  restore_finish-Saves o v x = ground arith

  pub stage_begin-Saves :
      (g : Hashing) (cfg : Settings) (t a b : ℕ) (id : Text) (s : StageCall)
      → Saves c (stage_begin g cfg t a b id s c).0
  unfolding stage_begin expire_mutation_lease
  stage_begin-Saves g cfg t a b id s = ground arith

  pub stage_finish-Saves : (o : Operation) (v : Option Validation) → Saves c (stage_finish o v c).0
  unfolding stage_finish
  stage_finish-Saves o v = ground arith

  pub repair_begin-Saves :
      (g : Hashing) (cfg : Settings) (t₀ t₁ : ℕ) (plan : RepairPlan) (id : Text)
      → Saves c (repair_begin g cfg t₀ t₁ plan id c).0
  unfolding repair_begin
  repair_begin-Saves g cfg t₀ t₁ plan id = ground arith

  pub repair_finish-Saves :
      (o : Operation) (v : Option Validation) (x : ErrorCode) → Saves c (repair_finish o v x c).0
  unfolding repair_finish
  repair_finish-Saves o v x = ground arith
