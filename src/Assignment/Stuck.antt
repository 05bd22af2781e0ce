-- ===== src/Assignment/Stuck.antt =====
-- A rollback that a crash interrupts: what the methods of main_assignment.py can still do with it.
use aimili_gateway.Prelude.{
  ℕ, Text, ◌≡◌, ◌≢◌, refl, sym, ap, ◌∙◌, true, false, Option, none, some, arith,
}
use aimili_gateway.Assignment.Types.{
  rolling_back, Operation, running, Coordinator, Settings, Hashing, calls,
}
use aimili_gateway.Assignment.Document.{find_operation}
use aimili_gateway.Assignment.Lease.{
  expire_mutation_lease, assignment_action_allowed, is_busy, acquire_mutation_lease,
  renew_mutation_lease, release_mutation_lease,
}
use aimili_gateway.Assignment.Finish.{
  is_pending, is_active_id, is_repair_required, commit_found, commit_option, commit_allowed, commit,
}
use aimili_gateway.Assignment.Restore.{restore_begin}
use aimili_gateway.Assignment.Repair.{RepairPlan, repair_found, repair_option, repair_begin}
use aimili_gateway.Assignment.Stage.{StageCall, stage_begin}
use aimili_gateway.Assignment.Consistency.{IsConsistent}
use aimili_gateway.Assignment.Moves.{Move-IsConsistent}
use aimili_gateway.Assignment.LeaseMoves.{expire-Move, active-expire}
use aimili_gateway.Assignment.Copies.{found_is_active}
use aimili_gateway.Assignment.Written.{running_injective}

-- The active operation is in `rolling_back`.
abbrev pub IsRolling : Coordinator → Operation → Type 0
IsRolling c a = (c.active ≡ running a) × (a.state ≡ rolling_back)

module _ (c : Coordinator) (a : Operation) (r : IsRolling c a) where
  rolling_busy : is_busy c.active ≡ true
  unfolding is_busy
  rolling_busy = ground arith

  pub lease-active :
      (g : Hashing) (cfg : Settings) (t₀ t₁ : ℕ) (fresh key : Text)
      → (acquire_mutation_lease g cfg t₀ t₁ fresh key c).0.active ≡ c.active
  unfolding acquire_mutation_lease expire_mutation_lease
  lease-active g cfg t₀ t₁ fresh key = ground arith

  pub renew-active :
      (cfg : Settings) (t₀ t₁ : ℕ) (wanted : Text)
      → (renew_mutation_lease cfg t₀ t₁ wanted c).0.active ≡ c.active
  unfolding renew_mutation_lease expire_mutation_lease
  renew-active cfg t₀ t₁ wanted = ground arith

  pub release-active :
      (t : ℕ) (wanted : Text) → (release_mutation_lease t wanted c).0.active ≡ c.active
  unfolding release_mutation_lease
  release-active t wanted = ground arith

  -- `stage` is refused, one way or another.
  pub stage-active :
      (g : Hashing) (cfg : Settings) (t x y : ℕ) (id : Text) (s : StageCall)
      → ((stage_begin g cfg t x y id s c).0.active ≡ c.active)
  unfolding stage_begin expire_mutation_lease is_busy
  stage-active g cfg t x y id s = ground (arith, rolling_busy)

  pub stage-silent :
      (g : Hashing) (cfg : Settings) (t x y : ℕ) (id : Text) (s : StageCall) (o : Operation)
      → (stage_begin g cfg t x y id s c).1 ≡ calls o
      → ⊥
  unfolding stage_begin expire_mutation_lease is_busy
  stage-silent g cfg t x y id s o = ground (arith, rolling_busy)

  pub restore-active : (o : Operation) → (restore_begin o c).0.active ≡ c.active
  unfolding restore_begin
  restore-active o = ground arith

  pub restore-silent : (o p : Operation) → (restore_begin o c).1 ≡ calls p → ⊥
  unfolding restore_begin
  restore-silent o p = ground arith

  module _ (h : IsConsistent c) (id : Text) where
    found_rolling :
        (o : Operation)
        → find_operation id c ≡ some o
        → is_active_id id c.active ≡ true
        → o.state ≡ rolling_back
    found_rolling o f m =
        ap (λ (x : Operation). x.state)
          (running_injective o a (sym (found_is_active c h id o f m) ∙ r.0))
        ∙ r.1

    commit_found-active :
        (t : ℕ) (o : Operation)
        → find_operation id c ≡ some o
        → (commit_found t id o c).0.active ≡ c.active
    unfolding commit_found is_pending
    commit_found-active t o f = ground (arith, found_rolling o f)

    commit_option-active :
        (t : ℕ) (f : Option Operation)
        → find_operation id c ≡ f
        → (commit_option t id f c).0.active ≡ c.active
    unfolding commit_option
    commit_option-active t none f = refl
    commit_option-active t (some o) f = commit_found-active t o f

    commit_allowed-active : (t : ℕ) (b : _) → (commit_allowed t id (c, b)).0.active ≡ c.active
    unfolding commit_allowed
    commit_allowed-active t true = commit_option-active t (find_operation id c) refl
    commit_allowed-active t false = refl

    module _ (g : Hashing) (cfg : Settings) (t₀ t₁ : ℕ) (hash : Text) (plan : RepairPlan) where
      repair_found-still :
          (o p : Operation)
          → find_operation id c ≡ some o
          → ((repair_found cfg t₀ t₁ hash plan id o c).0.active ≡ c.active)
            × ((repair_found cfg t₀ t₁ hash plan id o c).1 ≢ calls p)
      unfolding repair_found is_repair_required
      repair_found-still o p f =
          (ground (arith, found_rolling o f), λ e. ground (arith, found_rolling o f))

      repair_option-still :
          (f : Option Operation) (p : Operation)
          → find_operation id c ≡ f
          → ((repair_option cfg t₀ t₁ hash plan id f c).0.active ≡ c.active)
            × ((repair_option cfg t₀ t₁ hash plan id f c).1 ≢ calls p)
      unfolding repair_option
      repair_option-still none p f = (refl, λ e. cc)
      repair_option-still (some o) p f = repair_found-still o p f

    pub repair-still :
        (g : Hashing) (cfg : Settings) (t₀ t₁ : ℕ) (plan : RepairPlan) (p : Operation)
        → ((repair_begin g cfg t₀ t₁ plan id c).0.active ≡ c.active)
          × ((repair_begin g cfg t₀ t₁ plan id c).1 ≢ calls p)
    unfolding repair_begin
    repair-still g cfg t₀ t₁ plan p =
        repair_option-still g cfg t₀ t₁ (g.sha256 (g.dumps plan.repair_request)) plan
          (find_operation id c) p refl

pub commit-active :
    (c : Coordinator) (a : Operation) (t₀ t₁ : ℕ) (id : Text)
    → IsRolling c a
    → IsConsistent c
    → (commit t₀ t₁ id c).0.active ≡ c.active
unfolding commit assignment_action_allowed
commit-active c a t₀ t₁ id r h =
    let e = expire_mutation_lease t₀ c in
    commit_allowed-active e a (active-expire c t₀ ∙ r.0, r.1)
      (Move-IsConsistent c e h (expire-Move c t₀)) id t₁ _
    ∙ active-expire c t₀
