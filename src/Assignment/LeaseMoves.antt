-- ===== src/Assignment/LeaseMoves.antt =====
-- Each locked section of main_assignment.py makes one of the changes of Consistency.antt. First the
-- sections of the lease.
use aimili_gateway.Prelude.{ℕ, Text, ◌≡◌, refl, true, false, Option, none, some, arith}
use aimili_gateway.Assignment.Types.{
  Lease, Active, absent, corrupt, running, Coordinator, Settings, Hashing,
}
use aimili_gateway.Assignment.Lease.{
  held, is_busy, expire_lease, expire_mutation_lease, acquire_mutation_lease, renew_mutation_lease,
  release_mutation_lease,
}
use aimili_gateway.Assignment.Consistency.{IsConsistent, Move, same, stay}

-- Lifting a change past a change of the lease alone.
module _ (c : Coordinator) where
  expire_lease-Move :
      (t : ℕ) (o : Option Lease) → c.mutation_lease ≡ o → Move c (expire_lease t o c)
  unfolding expire_lease held
  expire_lease-Move t none e = stay c
  expire_lease-Move t (some l) e = same (ground arith) (ground arith) (ground arith)

  -- Expiring the lease changes neither the active operation nor the history.
  pub expire-Move : (t : ℕ) → Move c (expire_mutation_lease t c)
  unfolding expire_mutation_lease
  expire-Move t = expire_lease-Move t c.mutation_lease refl

  pub active-expire : (t : ℕ) → (expire_mutation_lease t c).active ≡ c.active
  unfolding expire_mutation_lease
  active-expire t = ground arith

  pub operations-expire : (t : ℕ) → (expire_mutation_lease t c).operations ≡ c.operations
  unfolding expire_mutation_lease
  operations-expire t = ground arith

  pub held-expire :
      (t : ℕ)
      → held (expire_mutation_lease t c).mutation_lease ≡ true
      → held c.mutation_lease ≡ true
  unfolding expire_mutation_lease held
  held-expire t = ground arith

-- In a consistent document what does not block is absent.
module _ (c : Coordinator) (h : IsConsistent c) where
  idle_cases : (a : Active) → c.active ≡ a → is_busy a ≡ false → a ≡ absent
  unfolding is_busy
  idle_cases absent e b = refl
  idle_cases corrupt e b = cc
  idle_cases (running o) e b = cc (h.blocking o e)

  pub idle-absent : is_busy c.active ≡ false → c.active ≡ absent
  idle-absent b = idle_cases c.active refl b

module _ (c : Coordinator) (h : IsConsistent c) (cfg : Settings) where
  pub acquire-Move :
      (g : Hashing) (t₀ t₁ : ℕ) (fresh key : Text)
      → Move c (acquire_mutation_lease g cfg t₀ t₁ fresh key c).0
  unfolding acquire_mutation_lease expire_mutation_lease held
  acquire-Move g t₀ t₁ fresh key =
      same (ground arith) (ground arith) (ground (arith, idle-absent c h))

  pub renew-Move : (t₀ t₁ : ℕ) (wanted : Text) → Move c (renew_mutation_lease cfg t₀ t₁ wanted c).0
  unfolding renew_mutation_lease expire_mutation_lease held
  renew-Move t₀ t₁ wanted = same (ground arith) (ground arith) (ground arith)

  pub release-Move : (t : ℕ) (wanted : Text) → Move c (release_mutation_lease t wanted c).0
  unfolding release_mutation_lease held
  release-Move t wanted = same (ground arith) (ground arith) (ground arith)
