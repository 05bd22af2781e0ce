-- ===== src/Assignment/Leasing.antt =====
-- Two calls of `acquire_mutation_lease` of main_assignment.py.
use aimili_gateway.Prelude.{
  ℕ, ◌+◌, ◌<◌, Text, ◌≡◌, refl, ap, subst, sym, Bool-cases, inl, inr, true, false, Option, none,
  some, arith, text_eq, text_eq_iff, if◌then◌else◌,
}
use mathlib.Core.Option
use aimili_gateway.Assignment.Types.{
  Lease, Coordinator, Settings, Hashing, PublicLease, is_active, active, lease, lease_busy, failed,
}
use aimili_gateway.Assignment.Lease.{
  expiry, expire_mutation_lease, is_busy, public_lease, is_lease_key, grant_lease, acquire_against,
  acquire_mutation_lease,
}

-- The lease that a document holds, which was granted for a key, as the public sees it.
abbrev Holds : Text → PublicLease → Coordinator → Type 0
Holds key_hash p c =
    (l : Lease) × (c.mutation_lease ≡ some l)
    × (is_active l.state ≡ true)
    × (l.idempotency_hash ≡ key_hash)
    × (public_lease l ≡ p)

grant-Holds :
    (cfg : Settings) (t : ℕ) (fresh key_hash : Text) (c : Coordinator) (p : PublicLease)
    → (grant_lease cfg t fresh key_hash c).1 ≡ lease p
    → Holds key_hash p (grant_lease cfg t fresh key_hash c).0
unfolding grant_lease is_active
grant-Holds cfg t fresh key_hash c p h =
    let idle : is_busy c.active ≡ false = ground (arith, h) in
    let l : Lease = record {
      ok = true;
      state = active;
      lease_id = fresh;
      idempotency_hash = key_hash;
      expires_at = some (t + cfg.lease_ttl);
    } in
    let shown : public_lease l ≡ p = ground (arith, h, idle) in rw idle (l, refl, refl, refl, shown)

against-Holds :
    (cfg : Settings) (t : ℕ) (fresh key_hash : Text) (f : Option Lease) (c : Coordinator)
    (p : PublicLease)
    → c.mutation_lease ≡ f
    → (acquire_against cfg t fresh key_hash f c).1 ≡ lease p
    → Holds key_hash p (acquire_against cfg t fresh key_hash f c).0
unfolding acquire_against
against-Holds cfg t fresh key_hash none c p e h = grant-Holds cfg t fresh key_hash c p h
against-Holds cfg t fresh key_hash (some l) c p e h = elim (Bool-cases (is_active l.state)) [
  | inl a ↦
      rw a (
        l,
        e,
        a,
        ground (arith, h, a, text_eq_iff l.idempotency_hash key_hash),
        ground (arith, h, a),
      )
  | inr a ↦ rw a (grant-Holds cfg t fresh key_hash c p (ground (arith, h, a)))
]

acquired-Holds :
    (g : Hashing) (cfg : Settings) (t₀ t₁ : ℕ) (fresh key : Text) (c : Coordinator)
    (p : PublicLease)
    → (acquire_mutation_lease g cfg t₀ t₁ fresh key c).1 ≡ lease p
    → Holds (g.sha256 key) p (acquire_mutation_lease g cfg t₀ t₁ fresh key c).0
unfolding acquire_mutation_lease
acquired-Holds g cfg t₀ t₁ fresh key c p h =
    let c' = expire_mutation_lease t₀ c in
    let k : is_lease_key key ≡ true = ground (arith, h) in
    let r : (acquire_against cfg t₁ fresh (g.sha256 key) c'.mutation_lease c').1 ≡ lease p =
      ground (arith, h, k) in
    rw k (against-Holds cfg t₁ fresh (g.sha256 key) c'.mutation_lease c' p refl r)

expire-current :
    (t : ℕ) (c : Coordinator) (l : Lease)
    → c.mutation_lease ≡ some l
    → t < expiry l
    → expire_mutation_lease t c ≡ c
unfolding expire_mutation_lease
expire-current t c l e h = rw e (ground arith)

expiry-shown :
    (l : Lease) (p : PublicLease) → public_lease l ≡ p → expiry l ≡ Option.get_or p.expires_at 0
unfolding expiry public_lease
expiry-shown l p v = ap (λ (q : PublicLease). Option.get_or q.expires_at 0) v

again :
    (g : Hashing) (cfg : Settings) (t t' : ℕ) (fresh key key_hash : Text) (c : Coordinator)
    (p : PublicLease)
    → Holds key_hash p c
    → is_lease_key key ≡ true
    → t < Option.get_or p.expires_at 0
    → acquire_mutation_lease g cfg t t' fresh key c
      ≡ (c, if text_eq key_hash (g.sha256 key) then lease p else failed lease_busy)
unfolding acquire_mutation_lease
again g cfg t t' fresh key key_hash c p (l, e, a, i, v) k before =
    let current : t < expiry l = subst (λ (n : ℕ). t < n) (sym (expiry-shown l p v)) before in
    rw (k, expire-current t c l e current, e) (rw (a, i, v) refl)

-- Right after a key was given the lease, and until that expires, a valid key with the same digest is
-- answered with the same lease, and every other valid key is told that it is busy; nothing changes.
pub lease_exclusive :
    (g : Hashing) (cfg : Settings) (t₀ t₁ t t' : ℕ) (fresh key fresh' key' : Text) (c : Coordinator)
    (p : PublicLease)
    → (acquire_mutation_lease g cfg t₀ t₁ fresh key c).1 ≡ lease p
    → is_lease_key key' ≡ true
    → t < Option.get_or p.expires_at 0
    → let d = (acquire_mutation_lease g cfg t₀ t₁ fresh key c).0 in
      acquire_mutation_lease g cfg t t' fresh' key' d
      ≡ (d, if text_eq (g.sha256 key) (g.sha256 key') then lease p else failed lease_busy)
lease_exclusive g cfg t₀ t₁ t t' fresh key fresh' key' c p h k before =
    again g cfg t t' fresh' key' (g.sha256 key) (acquire_mutation_lease g cfg t₀ t₁ fresh key c).0 p
      (acquired-Holds g cfg t₀ t₁ fresh key c p h) k before
