-- ===== src/Host/Growth.antt =====
-- What the limits of services/aimili-egress/capacity.py promise.
use aimili_gateway.Prelude.{
  ℕ, ◌+◌, ◌-◌, ◌*◌, ◌/◌, ◌≤◌, ◌<◌, max, ◌≡◌, sym, subst, refl, arith, Option, none, some,
}
use aimili_gateway.Host.Limits.{
  HostFacts, mib, memory_slot_limit, is_overloaded, regular_by_host, regular_by_processes,
  regular_max, emergency_max, limits_for, clamp_settings,
}

host_bounds :
    (f : HostFacts) (current : ℕ)
    → (max current 1 ≤ regular_by_host f current) × (regular_by_host f current ≤ max current 16)
unfolding regular_by_host
host_bounds f current = (omega arith, omega arith)

regular_bounds :
    (f : HostFacts) (current : ℕ) (p : Option ℕ)
    → (max current 1 ≤ regular_max f current p) × (regular_max f current p ≤ max current 16)
unfolding regular_max regular_by_processes
regular_bounds f current none =
    (ground (arith, host_bounds f current), ground (arith, host_bounds f current))
regular_bounds f current (some limit) =
    (ground (arith, host_bounds f current), ground (arith, host_bounds f current))

-- The limits never take away an exit that runs, always allow one, and allow at most 16 unless more
-- already run; the pool's limits agree and are between 16 and 512.
pub limits_for-bounds :
    (f : HostFacts) (current : ℕ) (p : Option ℕ)
    → let l = limits_for f current p in
      (max current 1 ≤ l.regular_exit_slots_max)
      × (l.regular_exit_slots_max ≤ max current 16)
      × (l.target_valid_nodes_max ≡ l.emergency_valid_nodes_max)
      × (16 ≤ l.emergency_valid_nodes_max)
      × (l.emergency_valid_nodes_max ≤ 512)
unfolding limits_for
limits_for-bounds f current p =
    let (low, high) = regular_bounds f current p in (low, high, refl, omega arith, omega arith)

-- What the host must have where a further exit is allowed.
abbrev pub HasRoom : HostFacts → ℕ → Option ℕ → ℕ → Type 0
HasRoom f current p n =
    (f.load1 ≤ f.cpu_count * 175)
    × (n ≤ f.cpu_count * 4)
    × (256 * mib + n * (64 * mib) ≤ f.memory_total_bytes)
    × (256 * mib + (n - current) * (64 * mib) ≤ f.memory_available_bytes)
    × ((limit : ℕ) → p ≡ some limit → n * 2 + 3 ≤ limit)

module _ (f : HostFacts) (current n : ℕ) (more : max current 1 < n)
    (most : n ≤ regular_by_host f current) where
  room_cpu : n ≤ f.cpu_count * 4
  unfolding regular_by_host
  room_cpu = omega (arith, more, most)

  room_slots :
      (n ≤ memory_slot_limit f) × (n ≤ current + (f.memory_available_bytes / mib - 256) / 64)
  unfolding regular_by_host
  room_slots = (omega (arith, more, most), omega (arith, more, most))

  room_total : 256 * mib + n * (64 * mib) ≤ f.memory_total_bytes
  unfolding memory_slot_limit
  room_total =
      let h : n ≤ (f.memory_total_bytes / mib - 256) / 64 = omega (arith, more, room_slots.0) in
      omega (arith, more, h)

  room_free : 256 * mib + (n - current) * (64 * mib) ≤ f.memory_available_bytes
  room_free = omega (arith, more, room_slots.1)

most_host :
    (f : HostFacts) (current : ℕ) (p : Option ℕ)
    → max current 1 < regular_max f current p
    → regular_max f current p ≤ regular_by_host f current
unfolding regular_max regular_by_processes
most_host f current none h = ground (arith, host_bounds f current)
most_host f current (some limit) h = ground (arith, host_bounds f current)

calm :
    (f : HostFacts) (current : ℕ) (p : Option ℕ)
    → max current 1 < regular_max f current p
    → f.load1 ≤ f.cpu_count * 175
unfolding regular_max is_overloaded
calm f current p h = ground arith

few_processes :
    (f : HostFacts) (current limit : ℕ)
    → max current 1 < regular_max f current (some limit)
    → regular_max f current (some limit) * 2 + 3 ≤ limit
unfolding regular_max regular_by_processes
few_processes f current limit h = ground arith

-- Where more exits are allowed than run, beyond the first: the load is not over 1.75 per processor,
-- and the processors, the memory in all, the memory that is free and the limit on processes, if there
-- is one, carry all that are allowed.
pub limits_for-room :
    (f : HostFacts) (current : ℕ) (p : Option ℕ)
    → let n = (limits_for f current p).regular_exit_slots_max in
      max current 1 < n → HasRoom f current p n
unfolding limits_for
limits_for-room f current p h =
    let n = regular_max f current p in
    let most = most_host f current p h in
    (
      calm f current p h,
      room_cpu f current n h most,
      room_total f current n h most,
      room_free f current n h most,
      λ limit e.
          subst
            (λ (q : Option ℕ).
              max current 1 < regular_max f current q → regular_max f current q * 2 + 3 ≤ limit)
            (sym e) (few_processes f current limit) h,
    )

emergency_floor : (f : HostFacts) → 16 ≤ emergency_max f
unfolding emergency_max
emergency_floor f = omega arith

-- Settings that are clamped lie between 16 and the pool's limit, the target is not above the emergency
-- threshold, and to clamp them again changes nothing.
pub clamp_settings-bounds :
    (f : HostFacts) (current : ℕ) (p : Option ℕ) (target emergency : ℕ)
    → let l = limits_for f current p in
      let (t, e) = clamp_settings target emergency l in
      (16 ≤ t) × (t ≤ e) × (e ≤ l.emergency_valid_nodes_max) × (clamp_settings t e l ≡ (t, e))
unfolding limits_for clamp_settings
clamp_settings-bounds f current p target emergency =
    let room : 16 ≤ emergency_max f = emergency_floor f in
    (omega arith, omega arith, omega (arith, room), ground (arith, room))
