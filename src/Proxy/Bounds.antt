-- ===== src/Proxy/Bounds.antt =====
-- The limits that `ProxyCapacity` of services/aimili-egress/proxy_server.py keeps, over any calls.
use aimili_gateway.Prelude.{
  ℕ, ◌+◌, ◌-◌, ◌≤◌, Text, ◌≡◌, refl, true, false, Bool-cases, inl, inr, arith, List, [], ◌∷◌, none,
  some, Option, text_eq, if◌then◌else◌, leb, ◌==◌,
}
use mathlib.Core.Option
use aimili_gateway.Prelude.Dicts.{
  Dict, lookup, insert, remove, IsDict, lookup-insert, insert-IsDict, lookup-remove, remove-IsDict,
}
use aimili_gateway.Proxy.Capacity.{
  ProxyCapacity, new_capacity, register_listener, unregister_listener, Sample, refresh, snapshot,
  refresh_with, held_by, admits, try_round, released_listeners, release,
}
use aimili_gateway.Proxy.Totals.{total, total-insert, total-remove}

-- The connections that are counted are those of the listeners, they are within the limit in force,
-- which is within the configured one, and no listener has more than its share.
pub record IsWithin (c : ProxyCapacity) : Type 0 where
  pub dict : IsDict c.listeners
  pub counted : c.active ≡ total c.listeners
  pub capped : c.active ≤ c.global_limit
  pub configured : c.global_limit ≤ c.configured_limit
  pub share : (k : Text) → held_by k c.listeners ≤ c.per_listener_limit

new-IsWithin : (g p r : ℕ) → IsWithin (new_capacity g p r)
unfolding new_capacity total held_by lookup
new-IsWithin g p r = record {
  dict = tt;
  counted = refl;
  capped = omega arith;
  configured = omega arith;
  share = λ k. omega arith;
}

refresh_with-IsWithin :
    (x : Sample) (o : Option ℕ) (c : ProxyCapacity) → IsWithin c → IsWithin (refresh_with x o c)
unfolding refresh_with
refresh_with-IsWithin x none c h = h
refresh_with-IsWithin x (some a) c h = elim (Bool-cases (leb c.sample_after x.now)) [
  | inl e ↦ rw e (record {
    dict = h.dict;
    counted = h.counted;
    capped = omega (arith, h.capped, h.configured);
    configured = omega arith;
    share = h.share;
  })
  | inr e ↦ rw e h
]

refresh-IsWithin : (x : Sample) (c : ProxyCapacity) → IsWithin c → IsWithin (refresh x c)
unfolding refresh
refresh-IsWithin x c h = refresh_with-IsWithin x x.additional c h

pub held_by-insert :
    (k j : Text) (n : ℕ) (d : Dict ℕ)
    → held_by j (insert k n d) ≡ (if text_eq k j then n else held_by j d)
unfolding held_by
held_by-insert k j n d = ground (arith, lookup-insert k j n d)

held_by-remove :
    (k j : Text) (d : Dict ℕ)
    → IsDict d
    → held_by j (remove k d) ≡ (if text_eq k j then 0 else held_by j d)
unfolding held_by
held_by-remove k j d h = ground (arith, lookup-remove k j d h)

-- The object after a round that grants a connection.
abbrev pub granted : Text → ProxyCapacity → ProxyCapacity
granted k c = record c {
  active = c.active + 1;
  listeners = insert k (held_by k c.listeners + 1) c.listeners;
}

granted-IsWithin :
    (k : Text) (c : ProxyCapacity) → IsWithin c → admits k c ≡ true → IsWithin (granted k c)
unfolding admits
granted-IsWithin k c h a = record {
  dict = insert-IsDict k (held_by k c.listeners + 1) c.listeners h.dict;
  counted = omega (arith, h.counted, total-insert k (held_by k c.listeners + 1) c.listeners);
  capped = ground arith;
  configured = h.configured;
  share =
      λ j. ground (arith, held_by-insert k j (held_by k c.listeners + 1) c.listeners, h.share j);
}

try_round-IsWithin :
    (x : Sample) (k : Text) (c : ProxyCapacity) → IsWithin c → IsWithin (try_round x k c).0
unfolding try_round
try_round-IsWithin x k c h =
    let h' = refresh-IsWithin x c h in
    elim (Bool-cases (admits k (refresh x c))) [
      | inl e ↦ rw e (granted-IsWithin k (refresh x c) h' e)
      | inr e ↦ rw e h'
    ]

pub held_by-released :
    (k j : Text) (d : Dict ℕ)
    → IsDict d
    → held_by j (released_listeners k d) ≡ (if text_eq k j then held_by k d - 1 else held_by j d)
unfolding released_listeners
held_by-released k j d h =
    ground (arith, held_by-remove k j d h, held_by-insert k j (held_by k d - 1) d)

released-IsDict : (k : Text) (d : Dict ℕ) → IsDict d → IsDict (released_listeners k d)
unfolding released_listeners
released-IsDict k d h = elim (Bool-cases (held_by k d - 1 == 0)) [
  | inl e ↦ rw e (remove-IsDict k d h)
  | inr e ↦ rw e (insert-IsDict k (held_by k d - 1) d h)
]

total-released :
    (k : Text) (d : Dict ℕ)
    → total (released_listeners k d) + held_by k d ≡ total d + (held_by k d - 1)
unfolding released_listeners
total-released k d = ground (arith, total-remove k d, total-insert k (held_by k d - 1) d)

-- The object after a release of a connection that is held.
abbrev pub released : Text → ProxyCapacity → ProxyCapacity
released k c = record c { active = c.active - 1; listeners = released_listeners k c.listeners }

released-IsWithin :
    (k : Text) (c : ProxyCapacity)
    → IsWithin c
    → held_by k c.listeners == 0 ≡ false
    → IsWithin (released k c)
released-IsWithin k c h p = record {
  dict = released-IsDict k c.listeners h.dict;
  counted = ground (arith, h.counted, total-released k c.listeners);
  capped = omega (arith, h.capped);
  configured = h.configured;
  share = λ j. ground (arith, held_by-released k j c.listeners h.dict, h.share j, h.share k);
}

-- A call on the object; a release that raises leaves it as it is.
pub data Call : Type 0 where
  registers unregisters releases : Text → Call
  tries : Sample → Text → Call
  snapshots : Sample → Call

unfoldable pub after_call : Call → ProxyCapacity → ProxyCapacity
unfolding register_listener unregister_listener release try_round snapshot
after_call (registers k) c = register_listener k c
after_call (unregisters k) c = unregister_listener k c
after_call (releases k) c = Option.get_or (release k c) c
after_call (tries x k) c = (try_round x k c).0
after_call (snapshots x) c = (snapshot x c).0

unfoldable pub after_calls : List Call → ProxyCapacity → ProxyCapacity
after_calls [] c = c
after_calls (call ∷ calls) c = after_calls calls (after_call call c)

release-IsWithin :
    (k : Text) (c : ProxyCapacity) → IsWithin c → IsWithin (Option.get_or (release k c) c)
unfolding release
release-IsWithin k c h = elim (Bool-cases (held_by k c.listeners == 0)) [
  | inl e ↦ rw e h
  | inr e ↦ rw e (released-IsWithin k c h e)
]

call-IsWithin : (call : Call) (c : ProxyCapacity) → IsWithin c → IsWithin (after_call call c)
unfolding after_call
call-IsWithin (registers k) c h = record {
  dict = h.dict;
  counted = h.counted;
  capped = h.capped;
  configured = h.configured;
  share = h.share;
}
call-IsWithin (unregisters k) c h = record {
  dict = h.dict;
  counted = h.counted;
  capped = h.capped;
  configured = h.configured;
  share = h.share;
}
call-IsWithin (releases k) c h = release-IsWithin k c h
call-IsWithin (tries x k) c h = try_round-IsWithin x k c h
call-IsWithin (snapshots x) c h = refresh-IsWithin x c h

calls-IsWithin :
    (calls : List Call) (c : ProxyCapacity) → IsWithin c → IsWithin (after_calls calls c)
unfolding after_calls
calls-IsWithin [] c h = h
calls-IsWithin (call ∷ calls) c h =
    calls-IsWithin calls (after_call call c) (call-IsWithin call c h)

-- Whatever methods are called, a round of `try_acquire` at a time, in any order and with any samples, a
-- new object keeps its limits: the count
-- of connections is the sum over the listeners, it is at most the limit in force, which is at most
-- the configured one, and no listener has more than its share.
pub after_calls-IsWithin :
    (g p r : ℕ) (calls : List Call) → IsWithin (after_calls calls (new_capacity g p r))
after_calls-IsWithin g p r calls = calls-IsWithin calls (new_capacity g p r) (new-IsWithin g p r)
