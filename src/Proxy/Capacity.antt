-- ===== src/Proxy/Capacity.antt =====
-- `ProxyCapacity` of services/aimili-egress/proxy_server.py. Times are in one unit, of which
-- `sample_period` are 5 seconds. A wait on the condition gives the lock away, so one round of the
-- loop of `try_acquire` is one step, and other threads run between the rounds.
use aimili_gateway.Prelude.{
  ℕ, ◌+◌, ◌-◌, min, max, Text, Bool, not, ◌&&◌, Option, none, some, List, [], ◌∷◌, leb, ltb, ◌==◌,
  text_eq, any, keep, if◌then◌else◌,
}
use mathlib.Core.Option
use aimili_gateway.Prelude.Dicts.{Dict, lookup, insert, remove}

-- The object's fields; `registered` is a set.
pub record ProxyCapacity : Type 0 where
  pub configured_limit : ℕ
  pub global_limit : ℕ
  pub per_listener_limit : ℕ
  pub active : ℕ
  pub listeners : Dict ℕ
  pub registered : List Text
  pub sample_after : ℕ
  pub reserve : ℕ

-- `__init__` but the waiting time, which only the callers of a round use. The arguments are not
-- negative: the callers pass `parse_positive_int` and a literal.
unfoldable pub new_capacity : ℕ → ℕ → ℕ → ProxyCapacity
new_capacity global_limit per_listener_limit reserve_per_listener = record {
  configured_limit = max 1 global_limit;
  global_limit = max 1 global_limit;
  per_listener_limit = max 1 (min per_listener_limit (max 1 global_limit));
  active = 0;
  listeners = [];
  registered = [];
  sample_after = 0;
  reserve = reserve_per_listener;
}

unfoldable pub register_listener : Text → ProxyCapacity → ProxyCapacity
register_listener key c = record c {
  registered = if any (λ k. text_eq k key) c.registered then c.registered else key ∷ c.registered;
}

unfoldable pub unregister_listener : Text → ProxyCapacity → ProxyCapacity
unregister_listener key c = record c { registered = keep (λ k. not (text_eq k key)) c.registered }

-- A reading of the clock and what the sampler returns, `none` where there is no sampler.
pub record Sample : Type 0 where
  pub now : ℕ
  pub additional : Option ℕ
  pub sample_period : ℕ

-- `_refresh`; both readings of the clock are taken to be the same.
unfoldable pub refresh_with : Sample → Option ℕ → ProxyCapacity → ProxyCapacity
refresh_with x none c = c
refresh_with x (some additional) c =
    if leb c.sample_after x.now
    then record c {
      global_limit = min c.configured_limit (c.active + additional);
      sample_after = x.now + x.sample_period;
    }
    else c

unfoldable pub refresh : Sample → ProxyCapacity → ProxyCapacity
unfolding refresh_with
refresh x c = refresh_with x x.additional c

-- The dictionary that `snapshot` returns.
pub record CapacityView : Type 0 where
  pub active : ℕ
  pub global_limit : ℕ
  pub per_listener_limit : ℕ
  pub listeners : Dict ℕ

unfoldable pub snapshot : Sample → ProxyCapacity → ProxyCapacity × CapacityView
unfolding refresh
snapshot x c =
    let c' = refresh x c in
    (
      c',
      record {
        active = c'.active;
        global_limit = c'.global_limit;
        per_listener_limit = c'.per_listener_limit;
        listeners = c'.listeners;
      },
    )

-- `self._listeners.get(key, 0)`.
unfoldable pub held_by : Text → Dict ℕ → ℕ
held_by key d = Option.get_or (lookup key d) 0

-- The sum over the other registered listeners of what is left of their reserve.
unfoldable pub reserved_for_others : ℕ → Text → Dict ℕ → List Text → ℕ
unfolding held_by
reserved_for_others reserve key d [] = 0
reserved_for_others reserve key d (k ∷ ks) =
    let rest = reserved_for_others reserve key d ks in
    if text_eq k key then rest else (reserve - held_by k d) + rest

-- `reserved` after it is cut to leave one connection.
unfoldable pub reserved : Text → ProxyCapacity → ℕ
unfolding reserved_for_others
reserved key c =
    min (reserved_for_others c.reserve key c.listeners c.registered) (c.global_limit - 1)

-- Why a round did not grant a connection.
pub data Rejection : Type 0 where
  listener_limit resource_pressure global_limited : Rejection

unfoldable pub rejection : Text → ProxyCapacity → Rejection
unfolding held_by
rejection key c =
    if leb c.per_listener_limit (held_by key c.listeners)
    then listener_limit
    else if ltb c.global_limit c.configured_limit
    then resource_pressure
    else global_limited

-- `own < self.per_listener_limit and self._active < self.global_limit - reserved`.
unfoldable pub admits : Text → ProxyCapacity → Bool
unfolding held_by reserved
admits key c =
    ltb (held_by key c.listeners) c.per_listener_limit
    && ltb (c.active + reserved key c) c.global_limit

-- One round of the loop of `try_acquire`; `none` is a connection granted.
unfoldable pub try_round : Sample → Text → ProxyCapacity → ProxyCapacity × Option Rejection
unfolding refresh admits rejection
try_round x key c =
    let c' = refresh x c in
    if admits key c'
    then (
      record c' {
        active = c'.active + 1;
        listeners = insert key (held_by key c'.listeners + 1) c'.listeners;
      },
      none,
    )
    else (c', some (rejection key c'))

-- The listeners after a release: a count that comes to 0 is dropped.
unfoldable pub released_listeners : Text → Dict ℕ → Dict ℕ
unfolding held_by
released_listeners key d =
    if held_by key d - 1 == 0 then remove key d else insert key (held_by key d - 1) d

-- `release`; `none` is the ValueError.
unfoldable pub release : Text → ProxyCapacity → Option ProxyCapacity
unfolding held_by released_listeners
release key c =
    if held_by key c.listeners == 0
    then none
    else some (record c { active = c.active - 1; listeners = released_listeners key c.listeners })
