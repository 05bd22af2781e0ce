-- ===== src/Proxy/RoundTrip.antt =====
-- A connection of `ProxyCapacity` (services/aimili-egress/proxy_server.py) that is granted and then
-- released.
use aimili_gateway.Prelude.{
  ℕ, ◌+◌, Text, ◌≡◌, ◌∙◌, sym, subst, refl, true, false, arith, none, some, Option, text_eq_iff,
  text_eq_refl, ap, ◌==◌,
}
use aimili_gateway.Prelude.Dicts.{Dict, IsDict, insert-IsDict}
use aimili_gateway.Proxy.Capacity.{
  ProxyCapacity, Sample, refresh, refresh_with, held_by, admits, try_round, release,
}
use aimili_gateway.Proxy.Bounds.{granted, released, held_by-insert, held_by-released}

refresh_with-listeners :
    (x : Sample) (o : Option ℕ) (c : ProxyCapacity)
    → ((refresh_with x o c).listeners ≡ c.listeners) × ((refresh_with x o c).active ≡ c.active)
unfolding refresh_with
refresh_with-listeners x none c = (refl, refl)
refresh_with-listeners x (some a) c = ground arith

abbrev Returns : Text → ProxyCapacity → ProxyCapacity → Type 0
Returns k g c =
    (e : ProxyCapacity) × (release k g ≡ some e)
    × (e.active ≡ c.active)
    × ((j : Text) → held_by j e.listeners ≡ held_by j c.listeners)

granted-held :
    (k : Text) (c : ProxyCapacity) → held_by k (granted k c).listeners ≡ held_by k c.listeners + 1
granted-held k c =
    ground (arith, held_by-insert k k (held_by k c.listeners + 1) c.listeners, text_eq_refl k)

granted-Returns : (k : Text) (c : ProxyCapacity) → IsDict c.listeners → Returns k (granted k c) c
unfolding release
granted-Returns k c h =
    let g = granted k c in
    let m : held_by k g.listeners ≡ held_by k c.listeners + 1 = granted-held k c in
    let n : held_by k g.listeners == 0 ≡ false = ground (arith, m) in
    let i = insert-IsDict k (held_by k c.listeners + 1) c.listeners h in
    (
      released k g,
      rw n refl,
      omega arith,
      λ j. ground (
        arith,
        m,
        held_by-released k j g.listeners i,
        held_by-insert k j (held_by k c.listeners + 1) c.listeners,
        text_eq_iff k j,
      ),
    )

-- Where the counts have no key twice: a connection that is granted can be released, and after
-- that the total and the count of every listener are what they were.
pub release-try_round :
    (x : Sample) (k : Text) (c : ProxyCapacity)
    → IsDict c.listeners
    → (try_round x k c).1 ≡ none
    → (e : ProxyCapacity) × (release k (try_round x k c).0 ≡ some e)
      × (e.active ≡ c.active)
      × ((j : Text) → held_by j e.listeners ≡ held_by j c.listeners)
unfolding try_round refresh
release-try_round x k c h e =
    let f = refresh_with-listeners x x.additional c in
    let h' = subst (λ (d : Dict ℕ). IsDict d) (sym f.0) h in
    let a : admits k (refresh x c) ≡ true = ground (arith, e) in
    let r : Returns k (granted k (refresh x c)) (refresh x c) =
      granted-Returns k (refresh x c) h' in
    rw a (r.0, r.1, r.2 ∙ f.1, λ j. r.3 j ∙ ap (held_by j) f.0)
