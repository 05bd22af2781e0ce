-- ===== src/Proxy/Examples.antt =====
-- Runs of `ProxyCapacity` of services/aimili-egress/proxy_server.py at concrete data.
use aimili_gateway.Prelude.{Text, codes, ◌≡◌, refl, ◌∷◌, [], some}
use aimili_gateway.Prelude.Dicts.{lookup}
use aimili_gateway.Proxy.Capacity.{ProxyCapacity, Sample, new_capacity, held_by, try_round, release}
use aimili_gateway.Proxy.Bounds.{
  IsWithin, registers, tries, snapshots, releases, after_calls, after_calls-IsWithin,
}
use aimili_gateway.Proxy.RoundTrip.{release-try_round}

abbrev sample : Sample
sample = record { now = 10; additional = some 3; sample_period = 5 }

after_calls-IsWithin_example : IsWithin (
    after_calls
      (registers (codes "7928")
        ∷ tries sample (codes "7928")
        ∷ snapshots sample
        ∷ releases (codes "7929")
        ∷ [])
      (new_capacity 8 4 1))
after_calls-IsWithin_example = after_calls-IsWithin 8 4 1 (
    registers (codes "7928")
    ∷ tries sample (codes "7928")
    ∷ snapshots sample
    ∷ releases (codes "7929")
    ∷ [])

release-try_round_example :
    (e : ProxyCapacity) × (release
        (codes "7928")
        (try_round sample (codes "7928") (new_capacity 8 4 1)).0
      ≡ some e)
    × (e.active ≡ (new_capacity 8 4 1).active)
    × ((j : Text) → held_by j e.listeners ≡ held_by j (new_capacity 8 4 1).listeners)
unfolding new_capacity try_round lookup
release-try_round_example = release-try_round sample (codes "7928") (new_capacity 8 4 1) tt refl
