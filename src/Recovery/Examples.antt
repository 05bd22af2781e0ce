-- ===== src/Recovery/Examples.antt =====
-- Runs of the store of egress_repair.py at concrete data.
use aimili_gateway.Prelude.{
  codes, Text, ◌≡◌, ◌≢◌, refl, sym, true, false, none, some, List, [], ◌∷◌, inl, inr, ◌<◌, ◌≤◌, ◌+◌,
  ◌*◌, leb, if◌then◌else◌, arith,
}
use mathlib.Core.Option
use aimili_gateway.Prelude.Strings.{text_eq_iff, text_eq}
use aimili_gateway.Prelude.Dicts.{lookup, insert}
use aimili_gateway.Recovery.Policy.{
  defaults, validate, retry_delay, manual_required, retry_wait, second,
}
use aimili_gateway.Recovery.Store.{is_version_2, RepairFile, row_of, claim, wait_for_standby}
use aimili_gateway.Recovery.Attempts.{begin_round, finish_round, recover_interrupted, is_repairing}
use aimili_gateway.Recovery.Rounds.{wait_once, round_lem}
use aimili_gateway.Recovery.RoundsEnd.{run_rounds, rounds_end}
use aimili_gateway.Recovery.Lasting.{
  after_all, claim_once, keeps_claim, keeps_manual, IsManual, after_all-IsManual,
}
use aimili_gateway.Recovery.Backoff.{retry_delay_bounds}
use aimili_gateway.Recovery.Frame.{
  clears, Call, claims, begins, requires_manual, after, after-frame,
}
use aimili_gateway.Recovery.Restart.{recover_lem}

different : codes "slot-1" ≢ codes "slot-2"
unfolding text_eq
different e = let h : text_eq (codes "slot-1") (codes "slot-2") ≡ true = (text_eq_iff _ _).1 e in cc

abbrev claimed : RepairFile
claimed = (claim 5 (codes "slot-1") (codes "node-1") (codes "jp") none).0

claim_once_example :
    let cs : List (Text × Call) =
      (codes "slot-1", begins 7 (codes "jp") defaults)
      ∷ (codes "slot-2", clears)
      ∷ (codes "slot-1", requires_manual 8 (codes "no_candidate") (codes ""))
      ∷ [] in
    claim 9 (codes "slot-1") (codes "node-2") (codes "us") (after_all cs claimed)
    ≡ (after_all cs claimed, false)
unfolding claim lookup keeps_claim
claim_once_example =
    claim_once 5 9 (codes "slot-1") (codes "node-1") (codes "jp") (codes "node-2") (codes "us") none
      claimed _ refl (inr refl, (inl (λ q. different (sym q)), (inr refl, tt)))

abbrev standing_by : RepairFile
standing_by = (wait_for_standby 1000000 (codes "slot-1") (codes "node-1") (codes "JP") false none).0

abbrev in_round : RepairFile
in_round = (begin_round 2000000 (codes "slot-1") (codes "JP") defaults standing_by).0

abbrev given_up : RepairFile
given_up =
    (finish_round 3000000 2000000000000 (codes "slot-1") defaults (codes "no_candidate") in_round).0

after_all-IsManual_example : IsManual (
    row_of (codes "slot-1") (
      after_all
        ((codes "slot-1", claims 9 (codes "node-2") (codes "us")) ∷ (codes "slot-2", clears) ∷ [])
        given_up))
unfolding row_of lookup insert text_eq wait_for_standby begin_round finish_round keeps_manual
after_all-IsManual_example =
    after_all-IsManual (codes "slot-1") given_up _ (record { manual = refl; version = refl })
      (inr refl, (inl (λ q. different (sym q)), tt))

abbrev after_rounds : RepairFile
after_rounds =
    (finish_round 41000000 41000000 (codes "slot-1") defaults (codes "no_candidate")
      (begin_round 40000000 (codes "slot-1") (codes "JP") defaults
        (finish_round 3000000 4000000 (codes "slot-1") defaults (codes "no_candidate")
          in_round).0).0).0

rounds_end_example : 1 * defaults.retry_initial_seconds < defaults.recovery_budget_seconds
unfolding row_of lookup wait_for_standby insert text_eq begin_round run_rounds finish_round validate
    retry_delay
rounds_end_example =
    rounds_end (codes "slot-1") (codes "JP") (codes "no_candidate") defaults 1000000
      (record { now = 2000000; t₀ = 3000000; t₁ = 4000000 })
      (record { now = 40000000; t₀ = 41000000; t₁ = 41000000 } ∷ []) standing_by after_rounds refl
      (omega arith) refl refl (omega arith) (omega arith, omega arith) refl

round_lem_example :
    let row =
      row_of
        (codes "slot-1")
        (finish_round 3000000 4000000
          (codes "slot-1")
          defaults
          (codes "no_candidate")
          in_round).0 in
    (row.started_at ≡ some 1000000)
    × (row.attempt_count
        ≡ some (Option.get_or (row_of (codes "slot-1") standing_by).attempt_count 0 + 1))
    × (row.status
        ≡ some (
            if leb (1000000 + defaults.recovery_budget_seconds * second) 4000000
            then manual_required
            else retry_wait))
unfolding row_of lookup wait_for_standby insert text_eq begin_round
round_lem_example =
    round_lem 2000000 3000000 4000000 1000000 (codes "slot-1") (codes "JP") (codes "no_candidate")
      defaults standing_by in_round refl refl refl (omega arith) (omega arith)

retry_delay_bounds_example :
    (defaults.retry_initial_seconds ≤ retry_delay defaults 2)
    × (retry_delay defaults 2 ≤ defaults.retry_max_seconds)
    × (retry_delay defaults 2 ≤ retry_delay defaults 5)
unfolding validate
retry_delay_bounds_example = retry_delay_bounds defaults defaults 2 5 refl (omega arith)

recover_lem_example :
    let old = row_of (codes "slot-1") in_round in
    let new = row_of (codes "slot-1") (recover_interrupted (λ k. 3000000) in_round).0 in
    (is_repairing new.status ≡ false)
    × (is_repairing old.status ≡ false → new ≡ old)
    × (is_repairing old.status ≡ true
        → is_version_2 old.recovery_version ≡ true
        → (new.status ≡ some retry_wait)
          × (new.next_attempt_at ≡ some 3000000)
          × (new.started_at ≡ old.started_at))
    × (is_repairing old.status ≡ true
        → is_version_2 old.recovery_version ≡ false
        → new.status ≡ some manual_required)
recover_lem_example = recover_lem (λ k. 3000000) in_round (codes "slot-1")

after-frame_example :
    row_of (codes "slot-2") (after (codes "slot-1") clears in_round)
    ≡ row_of (codes "slot-2") in_round
after-frame_example = after-frame (codes "slot-1") (codes "slot-2") clears in_round different

wait_once_example :
    wait_for_standby 9 (codes "slot-1") (codes "node-2") (codes "US") true standing_by
    ≡ (standing_by, false)
unfolding wait_for_standby lookup
wait_once_example =
    wait_once 1000000 9 (codes "slot-1") (codes "node-1") (codes "JP") (codes "node-2") (codes "US")
      false true none standing_by refl
