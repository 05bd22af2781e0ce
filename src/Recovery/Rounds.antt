-- ===== src/Recovery/Rounds.antt =====
-- What one round of `RepairStore` of services/aimili-egress/egress_repair.py comes to, and a wait for a
-- standby.
use aimili_gateway.Prelude.{
  ℕ, ◌+◌, ◌*◌, ◌≤◌, ◌<◌, Text, ◌≡◌, refl, ap, ◌∙◌, true, false, Bool, some, arith, leb, text_eq_iff,
  text_eq_refl, if◌then◌else◌,
}
use mathlib.Core.Option
use aimili_gateway.Prelude.Dicts.{lookup-insert}
use aimili_gateway.Recovery.Policy.{RecoverySettings, manual_required, retry_wait, second}
use aimili_gateway.Recovery.Frame.{row_of-put_row}
use aimili_gateway.Recovery.Store.{
  Row, RepairFile, read, row_of, waiting_row, wait_for_standby, is_healthy,
}
use aimili_gateway.Recovery.Attempts.{begin_round, finish_round, round_begun_row}

-- After a wait for a standby that is recorded, a wait of that egress is refused and changes
-- nothing, whatever candidate or country it names.
pub wait_once :
    (now later : ℕ) (e candidate country candidate' country' : Text) (allow allow' : Bool)
    (f g : RepairFile)
    → wait_for_standby now e candidate country allow f ≡ (g, true)
    → wait_for_standby later e candidate' country' allow' g ≡ (g, false)
unfolding wait_for_standby
wait_once now later e candidate country candidate' country' allow allow' f g h =
    ground (arith, lookup-insert e e (waiting_row now candidate country) (read f), text_eq_iff e e)

module _ (now start : ℕ) (e country : Text) (s : RecoverySettings) (f g : RepairFile)
    (started : (row_of e f).started_at ≡ some start) where
  pub begun :
      is_healthy (row_of e f).status ≡ false
      → begin_round now e country s f ≡ (g, true)
      → row_of e g ≡ round_begun_row now country start (row_of e f)
  unfolding begin_round
  begun h b = ground (
    arith,
    lookup-insert e e (round_begun_row now country start (row_of e f)) (read f),
    text_eq_iff e e,
  )

-- What `finish_round` returns is the row that is read back.
pub finish_round-row :
    (t₀ t₁ : ℕ) (e code : Text) (s : RecoverySettings) (f : RepairFile)
    → row_of e (finish_round t₀ t₁ e s code f).0 ≡ (finish_round t₀ t₁ e s code f).1
unfolding finish_round
finish_round-row t₀ t₁ e code s f = row_of-put_row e e _ f ∙ rw (text_eq_refl e) refl

module _ (t₀ t₁ start : ℕ) (e code : Text) (s : RecoverySettings) (f : RepairFile)
    (started : (row_of e f).started_at ≡ some start) (pos : 0 < start) (past : start ≤ t₁) where
  finished :
      let row = (finish_round t₀ t₁ e s code f).1 in
      (row.started_at ≡ some start)
      × (row.attempt_count ≡ some (Option.get_or (row_of e f).attempt_count 0 + 1))
      × (row.status
          ≡ some (
              if leb (start + s.recovery_budget_seconds * second) t₁
              then manual_required
              else retry_wait))
  unfolding finish_round
  finished = ground arith

-- For an egress that is not marked healthy and has a time of its first failure, which is
-- positive and not after the round's end: a round that begins and fails keeps that time, counts
-- one attempt, and leaves the egress waiting for its next attempt as long as the budget since
-- that time lasts, and to a person from then on.
pub round_lem :
    (now t₀ t₁ start : ℕ) (e country code : Text) (s : RecoverySettings) (f g : RepairFile)
    → (row_of e f).started_at ≡ some start
    → is_healthy (row_of e f).status ≡ false
    → begin_round now e country s f ≡ (g, true)
    → 0 < start
    → start ≤ t₁
    → let row = row_of e (finish_round t₀ t₁ e s code g).0 in
      (row.started_at ≡ some start)
      × (row.attempt_count ≡ some (Option.get_or (row_of e f).attempt_count 0 + 1))
      × (row.status
          ≡ some (
              if leb (start + s.recovery_budget_seconds * second) t₁
              then manual_required
              else retry_wait))
unfolding round_begun_row
round_lem now t₀ t₁ start e country code s f g started sick b pos past =
    let at = begun now start e country s f g started sick b in
    rw finish_round-row (
      let (x, y, z) =
        finished t₀ t₁ start e code s g (ap (λ (r : Row). r.started_at) at) pos past in
      (x, y ∙ ap (λ (r : Row). some (Option.get_or r.attempt_count 0 + 1)) at, z))
