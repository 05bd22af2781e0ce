-- ===== src/Recovery/RoundsEnd.antt =====
-- That the rounds of a recovery in services/aimili-egress/egress_repair.py come to an end.
use aimili_gateway.Prelude.{
  ℕ, ◌+◌, ◌-◌, ◌≢◌, ◌*◌, ◌≤◌, ◌<◌, Text, ◌≡◌, refl, ap, ◌⊎◌, inl, inr, Bool, true, false, Option,
  none, some, List, [], ◌∷◌, All, length, arith, leb, Bool-cases, if◌then◌else◌,
}
use mathlib.Core.Option
use Prim.Native.Nat.{suc}
use aimili_gateway.Recovery.Policy.{
  RecoverySettings, manual_required, retry_wait, second, validate, retry_delay, round_start,
  failed_round,
}
use aimili_gateway.Recovery.Store.{Row, RepairFile, row_of, is_healthy}
use aimili_gateway.Recovery.Attempts.{begin_round, finish_round, round_finished_row}
use aimili_gateway.Recovery.Rounds.{finish_round-row, round_lem}
use aimili_gateway.Recovery.Backoff.{retry_delay_bounds}

-- When a round begins, and the two readings of the clock when it has failed.
pub record Round : Type 0 where
  pub now : ℕ
  pub t₀ : ℕ
  pub t₁ : ℕ

abbrev pub run_if : Bool → Option RepairFile → Option RepairFile
run_if true f = f
run_if false f = none

-- Rounds one after another, of which each begins and fails; `none` where one is not allowed to begin.
unfoldable pub run_rounds :
    Text → Text → Text → RecoverySettings → List Round → RepairFile → Option RepairFile
run_rounds e country code s [] f = some f
run_rounds e country code s (r ∷ rs) f =
    let begins = begin_round r.now e country s f in
    run_if begins.1 (run_rounds e country code s rs (finish_round r.t₀ r.t₁ e s code begins.0).0)

module _ (e country code : Text) (s : RecoverySettings) (start : ℕ) where
  -- An egress whose first failure was at `start`, and of which a round may be under way or waited for.
  record IsFailing (f : RepairFile) : Type 0 where
    started : (row_of e f).started_at ≡ some start
    sick : is_healthy (row_of e f).status ≡ false

  -- A round that begins is within the budget, and not before the time of the next attempt.
  begins_within :
      (now : ℕ) (f g : RepairFile)
      → IsFailing f
      → begin_round now e country s f ≡ (g, true)
      → (now < start + s.recovery_budget_seconds * second)
        × (Option.get_or (row_of e f).next_attempt_at 0 ≤ now)
  unfolding begin_round
  begins_within now f g h b = (ground (arith, h.started, h.sick), ground (arith, h.started, h.sick))

  -- No round begins before a time.
  abbrev IsLater : ℕ → RepairFile → Type 0
  IsLater b f = (now : ℕ) (g : RepairFile) → begin_round now e country s f ≡ (g, true) → b ≤ now

  -- A failed round leaves the egress to a person, or a pause before the next attempt.
  pauses :
      (started attempts : Option ℕ) (t : ℕ)
      → ((failed_round started attempts t s code).status ≡ manual_required)
        ⊎ ((n : ℕ) × ((failed_round started attempts t s code).next_attempt_at
              ≡ t + retry_delay s n * second))
  unfolding failed_round
  pauses started attempts t =
      elim (Bool-cases (leb (s.recovery_budget_seconds * second) (t - round_start started t))) [
        | inl m ↦ rw m (inl refl)
        | inr m ↦ rw m (inr (Option.get_or attempts 0 + 1, refl))
      ]

  finish_pauses :
      (t₀ t₁ : ℕ) (g : RepairFile)
      → let row = row_of e (finish_round t₀ t₁ e s code g).0 in
        (row.status ≡ some manual_required)
        ⊎ ((n : ℕ) × (row.next_attempt_at ≡ some (t₁ + retry_delay s n * second)))
  unfolding finish_round round_finished_row
  finish_pauses t₀ t₁ g =
      let row = row_of e g in
      rw finish_round-row
        (elim (pauses (some (Option.get_or row.started_at t₀))
          (some (Option.get_or row.attempt_count 0)) t₁) [
            | inl m ↦ inl (ap some m)
            | inr (n, m) ↦ inr (n, ap some m)
          ])

  not_manual :
      (now : ℕ) (f g : RepairFile)
      → (row_of e f).status ≡ some manual_required
      → begin_round now e country s f ≢ (g, true)
  unfolding begin_round
  not_manual now f g m b = ground arith

  status_sick :
      (row : Row) (b : Bool)
      → row.status ≡ some (if b then manual_required else retry_wait)
      → is_healthy row.status ≡ false
  unfolding is_healthy
  status_sick row true z = rw z refl
  status_sick row false z = rw z refl

  next_time :
      (f : RepairFile) (n t now : ℕ)
      → (row_of e f).next_attempt_at ≡ some (t + retry_delay s n * second)
      → Option.get_or (row_of e f).next_attempt_at 0 ≤ now
      → t + retry_delay s n * second ≤ now
  next_time f n t now m h = ground (arith, m, h)

  -- A round that begins after a recorded pause is at least the initial pause later.
  pause_fits :
      (t now n : ℕ) (f g : RepairFile)
      → validate s ≡ some s
      → IsFailing f
      → (row_of e f).next_attempt_at ≡ some (t + retry_delay s n * second)
      → begin_round now e country s f ≡ (g, true)
      → t + s.retry_initial_seconds * second ≤ now
  pause_fits t now n f g ok failing m b =
      let late : Option.get_or (row_of e f).next_attempt_at 0 ≤ now =
        (begins_within now f g failing b).1 in
      let least : s.retry_initial_seconds ≤ retry_delay s n =
        (retry_delay_bounds s s n n ok (omega arith)).0 in
      omega (arith, next_time f n t now m late, least)

  -- After a round that fails, the next one is at least the initial pause later.
  one_round :
      (r : Round) (f g : RepairFile)
      → validate s ≡ some s
      → 0 < start
      → start ≤ r.t₁
      → IsFailing f
      → begin_round r.now e country s f ≡ (g, true)
      → let f' = (finish_round r.t₀ r.t₁ e s code g).0 in
        IsFailing f' × IsLater (r.t₁ + s.retry_initial_seconds * second) f'
  one_round r f g ok pos past h b =
      let (x, y, z) =
        round_lem r.now r.t₀ r.t₁ start e country code s f g h.started h.sick b pos past in
      let f' = (finish_round r.t₀ r.t₁ e s code g).0 in
      let failing : IsFailing f' = record { started = x; sick = status_sick (row_of e f') _ z } in
      (
        failing,
        λ now g' b'. elim (finish_pauses r.t₀ r.t₁ g) [
          | inl m ↦ absurd (not_manual now f' g' m b')
          | inr (n, m) ↦ pause_fits r.t₁ now n f' g' ok failing m b'
        ],
      )

pair_true : (x : RepairFile × Bool) → x.1 ≡ true → x ≡ (x.0, true)
pair_true (f, true) h = refl
pair_true (f, false) h = cc

run_if-true : (b : Bool) (f : Option RepairFile) (h : RepairFile) → run_if b f ≡ some h → b ≡ true
run_if-true true f h e = refl
run_if-true false f h e = cc

run_if-some : (b : Bool) (f : Option RepairFile) (h : RepairFile) → run_if b f ≡ some h → f ≡ some h
run_if-some true f h e = e
run_if-some false f h e = cc

one_more : (n p : ℕ) → suc n * p ≡ p + n * p
one_more n p = grind arith

module _ (e country code : Text) (s : RecoverySettings) (start : ℕ) (ok : validate s ≡ some s)
    (pos : 0 < start) where
  abbrev InOrder : List Round → Type 0
  InOrder rs = All (λ (r : Round). r.now ≤ r.t₁) rs

  -- From a time that the first of some rounds is not before.
  rounds_fit :
      (b : ℕ) (r : Round) (rs : List Round) (f h : RepairFile)
      → start ≤ b
      → b ≤ r.now
      → IsFailing e country code s start f
      → InOrder (r ∷ rs)
      → run_rounds e country code s (r ∷ rs) f ≡ some h
      → b + length rs * s.retry_initial_seconds * second
        < start + s.recovery_budget_seconds * second
  unfolding run_rounds
  rounds_fit b r [] f h l w i (o, os) q =
      let x = begin_round r.now e country s f in
      let t : x ≡ (x.0, true) = pair_true x (run_if-true x.1 _ h q) in
      omega (arith, w, (begins_within e country code s start r.now f x.0 i t).0)
  rounds_fit b r (p ∷ ps) f h l w i (o, os) q =
      let x = begin_round r.now e country s f in
      let t : x ≡ (x.0, true) = pair_true x (run_if-true x.1 _ h q) in
      let f' = (finish_round r.t₀ r.t₁ e s code x.0).0 in
      let (i', later) =
        one_round e country code s start r f x.0 ok pos (omega (arith, l, w, o)) i t in
      let q' : run_rounds e country code s (p ∷ ps) f' ≡ some h = run_if-some x.1 _ h q in
      let y = begin_round p.now e country s f' in
      let u : y ≡ (y.0, true) = pair_true y (run_if-true y.1 _ h q') in
      let fit =
        rounds_fit (r.t₁ + s.retry_initial_seconds * second) p ps f' h (omega (arith, l, w, o))
          (later p.now y.0 u) i' os q' in
      omega (arith, fit, w, o, one_more (length ps) s.retry_initial_seconds)

-- For validated settings, an egress that is not marked healthy and has a time of its first failure, which
-- is positive and not after the first round's begin: when some rounds, each not ending before it begins,
-- begin and fail one after another, the number of those after the first, times the initial pause, is less
-- than the budget; so only so many rounds are ever allowed to begin.
pub rounds_end :
    (e country code : Text) (s : RecoverySettings) (start : ℕ) (r : Round) (rs : List Round)
    (f h : RepairFile)
    → validate s ≡ some s
    → 0 < start
    → (row_of e f).started_at ≡ some start
    → is_healthy (row_of e f).status ≡ false
    → start ≤ r.now
    → All (λ (r : Round). r.now ≤ r.t₁) (r ∷ rs)
    → run_rounds e country code s (r ∷ rs) f ≡ some h
    → length rs * s.retry_initial_seconds < s.recovery_budget_seconds
rounds_end e country code s start r rs f h ok pos started sick past order q =
    let fit =
      rounds_fit e country code s start ok pos start r rs f h (omega arith) past
        (record { started = started; sick = sick }) order q in
    omega (arith, fit)
