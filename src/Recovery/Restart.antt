-- ===== src/Recovery/Restart.antt =====
-- `recover_interrupted` of egress_repair.py: what a restart makes of the repairs that it cut off.
use aimili_gateway.Prelude.{
  ℕ, Text, ◌≡◌, refl, ap, ◌∙◌, sym, true, false, Option, none, some, inl, inr, Bool-cases, arith,
  text_eq, text_eq_iff, if◌then◌else◌, [], ◌∷◌,
}
use mathlib.Core.Option
use aimili_gateway.Prelude.Dicts.{Dict, lookup}
use aimili_gateway.Recovery.Policy.{retry_wait, manual_required}
use aimili_gateway.Recovery.Store.{Row, empty_row, RepairFile, read, row_of, is_version_2}
use aimili_gateway.Recovery.Attempts.{
  recover_interrupted, recover_rows, interrupted_keys, interrupted_row, is_repairing, is_nil,
}

recover_rows-settled :
    (now : Text → ℕ) (d : Dict Row) (k : Text)
    → lookup k (recover_rows now d)
      ≡ Option.map
          (λ row. if is_repairing row.status then interrupted_row (now k) row else row)
          (lookup k d)
unfolding recover_rows lookup
recover_rows-settled now [] k = refl
recover_rows-settled now ((j, row) ∷ d) k = elim (Bool-cases (text_eq j k)) [
  | inl y ↦ rw (y, (text_eq_iff j k).0 y) refl
  | inr n ↦ rw n (recover_rows-settled now d k)
]

nothing_interrupted :
    (now : Text → ℕ) (d : Dict Row) → is_nil (interrupted_keys d) ≡ true → recover_rows now d ≡ d
unfolding interrupted_keys recover_rows is_nil
nothing_interrupted now [] e = refl
nothing_interrupted now ((k, row) ∷ d) e = ground (arith, nothing_interrupted now d)

read-recover :
    (now : Text → ℕ) (f : RepairFile)
    → read (recover_interrupted now f).0 ≡ recover_rows now (read f)
unfolding recover_interrupted read
read-recover now f = elim (Bool-cases (is_nil (interrupted_keys (read f)))) [
  | inl y ↦ rw y (sym (nothing_interrupted now (read f) y))
  | inr n ↦ rw n refl
]

-- The row of an egress after a restart, from the row before.
recovered : ℕ → Row → Row
recovered now row = if is_repairing row.status then interrupted_row now row else row

row_of-recover :
    (now : Text → ℕ) (f : RepairFile) (k : Text)
    → row_of k (recover_interrupted now f).0 ≡ recovered (now k) (row_of k f)
unfolding row_of recovered is_repairing
row_of-recover now f k =
    ap (λ (d : Dict Row). Option.get_or (lookup k d) empty_row) (read-recover now f)
    ∙ ap (λ (o : Option Row). Option.get_or o empty_row) (recover_rows-settled now (read f) k)
    ∙ defaulted (lookup k (read f))
  where
    defaulted :
        (o : Option Row)
        → Option.get_or
            (Option.map
              (λ row. if is_repairing row.status then interrupted_row (now k) row else row)
              o)
            empty_row
          ≡ recovered (now k) (Option.get_or o empty_row)
    defaulted none = refl
    defaulted (some row) = refl

-- After a restart no repair is marked as running: one with a retry budget waits for an attempt
-- that is due at once and keeps the time of its first failure, an older one is left to a person,
-- and a row that was not running is as it was.
pub recover_lem :
    (now : Text → ℕ) (f : RepairFile) (k : Text)
    → let old = row_of k f in
      let new = row_of k (recover_interrupted now f).0 in
      (is_repairing new.status ≡ false)
      × (is_repairing old.status ≡ false → new ≡ old)
      × (is_repairing old.status ≡ true
          → is_version_2 old.recovery_version ≡ true
          → (new.status ≡ some retry_wait)
            × (new.next_attempt_at ≡ some (now k))
            × (new.started_at ≡ old.started_at))
      × (is_repairing old.status ≡ true
          → is_version_2 old.recovery_version ≡ false
          → new.status ≡ some manual_required)
unfolding recovered interrupted_row is_repairing
recover_lem now f k = rw row_of-recover (ground arith, ground arith, ground arith, ground arith)
