-- ===== src/Recovery/Frame.antt =====
-- Methods of `RepairStore` on one egress leave every other egress alone, and the row that they
-- write is the row that is read back.
use aimili_gateway.Prelude.{
  ℕ, Text, upper, ◌≡◌, ◌≢◌, refl, ap, ◌∙◌, false, Bool, Option, none, some, arith, text_eq,
  text_eq_iff, if◌then◌else◌, [], ◌∷◌,
}
use mathlib.Core.Option
use aimili_gateway.Prelude.Dicts.{Dict, lookup, remove, lookup-insert}
use aimili_gateway.Recovery.Policy.{RecoverySettings}
use aimili_gateway.Recovery.Store.{
  Row, empty_row, RepairFile, read, row_of, put_row, claim, require_manual, wait_for_standby,
  requeue_for_standby, claimed_row, waiting_row, or_default,
}
use aimili_gateway.Recovery.Attempts.{
  begin_round, finish_round, cool_candidate, mark_healthy, clear, round_row, exhausted_row,
  round_begun_row, healthy_row, clear_found,
}

pub row_of-put_row :
    (e k : Text) (row : Row) (f : RepairFile)
    → row_of k (put_row e row f) ≡ (if text_eq e k then row else row_of k f)
unfolding row_of put_row
row_of-put_row e k row f = ground (arith, lookup-insert e k row (read f))

-- The methods that are given an egress.
pub data Call : Type 0 where
  claims : ℕ → Text → Text → Call
  requires_manual : ℕ → Text → Text → Call
  waits : ℕ → Text → Text → Bool → Call
  requeues : ℕ → Text → Text → Call
  begins : ℕ → Text → RecoverySettings → Call
  finishes : ℕ → ℕ → RecoverySettings → Text → Call
  cools : ℕ → Text → ℕ → Call
  marks_healthy : ℕ → Text → Call
  clears : Call

-- The file after a call on an egress.
unfoldable pub after : Text → Call → RepairFile → RepairFile
after e (claims now candidate country) f = (claim now e candidate country f).0
after e (requires_manual now code replacement) f = require_manual now e code replacement f
after e (waits now candidate country allow) f = (wait_for_standby now e candidate country allow f).0
after e (requeues now candidate country) f = (requeue_for_standby now e candidate country f).0
after e (begins now country s) f = (begin_round now e country s f).0
after e (finishes t₀ t₁ s code) f = (finish_round t₀ t₁ e s code f).0
after e (cools now candidate seconds) f = cool_candidate now e candidate seconds f
after e (marks_healthy now candidate) f = mark_healthy now e candidate f
after e clears f = clear e f

lookup-remove_ne :
    (e k : Text) (d : Dict Row) → text_eq e k ≡ false → lookup k (remove e d) ≡ lookup k d
unfolding lookup remove
lookup-remove_ne e k [] n = refl
lookup-remove_ne e k ((j, row) ∷ d) n =
    ground (arith, lookup-remove_ne e k d n, text_eq_iff j e, text_eq_iff j k, text_eq_iff e k)

module _ (e k : Text) (n : text_eq e k ≡ false) where
  put_row-other : (row : Row) (f : RepairFile) → row_of k (put_row e row f) ≡ row_of k f
  put_row-other row f = row_of-put_row e k row f ∙ rw n refl

  clear-other : (o : Option Row) (f : RepairFile) → row_of k (clear_found e o f) ≡ row_of k f
  unfolding clear_found row_of
  clear-other none f = refl
  clear-other (some row) f =
      ap (λ (x : Option Row). Option.get_or x empty_row) (lookup-remove_ne e k (read f) n)

  claim-other :
      (now : ℕ) (candidate country : Text) (f : RepairFile)
      → row_of k (claim now e candidate country f).0 ≡ row_of k f
  unfolding claim
  claim-other now candidate country f =
      ground (arith, lookup-insert e k (claimed_row now candidate country) (read f))

  wait-other :
      (now : ℕ) (candidate country : Text) (allow : Bool) (f : RepairFile)
      → row_of k (wait_for_standby now e candidate country allow f).0 ≡ row_of k f
  unfolding wait_for_standby
  wait-other now candidate country allow f =
      ground (arith, lookup-insert e k (waiting_row now candidate country) (read f))

  requeue-other :
      (now : ℕ) (candidate country : Text) (f : RepairFile)
      → row_of k (requeue_for_standby now e candidate country f).0 ≡ row_of k f
  unfolding requeue_for_standby
  requeue-other now candidate country f =
      let old = row_of e f in
      let failed = or_default candidate (Option.get_or old.failed_candidate_id []) in
      let place = upper (or_default country (Option.get_or old.country [])) in
      let row = waiting_row now failed place in
      ground (
        arith,
        lookup-insert e k
            (record row { previous_error_code = some (Option.get_or old.error_code []) }) (read f),
      )

  begin-other :
      (now : ℕ) (country : Text) (s : RecoverySettings) (f : RepairFile)
      → row_of k (begin_round now e country s f).0 ≡ row_of k f
  unfolding begin_round
  begin-other now country s f =
      let row = round_row (row_of e f) in
      ground (
        arith,
        lookup-insert e k (exhausted_row row) (read f),
        lookup-insert e k (round_begun_row now country (Option.get_or row.started_at now) row)
            (read f),
      )

  healthy-other :
      (now : ℕ) (candidate : Text) (f : RepairFile)
      → row_of k (mark_healthy now e candidate f) ≡ row_of k f
  unfolding mark_healthy
  healthy-other now candidate f =
      ground (arith, lookup-insert e k (healthy_row now candidate) (read f))

module _ (e k : Text) (n : text_eq e k ≡ false) where
  frame : (c : Call) (f : RepairFile) → row_of k (after e c f) ≡ row_of k f
  unfolding after require_manual finish_round cool_candidate clear
  frame (claims now candidate country) f = claim-other e k n now candidate country f
  frame (requires_manual now code replacement) f = put_row-other e k n _ f
  frame (waits now candidate country allow) f = wait-other e k n now candidate country allow f
  frame (requeues now candidate country) f = requeue-other e k n now candidate country f
  frame (begins now country s) f = begin-other e k n now country s f
  frame (finishes t₀ t₁ s code) f = put_row-other e k n _ f
  frame (cools now candidate seconds) f = put_row-other e k n _ f
  frame (marks_healthy now candidate) f = healthy-other e k n now candidate f
  frame clears f = clear-other e k n (lookup e (read f)) f

text_eq-false : (e k : Text) → e ≢ k → text_eq e k ≡ false
text_eq-false e k ne = ground (arith, text_eq_iff e k)

-- A call of any method on one egress leaves the row of every other egress as it was.
pub after-frame :
    (e k : Text) (c : Call) (f : RepairFile) → e ≢ k → row_of k (after e c f) ≡ row_of k f
after-frame e k c f ne = frame e k (text_eq-false e k ne) c f
