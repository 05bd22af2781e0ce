-- ===== src/Recovery/Lasting.antt =====
-- What calls of `RepairStore` of services/aimili-egress/egress_repair.py leave as it is: a claim, and an
-- egress that is left to a person.
use aimili_gateway.Prelude.{
  ℕ, Text, ◌≡◌, ◌≢◌, refl, sym, ap, ◌∙◌, subst, ◌⊎◌, inl, inr, Bool, true, false, some, List, [],
  ◌∷◌, All, arith, text_eq, text_eq_iff, text_eq_refl, Bool-cases,
}
use aimili_gateway.Prelude.Dicts.{lookup-insert}
use aimili_gateway.Recovery.Policy.{RecoverySettings, manual_required}
use aimili_gateway.Recovery.Store.{
  Row, RepairFile, read, row_of, put_row, claim, claimed_row, require_manual, wait_for_standby,
  requeue_for_standby, is_unresolved, is_version_2,
}
use aimili_gateway.Recovery.Attempts.{begin_round, cool_candidate}
use aimili_gateway.Recovery.Frame.{
  Call, claims, requires_manual, waits, requeues, begins, finishes, cools, marks_healthy, clears,
  after, after-frame, row_of-put_row,
}

-- Calls one after another, each on the egress it names.
unfoldable pub after_all : List (Text × Call) → RepairFile → RepairFile
unfolding after
after_all [] f = f
after_all ((k, c) ∷ cs) f = after_all cs (after k c f)

own_row : (e : Text) (row : Row) (f : RepairFile) → row_of e (put_row e row f) ≡ row
own_row e row f = row_of-put_row e e row f ∙ rw (text_eq_refl e) refl

-- A property of the row of an egress that calls of some kinds keep.
module _ (e : Text) (Q : Row → Type 0) (keeps : Call → Bool)
    (own : (c : Call) (f : RepairFile)
      → keeps c ≡ true
      → Q (row_of e f)
      → Q (row_of e (after e c f))) where
  -- Calls on other egresses, and of those kinds on this one.
  abbrev AreKept : List (Text × Call) → Type 0
  AreKept cs = All (λ p. (p.0 ≢ e) ⊎ (keeps p.1 ≡ true)) cs

  other_row :
      (k : Text) (c : Call) (f : RepairFile) → k ≢ e → Q (row_of e f) → Q (row_of e (after k c f))
  other_row k c f ne h = subst Q (sym (after-frame k e c f ne)) h

  one_call :
      (k : Text) (c : Call) (f : RepairFile)
      → (k ≢ e) ⊎ (keeps c ≡ true)
      → Q (row_of e f)
      → Q (row_of e (after k c f))
  one_call k c f (inl ne) h = other_row k c f ne h
  one_call k c f (inr t) h = elim (Bool-cases (text_eq k e)) [
    | inl s ↦
        subst (λ (i : Text). Q (row_of e (after i c f))) (sym ((text_eq_iff k e).0 s)) (own c f t h)
    | inr s ↦ other_row k c f (ground (arith, s, text_eq_iff k e)) h
  ]

  pub all_calls :
      (cs : List (Text × Call)) (f : RepairFile)
      → AreKept cs
      → Q (row_of e f)
      → Q (row_of e (after_all cs f))
  unfolding after_all
  all_calls [] f a h = h
  all_calls ((k, c) ∷ cs) f (a, rest) h = all_calls cs (after k c f) rest (one_call k c f a h)

-- The methods that leave a claim unresolved.
unfoldable pub keeps_claim : Call → Bool
keeps_claim (claims now candidate country) = true
keeps_claim (requires_manual now code replacement) = true
keeps_claim (begins now country s) = true
keeps_claim (cools now candidate seconds) = true
keeps_claim _ = false

abbrev IsUnresolved : Row → Type 0
IsUnresolved row = is_unresolved row.status ≡ true

claim-stays :
    (e : Text) (c : Call) (f : RepairFile)
    → keeps_claim c ≡ true
    → IsUnresolved (row_of e f)
    → IsUnresolved (row_of e (after e c f))
unfolding keeps_claim after claim require_manual begin_round cool_candidate is_unresolved
claim-stays e (claims now candidate country) f t h = ground (arith, h)
claim-stays e (requires_manual now code replacement) f t h = rw own_row refl
claim-stays e (waits now candidate country allow) f t h = cc
claim-stays e (requeues now candidate country) f t h = cc
claim-stays e (begins now country s) f t h = ground (arith, h)
claim-stays e (finishes t₀ t₁ s code) f t h = cc
claim-stays e (cools now candidate seconds) f t h = rw own_row h
claim-stays e (marks_healthy now candidate) f t h = cc
claim-stays e clears f t h = cc

claim-IsUnresolved :
    (now : ℕ) (e candidate country : Text) (f g : RepairFile)
    → claim now e candidate country f ≡ (g, true)
    → IsUnresolved (row_of e g)
unfolding claim is_unresolved
claim-IsUnresolved now e candidate country f g h =
    ground (arith, lookup-insert e e (claimed_row now candidate country) (read f), text_eq_refl e)

-- A claim lasts: once it has succeeded, and after any further calls on other egresses, and of claim,
-- require_manual, begin_round and cool_candidate on this one, a claim of that egress is refused and changes
-- nothing, whatever candidate or country it names.
pub claim_once :
    (now later : ℕ) (e candidate country candidate' country' : Text) (f g : RepairFile)
    (cs : List (Text × Call))
    → claim now e candidate country f ≡ (g, true)
    → All (λ p. (p.0 ≢ e) ⊎ (keeps_claim p.1 ≡ true)) cs
    → claim later e candidate' country' (after_all cs g) ≡ (after_all cs g, false)
unfolding claim
claim_once now later e candidate country candidate' country' f g cs h a =
    let last =
      all_calls e IsUnresolved keeps_claim (claim-stays e) cs g a
        (claim-IsUnresolved now e candidate country f g h) in
    rw last refl

-- The methods that do not take an egress away from a person.
unfoldable pub keeps_manual : Call → Bool
keeps_manual (finishes t₀ t₁ s code) = false
keeps_manual (marks_healthy now candidate) = false
keeps_manual clears = false
keeps_manual _ = true

-- Left to a person, by the rounds of the second version of the recovery.
pub record IsManual (row : Row) : Type 0 where
  pub manual : row.status ≡ some manual_required
  pub version : row.recovery_version ≡ some 2

refused_claim :
    (now : ℕ) (e candidate country : Text) (f : RepairFile)
    → (row_of e f).status ≡ some manual_required
    → claim now e candidate country f ≡ (f, false)
unfolding claim
refused_claim now e candidate country f h = ground arith

refused_wait :
    (now : ℕ) (e candidate country : Text) (allow : Bool) (f : RepairFile)
    → (row_of e f).status ≡ some manual_required
    → wait_for_standby now e candidate country allow f ≡ (f, false)
unfolding wait_for_standby
refused_wait now e candidate country allow f h = ground arith

refused_requeue :
    (now : ℕ) (e candidate country : Text) (f : RepairFile)
    → IsManual (row_of e f)
    → requeue_for_standby now e candidate country f ≡ (f, false)
unfolding requeue_for_standby is_version_2
refused_requeue now e candidate country f h = ground (arith, h.version)

refused_round :
    (now : ℕ) (e country : Text) (s : RecoverySettings) (f : RepairFile)
    → (row_of e f).status ≡ some manual_required
    → begin_round now e country s f ≡ (f, false)
unfolding begin_round
refused_round now e country s f h = ground arith

-- A call that is refused leaves the row as it is.
refused :
    (e : Text) (f : RepairFile) (x : RepairFile × Bool)
    → x ≡ (f, false)
    → IsManual (row_of e f)
    → IsManual (row_of e x.0)
refused e f x q h =
    subst (λ (g : RepairFile). IsManual (row_of e g)) (sym (ap (λ (y : RepairFile × Bool). y.0) q))
      h

IsManual-stays :
    (e : Text) (c : Call) (f : RepairFile)
    → keeps_manual c ≡ true
    → IsManual (row_of e f)
    → IsManual (row_of e (after e c f))
unfolding keeps_manual after claim require_manual wait_for_standby requeue_for_standby begin_round
    cool_candidate is_version_2
IsManual-stays e (claims now candidate country) f t h =
    refused e f _ (refused_claim now e candidate country f h.manual) h
IsManual-stays e (requires_manual now code replacement) f t h =
    rw own_row (record { manual = refl; version = h.version })
IsManual-stays e (waits now candidate country allow) f t h =
    refused e f _ (refused_wait now e candidate country allow f h.manual) h
IsManual-stays e (requeues now candidate country) f t h =
    refused e f _ (refused_requeue now e candidate country f h) h
IsManual-stays e (begins now country s) f t h =
    refused e f _ (refused_round now e country s f h.manual) h
IsManual-stays e (finishes t₀ t₁ s code) f t h = cc
IsManual-stays e (cools now candidate seconds) f t h =
    rw own_row (record { manual = h.manual; version = h.version })
IsManual-stays e (marks_healthy now candidate) f t h = cc
IsManual-stays e clears f t h = cc

-- An egress that is left to a person by the second version of the recovery stays so, after any calls on
-- other egresses, and any on this one but finish_round, mark_healthy and clear.
pub after_all-IsManual :
    (e : Text) (f : RepairFile) (cs : List (Text × Call))
    → IsManual (row_of e f)
    → All (λ p. (p.0 ≢ e) ⊎ (keeps_manual p.1 ≡ true)) cs
    → IsManual (row_of e (after_all cs f))
after_all-IsManual e f cs h a = all_calls e IsManual keeps_manual (IsManual-stays e) cs f a h
