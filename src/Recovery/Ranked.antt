-- ===== src/Recovery/Ranked.antt =====
-- What `rank_candidates` of services/aimili-egress/recovery_policy.py promises.
use aimili_gateway.Prelude.{
  ℕ, ◌+◌, ◌≤◌, Text, ◌≡◌, refl, ap, Bool, true, false, not, List, [], ◌∷◌, ◌++◌, keep, length,
  arith, text_eq, ◌==◌, Bool-cases, inl, inr,
}
use mathlib.Core.Option
use aimili_gateway.Prelude.Dicts.{lookup, insert, lookup-insert}
use aimili_gateway.Prelude.Sorting.{
  sorted, IsOrdered, sorted-IsOrdered, keep-sorted, text_less_asym,
}
use aimili_gateway.Recovery.Policy.{RecoverySettings}
use aimili_gateway.Recovery.Ranking.{
  Candidate, CountryRow, country_statistics, is_eligible, positions, rank_of, candidate_less,
  country_rank, rank_candidates,
}

candidate_less_asym :
    (rank : Candidate → ℕ) (a b : Candidate)
    → candidate_less rank a b ≡ true
    → candidate_less rank b a ≡ false
unfolding candidate_less
candidate_less_asym rank a b h = ground (arith, text_less_asym a.id b.id)

-- Every position from 1 on is at least 1, and so is the rank of a country without one.
positions_positive :
    (i last : ℕ) (rs : List CountryRow) (k : Text)
    → 1 ≤ i
    → 1 ≤ last
    → 1 ≤ Option.get_or (lookup k (positions i rs)) last
unfolding positions lookup
positions_positive i last [] k h l = l
positions_positive i last (r ∷ rs) k h l =
    ground (arith, h, positions_positive (i + 1) last rs k (omega arith) l)

-- The rank 0 is that of the country that is asked for.
rank_of-zero :
    (last : ℕ) (country : Text) (rs : List CountryRow) (n : Candidate)
    → 1 ≤ last
    → (rank_of (insert country 0 (positions 1 rs)) last n == 0) ≡ text_eq country n.country_short
unfolding rank_of
rank_of-zero last country rs n l = ground (
  arith,
  lookup-insert country n.country_short 0 (positions 1 rs),
  positions_positive 1 last rs n.country_short (omega arith) l,
)

country_rank-zero :
    (eligible : List Candidate) (country : Text) (s : RecoverySettings) (now : ℕ) (n : Candidate)
    → (country_rank eligible country s now n == 0) ≡ text_eq country n.country_short
unfolding country_rank
country_rank-zero eligible country s now n =
    rank_of-zero _ country (country_statistics eligible now s.freshness_seconds) n (omega arith)

module _ (rank : Candidate → ℕ) (p : Candidate → Bool)
    (zero_iff : (n : Candidate) → (rank n == 0) ≡ p n) where
  next_rank : (x y : Candidate) → candidate_less rank y x ≡ false → rank x ≤ rank y
  unfolding candidate_less
  next_rank x y h = ground (arith, h)

  -- After a candidate that fails the test none passes it.
  none_after :
      (x : Candidate) (ys : List Candidate)
      → p x ≡ false
      → IsOrdered (candidate_less rank) (x ∷ ys)
      → (keep p ys ≡ []) × (keep (λ n. not (p n)) ys ≡ ys)
  none_after x [] e h = (refl, refl)
  none_after x (y ∷ ys) e (h, k) =
      let f : p y ≡ false = ground (arith, zero_iff x, zero_iff y, next_rank x y h) in
      let (a, b) = none_after y ys f k in rw f (a, ap (λ l. y ∷ l) b)

  tail-IsOrdered :
      (x : Candidate) (ys : List Candidate)
      → IsOrdered (candidate_less rank) (x ∷ ys)
      → IsOrdered (candidate_less rank) ys
  tail-IsOrdered x [] h = tt
  tail-IsOrdered x (y ∷ ys) h = h.1

  ordered_parts :
      (xs : List Candidate)
      → IsOrdered (candidate_less rank) xs
      → xs ≡ keep p xs ++ keep (λ n. not (p n)) xs
  ordered_parts [] h = refl
  ordered_parts (x ∷ xs) h = elim (Bool-cases (p x)) [
    | inl e ↦ rw e (ap (λ l. x ∷ l) (ordered_parts xs (tail-IsOrdered x xs h)))
    | inr e ↦ let (a, b) = none_after x xs e h in rw (e, a, b) refl
  ]

-- The ranked candidates are the eligible nodes, however they are counted; they are in the order of the
-- key; and those of the country that is asked for come before all others.
pub rank_candidates_lem :
    (nodes : List Candidate) (country : Text) (s : RecoverySettings) (now : ℕ)
    → let eligible = keep (is_eligible country s) nodes in
      let ranked = rank_candidates nodes country s now in
      ((p : Candidate → Bool) → length (keep p ranked) ≡ length (keep p eligible))
      × IsOrdered (candidate_less (country_rank eligible country s now)) ranked
      × (ranked
          ≡ keep (λ n. text_eq country n.country_short) ranked
            ++ keep (λ n. not (text_eq country n.country_short)) ranked)
unfolding rank_candidates
rank_candidates_lem nodes country s now =
    let eligible = keep (is_eligible country s) nodes in
    let rank = country_rank eligible country s now in
    let ordered = sorted-IsOrdered (candidate_less rank) (candidate_less_asym rank) eligible in
    (
      λ p. keep-sorted (candidate_less rank) p eligible,
      ordered,
      ordered_parts rank (λ n. text_eq country n.country_short)
          (country_rank-zero eligible country s now) (sorted (candidate_less rank) eligible)
          ordered,
    )
