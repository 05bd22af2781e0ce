-- ===== src/Recovery/Ranking.antt =====
-- The choice of an exit's next candidates in services/aimili-egress/recovery_policy.py. A dictionary is a
-- record of the keys that the code reads: a missing text is "". Numbers are whole and not negative, as
-- `number` makes them; times are whole microseconds. Country codes are ASCII.
use aimili_gateway.Prelude.{
  ℕ, ◌+◌, ◌-◌, ◌*◌, max, Text, codes, Bool, not, ◌&&◌, ◌||◌, Option, List, [], ◌∷◌, map, keep, all,
  any, length, leb, ltb, ◌==◌, text_eq, is_empty, is_in, upper, lower, if◌then◌else◌,
}
use mathlib.Core.Option
use aimili_gateway.Prelude.Dicts.{Dict, lookup, insert}
use aimili_gateway.Prelude.Folds.{fold}
use aimili_gateway.Prelude.Sorting.{sorted, text_less}
use aimili_gateway.Recovery.Policy.{RecoverySettings, second}

pub record Candidate : Type 0 where
  pub id : Text
  pub ip : Text
  pub exit_ip : Text
  pub country_short : Text
  pub probe_status : Text
  pub config_text : Text
  pub ip_type : Text
  pub probed_at : ℕ
  pub egress_latency_ms : Option ℕ
  pub latency_ms : Option ℕ

unfoldable pub residential : Candidate → Bool
residential n =
    let kind = lower n.ip_type in
    text_eq kind (codes "residential") || text_eq kind (codes "mobile")

-- The keys of a row of the statistics that change.
pub record CountryRow : Type 0 where
  pub code : Text
  pub dialable_count : ℕ
  pub fresh_egress_count : ℕ
  pub residential_count : ℕ
  pub datacenter_count : ℕ
  pub checked_at : ℕ

unfoldable pub empty_row : Text → CountryRow
empty_row code = record {
  code = code;
  dialable_count = 0;
  fresh_egress_count = 0;
  residential_count = 0;
  datacenter_count = 0;
  checked_at = 0;
}

-- `len(code) == 2 and code.isalpha()`.
unfoldable pub is_code : Text → Bool
is_code s = length s == 2 && all (λ c. leb b'A' c && leb c b'Z') s

unfoldable pub identity : Candidate → Text
identity n =
    if not (is_empty n.exit_ip) then n.exit_ip else if not (is_empty n.ip) then n.ip else n.id

unfoldable pub is_dialable : Candidate → Bool
is_dialable n = text_eq n.probe_status (codes "available") && not (is_empty n.config_text)

unfoldable pub is_fresh : ℕ → ℕ → Candidate → Bool
is_fresh now freshness n =
    not (is_empty n.exit_ip)
    && (leb n.probed_at now && leb (now - n.probed_at) (freshness * second))

unfoldable pub one_if : Bool → ℕ
one_if b = if b then 1 else 0

-- The row with one more node.
unfoldable pub counted : ℕ → ℕ → Candidate → CountryRow → CountryRow
unfolding residential is_fresh one_if
counted now freshness n r = record r {
  dialable_count = r.dialable_count + 1;
  residential_count = r.residential_count + one_if (residential n);
  datacenter_count = r.datacenter_count + one_if (not (residential n));
  checked_at = max r.checked_at n.probed_at;
  fresh_egress_count = r.fresh_egress_count + one_if (is_fresh now freshness n);
}

pub record Statistics : Type 0 where
  pub countries : Dict CountryRow
  pub seen : List Text

unfoldable pub is_skipped : Statistics → Candidate → Bool
unfolding is_code identity
is_skipped s n =
    not (is_code (upper n.country_short)) || (is_empty (identity n) || is_in (identity n) s.seen)

-- `countries.setdefault(code, ...)`, the row and the dictionary that has it.
unfoldable pub row_for : Text → Dict CountryRow → CountryRow
unfolding empty_row
row_for code d = Option.get_or (lookup code d) (empty_row code)

-- One turn of the loop.
unfoldable pub count_node : ℕ → ℕ → Statistics → Candidate → Statistics
unfolding is_skipped row_for is_dialable counted identity
count_node now freshness s n =
    let code = upper n.country_short in
    let row = row_for code s.countries in
    if is_skipped s n
    then s
    else if not (is_dialable n)
    then record s { countries = insert code row s.countries }
    else record {
      countries = insert code (counted now freshness n row) s.countries;
      seen = identity n ∷ s.seen;
    }

unfoldable pub later_probe : Candidate → Candidate → Bool
later_probe a b = ltb b.probed_at a.probed_at

-- The key of the rows, of which the first three are negated.
unfoldable pub row_less : CountryRow → CountryRow → Bool
row_less a b =
    if not (a.fresh_egress_count == b.fresh_egress_count)
    then ltb b.fresh_egress_count a.fresh_egress_count
    else if not (a.dialable_count == b.dialable_count)
    then ltb b.dialable_count a.dialable_count
    else if not (a.residential_count == b.residential_count)
    then ltb b.residential_count a.residential_count
    else text_less a.code b.code

unfoldable pub no_statistics : Statistics
no_statistics = record { countries = []; seen = [] }

unfoldable pub country_statistics : List Candidate → ℕ → ℕ → List CountryRow
unfolding count_node later_probe row_less no_statistics
country_statistics nodes now freshness = sorted row_less (
    map (λ e. e.1)
      (fold (count_node now freshness) no_statistics (sorted later_probe nodes)).countries)

unfoldable pub is_eligible : Text → RecoverySettings → Candidate → Bool
unfolding is_dialable residential
is_eligible country s n =
    is_dialable n
    && ((s.allow_datacenter || residential n)
        && (s.allow_cross_country || text_eq n.country_short country))

-- `{row['code']: i + 1 for i, row in enumerate(stats)}`, from a position on.
unfoldable pub positions : ℕ → List CountryRow → Dict ℕ
positions i [] = []
positions i (r ∷ rs) = (r.code, i) ∷ positions (i + 1) rs

unfoldable pub rank_of : Dict ℕ → ℕ → Candidate → ℕ
rank_of ranks last n = Option.get_or (lookup n.country_short ranks) last

-- `number(n.get('egress_latency_ms') or n.get('latency_ms'), 999999)`.
unfoldable pub latency_of : Candidate → ℕ
latency_of n =
    let second_choice = Option.get_or n.latency_ms 999999 in
    let first_choice = Option.get_or n.egress_latency_ms 0 in
    if first_choice == 0 then second_choice else first_choice

-- The key of the candidates, of which `rank` is the first component.
unfoldable pub candidate_less : (Candidate → ℕ) → Candidate → Candidate → Bool
unfolding residential latency_of one_if
candidate_less rank a b =
    if not (rank a == rank b)
    then ltb (rank a) (rank b)
    else if not (one_if (not (residential a)) == one_if (not (residential b)))
    then ltb (one_if (not (residential a))) (one_if (not (residential b)))
    else if not (latency_of a == latency_of b)
    then ltb (latency_of a) (latency_of b)
    else text_less a.id b.id

unfoldable pub country_rank : List Candidate → Text → RecoverySettings → ℕ → Candidate → ℕ
unfolding country_statistics positions rank_of
country_rank eligible country s now n =
    let stats = country_statistics eligible now s.freshness_seconds in
    rank_of (insert country 0 (positions 1 stats)) (length stats + 1) n

unfoldable pub rank_candidates : List Candidate → Text → RecoverySettings → ℕ → List Candidate
unfolding is_eligible candidate_less country_rank
rank_candidates nodes country s now =
    let eligible = keep (is_eligible country s) nodes in
    sorted (candidate_less (country_rank eligible country s now)) eligible

-- The text `main`, or `slot:` with a number.
pub data TargetName : Type 0 where
  main_target : TargetName
  slot : ℕ → TargetName

-- A standby's target; its list of countries is empty.
pub record Target : Type 0 where
  pub index : ℕ
  pub target : TargetName

unfoldable pub has_number : ℕ → List ℕ → Bool
has_number i ns = any (λ j. j == i) ns

-- The set of a list's numbers, as a list without repetition.
unfoldable pub distinct_numbers : List ℕ → List ℕ
unfolding has_number
distinct_numbers [] = []
distinct_numbers (i ∷ ns) =
    let rest = distinct_numbers ns in if has_number i rest then rest else i ∷ rest

unfoldable pub slot_target : ℕ → Target
slot_target i = record { index = i + 1; target = slot i }

unfoldable pub targets : List ℕ → List Target
unfolding distinct_numbers slot_target
targets slots =
    record { index = 0; target = main_target }
    ∷ map slot_target (sorted ltb (distinct_numbers slots))
