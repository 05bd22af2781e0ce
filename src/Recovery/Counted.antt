-- ===== src/Recovery/Counted.antt =====
-- What `country_statistics` of services/aimili-egress/recovery_policy.py counts.
use aimili_gateway.Prelude.{
  ℕ, ◌+◌, ◌≤◌, Text, ◌≡◌, refl, Bool, true, false, upper, List, [], ◌∷◌, map, length, All, arith,
  text_eq, Bool-cases, inl, inr,
}
use aimili_gateway.Prelude.Dicts.{Dict, lookup, insert}
use aimili_gateway.Prelude.Folds.{fold}
use aimili_gateway.Prelude.Sorting.{sorted, place, sorted-All, length-sorted}
use aimili_gateway.Recovery.Ranking.{
  Candidate, one_if, CountryRow, empty_row, is_code, is_dialable, counted, Statistics, is_skipped,
  row_for, count_node, later_probe, row_less, no_statistics, country_statistics,
}

pub record IsCounted (r : CountryRow) : Type 0 where
  pub coded : is_code r.code ≡ true
  pub kinds : r.dialable_count ≡ r.residential_count + r.datacenter_count
  pub fresh : r.fresh_egress_count ≤ r.dialable_count

-- All dialable nodes of some rows.
abbrev pub total : List CountryRow → ℕ
total [] = 0
total (r ∷ rs) = r.dialable_count + total rs

abbrev values : Dict CountryRow → List CountryRow
values d = map (λ e. e.1) d

total-insert :
    (k : Text) (v : CountryRow) (d : Dict CountryRow)
    → total (values (insert k v d)) + (row_for k d).dialable_count
      ≡ total (values d) + v.dialable_count
unfolding insert lookup row_for empty_row
total-insert k v [] = omega arith
total-insert k v ((j, w) ∷ d) = ground (arith, total-insert k v d)

insert-All :
    (k : Text) (v : CountryRow) (d : Dict CountryRow)
    → IsCounted v
    → All IsCounted (values d)
    → All IsCounted (values (insert k v d))
unfolding insert
insert-All k v [] h hs = (h, tt)
insert-All k v ((j, w) ∷ d) h (m, ms) = elim (Bool-cases (text_eq j k)) [
  | inl e ↦ rw e (h, ms)
  | inr e ↦ rw e (m, insert-All k v d h ms)
]

-- A row that is there, or a new one for a code.
row_for-IsCounted :
    (k : Text) (d : Dict CountryRow)
    → is_code k ≡ true
    → All IsCounted (values d)
    → IsCounted (row_for k d)
unfolding row_for lookup empty_row
row_for-IsCounted k [] c h = record { coded = c; kinds = refl; fresh = omega arith }
row_for-IsCounted k ((j, w) ∷ d) c (m, ms) = elim (Bool-cases (text_eq j k)) [
  | inl e ↦ rw e m
  | inr e ↦ rw e (row_for-IsCounted k d c ms)
]

counted-IsCounted :
    (now freshness : ℕ) (n : Candidate) (r : CountryRow)
    → IsCounted r
    → IsCounted (counted now freshness n r)
unfolding counted one_if
counted-IsCounted now freshness n r h = record {
  coded = h.coded;
  kinds = ground (arith, h.kinds);
  fresh = ground (arith, h.fresh);
}

-- While the nodes are counted: each row adds up, and all rows together count the identities seen.
record Counts (s : Statistics) : Type 0 where
  rows : All IsCounted (values s.countries)
  sum : total (values s.countries) ≡ length s.seen

skipped_code :
    (s : Statistics) (n : Candidate)
    → is_skipped s n ≡ false
    → is_code (upper n.country_short) ≡ true
unfolding is_skipped
skipped_code s n h = ground (arith, h)

counted_sum :
    (now freshness : ℕ) (n : Candidate) (s : Statistics) (k : Text)
    → total (values s.countries) ≡ length s.seen
    → total (values (insert k (counted now freshness n (row_for k s.countries)) s.countries))
      ≡ length s.seen + 1
unfolding counted
counted_sum now freshness n s k h =
    omega (arith, h, total-insert k (counted now freshness n (row_for k s.countries)) s.countries)

count_node-Counts :
    (now freshness : ℕ) (s : Statistics) (n : Candidate)
    → Counts s
    → Counts (count_node now freshness s n)
      × (length (count_node now freshness s n).seen ≤ length s.seen + 1)
unfolding count_node
count_node-Counts now freshness s n h =
    let k = upper n.country_short in
    let row = row_for k s.countries in
    elim (Bool-cases (is_skipped s n)) [
      | inl e ↦ rw e (h, omega arith)
      | inr e ↦
          let r = row_for-IsCounted k s.countries (skipped_code s n e) h.rows in
          elim (Bool-cases (is_dialable n)) [
            | inl d ↦
                rw (e, d)
                  (
                    record {
                      rows =
                          insert-All k (counted now freshness n row) s.countries
                            (counted-IsCounted now freshness n row r) h.rows;
                      sum = omega (arith, counted_sum now freshness n s k h.sum);
                    },
                    omega arith,
                  )
            | inr d ↦
                rw (e, d)
                  (
                    record {
                      rows = insert-All k row s.countries r h.rows;
                      sum = omega (arith, total-insert k row s.countries, h.sum);
                    },
                    omega arith,
                  )
          ]
    ]

fold-Counts :
    (now freshness : ℕ) (s : Statistics) (ns : List Candidate)
    → Counts s
    → Counts (fold (count_node now freshness) s ns)
      × (length (fold (count_node now freshness) s ns).seen ≤ length s.seen + length ns)
unfolding fold
fold-Counts now freshness s [] h = (h, omega arith)
fold-Counts now freshness s (n ∷ ns) h =
    let (c, l) = count_node-Counts now freshness s n h in
    let (d, m) = fold-Counts now freshness (count_node now freshness s n) ns c in
    (d, omega (arith, l, m))

total-place :
    (less : CountryRow → CountryRow → Bool) (r : CountryRow) (rs : List CountryRow)
    → total (place less r rs) ≡ r.dialable_count + total rs
unfolding place
total-place less r [] = refl
total-place less r (q ∷ rs) = ground (arith, total-place less r rs)

total-sorted :
    (less : CountryRow → CountryRow → Bool) (rs : List CountryRow)
    → total (sorted less rs) ≡ total rs
unfolding sorted
total-sorted less [] = refl
total-sorted less (r ∷ rs) =
    omega (arith, total-place less r (sorted less rs), total-sorted less rs)

no_statistics-Counts : Counts no_statistics
unfolding no_statistics
no_statistics-Counts = record { rows = tt; sum = refl }

-- Every row of the statistics has a country's code of two letters, its dialable nodes are the residential
-- and the datacenter ones, and no more of them are fresh than are dialable; and all rows together count no
-- more nodes than there are.
pub country_statistics_lem :
    (nodes : List Candidate) (now freshness : ℕ)
    → All IsCounted (country_statistics nodes now freshness)
      × (total (country_statistics nodes now freshness) ≤ length nodes)
unfolding country_statistics no_statistics
country_statistics_lem nodes now freshness =
    let start = no_statistics in
    let ns = sorted later_probe nodes in
    let rows = values (fold (count_node now freshness) start ns).countries in
    let (c, l) = fold-Counts now freshness start ns no_statistics-Counts in
    (
      sorted-All row_less IsCounted rows c.rows,
      omega (arith, total-sorted row_less rows, c.sum, l, no_seen, length-sorted later_probe nodes),
    )
  where
    no_seen : length no_statistics.seen ≡ 0
    no_seen = refl
