-- ===== src/Recovery/RankingExamples.antt =====
-- The ranking of recovery_policy.py on a few nodes.
use aimili_gateway.Prelude.{
  ℕ, ◌≤◌, Text, codes, ◌≡◌, refl, Bool, not, none, some, List, [], ◌∷◌, ◌++◌, keep, length, All,
  text_eq,
}
use aimili_gateway.Prelude.Sorting.{sorted, IsOrdered}
use aimili_gateway.Recovery.Policy.{defaults}
use aimili_gateway.Recovery.Ranking.{
  Candidate, country_statistics, is_eligible, candidate_less, country_rank, rank_candidates,
  main_target, slot, targets,
}
use aimili_gateway.Recovery.Ranked.{rank_candidates_lem}
use aimili_gateway.Recovery.Counted.{IsCounted, total, country_statistics_lem}

abbrev candidate : Text → Text → Text → ℕ → Candidate
candidate id code kind latency = record {
  id = id;
  ip = id;
  exit_ip = id;
  country_short = code;
  probe_status = codes "available";
  config_text = codes "client";
  ip_type = kind;
  probed_at = 5000000;
  egress_latency_ms = none;
  latency_ms = some latency;
}

abbrev candidates : List Candidate
candidates =
    candidate (codes "a") (codes "KR") (codes "residential") 40
    ∷ candidate (codes "b") (codes "JP") (codes "hosting") 90
    ∷ candidate (codes "c") (codes "JP") (codes "mobile") 120
    ∷ []

rank_candidates_lem_example :
    let eligible = keep (is_eligible (codes "JP") defaults) candidates in
    let ranked = rank_candidates candidates (codes "JP") defaults 6000000 in
    ((p : Candidate → Bool) → length (keep p ranked) ≡ length (keep p eligible))
    × IsOrdered (candidate_less (country_rank eligible (codes "JP") defaults 6000000)) ranked
    × (ranked
        ≡ keep (λ n. text_eq (codes "JP") n.country_short) ranked
          ++ keep (λ n. not (text_eq (codes "JP") n.country_short)) ranked)
rank_candidates_lem_example = rank_candidates_lem candidates (codes "JP") defaults 6000000

country_statistics_lem_example :
    All IsCounted (country_statistics candidates 6000000 120)
    × (total (country_statistics candidates 6000000 120) ≤ length candidates)
country_statistics_lem_example = country_statistics_lem candidates 6000000 120

targets_of_slots :
    targets (3 ∷ 1 ∷ 3 ∷ [])
    ≡ record { index = 0; target = main_target }
      ∷ record { index = 2; target = slot 1 }
      ∷ record { index = 4; target = slot 3 }
      ∷ []
unfolding targets sorted
targets_of_slots = refl
