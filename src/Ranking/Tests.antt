-- ===== src/Ranking/Tests.antt =====
-- shared/ranking.py: the bounds at a concrete element.
use geocoder_fwd.Prelude.{ℕ, ◌≤◌, some, [], ◌∷◌, String, Dict, ltb, arith}
use geocoder_fwd.Prelude.Int.{pos}
use geocoder_fwd.Ranking.Signals.{Builtins}
use geocoder_fwd.Ranking.Rank.{compute_offline_rank}
use geocoder_fwd.Ranking.Rank.Bounds.{compute_offline_rank_bounded}

-- Numbers in thousandths, and an area in square kilometres, whose logarithm is 2.
abbrev rough : Builtins
rough = record {
  precision = 1000;
  Float = ℕ;
  is_positive = λ x. ltb 0 x;
  log10 = λ x. pos 2000;
  log10_int = λ n. 6000;
  int = λ s. some (pos 1000000);
}

abbrev cairo : Dict String
cairo =
    ("name", "Cairo") ∷ ("place", "city") ∷ ("population", "1,000,000") ∷ ("wikidata", "Q85") ∷ []

compute_offline_rank_bounded_example : compute_offline_rank rough cairo (some (pos 4)) 100 ≤ 100000
compute_offline_rank_bounded_example =
    compute_offline_rank_bounded rough cairo (some (pos 4)) 100 (omega arith)
