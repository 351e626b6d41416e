-- ===== src/Ranking/Rank/Bounds.antt =====
-- shared/ranking.py: the range of a rank.
use geocoder_fwd.Prelude.{
  ℕ, ◌+◌, ◌*◌, ◌≤◌, ◌<◌, ◌≡◌, Bool, true, false, Option, String, Dict, ◌==◌, ltb, if◌then◌else◌,
  arith, Bool-cases, inl, inr,
}
use geocoder_fwd.Prelude.Int.{ℤ}
use geocoder_fwd.Traffic.Speed.{round_half_even}
use geocoder_fwd.Traffic.Speed.Encoding.{round_half_even_near}
use geocoder_fwd.Ranking.Signals.{
  Builtins, one, hundredths, admin_score, place_score, area_score, metadata_score, landuse_score,
  highway_score, natural_score, brand_score,
}
use geocoder_fwd.Ranking.Signals.Bounds.{
  place_score-le, landuse_score-le, highway_score-le, metadata_score-le, natural_score-le,
  venue_score-le, building_score-le, office_score-le, named_poi_score-le, brand_score-le,
  admin_score-le, population_score-le, area_score-le, hundredths-le, if-le,
}
use geocoder_fwd.Ranking.Rank.{raw, w_total, compute_offline_rank, poi_score, is_boundary}

product-le : (r q d : ℕ) → 0 < d → q < r → d * (q + 1) ≤ d * r
product-le r q d hd h = grind arith

round_half_even-le : (n q d : ℕ) → 0 < d → n ≤ d * q → round_half_even n d ≤ q
round_half_even-le n q d hd h = elim (Bool-cases (ltb q (round_half_even n d))) [
  | inl e ↦ ground (arith, e, round_half_even_near n d hd, product-le (round_half_even n d) q d hd)
  | inr e ↦ ground (arith, e)
]

pub product_pos : (t p : ℕ) → 25 ≤ t → 0 < p → 0 < t * (4200 * p)
product_pos t p ht hp = grind arith

poi_score-le : (tags : Dict String) → poi_score tags ≤ 100
unfolding poi_score
poi_score-le tags = ground (
  arith,
  venue_score-le tags,
  building_score-le tags,
  office_score-le tags,
  named_poi_score-le tags,
)

weighted : (c : Bool) (w s u : ℕ) → s ≤ u → (if c then w * s else 0) ≤ (if c then w else 0) * u
weighted true w s u h = grind arith
weighted false w s u h = omega arith

expand : (u a p h n : ℕ) → (68 + a + p + h + n) * u ≡ 68 * u + a * u + p * u + h * u + n * u
expand u a p h n = grind arith

module _ (b : Builtins) (tags : Dict String) (admin_level : Option ℤ) (area_km2 : b.Float) where
  raw-le : raw b tags admin_level area_km2 ≤ w_total b tags admin_level area_km2 * one b
  unfolding raw w_total
  raw-le =
      let e : (c : Bool) (w : ℕ) → ℕ = λ c w. if c then w else 0 in
      let boundary = is_boundary admin_level in
      let has_area = b.is_positive area_km2 in
      let on_way = ltb 0 (highway_score tags) in
      let natural = ltb 0 (natural_score tags) in
      omega (
        arith,
        expand (one b) (e boundary 50) (e has_area 40) (e on_way 15) (e natural 10),
        weighted boundary 50 (hundredths b (admin_score admin_level)) (one b)
            (hundredths-le b (admin_score admin_level) (admin_score-le admin_level)),
        weighted has_area 40 (area_score b area_km2) (one b) (area_score-le b area_km2),
        hundredths-le b (place_score tags) (place_score-le tags),
        population_score-le b tags,
        hundredths-le b (metadata_score tags) (metadata_score-le tags),
        hundredths-le b (landuse_score tags) (landuse_score-le tags),
        hundredths-le b (brand_score tags) (brand_score-le tags),
        hundredths-le b (poi_score tags) (poi_score-le tags),
        weighted on_way 15 (hundredths b (highway_score tags)) (one b)
            (hundredths-le b (highway_score tags) (highway_score-le tags)),
        weighted natural 10 (hundredths b (natural_score tags)) (one b)
            (hundredths-le b (natural_score tags) (natural_score-le tags)),
      )

  pub w_total_pos : 25 ≤ w_total b tags admin_level area_km2
  unfolding w_total
  w_total_pos = ground arith

-- The rank of every element is at most 10.0000 (100000 units), whatever its tags, its admin level
-- and its area are, if logarithms are given with some precision.
pub compute_offline_rank_bounded :
    (b : Builtins) (tags : Dict String) (admin_level : Option ℤ) (area_km2 : b.Float)
    → 0 < b.precision
    → compute_offline_rank b tags admin_level area_km2 ≤ 100000
unfolding compute_offline_rank
compute_offline_rank_bounded b tags admin_level area_km2 h =
    let total = w_total b tags admin_level area_km2 in
    let score = raw b tags admin_level area_km2 in
    let positive = product_pos total b.precision (w_total_pos b tags admin_level area_km2) h in
    let rounded =
      round_half_even-le (100000 * score) 100000 (total * one b) positive
        (omega (arith, raw-le b tags admin_level area_km2)) in
    if-le (total == 0) 0 (round_half_even (100000 * score) (total * one b)) 100000 (omega arith)
      rounded
