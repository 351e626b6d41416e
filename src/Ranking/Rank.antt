-- ===== src/Ranking/Rank.antt =====
-- shared/ranking.py, `compute_offline_rank`. A weight is in tenths and a rank in units of 0.0001.
pub mod Bounds
pub mod Order
use geocoder_fwd.Prelude.{
  ℕ, ◌+◌, ◌*◌, Bool, false, not, ◌&&◌, Option, none, some, String, Dict, max, ◌==◌, ltb,
  if◌then◌else◌,
}
use geocoder_fwd.Prelude.Int.{ℤ, pos, negsuc}
use geocoder_fwd.Traffic.Speed.{round_half_even}
use geocoder_fwd.Ranking.Signals.{
  Builtins, one, hundredths, admin_score, place_score, population_score, area_score, metadata_score,
  landuse_score, venue_score, building_score, office_score, named_poi_score, highway_score,
  natural_score, brand_score,
}

abbrev pub w_admin : ℕ
w_admin = 50

abbrev pub w_area : ℕ
w_area = 40

abbrev pub w_place : ℕ
w_place = 25

abbrev pub w_pop : ℕ
w_pop = 15

abbrev pub w_highway : ℕ
w_highway = 15

abbrev pub w_natural : ℕ
w_natural = 10

abbrev pub w_meta : ℕ
w_meta = 5

abbrev pub w_landuse : ℕ
w_landuse = 10

abbrev pub w_poi : ℕ
w_poi = 10

abbrev pub w_brand : ℕ
w_brand = 3

-- The weights of the signals that always take part.
abbrev pub w_base : ℕ
w_base = w_place + w_pop + w_meta + w_landuse + w_poi + w_brand

-- `admin_level is not None and admin_level > 0`
unfoldable pub is_boundary : Option ℤ → Bool
is_boundary none = false
is_boundary (some (negsuc n)) = false
is_boundary (some (pos a)) = not (a == 0)

-- The largest of the POI signals.
unfoldable pub poi_score : Dict String → ℕ
poi_score tags =
    max (max (max (venue_score tags) (building_score tags)) (office_score tags))
      (named_poi_score tags)

module _ (b : Builtins) (tags : Dict String) (admin_level : Option ℤ) (area_km2 : b.Float) where
  -- `raw`, in tenths of the unit of a score.
  unfoldable pub raw : ℕ
  raw =
      (if is_boundary admin_level then w_admin * hundredths b (admin_score admin_level) else 0)
      + (if b.is_positive area_km2 then w_area * area_score b area_km2 else 0)
      + w_place * hundredths b (place_score tags)
      + w_pop * population_score b tags
      + w_meta * hundredths b (metadata_score tags)
      + w_landuse * hundredths b (landuse_score tags)
      + w_brand * hundredths b (brand_score tags)
      + w_poi * hundredths b (poi_score tags)
      + (if ltb 0 (highway_score tags) then w_highway * hundredths b (highway_score tags) else 0)
      + (if ltb 0 (natural_score tags) then w_natural * hundredths b (natural_score tags) else 0)

  unfoldable pub w_total : ℕ
  w_total =
      w_base
      + (if is_boundary admin_level then w_admin else 0)
      + (if b.is_positive area_km2 then w_area else 0)
      + (if ltb 0 (highway_score tags) then w_highway else 0)
      + (if ltb 0 (natural_score tags) then w_natural else 0)

  -- `round(raw / w_total * 10.0, 4)`, and 0 where no weight takes part.
  unfoldable pub compute_offline_rank : ℕ
  compute_offline_rank =
      if w_total == 0 then 0 else round_half_even (100000 * raw) (w_total * one b)
