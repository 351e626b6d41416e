-- ===== src/Ranking/Signals.antt =====
-- shared/ranking.py, the signals. A score of a table is in hundredths. The two scores that take a
-- logarithm are in units of 1 / (4200 * precision), where `math.log10` is given as a number of
-- 1 / precision: a seventh and a sixth of it, and a hundredth, are whole in that unit. Arithmetic is
-- exact: the rounding of a `float` is not modelled.
pub mod Bounds
use geocoder_fwd.Prelude.{
  ℕ, suc, ◌+◌, ◌*◌, ◌-◌, Bool, true, false, not, ◌&&◌, ◌||◌, Option, none, some, List, [], ◌∷◌,
  String, Dict, lookup, get_or, str_eq, min, max, ◌==◌, leb, ltb, if◌then◌else◌, filter, codes,
  codes_eq, any,
}
use geocoder_fwd.Prelude.Int.{ℤ, pos, negsuc, pos_part, ◌+ℤ◌}
use geocoder_fwd.Ranking.Tables.Areas.{
  place_scores, landuse_scores, highway_scores, natural_scores, waterway_scores,
}
use geocoder_fwd.Ranking.Tables.Venues.{venue_scores, building_scores, office_scores, major_brands}

-- The built-ins of the language that the module calls: `int` on a text, the numbers of `math` and
-- the test `x > 0` on a `float`.
pub record Builtins : Type 1 where
  pub precision : ℕ
  pub Float : Type 0
  pub is_positive : Float → Bool
  pub log10 : Float → ℤ
  pub log10_int : ℕ → ℕ
  pub int : List ℕ → Option ℤ

-- `tags.get(key, "")`
abbrev pub tag : String → Dict String → String
tag key tags = get_or "" (lookup key tags)

-- `if tags.get(key)`
abbrev pub has_tag : Dict String → String → Bool
has_tag tags key = not (str_eq (tag key tags) "")

-- `scores.get(value, 0.0)`
abbrev pub score_in : Dict ℕ → String → ℕ
score_in scores value = get_or 0 (lookup value scores)

-- 1.0 - (admin_level - 2) * 0.10, clamped to 0 .. 1.
unfoldable pub admin_score : Option ℤ → ℕ
admin_score none = 0
admin_score (some (negsuc n)) = 0
admin_score (some (pos a)) = if a == 0 then 0 else min 100 (120 - 10 * a)

unfoldable pub place_score : Dict String → ℕ
place_score tags = score_in place_scores (tag "place" tags)

unfoldable pub metadata_score : Dict String → ℕ
metadata_score tags =
    (if has_tag tags "wikidata" then 50 else 0) + (if has_tag tags "wikipedia" then 50 else 0)

unfoldable pub landuse_score : Dict String → ℕ
landuse_score tags = score_in landuse_scores (tag "landuse" tags)

abbrev pub venue_keys : List String
venue_keys = "amenity" ∷ "shop" ∷ "leisure" ∷ "tourism" ∷ "aeroway" ∷ []

-- `for key in (...): ...`, from a score.
unfoldable pub venue_from : ℕ → List String → Dict String → ℕ
venue_from score [] tags = score
venue_from score (key ∷ keys) tags =
    venue_from
      (if has_tag tags key then max score (score_in venue_scores (tag key tags)) else score) keys
      tags

unfoldable pub venue_score : Dict String → ℕ
venue_score tags = venue_from 0 venue_keys tags

unfoldable pub building_score : Dict String → ℕ
building_score tags =
    if not (has_tag tags "building") then 0 else score_in building_scores (tag "building" tags)

unfoldable pub office_score : Dict String → ℕ
office_score tags =
    if not (has_tag tags "office") then 0 else get_or 30 (lookup (tag "office" tags) office_scores)

abbrev pub poi_evidence_keys : List String
poi_evidence_keys =
    "source" ∷ "phone" ∷ "website" ∷ "rating" ∷ "opening_hours" ∷ "brand" ∷ "operator"
    ∷ "ref:google_place_id" ∷ "ref:source_id" ∷ []

abbrev pub named_poi_floor : ℕ
named_poi_floor = 25

unfoldable pub named_poi_score : Dict String → ℕ
named_poi_score tags =
    if not (has_tag tags "name")
    then 0
    else if any (has_tag tags) poi_evidence_keys
    then named_poi_floor
    else 0

unfoldable pub highway_score : Dict String → ℕ
highway_score tags = score_in highway_scores (tag "highway" tags)

unfoldable pub natural_score : Dict String → ℕ
natural_score tags =
    let natural =
      if has_tag tags "natural" then max 0 (score_in natural_scores (tag "natural" tags)) else 0 in
    if has_tag tags "waterway"
    then max natural (score_in waterway_scores (tag "waterway" tags))
    else natural

-- `str.lower` as far as its result holds a letter a-z: besides A-Z, the Kelvin sign gives `k`, and
-- the dotted capital I gives `i` and a combining dot, which the clean-up strips.
unfoldable pub lower : ℕ → ℕ
lower c =
    if leb b'A' c && leb c b'Z'
    then c + 32
    else if c == 8490
    then b'k'
    else if c == 304
    then b'i'
    else c

-- The complement of `[^a-z0-9]`.
unfoldable pub is_kept : ℕ → Bool
is_kept c = (leb b'a' c && leb c b'z') || (leb b'0' c && leb c b'9')

unfoldable pub lower_all : List ℕ → List ℕ
unfolding lower
lower_all [] = []
lower_all (c ∷ cs) = lower c ∷ lower_all cs

unfoldable pub brand_clean : String → List ℕ
unfolding lower_all is_kept
brand_clean brand = filter is_kept (lower_all (codes brand))

-- `major_brands.get(brand_clean, 0.0)`
unfoldable pub brand_lookup : List ℕ → Dict ℕ → ℕ
brand_lookup brand [] = 0
brand_lookup brand ((k, v) ∷ brands) =
    let rest = brand_lookup brand brands in if codes_eq (codes k) brand then v else rest

unfoldable pub brand_score : Dict String → ℕ
unfolding brand_clean brand_lookup
brand_score tags =
    if not (has_tag tags "brand")
    then 0
    else if codes_eq (brand_clean (tag "brand" tags)) []
    then 0
    else brand_lookup (brand_clean (tag "brand" tags)) major_brands

module _ (b : Builtins) where
  -- A score of 1.0.
  abbrev pub one : ℕ
  one = 4200 * b.precision

  -- A number of hundredths.
  abbrev pub hundredths : ℕ → ℕ
  hundredths v = 42 * b.precision * v

  -- `str(raw).replace(",", "").replace(" ", "")`
  unfoldable pub population_text : Dict String → List ℕ
  population_text tags =
      filter (λ c. not (c == b' ')) (filter (λ c. not (c == b',')) (codes (tag "population" tags)))

  -- `min(1.0, math.log10(pop) / 7.0)`, and 0 without a population above 0.
  unfoldable pub population_of : Option ℤ → ℕ
  population_of none = 0
  population_of (some (negsuc n)) = 0
  population_of (some (pos n)) = if n == 0 then 0 else min one (600 * b.log10_int n)

  unfoldable pub population_score : Dict String → ℕ
  unfolding population_of population_text
  population_score tags = population_of (b.int (population_text tags))

  -- `min(1.0, max(0.0, (math.log10(area_km2) + 2) / 6.0))`
  unfoldable pub area_score : b.Float → ℕ
  unfolding ◌+ℤ◌
  area_score area_km2 =
      if not (b.is_positive area_km2)
      then 0
      else min one (700 * pos_part (b.log10 area_km2 +ℤ pos (2 * b.precision)))
