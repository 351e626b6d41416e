-- ===== src/Ranking/Signals/Bounds.antt =====
-- shared/ranking.py: the range of every signal.
use geocoder_fwd.Prelude.{
  ℕ, ◌*◌, ◌≤◌, ◌≡◌, refl, Bool, true, false, not, ◌&&◌, Option, none, some, List, [], ◌∷◌, String,
  Dict, lookup, max, leb, if◌then◌else◌, arith, Bool-cases, inl, inr, any, codes, codes_eq, str_eq,
  get_or,
}
use geocoder_fwd.Prelude.Int.{ℤ, pos, negsuc}
use geocoder_fwd.Ranking.Tables.Areas.{
  place_scores, landuse_scores, highway_scores, natural_scores, waterway_scores,
}
use geocoder_fwd.Ranking.Tables.Venues.{venue_scores, building_scores, office_scores, major_brands}
use geocoder_fwd.Ranking.Signals.{
  Builtins, one, hundredths, tag, has_tag, score_in, admin_score, place_score, population_score,
  area_score, metadata_score, landuse_score, venue_from, venue_score, venue_keys, building_score,
  office_score, named_poi_score, highway_score, natural_score, brand_score, brand_lookup,
  brand_clean, population_of, population_text, poi_evidence_keys,
}

scaled-le : (v p : ℕ) → v ≤ 100 → 42 * p * v ≤ 4200 * p
scaled-le v p h = grind arith

-- No score of a table is over `v`.
all_le : ℕ → Dict ℕ → Bool
all_le v [] = true
all_le v ((k, w) ∷ scores) = leb w v && all_le v scores

lookup-le :
    (scores : Dict ℕ) (v : ℕ) (value : String) (d : ℕ)
    → all_le v scores ≡ true
    → d ≤ v
    → get_or d (lookup value scores) ≤ v
unfolding all_le lookup
lookup-le [] v value d h hd = hd
lookup-le ((k, w) ∷ scores) v value d h hd = elim (Bool-cases (leb w v)) [
  | inl e ↦ elim (Bool-cases (str_eq k value)) [
    | inl f ↦ rw f (ground (arith, e))
    | inr f ↦ rw f (lookup-le scores v value d (ground (arith, e, h)) hd)
  ]
  | inr e ↦ ground (arith, e, h)
]

places : all_le 100 place_scores ≡ true
unfolding all_le
places = refl

landuses : all_le 100 landuse_scores ≡ true
unfolding all_le
landuses = refl

highways : all_le 100 highway_scores ≡ true
unfolding all_le
highways = refl

naturals : all_le 100 natural_scores ≡ true
unfolding all_le
naturals = refl

waterways : all_le 100 waterway_scores ≡ true
unfolding all_le
waterways = refl

venues : all_le 100 venue_scores ≡ true
unfolding all_le
venues = refl

buildings : all_le 100 building_scores ≡ true
unfolding all_le
buildings = refl

offices : all_le 100 office_scores ≡ true
unfolding all_le
offices = refl

brands : all_le 100 major_brands ≡ true
unfolding all_le
brands = refl

pub place_score-le : (tags : Dict String) → place_score tags ≤ 100
unfolding place_score
place_score-le tags = lookup-le place_scores 100 (tag "place" tags) 0 places (omega arith)

pub landuse_score-le : (tags : Dict String) → landuse_score tags ≤ 100
unfolding landuse_score
landuse_score-le tags = lookup-le landuse_scores 100 (tag "landuse" tags) 0 landuses (omega arith)

pub highway_score-le : (tags : Dict String) → highway_score tags ≤ 100
unfolding highway_score
highway_score-le tags = lookup-le highway_scores 100 (tag "highway" tags) 0 highways (omega arith)

max-le : (a b v : ℕ) → a ≤ v → b ≤ v → max a b ≤ v
max-le a b v ha hb = ground arith

pub if-le : (c : Bool) (a b v : ℕ) → a ≤ v → b ≤ v → (if c then a else b) ≤ v
if-le true a b v ha hb = ha
if-le false a b v ha hb = hb

pub metadata_score-le : (tags : Dict String) → metadata_score tags ≤ 100
unfolding metadata_score
metadata_score-le tags =
    let one = if-le (has_tag tags "wikidata") 50 0 50 (omega arith) (omega arith) in
    let two = if-le (has_tag tags "wikipedia") 50 0 50 (omega arith) (omega arith) in
    omega (arith, one, two)

venue_from-le :
    (score : ℕ) (keys : List String) (tags : Dict String)
    → score ≤ 100
    → venue_from score keys tags ≤ 100
unfolding venue_from
venue_from-le score [] tags h = h
venue_from-le score (key ∷ keys) tags h =
    let value = lookup-le venue_scores 100 (tag key tags) 0 venues (omega arith) in
    let best = max-le score (score_in venue_scores (tag key tags)) 100 h value in
    venue_from-le
      (if has_tag tags key then max score (score_in venue_scores (tag key tags)) else score) keys
      tags
      (if-le (has_tag tags key) (max score (score_in venue_scores (tag key tags))) score 100 best h)

pub natural_score-le : (tags : Dict String) → natural_score tags ≤ 100
unfolding natural_score
natural_score-le tags =
    let nat = lookup-le natural_scores 100 (tag "natural" tags) 0 naturals (omega arith) in
    let water = lookup-le waterway_scores 100 (tag "waterway" tags) 0 waterways (omega arith) in
    let natural =
      if-le (has_tag tags "natural") (max 0 (score_in natural_scores (tag "natural" tags))) 0 100
        (max-le 0 (score_in natural_scores (tag "natural" tags)) 100 (omega arith) nat)
        (omega arith) in
    let first =
      if has_tag tags "natural" then max 0 (score_in natural_scores (tag "natural" tags)) else 0 in
    if-le (has_tag tags "waterway") (max first (score_in waterway_scores (tag "waterway" tags)))
      first 100 (max-le first (score_in waterway_scores (tag "waterway" tags)) 100 natural water)
      natural

pub venue_score-le : (tags : Dict String) → venue_score tags ≤ 100
unfolding venue_score
venue_score-le tags = venue_from-le 0 venue_keys tags (omega arith)

pub building_score-le : (tags : Dict String) → building_score tags ≤ 100
unfolding building_score
building_score-le tags =
    if-le (not (has_tag tags "building")) 0 (score_in building_scores (tag "building" tags)) 100
      (omega arith) (lookup-le building_scores 100 (tag "building" tags) 0 buildings (omega arith))

pub office_score-le : (tags : Dict String) → office_score tags ≤ 100
unfolding office_score
office_score-le tags =
    if-le (not (has_tag tags "office")) 0 (get_or 30 (lookup (tag "office" tags) office_scores)) 100
      (omega arith) (lookup-le office_scores 100 (tag "office" tags) 30 offices (omega arith))

pub named_poi_score-le : (tags : Dict String) → named_poi_score tags ≤ 100
unfolding named_poi_score
named_poi_score-le tags =
    if-le (not (has_tag tags "name")) 0 (if any (has_tag tags) poi_evidence_keys then 25 else 0) 100
      (omega arith)
      (if-le (any (has_tag tags) poi_evidence_keys) 25 0 100 (omega arith) (omega arith))

brand_lookup-le :
    (brand : List ℕ) (scores : Dict ℕ) → all_le 100 scores ≡ true → brand_lookup brand scores ≤ 100
unfolding brand_lookup all_le
brand_lookup-le brand [] h = omega arith
brand_lookup-le brand ((k, v) ∷ scores) h = elim (Bool-cases (leb v 100)) [
  | inl e ↦
      if-le (codes_eq (codes k) brand) v (brand_lookup brand scores) 100 (ground (arith, e))
        (brand_lookup-le brand scores (ground (arith, e, h)))
  | inr e ↦ ground (arith, e, h)
]

pub brand_score-le : (tags : Dict String) → brand_score tags ≤ 100
unfolding brand_score
brand_score-le tags =
    let brand = brand_clean (tag "brand" tags) in
    if-le (not (has_tag tags "brand")) 0
      (if codes_eq brand [] then 0 else brand_lookup brand major_brands) 100 (omega arith)
      (if-le (codes_eq brand []) 0 (brand_lookup brand major_brands) 100 (omega arith)
        (brand_lookup-le brand major_brands brands))

pub admin_score-le : (level : Option ℤ) → admin_score level ≤ 100
unfolding admin_score
admin_score-le none = omega arith
admin_score-le (some (negsuc n)) = omega arith
admin_score-le (some (pos a)) = ground arith

module _ (b : Builtins) where
  population_of-le : (pop : Option ℤ) → population_of b pop ≤ one b
  unfolding population_of
  population_of-le none = omega arith
  population_of-le (some (negsuc n)) = omega arith
  population_of-le (some (pos n)) = ground arith

  pub population_score-le : (tags : Dict String) → population_score b tags ≤ one b
  unfolding population_score
  population_score-le tags = population_of-le (b.int (population_text b tags))

  pub area_score-le : (area_km2 : b.Float) → area_score b area_km2 ≤ one b
  unfolding area_score
  area_score-le area_km2 = ground arith

  pub hundredths-le : (v : ℕ) → v ≤ 100 → hundredths b v ≤ one b
  hundredths-le v h = scaled-le v b.precision h
