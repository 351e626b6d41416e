-- ===== src/Ranking/Tables/Areas.antt =====
-- shared/ranking.py, the score tables of places, land use, highways and natural features, in
-- hundredths.
use geocoder_fwd.Prelude.{ℕ, [], ◌∷◌, Dict}

abbrev pub place_scores : Dict ℕ
place_scores =
    ("continent", 100)
    ∷ ("country", 95)
    ∷ ("state", 85)
    ∷ ("region", 80)
    ∷ ("province", 80)
    ∷ ("city", 90)
    ∷ ("town", 75)
    ∷ ("village", 60)
    ∷ ("suburb", 55)
    ∷ ("neighbourhood", 45)
    ∷ ("quarter", 40)
    ∷ ("borough", 55)
    ∷ ("island", 50)
    ∷ ("hamlet", 35)
    ∷ ("locality", 20)
    ∷ ("isolated_dwelling", 10)
    ∷ ("farm", 10)
    ∷ []

abbrev pub landuse_scores : Dict ℕ
landuse_scores =
    ("residential", 70)
    ∷ ("commercial", 65)
    ∷ ("retail", 60)
    ∷ ("industrial", 50)
    ∷ ("education", 55)
    ∷ ("healthcare", 60)
    ∷ ("recreation_ground", 45)
    ∷ ("park", 50)
    ∷ ("garden", 40)
    ∷ ("cemetery", 35)
    ∷ ("forest", 30)
    ∷ ("farmland", 25)
    ∷ ("meadow", 25)
    ∷ ("grass", 20)
    ∷ ("construction", 30)
    ∷ ("military", 20)
    ∷ ("brownfield", 15)
    ∷ ("greenfield", 15)
    ∷ []

abbrev pub highway_scores : Dict ℕ
highway_scores =
    ("motorway", 90)
    ∷ ("trunk", 80)
    ∷ ("primary", 70)
    ∷ ("secondary", 60)
    ∷ ("tertiary", 50)
    ∷ ("motorway_link", 45)
    ∷ ("trunk_link", 40)
    ∷ ("primary_link", 35)
    ∷ ("unclassified", 30)
    ∷ ("residential", 35)
    ∷ ("living_street", 25)
    ∷ ("service", 15)
    ∷ ("pedestrian", 20)
    ∷ ("track", 10)
    ∷ ("footway", 10)
    ∷ ("cycleway", 10)
    ∷ ("path", 5)
    ∷ []

abbrev pub natural_scores : Dict ℕ
natural_scores =
    ("coastline", 80)
    ∷ ("water", 70)
    ∷ ("peak", 70)
    ∷ ("volcano", 75)
    ∷ ("glacier", 65)
    ∷ ("bay", 65)
    ∷ ("beach", 60)
    ∷ ("cliff", 50)
    ∷ ("cave_entrance", 50)
    ∷ ("wetland", 45)
    ∷ ("wood", 30)
    ∷ ("scrub", 15)
    ∷ ("grassland", 20)
    ∷ ("heath", 15)
    ∷ ("sand", 15)
    ∷ []

abbrev pub waterway_scores : Dict ℕ
waterway_scores =
    ("river", 75) ∷ ("canal", 60) ∷ ("stream", 40) ∷ ("drain", 20) ∷ ("ditch", 10) ∷ []
