-- ===== src/Ranking/Tables/Venues.antt =====
-- shared/ranking.py, the score tables of venues, buildings, offices and brands, in hundredths.
use geocoder_fwd.Prelude.{ℕ, [], ◌∷◌, Dict}

abbrev pub venue_scores : Dict ℕ
venue_scores =
    ("restaurant", 80)
    ∷ ("cafe", 75)
    ∷ ("bar", 70)
    ∷ ("pub", 70)
    ∷ ("fast_food", 60)
    ∷ ("food_court", 55)
    ∷ ("cinema", 75)
    ∷ ("theatre", 80)
    ∷ ("arts_centre", 70)
    ∷ ("music_venue", 75)
    ∷ ("nightclub", 65)
    ∷ ("library", 70)
    ∷ ("museum", 80)
    ∷ ("gallery", 65)
    ∷ ("conference_centre", 75)
    ∷ ("events_venue", 70)
    ∷ ("hospital", 85)
    ∷ ("clinic", 70)
    ∷ ("pharmacy", 65)
    ∷ ("doctors", 60)
    ∷ ("dentist", 55)
    ∷ ("veterinary", 50)
    ∷ ("school", 70)
    ∷ ("university", 80)
    ∷ ("college", 70)
    ∷ ("kindergarten", 60)
    ∷ ("bank", 65)
    ∷ ("atm", 50)
    ∷ ("post_office", 60)
    ∷ ("police", 70)
    ∷ ("fire_station", 65)
    ∷ ("townhall", 75)
    ∷ ("courthouse", 70)
    ∷ ("community_centre", 60)
    ∷ ("place_of_worship", 65)
    ∷ ("money_transfer", 50)
    ∷ ("fuel", 60)
    ∷ ("bus_station", 65)
    ∷ ("taxi", 50)
    ∷ ("embassy", 70)
    ∷ ("aerodrome", 90)
    ∷ ("terminal", 75)
    ∷ ("supermarket", 75)
    ∷ ("department_store", 70)
    ∷ ("convenience", 60)
    ∷ ("mall", 70)
    ∷ ("marketplace", 65)
    ∷ ("bakery", 55)
    ∷ ("butcher", 50)
    ∷ ("clothes", 55)
    ∷ ("shoes", 50)
    ∷ ("electronics", 60)
    ∷ ("books", 55)
    ∷ ("gift", 50)
    ∷ ("jewelry", 55)
    ∷ ("furniture", 55)
    ∷ ("hardware", 55)
    ∷ ("sports", 55)
    ∷ ("toys", 50)
    ∷ ("car", 55)
    ∷ ("car_repair", 50)
    ∷ ("sports_centre", 70)
    ∷ ("stadium", 80)
    ∷ ("swimming_pool", 65)
    ∷ ("fitness_centre", 60)
    ∷ ("golf_course", 60)
    ∷ ("ice_rink", 55)
    ∷ ("bowling_alley", 50)
    ∷ ("park", 55)
    ∷ ("hotel", 75)
    ∷ ("hostel", 60)
    ∷ ("motel", 55)
    ∷ ("guest_house", 60)
    ∷ ("apartment", 55)
    ∷ ("camp_site", 50)
    ∷ ("attraction", 70)
    ∷ ("theme_park", 75)
    ∷ ("zoo", 70)
    ∷ ("aquarium", 65)
    ∷ ("viewpoint", 50)
    ∷ ("picnic_site", 45)
    ∷ ("information", 40)
    ∷ []

abbrev pub building_scores : Dict ℕ
building_scores =
    ("commercial", 65)
    ∷ ("office", 60)
    ∷ ("retail", 60)
    ∷ ("supermarket", 70)
    ∷ ("department_store", 65)
    ∷ ("hotel", 70)
    ∷ ("hospital", 80)
    ∷ ("school", 65)
    ∷ ("university", 75)
    ∷ []

abbrev pub office_scores : Dict ℕ
office_scores =
    ("government", 55)
    ∷ ("diplomatic", 55)
    ∷ ("financial", 50)
    ∷ ("insurance", 45)
    ∷ ("lawyer", 45)
    ∷ ("notary", 45)
    ∷ ("estate_agent", 45)
    ∷ ("telecommunication", 45)
    ∷ ("accountant", 40)
    ∷ ("company", 40)
    ∷ ("it", 40)
    ∷ ("travel_agent", 40)
    ∷ ("employment_agency", 35)
    ∷ ("coworking", 35)
    ∷ ("yes", 30)
    ∷ []

abbrev pub major_brands : Dict ℕ
major_brands =
    ("microsoft", 40)
    ∷ ("apple", 40)
    ∷ ("google", 40)
    ∷ ("amazon", 40)
    ∷ ("samsung", 35)
    ∷ ("mcdonalds", 35)
    ∷ ("starbucks", 35)
    ∷ ("cocacola", 35)
    ∷ ("pepsi", 35)
    ∷ ("nike", 35)
    ∷ ("adidas", 35)
    ∷ []
