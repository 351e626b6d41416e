-- ===== src/Categories/Taxonomy.antt =====
-- shared/categories.py, the taxonomy: the tag keys in order of precedence and the groups of values.
use geocoder_fwd.Prelude.{List, [], ◌∷◌, String, Dict}

abbrev pub category_keys : List String
category_keys =
    "amenity" ∷ "shop" ∷ "tourism" ∷ "leisure" ∷ "office" ∷ "historic" ∷ "building" ∷ "place"
    ∷ "natural" ∷ "highway" ∷ "railway" ∷ "aeroway" ∷ "waterway" ∷ "landuse" ∷ []

abbrev pub food_values : Dict (List String)
food_values =
    (
      "amenity",
      "restaurant" ∷ "fast_food" ∷ "cafe" ∷ "bar" ∷ "pub" ∷ "nightclub" ∷ "food_court" ∷ "ice_cream"
          ∷ "biergarten" ∷ [],
    )
    ∷ (
      "shop",
      "bakery" ∷ "pastry" ∷ "confectionery" ∷ "deli" ∷ "butcher" ∷ "greengrocer" ∷ "seafood"
          ∷ "coffee" ∷ [],
    )
    ∷ []

abbrev pub finance_values : Dict (List String)
finance_values =
    ("amenity", "bank" ∷ "atm" ∷ "bureau_de_change" ∷ [])
    ∷ ("office", "accountant" ∷ "insurance" ∷ "financial" ∷ "financial_advisor" ∷ [])
    ∷ []

abbrev pub health_values : Dict (List String)
health_values =
    (
      "amenity",
      "hospital" ∷ "clinic" ∷ "doctors" ∷ "pharmacy" ∷ "dentist" ∷ "veterinary" ∷ "nursing_home"
          ∷ [],
    )
    ∷ ("shop", "optician" ∷ "medical_supply" ∷ "chemist" ∷ "hearing_aids" ∷ [])
    ∷ []

abbrev pub education_values : Dict (List String)
education_values =
    (
      "amenity",
      "school" ∷ "university" ∷ "college" ∷ "kindergarten" ∷ "library" ∷ "language_school"
          ∷ "driving_school" ∷ "music_school" ∷ [],
    )
    ∷ []

abbrev pub worship_values : Dict (List String)
worship_values = ("amenity", "place_of_worship" ∷ []) ∷ []

abbrev pub government_values : Dict (List String)
government_values =
    (
      "amenity",
      "police" ∷ "fire_station" ∷ "post_office" ∷ "townhall" ∷ "courthouse" ∷ "embassy" ∷ "prison"
          ∷ [],
    )
    ∷ ("office", "government" ∷ "diplomatic" ∷ [])
    ∷ []

abbrev pub automotive_values : Dict (List String)
automotive_values =
    (
      "amenity",
      "fuel" ∷ "parking" ∷ "car_wash" ∷ "car_rental" ∷ "charging_station" ∷ "car_sharing" ∷ [],
    )
    ∷ ("shop", "car_repair" ∷ "car" ∷ "car_parts" ∷ "tyres" ∷ "motorcycle" ∷ [])
    ∷ []

abbrev pub lodging_tourism_values : Dict (List String)
lodging_tourism_values =
    (
      "tourism",
      "hotel" ∷ "motel" ∷ "guest_house" ∷ "hostel" ∷ "apartment" ∷ "museum" ∷ "attraction" ∷ "zoo"
          ∷ "gallery" ∷ "camp_site" ∷ "theme_park" ∷ "viewpoint" ∷ "artwork" ∷ "information"
          ∷ "aquarium" ∷ [],
    )
    ∷ ("historic", "monument" ∷ "memorial" ∷ "castle" ∷ "ruins" ∷ "archaeological_site" ∷ [])
    ∷ []

abbrev pub leisure_values : Dict (List String)
leisure_values =
    (
      "leisure",
      "park" ∷ "stadium" ∷ "fitness_centre" ∷ "spa" ∷ "sports_centre" ∷ "pitch" ∷ "playground"
          ∷ "garden" ∷ "swimming_pool" ∷ "golf_course" ∷ "water_park" ∷ "marina" ∷ "dog_park"
          ∷ "nature_reserve" ∷ [],
    )
    ∷ (
      "amenity",
      "cinema" ∷ "theatre" ∷ "arts_centre" ∷ "community_centre" ∷ "amusement_arcade" ∷ [],
    )
    ∷ []

abbrev pub shopping_values : Dict (List String)
shopping_values =
    (
      "shop",
      "mall" ∷ "supermarket" ∷ "convenience" ∷ "department_store" ∷ "houseware" ∷ "furniture"
          ∷ "hardware" ∷ "electronics" ∷ "clothes" ∷ "shoes" ∷ "jewelry" ∷ "books" ∷ "florist"
          ∷ "bicycle" ∷ "pet" ∷ "alcohol" ∷ "beauty" ∷ "hairdresser" ∷ "mobile_phone" ∷ "gift"
          ∷ "toys" ∷ "sports" ∷ "stationery" ∷ "cosmetics" ∷ "variety_store" ∷ "general" ∷ "kiosk"
          ∷ "travel_agency" ∷ "yes" ∷ [],
    )
    ∷ ("office", "estate_agent" ∷ "lawyer" ∷ [])
    ∷ []

abbrev pub transport_values : Dict (List String)
transport_values =
    ("aeroway", "aerodrome" ∷ "terminal" ∷ [])
    ∷ ("railway", "station" ∷ "halt" ∷ "subway_entrance" ∷ "tram_stop" ∷ [])
    ∷ ("amenity", "bus_station" ∷ "taxi" ∷ "ferry_terminal" ∷ "bicycle_rental" ∷ [])
    ∷ ("highway", "bus_stop" ∷ [])
    ∷ []

abbrev pub group_defs : Dict (Dict (List String))
group_defs =
    ("food", food_values)
    ∷ ("finance", finance_values)
    ∷ ("health", health_values)
    ∷ ("education", education_values)
    ∷ ("worship", worship_values)
    ∷ ("government", government_values)
    ∷ ("automotive", automotive_values)
    ∷ ("lodging_tourism", lodging_tourism_values)
    ∷ ("leisure", leisure_values)
    ∷ ("shopping", shopping_values)
    ∷ ("transport", transport_values)
    ∷ []

abbrev pub group_by_key : Dict String
group_by_key =
    ("shop", "shopping")
    ∷ ("tourism", "lodging_tourism")
    ∷ ("leisure", "leisure")
    ∷ ("historic", "lodging_tourism")
    ∷ ("aeroway", "transport")
    ∷ ("railway", "transport")
    ∷ []

abbrev pub group_place : String
group_place = "place"

abbrev pub group_boundary : String
group_boundary = "boundary"
